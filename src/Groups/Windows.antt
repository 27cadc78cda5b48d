-- ===== src/Groups/Windows.antt =====
-- process_group_windows.go.
use opengrab.Prelude.{
  ℕ, Bool, false, not, ◌||◌, List, [], ◌∷◌, Option, none, some, ℤ, ◌==◌, if◌then◌else◌,
}
use opengrab.Text.{Text, codes}
use opengrab.Groups.{
  OsSignal, syscall_signal, other_signal, GroupError, not_started, unsupported_signal, errno,
  event_failed, taskkill_failed, sigint, Call, load_dll, release_dll, ctrl_break, taskkill,
  is_unset_pid,
}

-- `platformShellConfig`
abbrev pub platform_shell_config : Text × List Text
platform_shell_config = (codes "cmd", codes "/C" ∷ [])

-- What `LoadDLL` and `FindProc` return, and the result and the error number of the call.
pub record Kernel : Type 0 where
  pub load : Option ℕ
  pub find : Option ℕ
  pub result : ℕ
  pub call_errno : ℕ

-- What taskkill does, with its output: it exits with a code, or cannot be run.
pub data Taskkill : Type 0 where
  exited : ℕ → Text → Taskkill
  not_run : Text → Taskkill

module _ (kernel : Kernel) (answer : Taskkill) where
  abbrev pub call_error : Option GroupError
  call_error =
      if kernel.result == 0
      then some (if kernel.call_errno == 0 then event_failed else errno kernel.call_errno)
      else none

  abbrev pub call_proc : Option ℕ → ℤ → Option GroupError × List Call
  call_proc (some e) pid = (some (errno e), load_dll ∷ release_dll ∷ [])
  call_proc none pid = (call_error, load_dll ∷ ctrl_break pid ∷ release_dll ∷ [])

  abbrev pub with_dll : Option ℕ → ℤ → Option GroupError × List Call
  with_dll (some e) pid = (some (errno e), [])
  with_dll none pid = call_proc kernel.find pid

  -- `sendCtrlBreak`
  unfoldable pub send_ctrl_break : ℤ → Option GroupError × List Call
  send_ctrl_break pid = with_dll kernel.load pid

  abbrev pub is_interrupt : OsSignal → Bool
  is_interrupt other_signal = false
  is_interrupt (syscall_signal sig) = sig == sigint

  -- `signalProcessGroup`
  unfoldable pub signal_process_group : ℤ → OsSignal → Option GroupError × List Call
  signal_process_group pid sig =
      if is_unset_pid pid
      then (some not_started, [])
      else if not (is_interrupt sig)
      then (some unsupported_signal, [])
      else send_ctrl_break pid

  -- `gracefulStopProcessGroup`
  unfoldable pub graceful_stop_process_group : ℤ → Option GroupError × List Call
  graceful_stop_process_group pid = send_ctrl_break pid

  abbrev pub taskkill_error : Taskkill → Option GroupError
  taskkill_error (not_run out) = some (taskkill_failed out)
  taskkill_error (exited code out) =
      if code == 0 || code == 128 || code == 255 then none else some (taskkill_failed out)

  -- `killProcessTree`
  unfoldable pub kill_process_tree : ℤ → Option GroupError × List Call
  kill_process_tree pid =
      if is_unset_pid pid
      then (some not_started, [])
      else (taskkill_error answer, taskkill pid ∷ [])
