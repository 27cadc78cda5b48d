-- ===== src/Groups/Unix.antt =====
-- process_group_unix.go.
use opengrab.Prelude.{ℕ, List, [], ◌∷◌, Option, none, some, ℤ, if◌then◌else◌}
use opengrab.Text.{Text, codes}
use opengrab.Groups.{
  OsSignal, syscall_signal, other_signal, GroupError, not_started, unsupported_signal, errno, Call,
  kill_group, is_unset_pid,
}

-- `platformShellConfig`
abbrev pub platform_shell_config : Text × List Text
platform_shell_config = (codes "sh", codes "-c" ∷ [])

-- `kill` is `syscall.Kill` with the negated pid: none, or the error number.
module _ (kill : ℤ → ℕ → Option ℕ) where
  abbrev pub error_of : Option ℕ → Option GroupError
  error_of none = none
  error_of (some e) = some (errno e)

  -- `signalProcessGroup`; `os.Interrupt` is a signal of package syscall.
  unfoldable pub signal_process_group : ℤ → OsSignal → Option GroupError × List Call
  signal_process_group pid other_signal =
      (some (if is_unset_pid pid then not_started else unsupported_signal), [])
  signal_process_group pid (syscall_signal sig) =
      if is_unset_pid pid
      then (some not_started, [])
      else (error_of (kill pid sig), kill_group pid sig ∷ [])
