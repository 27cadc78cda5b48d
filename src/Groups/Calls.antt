-- ===== src/Groups/Calls.antt =====
-- Windows process groups: when a signal is sent, and that the DLL is released.
use opengrab.Prelude.{
  ◌≡◌, ℕ, zero, suc, Bool, true, false, not, ◌&&◌, List, [], ◌∷◌, Option, none, some, ℤ, refl,
  arith, ◌==◌,
}
use opengrab.Groups.{
  OsSignal, Call, kill_group, load_dll, release_dll, ctrl_break, taskkill, is_unset_pid,
}
use opengrab.Groups.Windows.{
  Kernel, Taskkill, signal_process_group, send_ctrl_break, is_interrupt, with_dll, call_proc,
}

abbrev pub is_none {ℓ} : {A : Type ℓ} → Option A → Bool
is_none none = true
is_none (some a) = false

-- Whether the event is sent only while the DLL is loaded, and it is released as often as it is loaded.
unfoldable pub is_scoped : List Call → ℕ → Bool
is_scoped [] n = n == 0
is_scoped (load_dll ∷ cs) n = is_scoped cs (suc n)
is_scoped (release_dll ∷ cs) zero = false
is_scoped (release_dll ∷ cs) (suc n) = is_scoped cs n
is_scoped (ctrl_break pid ∷ cs) n = not (n == 0) && is_scoped cs n
is_scoped (taskkill pid ∷ cs) n = is_scoped cs n
is_scoped (kill_group pid sig ∷ cs) n = is_scoped cs n

-- What `sendCtrlBreak` needs.
abbrev pub is_sent : Kernel → Bool
is_sent kernel = is_none kernel.load && is_none kernel.find && not (kernel.result == 0)

send_found :
    (kernel : Kernel) (answer : Taskkill) (find : Option ℕ) (pid : ℤ)
    → let r = call_proc kernel answer find pid in
      (is_none r.0 ≡ (is_none find && not (kernel.result == 0))) × (is_scoped r.1 0 ≡ true)
unfolding is_scoped
send_found kernel answer (some e) pid = (refl, refl)
send_found kernel answer none pid = ground arith

send_loaded :
    (kernel : Kernel) (answer : Taskkill) (load : Option ℕ) (pid : ℤ)
    → let r = with_dll kernel answer load pid in
      (is_none r.0 ≡ (is_none load && is_none kernel.find && not (kernel.result == 0)))
      × (is_scoped r.1 0 ≡ true)
unfolding is_scoped
send_loaded kernel answer (some e) pid = (refl, refl)
send_loaded kernel answer none pid = send_found kernel answer kernel.find pid

-- On Windows `signalProcessGroup` returns nil exactly if the pid is positive, the signal is
-- `os.Interrupt`, the DLL and its procedure are found, and the call succeeds; and whatever fails, the
-- event is sent only while the DLL is loaded, and the DLL is released.
pub signal_process_group-is_scoped :
    (kernel : Kernel) (answer : Taskkill) (pid : ℤ) (sig : OsSignal)
    → let r = signal_process_group kernel answer pid sig in
      (is_none r.0 ≡ (not (is_unset_pid pid) && is_interrupt kernel answer sig && is_sent kernel))
      × (is_scoped r.1 0 ≡ true)
unfolding signal_process_group send_ctrl_break is_scoped
signal_process_group-is_scoped kernel answer pid sig =
    ground (arith, send_loaded kernel answer kernel.load pid)
