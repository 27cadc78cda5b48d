-- ===== src/Groups/Tests.antt =====
-- Windows process groups with a concrete kernel.
use opengrab.Prelude.{◌≡◌, refl, true, [], ◌∷◌, none, pos}
use opengrab.Groups.{syscall_signal, sigint, ctrl_break, load_dll, release_dll}
use opengrab.Groups.Windows.{
  Kernel, exited, signal_process_group, graceful_stop_process_group, send_ctrl_break,
}
use opengrab.Groups.Calls.{is_none, is_scoped, signal_process_group-is_scoped}

abbrev kernel : Kernel
kernel = record { load = none; find = none; result = 1; call_errno = 0 }

signal_process_group-is_scoped_example :
    let r = signal_process_group kernel (exited 0 []) (pos 5) (syscall_signal sigint) in
    (is_none r.0 ≡ true) × (is_scoped r.1 0 ≡ true)
signal_process_group-is_scoped_example =
    signal_process_group-is_scoped kernel (exited 0 []) (pos 5) (syscall_signal sigint)

-- `gracefulStopProcessGroup` has no guard for a pid that is not set; the event for the group 0 goes to
-- every process of the console.
breaks_own_group :
    graceful_stop_process_group kernel (exited 0 []) (pos 0)
    ≡ (none, load_dll ∷ ctrl_break (pos 0) ∷ release_dll ∷ [])
unfolding graceful_stop_process_group send_ctrl_break
breaks_own_group = refl
