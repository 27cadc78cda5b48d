-- ===== src/Groups.antt =====
-- tools/cmdrunner/process_group_unix.go and process_group_windows.go: signals to process groups. What
-- the operating systems answer is a parameter; a call is recorded.
pub mod Unix
pub mod Windows
pub mod Calls
mod Tests
use opengrab.Prelude.{
  ℕ, Bool, true, false, not, ◌||◌, List, [], ◌∷◌, Option, none, some, ℤ, pos, leb_ℤ, ◌==◌,
  if◌then◌else◌,
}
use opengrab.Text.{Text, codes}

-- An `os.Signal`: one of package syscall, by its number, of which `os.Interrupt` is one, or another.
pub data OsSignal : Type 0 where
  syscall_signal : ℕ → OsSignal
  other_signal : OsSignal

pub data GroupError : Type 0 where
  not_started unsupported_signal : GroupError
  errno : ℕ → GroupError
  event_failed : GroupError
  taskkill_failed : Text → GroupError

-- `syscall.SIGINT`, `SIGKILL` and `SIGTERM`.
abbrev pub sigint : ℕ
sigint = 2

abbrev pub sigkill : ℕ
sigkill = 9

abbrev pub sigterm : ℕ
sigterm = 15

-- A call of the operating system: `kill` with the negated pid, the loading of the DLL and its
-- release, the event, and taskkill.
pub data Call : Type 0 where
  kill_group : ℤ → ℕ → Call
  load_dll release_dll : Call
  ctrl_break taskkill : ℤ → Call

abbrev pub is_unset_pid : ℤ → Bool
is_unset_pid pid = leb_ℤ pid (pos 0)
