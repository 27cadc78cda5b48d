-- ===== src/Process/Stops.antt =====
-- `GracefulStop`: which signals it sends.
use opengrab.Prelude.{
  ◌≡◌, Bool, true, false, not, ◌&&◌, [], ◌∷◌, Option, none, some, ◌==◌, if◌then◌else◌, arith, ℤ,
  pos, leb_ℤ,
}
use opengrab.Process.{
  Process, is_running, sigterm, sigkill, Circumstances, graceful_stop_process_group,
  kill_process_tree, kill, await_exit, graceful_stop,
}

abbrev is_none {ℓ} : {A : Type ℓ} → Option A → Bool
is_none none = true
is_none (some a) = false

-- Whether there is a group to signal.
abbrev pub has_group : Process → Bool
has_group p = is_running p && not (p.result.pid == 0)

-- The signals of `GracefulStop`: none to a process that does not run or has no pid; else SIGTERM,
-- and behind it SIGKILL exactly if SIGTERM was delivered, the timeout is positive, the process did
-- not end in time and still runs when the timer fires.
pub signals-graceful_stop :
    (c : Circumstances) (p : Process) (timeout : ℤ)
    → (graceful_stop c p timeout).1 ≡ (
        if has_group p
        then (p.result.pid, sigterm)
          ∷ (if is_none c.term_answer
                && not (leb_ℤ timeout (pos 0))
                && not c.in_time
                && has_group c.at_timeout
              then (c.at_timeout.result.pid, sigkill) ∷ []
              else [])
        else [])
unfolding graceful_stop graceful_stop_process_group await_exit kill kill_process_tree
signals-graceful_stop c p timeout = ground arith
