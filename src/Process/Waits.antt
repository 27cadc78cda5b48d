-- ===== src/Process/Waits.antt =====
-- `Wait`: any number of calls, by the goroutine of `Start` and by callers, in any order.
use opengrab.Prelude.{ℕ, ◌≡◌, refl, true, false, List, [], ◌∷◌, Option, some, arith, ap, ◌∙◌}
use opengrab.Run.{exit_code, RunResult}
use opengrab.Process.{
  Process, started, Exit, wait, is_running, get_pid, WaitError, execution_failed, bare,
}

-- Calls of `Wait` in the order in which they take the lock, with what `cmd.Wait()` gave each.
pub wait_all : List Exit → Process → Process
wait_all [] p = p
wait_all (e ∷ es) p = wait_all es (wait e p).0

wait_finished : (e : Exit) (p : Process) → p.finished ≡ true → (wait e p).0 ≡ p
unfolding wait
wait_finished e p h = ground arith

wait_all_finished : (es : List Exit) (p : Process) → p.finished ≡ true → wait_all es p ≡ p
unfolding wait_all
wait_all_finished [] p h = refl
wait_all_finished (e ∷ es) p h = ap (wait_all es) (wait_finished e p h) ∙ wait_all_finished es p h

-- A process that has been waited for once.
pub record Reaped (base : RunResult) (pid : ℕ) (e : Exit) (p : Process) : Type 0 where
  pub result_is : p.result ≡ record base {
    pid = pid;
    stdout = e.stdout;
    stderr = e.stderr;
    exit_code = exit_code e.error;
  }
  pub err_is : p.err ≡ e.error
  pub stopped : is_running p ≡ false
  pub same_pid : get_pid p ≡ pid
  pub closed_once : p.closes ≡ 1
  pub cancelled_once : p.cancels ≡ 1

-- However often `Wait` is called, the first call to take the lock decides the result for good, the
-- process counts as stopped, and `waitDone` is closed and the context cancelled exactly once (a
-- second `close` would panic).
pub wait_all-Reaped :
    (base : RunResult) (pid : ℕ) (e : Exit) (es : List Exit)
    → Reaped base pid e (wait_all (e ∷ es) (started base pid))
unfolding wait_all
wait_all-Reaped base pid e es =
    rw (wait_all_finished es (wait e (started base pid)).0 (unfold wait in refl))
      (unfold wait is_running get_pid in ground arith)

abbrev later_error : Option WaitError → Option WaitError
later_error (some (execution_failed x)) = some (bare x)
later_error e = e

-- A later call returns the first call's result and its error, which is no longer wrapped.
pub wait_again :
    (base : RunResult) (pid : ℕ) (e again : Exit) (es : List Exit)
    → let first = wait e (started base pid) in
      let later = wait again (wait_all (e ∷ es) (started base pid)) in
      (later.1 ≡ first.1) × (later.2 ≡ later_error first.2)
unfolding wait_all
wait_again base pid e again es =
    rw (wait_all_finished es (wait e (started base pid)).0 (unfold wait in refl))
      (unfold wait in ground arith)
