-- ===== src/Process/Tests.antt =====
-- Processes at concrete exits and signals.
use opengrab.Prelude.{◌≡◌, false, [], ◌∷◌, none, some, pos}
use opengrab.Text.{codes}
use opengrab.Run.{no_result, exit_error}
use opengrab.Process.{started, Exit, Circumstances, graceful_stop, is_running, sigterm, sigkill}
use opengrab.Process.Stops.{signals-graceful_stop}
use opengrab.Process.Waits.{wait_all, Reaped, wait_all-Reaped}

abbrev crashed : Exit
crashed = record { error = some (exit_error (pos 2)); stdout = []; stderr = codes "boom" }

abbrev twice : Exit
twice = record { error = none; stdout = []; stderr = [] }

wait_all-Reaped_example :
    Reaped no_result 7 crashed (wait_all (crashed ∷ twice ∷ []) (started no_result 7))
wait_all-Reaped_example = wait_all-Reaped no_result 7 crashed (twice ∷ [])

-- SIGTERM is delivered, and the process outlives the timeout.
abbrev stubborn : Circumstances
stubborn = record {
  term_answer = none;
  kill_answer = none;
  in_time = false;
  at_timeout = started no_result 7;
}

sigkill_behind_sigterm :
    (graceful_stop stubborn (started no_result 7) (pos 5)).1 ≡ (7, sigterm) ∷ (7, sigkill) ∷ []
unfolding is_running
sigkill_behind_sigterm = signals-graceful_stop stubborn (started no_result 7) (pos 5)
