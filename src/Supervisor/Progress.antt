-- ===== src/Supervisor/Progress.antt =====
-- supervisor.go: what one step does to the restarts and to the way that is left to the end.
use opengrab.Prelude.{
  ◌≡◌, refl, ℕ, suc, ◌≤◌, Bool, true, false, not, ◌&&◌, List, [], ◌∷◌, Option, none, some, inc_64,
  ◌⊎◌, arith, if◌then◌else◌,
}
use opengrab.Text.{Text, codes}
use opengrab.Run.{RunResult}
use opengrab.Supervisor.State.{Err, SupervisorOptions, Supervisor}
use opengrab.Supervisor.Policy.{should_restart, is_exhausted}
use opengrab.Supervisor.Metrics.{
  set_process, clear_process, set_last, set_final_err, mark_unhealthy, consume_unhealthy_flag,
  record_start, record_stop, record_crash, record_restart, record_health_check,
  record_health_success, record_health_failure,
}
use opengrab.Supervisor.Machine.{
  Ended, Phase, created, top, hooking, starting, waiting, after_hook, deciding, restarting,
  sleeping, finished, Health, Machine, Event, start_called, stop_called, context_cancelled, proceed,
  before_start_returned, start_failed, start_succeeded, process_done, after_stop_returned,
  timer_fired, backoff_cancelled, health_ticked, check_returned, health_loop_left,
  late_check_returned,
}
use opengrab.Supervisor.Loop.{
  finish, restart, fail_round, start_supervisor, end_run, leave_hook, decide_restart, count_failure,
  answer_check, proceed_from, return_check, return_late, handle,
}

-- The steps that the loop takes at most from a phase to its end if it does not start a process
-- again.
abbrev pub rank : Phase → ℕ
rank created = 9
rank sleeping = 8
rank top = 7
rank hooking = 6
rank starting = 5
rank waiting = 4
rank (after_hook ended) = 3
rank (deciding ended) = 2
rank (restarting ended) = 1
rank finished = 0

-- The events at which the goroutine of `loop` goes on.
abbrev pub is_loop_event : Event → Bool
is_loop_event proceed = true
is_loop_event (before_start_returned e) = true
is_loop_event (start_failed e) = true
is_loop_event (start_succeeded pid now) = true
is_loop_event (process_done res err now) = true
is_loop_event (after_stop_returned e) = true
is_loop_event timer_fired = true
is_loop_event backoff_cancelled = true
is_loop_event _ = false

abbrev pub restarts_of : Machine → ℕ
restarts_of m = m.sup.metrics.restarts

-- What a restart needs: no stop, no cancelled context, and restarts left.
abbrev pub may_restart : SupervisorOptions → Supervisor → Bool
may_restart o s = not s.stopping && not s.cancelled && not (is_exhausted o s)

-- A step forward by `event`, or a restart.
abbrev pub Progress : SupervisorOptions → Event → Machine → Machine → Type 0
Progress o event m m' =
    ((restarts_of m' ≡ restarts_of m)
      × (if is_loop_event event then suc (rank m'.phase) else rank m'.phase) ≤ rank m.phase)
    ⊎ ((may_restart o m.sup ≡ true)
        × (is_loop_event event ≡ true)
        × (restarts_of m' ≡ inc_64 (restarts_of m))
        × (rank m'.phase ≤ 8))

Progress-fail_round :
    (o : SupervisorOptions) (reason : Text) (e : Err) (m : Machine)
    → let m' = fail_round o reason e m in
      ((restarts_of m' ≡ restarts_of m) × (rank m'.phase ≡ 0))
      ⊎ ((may_restart o m.sup ≡ true)
          × (restarts_of m' ≡ inc_64 (restarts_of m))
          × (rank m'.phase ≤ 8))
unfolding fail_round restart finish should_restart set_last record_crash record_restart
    set_final_err
Progress-fail_round o reason e m = ground arith

Progress-decide_restart :
    (o : SupervisorOptions) (ended : Ended) (m : Machine)
    → let m' = decide_restart o ended m in
      ((restarts_of m' ≡ restarts_of m) × (rank m'.phase ≡ 0))
      ⊎ ((may_restart o m.sup ≡ true)
          × (restarts_of m' ≡ inc_64 (restarts_of m))
          × (rank m'.phase ≤ 8))
unfolding decide_restart restart finish should_restart record_restart set_final_err
Progress-decide_restart o ended m = ground arith

end_run_lem :
    (o : SupervisorOptions) (res : RunResult) (err : Option Err) (now : ℕ) (m : Machine)
    → let m' = end_run o res err now m in (restarts_of m' ≡ restarts_of m) × (rank m'.phase ≤ 3)
unfolding end_run consume_unhealthy_flag clear_process set_last record_stop
end_run_lem o res err now m = ground arith

leave_hook_lem :
    (o : SupervisorOptions) (e : Option Err) (ended : Ended) (m : Machine)
    → let m' = leave_hook e ended m in (restarts_of m' ≡ restarts_of m) × (rank m'.phase ≤ 2)
unfolding leave_hook set_last
leave_hook_lem o none ended m = ground arith
leave_hook_lem o (some e) ended m = ground arith

restarts-answer_check :
    (o : SupervisorOptions) (failures : ℕ) (answer : Option Err) (s : Supervisor)
    → (answer_check o failures answer s).metrics.restarts ≡ s.metrics.restarts
unfolding count_failure record_health_success record_health_failure mark_unhealthy
restarts-answer_check o failures none s = refl
restarts-answer_check o failures (some e) s = ground arith

-- A supervisor that stands behind `created` has been started.
abbrev pub IsBegun : Machine → Type 0
IsBegun m = (m.phase ≡ created) ⊎ (m.sup.started ≡ true)

proceed-Progress :
    (o : SupervisorOptions) (phase : Phase) (m m' : Machine)
    → m.phase ≡ phase
    → proceed_from o phase m ≡ some m'
    → Progress o proceed m m'
unfolding finish set_final_err
proceed-Progress o (restarting ended) m m' p h = ground (arith, Progress-decide_restart o ended m)
proceed-Progress o phase m m' p h = ground arith

hook-Progress :
    (o : SupervisorOptions) (e : Option Err) (phase : Phase) (m m' : Machine)
    → m.phase ≡ phase
    → handle o (after_stop_returned e) phase m ≡ some m'
    → Progress o (after_stop_returned e) m m'
unfolding handle
hook-Progress o e (after_hook ended) m m' p h = ground (arith, leave_hook_lem o e ended m)
hook-Progress o e phase m m' p h = ground arith

check-Progress :
    (o : SupervisorOptions) (a : Option Err) (health : Option Health) (m m' : Machine)
    → return_check o a health m ≡ some m'
    → Progress o (check_returned a) m m'
check-Progress o a none m m' h = cc
check-Progress o a (some x) m m' h = ground (arith, restarts-answer_check o x.failures a m.sup)

late-Progress :
    (o : SupervisorOptions) (a : Option Err) (late : List ℕ) (m m' : Machine)
    → return_late o a late m ≡ some m'
    → Progress o (late_check_returned a) m m'
late-Progress o a [] m m' h = cc
late-Progress o a (n ∷ late) m m' h = ground (arith, restarts-answer_check o n a m.sup)

pub handle-Progress :
    (o : SupervisorOptions) (event : Event) (phase : Phase) (m m' : Machine)
    → m.phase ≡ phase
    → IsBegun m
    → handle o event phase m ≡ some m'
    → Progress o event m m'
unfolding handle start_supervisor finish set_final_err set_process record_start record_health_check
handle-Progress o start_called phase m m' p b h = ground arith
handle-Progress o stop_called phase m m' p b h = ground arith
handle-Progress o context_cancelled phase m m' p b h = ground arith
handle-Progress o proceed phase m m' p b h = proceed-Progress o phase m m' p h
handle-Progress o (before_start_returned none) phase m m' p b h = ground arith
handle-Progress o (before_start_returned (some e)) phase m m' p b h =
    ground (arith, Progress-fail_round o (codes "before-start-hook") e m)
handle-Progress o (start_failed e) phase m m' p b h =
    ground (arith, Progress-fail_round o (codes "start-failure") e m)
handle-Progress o (start_succeeded pid now) phase m m' p b h = ground arith
handle-Progress o (process_done res err now) phase m m' p b h =
    ground (arith, end_run_lem o res err now m)
handle-Progress o (after_stop_returned e) phase m m' p b h = hook-Progress o e phase m m' p h
handle-Progress o timer_fired phase m m' p b h = ground arith
handle-Progress o backoff_cancelled phase m m' p b h = ground arith
handle-Progress o health_ticked phase m m' p b h = ground arith
handle-Progress o (check_returned a) phase m m' p b h = check-Progress o a m.health m m' h
handle-Progress o health_loop_left phase m m' p b h = ground arith
handle-Progress o (late_check_returned a) phase m m' p b h = late-Progress o a m.late m m' h
