-- ===== src/Supervisor/Tests.antt =====
-- A supervisor at concrete options and events.
use opengrab.Prelude.{◌≡◌, refl, ◌+◌, ◌*◌, ◌≤◌, true, false, ◌&&◌, [], ◌∷◌, none, some, pos, arith}
use opengrab.Text.{codes}
use opengrab.Run.{no_result}
use opengrab.Supervisor.State.{cause, SupervisorOptions, Supervisor, new_supervisor, on_failure}
use opengrab.Supervisor.Policy.{should_exit, should_restart, restart_reason, policy_restarts}
use opengrab.Supervisor.Metrics.{
  set_process, clear_process, set_last, set_final_err, consume_unhealthy_flag, record_start,
  record_stop, record_crash, record_restart,
}
use opengrab.Supervisor.Machine.{
  Ended, waiting, Machine, start_called, proceed, start_failed, start_succeeded, process_done,
  late_check_returned, fresh,
}
use opengrab.Supervisor.Loop.{
  finish, restart, fail_round, start_supervisor, end_run, handle, step, Run, here, next,
}
use opengrab.Supervisor.Progress.{may_restart}
use opengrab.Supervisor.Bounds.{loop_events, loop_events_le}
use opengrab.Supervisor.Decisions.{wants, should_restart-wants, late_failure_marks_next, ended_of}

abbrev twice : SupervisorOptions
twice = record {
  restart_policy = on_failure;
  max_restarts = pos 2;
  backoff = none;
  before_start = false;
  after_stop = false;
  health_check = true;
  health_check_interval = pos 1;
  health_check_failures = pos 1;
}

-- A failed start, a restart, and a process that runs.
running : (m : Machine) × Run twice fresh m
unfolding step handle start_supervisor should_exit fail_round restart should_restart policy_restarts
    set_last record_crash record_restart set_process record_start
running = (
  _,
  next
      (next
        (next (next (next here start_called refl) proceed refl) (start_failed (cause (codes "no")))
          refl)
        proceed refl)
      (start_succeeded 7 100) refl,
)

loop_events_le_example : loop_events running.1 ≤ 9 * (2 + 1)
loop_events_le_example = loop_events_le twice 2 refl (omega arith) (omega arith) running.1

-- A process runs, a check of the one before is still under way, and the supervisor is stopping.
abbrev busy : Supervisor
busy = record new_supervisor { started = true; proc = some 7 }

abbrev machine : Machine
machine = record { phase = waiting; sup = busy; health = none; late = 0 ∷ [] }

abbrev stopping : Machine
stopping = record machine { sup = record busy { stopping = true } }

stopped : (m : Machine) × Run twice stopping m
unfolding step handle should_exit finish end_run consume_unhealthy_flag clear_process set_last
    record_stop set_final_err
stopped = (_, next (next here (process_done no_result none 9) refl) proceed refl)

-- `Stop` is called while the process runs, which then ends.
abbrev marked : Machine
marked = record running.0 { sup = record running.0.sup { stopping = true } }

should_restart-wants_example :
    should_restart twice busy none no_result false
    ≡ (may_restart twice busy && wants on_failure (restart_reason no_result none false))
should_restart-wants_example = should_restart-wants twice busy none no_result false

abbrev clean : Ended
clean = record { res = no_result; err = none; unhealthy = false }

late_failure_marks_next_example :
    (m' m'' : Machine) × (step twice machine (late_check_returned (some (cause (codes "late"))))
      ≡ some m')
    × (step twice m' (process_done no_result none 9) ≡ some m'')
    × (ended_of m''.phase ≡ some (record { res = no_result; err = none; unhealthy = true }))
late_failure_marks_next_example =
    late_failure_marks_next twice machine (cause (codes "late")) no_result none 9 refl refl refl
