-- ===== src/Supervisor/Metrics.antt =====
-- supervisor.go: the small methods that update a supervisor under its lock.
use opengrab.Prelude.{
  ℕ, ◌+◌, ◌-◌, Bool, true, false, not, ◌&&◌, [], Option, none, some, inc_64, if◌then◌else◌,
}
use opengrab.Text.{Text}
use opengrab.Run.{RunResult}
use opengrab.Supervisor.State.{Err, FinalErr, Supervisor}
use opengrab.Supervisor.Policy.{is_error, is_nonzero, safe_error}

-- `setProcess` and `clearProcess`
unfoldable pub set_process : ℕ → Supervisor → Supervisor
set_process pid s = record s { proc = some pid }

unfoldable pub clear_process : Supervisor → Supervisor
clear_process s = record s { proc = none }

-- `setLast`
unfoldable pub set_last : RunResult → Option Err → Supervisor → Supervisor
set_last res err s = record s { last_result = res; last_err = err }

-- `setFinalErr`
unfoldable pub set_final_err : Option FinalErr → Supervisor → Supervisor
set_final_err err s = record s { final_err = err }

-- `markUnhealthy`
unfoldable pub mark_unhealthy : Err → Supervisor → Supervisor
mark_unhealthy err s = record s {
  unhealthy_stop = true;
  last_health = some err;
  metrics = record s.metrics { last_health_error = safe_error (some err) };
}

-- `consumeUnhealthyFlag`
unfoldable pub consume_unhealthy_flag : Supervisor → Bool × Supervisor
consume_unhealthy_flag s = (s.unhealthy_stop, record s { unhealthy_stop = false })

-- `recordStart`, at the time `now`.
unfoldable pub record_start : ℕ → ℕ → Supervisor → Supervisor
record_start pid now s = record s {
  metrics = record s.metrics {
    starts = inc_64 s.metrics.starts;
    running = true;
    current_pid = pid;
    current_start = some now;
    last_start_time = some now;
  };
}

-- The uptime behind a run that began at a time, if one did.
abbrev pub add_uptime : ℕ → Option ℕ → ℕ → ℕ
add_uptime total none now = total
add_uptime total (some start) now = total + (now - start)

abbrev pub is_clean : RunResult → Option Err → Bool → Bool
is_clean res err unhealthy = not (is_error err) && not (is_nonzero res.exit_code) && not unhealthy

-- `recordStop`, at the time `now` of a clock that does not run backwards.
unfoldable pub record_stop : RunResult → Option Err → Bool → ℕ → Supervisor → Supervisor
record_stop res err unhealthy now s =
    let m = s.metrics in
    record s {
      metrics = record m {
        stops = inc_64 m.stops;
        running = false;
        current_pid = 0;
        total_uptime = add_uptime m.total_uptime m.current_start now;
        current_start = none;
        last_stop_time = some now;
        last_exit_code = res.exit_code;
        last_error = safe_error err;
        consecutive_restarts = if is_clean res err unhealthy then 0 else m.consecutive_restarts;
        crashes = if is_clean res err unhealthy then m.crashes else inc_64 m.crashes;
      };
    }

-- `recordCrash`
unfoldable pub record_crash : Option Err → Supervisor → Supervisor
record_crash err s = record s {
  metrics = record s.metrics { crashes = inc_64 s.metrics.crashes; last_error = safe_error err };
}

-- `recordRestart`
unfoldable pub record_restart : Text → Supervisor → Supervisor
record_restart reason s = record s {
  metrics = record s.metrics {
    restarts = inc_64 s.metrics.restarts;
    consecutive_restarts = inc_64 s.metrics.consecutive_restarts;
    last_restart_reason = reason;
  };
}

-- `recordHealthCheck`
unfoldable pub record_health_check : Supervisor → Supervisor
record_health_check s = record s {
  metrics = record s.metrics { health_checks = inc_64 s.metrics.health_checks };
}

-- `recordHealthSuccess`
unfoldable pub record_health_success : Supervisor → Supervisor
record_health_success s = record s {
  last_health = none;
  metrics = record s.metrics {
    health_check_successes = inc_64 s.metrics.health_check_successes;
    consecutive_hc_failures = 0;
    last_health_error = [];
  };
}

-- `recordHealthFailure`
unfoldable pub record_health_failure : Err → Supervisor → Supervisor
record_health_failure err s = record s {
  last_health = some err;
  metrics = record s.metrics {
    health_check_failures = inc_64 s.metrics.health_check_failures;
    consecutive_hc_failures = inc_64 s.metrics.consecutive_hc_failures;
    last_health_error = safe_error (some err);
  };
}
