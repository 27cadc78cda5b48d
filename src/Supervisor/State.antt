-- ===== src/Supervisor/State.antt =====
-- supervisor.go: the structs `SupervisorOptions`, `supervisorMetrics` and `Supervisor`.
use opengrab.Prelude.{ℕ, Bool, false, [], Option, none, ℤ, pos}
use opengrab.Text.{Text}
use opengrab.Run.{RunResult, no_result}

-- A Go error, by its text, or wrapped by the loop.
pub data Err : Type 0 where
  cause : Text → Err
  after_stop_hook_failed : Err → Err

-- The error that `Wait` and `Stop` return in the end, from `terminalError` or a failed start.
pub data FinalErr : Type 0 where
  plain : Err → FinalErr
  stopped_by_health_check : Err → FinalErr
  exited_with_code : ℤ → FinalErr

-- `RestartPolicy`, a string: `unset` is "", and `other` any text but the three constants'.
pub data RestartPolicy : Type 0 where
  unset never always on_failure : RestartPolicy
  other : Text → RestartPolicy

-- `SupervisorOptions`, as far as the loop reads them. Of a hook and of the health check it is said
-- whether there is one; what they return is the environment's choice.
pub record SupervisorOptions : Type 0 where
  pub restart_policy : RestartPolicy
  pub max_restarts : ℤ
  pub backoff : Option (ℤ → ℤ)
  pub before_start : Bool
  pub after_stop : Bool
  pub health_check : Bool
  pub health_check_interval : ℤ
  pub health_check_failures : ℤ

-- `supervisorMetrics`. Counters are `uint64`, durations are nanoseconds; a time is none where the
-- source has the zero `time.Time`.
pub record Metrics : Type 0 where
  pub starts : ℕ
  pub stops : ℕ
  pub restarts : ℕ
  pub crashes : ℕ
  pub health_checks : ℕ
  pub health_check_successes : ℕ
  pub health_check_failures : ℕ
  pub consecutive_restarts : ℕ
  pub consecutive_hc_failures : ℕ
  pub running : Bool
  pub current_pid : ℕ
  pub current_start : Option ℕ
  pub total_uptime : ℕ
  pub last_start_time : Option ℕ
  pub last_stop_time : Option ℕ
  pub last_exit_code : ℤ
  pub last_error : Text
  pub last_health_error : Text
  pub last_restart_reason : Text

-- `Supervisor`. A process is known by its pid; `cancelled` is `runCtx.Err() != nil`, and
-- `done_closes` counts the `close(s.doneCh)`.
pub record Supervisor : Type 0 where
  pub started : Bool
  pub stopping : Bool
  pub cancelled : Bool
  pub proc : Option ℕ
  pub last_result : RunResult
  pub last_err : Option Err
  pub last_health : Option Err
  pub final_err : Option FinalErr
  pub unhealthy_stop : Bool
  pub done_closes : ℕ
  pub metrics : Metrics

abbrev pub no_metrics : Metrics
no_metrics = record {
  starts = 0;
  stops = 0;
  restarts = 0;
  crashes = 0;
  health_checks = 0;
  health_check_successes = 0;
  health_check_failures = 0;
  consecutive_restarts = 0;
  consecutive_hc_failures = 0;
  running = false;
  current_pid = 0;
  current_start = none;
  total_uptime = 0;
  last_start_time = none;
  last_stop_time = none;
  last_exit_code = pos 0;
  last_error = [];
  last_health_error = [];
  last_restart_reason = [];
}

-- What `NewSupervisor` returns.
abbrev pub new_supervisor : Supervisor
new_supervisor = record {
  started = false;
  stopping = false;
  cancelled = false;
  proc = none;
  last_result = no_result;
  last_err = none;
  last_health = none;
  final_err = none;
  unhealthy_stop = false;
  done_closes = 0;
  metrics = no_metrics;
}
