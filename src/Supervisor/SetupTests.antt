-- ===== src/Supervisor/SetupTests.antt =====
-- `NewSupervisor` and `SnapshotMetrics` at concrete options.
use opengrab.Prelude.{◌≡◌, refl, true, false, [], none, some, pos}
use opengrab.Text.{codes}
use opengrab.Mode.{args}
use opengrab.Run.{no_result}
use opengrab.Command.{Options}
use opengrab.RotateWriter.{Opening}
use opengrab.Supervisor.State.{unset, SupervisorOptions}
use opengrab.Supervisor.Policy.{should_exit}
use opengrab.Supervisor.Metrics.{set_process, record_start, record_stop}
use opengrab.Supervisor.Machine.{Machine, start_called, proceed, start_succeeded, fresh}
use opengrab.Supervisor.Loop.{handle, step, Run, here, next, start_supervisor}
use opengrab.Supervisor.Create.{CreateOptions, Answers, Outcome, create_supervisor}
use opengrab.Supervisor.Setup.{create_supervisor-Outcome}
use opengrab.Supervisor.Snapshot.{snapshot_metrics, snapshot_metrics-record_stop}

abbrev loop_only : SupervisorOptions
loop_only = record {
  restart_policy = unset;
  max_restarts = pos 0;
  backoff = none;
  before_start = false;
  after_stop = false;
  health_check = false;
  health_check_interval = pos 0;
  health_check_failures = pos 0;
}

abbrev server : Options
server = record {
  mode = args;
  program = codes "serve";
  args = [];
  shell_command = [];
  dir = [];
  env = [];
  timeout = pos 0;
  stdin = none;
  stdout = none;
  stderr = none;
}

abbrev logged : CreateOptions
logged = record {
  process = server;
  loop_options = loop_only;
  auto_restart = true;
  health_check_stop_timeout = pos 0;
  ring_buffer_bytes = pos 0;
  log_rotate = some (record {
    stdout_path = codes "out.log";
    stderr_path = codes "/err.log";
    max_bytes = pos 0;
    max_backups = pos 0;
  });
}

abbrev willing : Opening
willing = record { mkdir_ok = true; open_ok = true; stat_ok = true }

-- The second log may not be opened.
abbrev half : Answers
half = record {
  stdout_opening = willing;
  stderr_opening = record willing { open_ok = false };
  stdout_files = λ i. none;
  stderr_files = λ i. none;
  closing = record {
    close_ok = true;
    remove_ok = true;
    stat_ok = λ i. true;
    rename_ok = λ i. true;
    open_ok = true;
    written = λ n. n;
    write_ok = true;
  };
}

create_supervisor-Outcome_example : Outcome logged (create_supervisor half logged)
create_supervisor-Outcome_example = create_supervisor-Outcome half logged

up : (m : Machine) × Run loop_only fresh m
unfolding step handle start_supervisor should_exit set_process record_start
up = (_, next (next (next here start_called refl) proceed refl) (start_succeeded 7 100) refl)

snapshot_metrics-record_stop_example :
    ((snapshot_metrics 130 up.0.sup).total_uptime
      ≡ (record_stop no_result none false 130 up.0.sup).metrics.total_uptime)
    × (up.0.sup.metrics.running ≡ false → (snapshot_metrics 130 up.0.sup).current_uptime ≡ 0)
snapshot_metrics-record_stop_example =
    snapshot_metrics-record_stop loop_only up.1 130 no_result none false
