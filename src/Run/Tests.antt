-- ===== src/Run/Tests.antt =====
-- `Run` at a concrete request and execution.
use opengrab.Prelude.{refl, [], some, pos}
use opengrab.Text.{codes, trim_space, trim_left, trim_right, is_space}
use opengrab.Mode.{args}
use opengrab.Request.{Request, normalize_request, normalize_by_mode, is_empty_request}
use opengrab.Run.{Command, Ran, exit_error, run}
use opengrab.Run.Outcomes.{Reports, command_of, run_executes}

-- Every command prints its directory and exits with 3.
abbrev fails : Command → Ran
fails c = record { stdout = c.dir; stderr = []; error = some (exit_error (pos 3)) }

abbrev list_files : Request
list_files = record {
  mode = args;
  program = codes "ls";
  args = [];
  shell_command = [];
  command = [];
  dir = codes "/tmp";
  reason = [];
}

run_executes_example :
    Reports
      (codes "linux")
      fails
      args
      (command_of (codes "linux") fails args list_files)
      (run (codes "linux") fails list_files)
unfolding normalize_request normalize_by_mode is_empty_request trim_space trim_left trim_right
    is_space
run_executes_example =
    run_executes (codes "linux") fails list_files {mode = args} {normalized = list_files} refl
