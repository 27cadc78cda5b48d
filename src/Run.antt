-- ===== src/Run.antt =====
-- tools/cmdrunner/cmdrunner.go: `Run`, `runArgs` and `runShell`. What `os/exec` does with a command
-- is a parameter, `exec`.
pub mod Outcomes
mod Tests
use opengrab.Prelude.{ℕ, List, [], ◌∷◌, ◌++◌, Option, none, some, ℤ, pos, negsuc, if◌then◌else◌}
use opengrab.Text.{Text, codes, text_eq}
use opengrab.Mode.{Mode, unset, auto, args, shell, other, mode_text}
use opengrab.Error.{Error, Result, ok, err, unsupported_mode}
use opengrab.CmdLine.{join_command}
use opengrab.Request.{Request, normalize_request}

-- An error of `cmd.Run()` or `cmd.Wait()`: an `*exec.ExitError` with its code (-1 for a signal), or
-- another error, by its text.
pub data ExecError : Type 0 where
  exit_error : ℤ → ExecError
  other_error : Text → ExecError

-- `ExitCode`
pub exit_code : Option ExecError → ℤ
exit_code none = pos 0
exit_code (some (exit_error code)) = code
exit_code (some (other_error text)) = negsuc 0

-- The struct `Result`.
pub record RunResult : Type 0 where
  pub mode : Mode
  pub program : Text
  pub args : List Text
  pub command : Text
  pub shell : Text
  pub pid : ℕ
  pub stdout : Text
  pub stderr : Text
  pub exit_code : ℤ

abbrev pub no_result : RunResult
no_result = record {
  mode = unset;
  program = [];
  args = [];
  command = [];
  shell = [];
  pid = 0;
  stdout = [];
  stderr = [];
  exit_code = pos 0;
}

-- What `exec.CommandContext` is given here, with `cmd.Dir` ("" for the current directory).
pub record Command : Type 0 where
  pub program : Text
  pub args : List Text
  pub dir : Text

-- What `cmd.Run()` leaves: the two buffers and its error.
pub record Ran : Type 0 where
  pub stdout : Text
  pub stderr : Text
  pub error : Option ExecError

-- The error of `Run`.
pub data RunError : Type 0 where
  refused : Error → RunError
  args_failed : ExecError → RunError
  shell_failed : ExecError → RunError

-- `platformShell`, and `detectShell`, which is the same.
unfoldable pub platform_shell : Text → Text × List Text
platform_shell goos =
    if text_eq goos (codes "windows")
    then (codes "cmd", codes "/C" ∷ [])
    else (codes "sh", codes "-c" ∷ [])

abbrev failure : (ExecError → RunError) → Option ExecError → Option RunError
failure wrap none = none
failure wrap (some e) = some (wrap e)

module _ (goos : Text) (exec : Command → Ran) where
  -- `runArgs`
  pub run_args : Request → RunResult × Option RunError
  run_args req =
      let ran = exec (record { program = req.program; args = req.args; dir = req.dir }) in
      (
        record {
          mode = args;
          program = req.program;
          args = req.args;
          command = join_command req.program req.args;
          shell = [];
          pid = 0;
          stdout = ran.stdout;
          stderr = ran.stderr;
          exit_code = exit_code ran.error;
        },
        failure args_failed ran.error,
      )

  -- `runShell`
  pub run_shell : Request → RunResult × Option RunError
  run_shell req =
      let (program, shell_args) = platform_shell goos in
      let args' = shell_args ++ req.shell_command ∷ [] in
      let ran = exec (record { program = program; args = args'; dir = req.dir }) in
      (
        record {
          mode = shell;
          program = program;
          args = args';
          command = req.shell_command;
          shell = [];
          pid = 0;
          stdout = ran.stdout;
          stderr = ran.stderr;
          exit_code = exit_code ran.error;
        },
        failure shell_failed ran.error,
      )

  -- The `switch` of `Run` on the normalised mode.
  run_mode : Mode → Request → RunResult × Option RunError
  run_mode args req = run_args req
  run_mode shell req = run_shell req
  run_mode mode req = (no_result, some (refused (unsupported_mode (mode_text mode))))

  run_normalized : Result (Mode × Request) → RunResult × Option RunError
  run_normalized (ok (mode, normalized)) = run_mode mode normalized
  run_normalized (err e) = (no_result, some (refused e))

  -- `Run`
  pub run : Request → RunResult × Option RunError
  run req = run_normalized (normalize_request goos req)
