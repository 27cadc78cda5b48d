-- ===== src/Run/Outcomes.antt =====
-- `Run`: what it executes and what it reports.
use opengrab.Prelude.{◌≡◌, ◌↔◌, refl, [], ◌∷◌, ◌++◌, Option, none, arith}
use opengrab.Text.{Text}
use opengrab.Mode.{Mode, args, shell}
use opengrab.Error.{ok}
use opengrab.Request.{Request, normalize_request}
use opengrab.Request.Normal.{IsNormal, with_args, with_shell, normalize_request-Normalized}
use opengrab.Run.{
  exit_code, RunResult, Command, Ran, RunError, platform_shell, run_args, run_shell, run_mode,
  run_normalized, run,
}

module _ (goos : Text) (exec : Command → Ran) where
  -- The command that a normalised request stands for.
  abbrev pub command_of : Mode → Request → Command
  command_of args req = record { program = req.program; args = req.args; dir = req.dir }
  command_of mode req =
      let (program, shell_args) = platform_shell goos in
      record { program = program; args = shell_args ++ req.shell_command ∷ []; dir = req.dir }

  -- What `Run` reports of one execution.
  pub record Reports (mode : Mode) (c : Command) (out : RunResult × Option RunError) : Type 0 where
    pub mode_is : out.0.mode ≡ mode
    pub program_is : out.0.program ≡ c.program
    pub args_are : out.0.args ≡ c.args
    pub stdout_is : out.0.stdout ≡ (exec c).stdout
    pub stderr_is : out.0.stderr ≡ (exec c).stderr
    pub exit_code_is : out.0.exit_code ≡ exit_code (exec c).error
    pub nil_iff : (out.1 ≡ none) ↔ ((exec c).error ≡ none)

  run_args-Reports : (req : Request) → Reports args (command_of args req) (run_args goos exec req)
  unfolding run_args
  run_args-Reports req = record {
    mode_is = refl;
    program_is = refl;
    args_are = refl;
    stdout_is = refl;
    stderr_is = refl;
    exit_code_is = refl;
    nil_iff = ground arith;
  }

  run_shell-Reports :
      (req : Request) → Reports shell (command_of shell req) (run_shell goos exec req)
  unfolding run_shell
  run_shell-Reports req = record {
    mode_is = refl;
    program_is = refl;
    args_are = refl;
    stdout_is = refl;
    stderr_is = refl;
    exit_code_is = refl;
    nil_iff = ground arith;
  }

  run_mode-Reports :
      {mode : Mode} (before req : Request)
      → IsNormal req mode
      → Reports mode (command_of mode req) (run_mode goos exec mode req)
  unfolding run_mode
  run_mode-Reports before req (with_args m p s c) = run_args-Reports req
  run_mode-Reports before req (with_shell m b p a c) = run_shell-Reports req

  -- A request that is accepted is executed as its normal form says, the output and the exit code
  -- are those of that execution, and there is an error exactly if it had one: the branch for an
  -- unsupported mode is never taken.
  pub run_executes :
      (req : Request) {mode : Mode} {normalized : Request}
      → normalize_request goos req ≡ ok (mode, normalized)
      → Reports mode (command_of mode normalized) (run goos exec req)
  unfolding run run_normalized
  run_executes req {normalized} h =
      rw h (run_mode-Reports req normalized (normalize_request-Normalized goos req h).normal)
