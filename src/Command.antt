-- ===== src/Command.antt =====
-- tools/cmdrunner/cmdrunner.go: `Options` and `buildCommand`; supervisor.go: `validateOptions`.
pub mod Build
mod Tests
use opengrab.Prelude.{
  ℕ, Bool, true, false, List, [], ◌∷◌, ◌++◌, Option, none, some, ℤ, pos, if◌then◌else◌,
}
use opengrab.Text.{Text, is_blank}
use opengrab.Mode.{Mode, unset, auto, args, shell, other, mode_text, normalize_mode}
use opengrab.Error.{Result, ok, err, empty_program, empty_shell_command, wrapped_invalid_mode}
use opengrab.CmdLine.{join_command_quoting}
use opengrab.Run.{RunResult, platform_shell}

-- `Options`. A reader or writer is known by a number; `timeout` is in nanoseconds.
pub record Options : Type 0 where
  pub mode : Mode
  pub program : Text
  pub args : List Text
  pub shell_command : Text
  pub dir : Text
  pub env : List Text
  pub timeout : ℤ
  pub stdin : Option ℕ
  pub stdout : Option ℕ
  pub stderr : Option ℕ

-- The `switch` of `validateOptions`; the error is nil at `ok`.
pub validate_mode : Mode → Options → Result (Unit {0})
validate_mode args opts = if is_blank opts.program then err empty_program else ok tt
validate_mode shell opts = if is_blank opts.shell_command then err empty_shell_command else ok tt
validate_mode unset opts = err (wrapped_invalid_mode (mode_text opts.mode))
validate_mode auto opts = err (wrapped_invalid_mode (mode_text opts.mode))
validate_mode (other m) opts = err (wrapped_invalid_mode (mode_text opts.mode))

-- `validateOptions`
pub validate_options : Options → Result (Unit {0})
validate_options opts = validate_mode (normalize_mode opts.mode) opts

-- The fields of `exec.Cmd` that are set. An `env` of none is the parent's environment.
pub record Cmd : Type 0 where
  pub program : Text
  pub args : List Text
  pub dir : Text
  pub env : Option (List Text)
  pub stdin : Option ℕ
  pub new_group : Bool

abbrev is_nil : List Text → Bool
is_nil [] = true
is_nil _ = false

module _ (goos : Text) (environ : List Text) where
  -- The end of `buildCommand`: `cmd.Dir`, `cmd.Env` and `cmd.Stdin`.
  abbrev pub make_cmd : Options → Text → List Text → Cmd
  make_cmd opts program args' = record {
    program = program;
    args = args';
    dir = opts.dir;
    env = if is_nil opts.env then none else some (environ ++ opts.env);
    stdin = opts.stdin;
    new_group = false;
  }

  abbrev pub base_result : Mode → Text → List Text → Text → Text → RunResult
  base_result mode program args' command shell' = record {
    mode = mode;
    program = program;
    args = args';
    command = command;
    shell = shell';
    pid = 0;
    stdout = [];
    stderr = [];
    exit_code = pos 0;
  }

  -- The `switch` of `buildCommand`, for options that are valid.
  build_mode : Mode → Options → Result (Cmd × RunResult)
  build_mode args opts = ok (
    make_cmd opts opts.program opts.args,
    base_result args opts.program opts.args (join_command_quoting opts.program opts.args) [],
  )
  build_mode shell opts =
      let (program, shell_args) = platform_shell goos in
      let args' = shell_args ++ opts.shell_command ∷ [] in
      ok (make_cmd opts program args', base_result shell program args' opts.shell_command program)
  build_mode unset opts = err (wrapped_invalid_mode [])
  build_mode auto opts = err (wrapped_invalid_mode (mode_text auto))
  build_mode (other m) opts = err (wrapped_invalid_mode m)

  build_valid : Result (Unit {0}) → Options → Result (Cmd × RunResult)
  build_valid (ok u) opts = build_mode (normalize_mode opts.mode) opts
  build_valid (err e) opts = err e

  -- `buildCommand`; it writes the normalised mode into its copy of the options first.
  pub build_command : Options → Result (Cmd × RunResult)
  unfolding build_valid
  build_command opts =
      let opts' = record opts { mode = normalize_mode opts.mode } in
      build_valid (validate_options opts') opts'
