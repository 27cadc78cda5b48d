-- ===== src/Command/Tests.antt =====
-- `buildCommand` at concrete options.
use opengrab.Prelude.{◌≡◌, refl, [], ◌∷◌, none, pos, arith}
use opengrab.Text.{
  codes, contains_any, trim_space, trim_left, trim_right, is_space, join, replace_rune,
}
use opengrab.Mode.{args}
use opengrab.Error.{ok}
use opengrab.CmdLine.{split_command_line, join_command_quoting, quote_args, strconv_quote}
use opengrab.Run.{RunResult}
use opengrab.Command.{
  Options, Cmd, make_cmd, base_result, build_command, build_mode, validate_options, validate_mode,
}
use opengrab.Command.Build.{split-build_command}

abbrev sleeper : Options
sleeper = record {
  mode = args;
  program = codes "sleep";
  args = codes "10" ∷ codes "a b" ∷ [];
  shell_command = [];
  dir = [];
  env = codes "LANG=C" ∷ [];
  timeout = pos 0;
  stdin = none;
  stdout = none;
  stderr = none;
}

abbrev cmd : Cmd
cmd = make_cmd (codes "linux") (codes "HOME=/" ∷ []) sleeper sleeper.program sleeper.args

abbrev base : RunResult
base =
    base_result (codes "linux") [] args sleeper.program sleeper.args (codes "sleep 10 \"a b\"") []

sleeper_builds : build_command (codes "linux") (codes "HOME=/" ∷ []) sleeper ≡ ok (cmd, base)
unfolding build_command build_mode validate_options validate_mode trim_space trim_left trim_right
    is_space join_command_quoting quote_args strconv_quote join replace_rune contains_any
sleeper_builds = refl

split-build_command_example :
    split_command_line (codes "sleep 10 \"a b\"")
    ≡ ok (codes "sleep", codes "10" ∷ codes "a b" ∷ [])
unfolding contains_any
split-build_command_example =
    split-build_command (codes "linux") (codes "HOME=/" ∷ []) sleeper sleeper_builds refl
      (ground arith) refl (ground arith)
