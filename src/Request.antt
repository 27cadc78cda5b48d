-- ===== src/Request.antt =====
-- tools/cmdrunner/cmdrunner.go: `Request`, `NormalizeRequest` and what they call.
pub mod Normal
pub mod Choice
mod Tests
use opengrab.Prelude.{Bool, true, false, ◌&&◌, List, [], if◌then◌else◌}
use opengrab.Text.{Text, codes, trim_space, is_empty, is_blank}
use opengrab.Error.{
  Result, ok, err, empty_request, invalid_args_mode, invalid_shell_mode, invalid_mode,
}
use opengrab.Mode.{Mode, unset, auto, args, shell, other}
use opengrab.CmdLine.{needs_shell, split_command_line}

-- Slices are values here, so that `cloneStrings` has nothing to do.
pub record Request : Type 0 where
  pub mode : Mode
  pub program : Text
  pub args : List Text
  pub shell_command : Text
  pub command : Text
  pub dir : Text
  pub reason : Text

abbrev is_nil : List Text → Bool
is_nil [] = true
is_nil _ = false

-- `isEmpty`
unfoldable pub is_empty_request : Request → Bool
is_empty_request req =
    is_blank req.program && is_nil req.args && is_blank req.shell_command && is_blank req.command

-- `chooseReason`
unfoldable pub choose_reason : Text → Text → Text
choose_reason current fallback = if is_blank current then fallback else current

-- The literals `Request{Mode: ModeArgs, …}` and `Request{Mode: ModeShell, …}`.
abbrev pub args_request : Request → Text → List Text → Text → Request
args_request req program args' reason = record {
  mode = args;
  program = program;
  args = args';
  shell_command = [];
  command = [];
  dir = req.dir;
  reason = reason;
}

abbrev pub shell_request : Request → Text → Text → Request
shell_request req shell_command reason = record {
  mode = shell;
  program = [];
  args = [];
  shell_command = shell_command;
  command = [];
  dir = req.dir;
  reason = reason;
}

abbrev pub why_program : Text
why_program = codes "auto resolved to args because program was explicitly provided"

abbrev pub why_shell_command : Text
why_shell_command = codes "auto resolved to shell because shell_command was explicitly provided"

abbrev pub why_syntax : Text
why_syntax = codes "auto resolved to shell because command requires shell syntax"

abbrev pub why_unsplit : Text
why_unsplit = codes "auto fell back to shell because command line could not be safely split"

abbrev pub why_simple : Text
why_simple = codes "auto resolved to args because command is a simple executable plus arguments"

-- The end of the case `ModeAuto`, behind `SplitCommandLine`.
abbrev pub split_or_shell : Request → Text → Result (Text × List Text) → Mode × Request
split_or_shell req cmd (ok (program, args')) =
    (args, args_request req program args' (choose_reason req.reason why_simple))
split_or_shell req cmd (err e) =
    (shell, shell_request req cmd (choose_reason req.reason why_unsplit))

-- The case `ModeAuto`; `goos` stands for `runtime.GOOS`.
unfoldable pub normalize_auto : Text → Request → Result (Mode × Request)
normalize_auto goos req =
    let cmd = trim_space req.command in
    if is_blank req.program
    then (if is_blank req.shell_command
        then (if is_empty cmd
            then err empty_request
            else if needs_shell cmd goos
            then ok (shell, shell_request req cmd (choose_reason req.reason why_syntax))
            else ok (split_or_shell req cmd (split_command_line cmd)))
        else ok (
          shell,
          shell_request req req.shell_command (choose_reason req.reason why_shell_command),
        ))
    else ok (args, args_request req req.program req.args (choose_reason req.reason why_program))

-- The `switch` on the mode, where "" has become `ModeAuto`.
unfoldable pub normalize_by_mode : Text → Mode → Request → Result (Mode × Request)
normalize_by_mode goos unset req = normalize_auto goos req
normalize_by_mode goos auto req = normalize_auto goos req
normalize_by_mode goos args req =
    if is_blank req.program
    then err invalid_args_mode
    else ok (args, args_request req req.program req.args req.reason)
normalize_by_mode goos shell req =
    if is_blank req.shell_command
    then err invalid_shell_mode
    else ok (shell, shell_request req req.shell_command req.reason)
normalize_by_mode goos (other m) req = err (invalid_mode m)

-- `NormalizeRequest`
unfoldable pub normalize_request : Text → Request → Result (Mode × Request)
normalize_request goos req =
    if is_empty_request req then err empty_request else normalize_by_mode goos req.mode req
