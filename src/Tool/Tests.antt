-- ===== src/Tool/Tests.antt =====
-- The schema at concrete requests.
use opengrab.Prelude.{◌≡◌, ◌↔◌, refl, true, false, [], ◌∷◌, none, some}
use opengrab.Text.{
  codes, has_text, text_eq, trim_space, trim_left, trim_right, is_space, to_lower, lower_rune,
}
use opengrab.Error.{Error, err}
use opengrab.Request.{Request, normalize_request}
use opengrab.Mode.{auto}
use opengrab.CmdLine.{
  needs_shell, has_unquoted_shell_meta, meta_loop, is_meta, quotes_step, first_token,
  split_command_line, split_loop, split_step,
}
use opengrab.Tool.{
  Arguments, is_valid, valid_properties, is_args_mode, is_shell_mode, is_auto_mode, decode_request,
}
use opengrab.Tool.Schema.{runs_blank, is_valid-refused_iff}

-- The first example of the schema.
abbrev go_version : Arguments
go_version = record {
  mode = some (codes "args");
  program = some (codes "go");
  args = some (codes "version" ∷ []);
  shell_command = none;
  command = none;
  dir = none;
  reason = some (codes "single executable with explicit arguments");
  has_others = false;
}

go_version_valid : is_valid go_version ≡ true
unfolding is_valid valid_properties is_args_mode is_shell_mode is_auto_mode has_text text_eq
go_version_valid = refl

-- The schema gives `mode` a default, and requires it all the same.
default_mode_refused : is_valid (record go_version { mode = none }) ≡ false
unfolding is_valid valid_properties is_args_mode is_shell_mode is_auto_mode has_text text_eq
default_mode_refused = refl

is_valid-refused_iff_example :
    ((e : Error) × (normalize_request (codes "linux") (decode_request go_version) ≡ err e))
    ↔ (runs_blank go_version ≡ true)
is_valid-refused_iff_example = is_valid-refused_iff (codes "linux") go_version go_version_valid

abbrev piped : Request
piped = record {
  mode = auto;
  program = [];
  args = [];
  shell_command = [];
  command = codes "ls 'a b' | wc";
  dir = [];
  reason = [];
}

-- A shell expands a variable between double quotes, which `NeedsShell` does not look into.
quoted_variable : needs_shell (codes "echo \"$HOME\"") (codes "linux") ≡ false
unfolding needs_shell has_unquoted_shell_meta meta_loop is_meta quotes_step first_token
    split_command_line split_loop split_step trim_space trim_left trim_right is_space to_lower
    lower_rune text_eq has_text
quoted_variable = refl
