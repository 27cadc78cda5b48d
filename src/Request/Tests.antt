-- ===== src/Request/Tests.antt =====
-- Requests at concrete texts.
use opengrab.Prelude.{◌≡◌, ◌↔◌, refl, false, [], ◌∷◌, arith, inl, inr}
use opengrab.Text.{
  Text, codes, trim_space, trim_left, trim_right, is_space, to_lower, lower_rune, has_text, text_eq,
  contains_any, join, replace_rune,
}
use opengrab.Mode.{auto, args, shell}
use opengrab.Error.{Error, ok, err, invalid_args_mode}
use opengrab.CmdLine.{
  split_command_line, split_loop, split_step, join_command_quoting, quote_args, strconv_quote,
  needs_shell, has_unquoted_shell_meta, meta_loop, is_meta, quotes_step, first_token,
}
use opengrab.Request.{
  Request, normalize_request, normalize_by_mode, normalize_auto, is_empty_request, choose_reason,
  args_request, shell_request, why_simple, why_syntax,
}
use opengrab.Request.Normal.{Normalized, normalize_request-Normalized}
use opengrab.Request.Choice.{
  names_work, normalize_request_refuses_iff, normalize_request-join_command_quoting,
}

abbrev linux : Text
linux = codes "linux"

abbrev auto_of : Text → Request
auto_of command = record {
  mode = auto;
  program = [];
  args = [];
  shell_command = [];
  command = command;
  dir = codes "/tmp";
  reason = [];
}

abbrev piped : Request
piped = auto_of (codes "ls | wc")

abbrev piped_after : Request
piped_after = shell_request piped (codes "ls | wc") why_syntax

piped_goes_to_shell : normalize_request linux piped ≡ ok (shell, piped_after)
unfolding normalize_request normalize_by_mode normalize_auto is_empty_request choose_reason
    trim_space trim_left trim_right is_space needs_shell has_unquoted_shell_meta meta_loop is_meta
    quotes_step
piped_goes_to_shell = refl

-- An `auto` command can name a blank program, which `args` mode refuses.
abbrev blank_program : Request
blank_program = args_request (auto_of (codes "' ' x")) (codes " ") (codes "x" ∷ []) why_simple

blank_program_accepted :
    normalize_request linux (auto_of (codes "' ' x")) ≡ ok (args, blank_program)
unfolding normalize_request normalize_by_mode normalize_auto is_empty_request choose_reason
    trim_space trim_left trim_right is_space needs_shell has_unquoted_shell_meta meta_loop is_meta
    quotes_step first_token split_command_line split_loop split_step to_lower lower_rune has_text
    text_eq
blank_program_accepted = refl

blank_program_refused : normalize_request linux blank_program ≡ err invalid_args_mode
unfolding normalize_request normalize_by_mode is_empty_request trim_space trim_left trim_right
    is_space
blank_program_refused = refl

normalize_request-Normalized_example : Normalized piped shell piped_after
normalize_request-Normalized_example = normalize_request-Normalized linux piped piped_goes_to_shell

normalize_request_refuses_iff_example :
    ((e : Error) × (normalize_request linux piped ≡ err e)) ↔ (names_work auto piped ≡ false)
normalize_request_refuses_iff_example = normalize_request_refuses_iff linux piped

abbrev grep : Request
grep = auto_of (codes "grep \"a | b\" notes")

normalize_request-join_command_quoting_example :
    normalize_request linux grep
    ≡ ok (
      args,
      args_request grep
          (codes "grep")
          (codes "a | b" ∷ codes "notes" ∷ [])
          (choose_reason grep.reason why_simple),
    )
unfolding trim_space trim_left trim_right is_space contains_any to_lower lower_rune has_text text_eq
    join_command_quoting quote_args strconv_quote join replace_rune
normalize_request-join_command_quoting_example =
    normalize_request-join_command_quoting linux grep (codes "grep")
      (codes "a | b" ∷ codes "notes" ∷ []) refl refl refl refl refl (ground arith) refl refl refl
      (ground arith) (omega arith, inl refl, (omega arith, inr refl, tt))
