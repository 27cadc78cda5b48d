-- ===== src/CmdLine/Tests.antt =====
-- Command lines at concrete texts.
use mathlib.Core.List.{flatten}
use opengrab.Prelude.{◌≡◌, refl, List, [], ◌∷◌, arith}
use opengrab.Text.{Text, codes, contains_any, join, replace_rune}
use opengrab.Error.{ok}
use opengrab.CmdLine.{
  split_command_line, split_loop, split_step, join_command_quoting, strconv_quote, quote_args,
}
use opengrab.CmdLine.Split.{AllNonempty, ordinary, split_keeps}
use opengrab.CmdLine.Quoting.{split-join_command_quoting}

abbrev greeting : List Text
greeting = codes "say \"hi\"" ∷ codes "-n" ∷ []

-- An empty argument in quotes is lost.
drops_empty_argument : split_command_line (codes "touch '' b") ≡ ok (codes "touch", codes "b" ∷ [])
unfolding split_command_line split_loop split_step
drops_empty_argument = refl

quotes_as_shown : join_command_quoting (codes "echo") greeting ≡ codes "echo \"say \\\"hi\\\"\" -n"
unfolding join_command_quoting quote_args strconv_quote contains_any join replace_rune
quotes_as_shown = refl

-- `joinCommand` escapes no backslash, so that one in an argument is lost on the way back.
loses_backslash :
    split_command_line (join_command_quoting (codes "dir") (codes "C:\\tmp" ∷ []))
    ≡ ok (codes "dir", codes "C:tmp" ∷ [])
unfolding split_command_line split_loop split_step join_command_quoting quote_args strconv_quote
    contains_any join replace_rune
loses_backslash = refl

split_keeps_example :
    AllNonempty (codes "ls" ∷ codes "a b" ∷ [])
    × (ordinary (flatten (codes "ls" ∷ codes "a b" ∷ [])) ≡ ordinary (codes "ls 'a b'"))
unfolding split_command_line split_loop split_step
split_keeps_example = split_keeps (codes "ls 'a b'") {p = codes "ls"} {args = codes "a b" ∷ []} refl

split-join_command_quoting_example :
    split_command_line (join_command_quoting (codes "echo") greeting) ≡ ok (codes "echo", greeting)
unfolding contains_any
split-join_command_quoting_example =
    split-join_command_quoting (codes "echo") greeting (ground arith) refl (ground arith)
