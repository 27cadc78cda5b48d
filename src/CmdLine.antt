-- ===== src/CmdLine.antt =====
-- tools/cmdrunner/cmdrunner.go, the functions on command lines: `SplitCommandLine`, `NeedsShell`,
-- `hasUnquotedShellMeta`, `firstToken`, `JoinCommand` and `joinCommand`.
pub mod Meta
mod Tests
pub mod Quoting
pub mod Split
use opengrab.Prelude.{ℕ, Bool, true, false, not, ◌||◌, List, [], ◌∷◌, ◌++◌, ◌==◌, if◌then◌else◌}
use opengrab.Text.{
  Text, codes, is_empty, text_eq, trim_space, to_lower, has_text, has_rune, contains_any, join,
  replace_rune,
}
use opengrab.Error.{Result, ok, err, empty_request, unclosed_quote}

-- The variables of `SplitCommandLine`.
pub record Splitter : Type 0 where
  pub parts : List Text
  pub buf : Text
  pub in_single : Bool
  pub in_double : Bool
  pub escaped : Bool

abbrev pub start : Splitter
start = record { parts = []; buf = []; in_single = false; in_double = false; escaped = false }

-- `flush`
abbrev pub flush : Splitter → Splitter
flush st = if is_empty st.buf then st else record st { parts = st.parts ++ st.buf ∷ []; buf = [] }

-- `buf.WriteRune(r)`
abbrev pub write_rune : Splitter → ℕ → Splitter
write_rune st r = record st { buf = st.buf ++ r ∷ [] }

abbrev pub is_blank_rune : ℕ → Bool
is_blank_rune r = r == b' ' || r == b'\t' || r == b'\n'

-- One round of the loop of `SplitCommandLine`.
unfoldable pub split_step : Splitter → ℕ → Splitter
split_step st r =
    if st.escaped
    then record (write_rune st r) { escaped = false }
    else if r == b'\\'
    then (if st.in_single then write_rune st r else record st { escaped = true })
    else if r == b'\''
    then (if st.in_double then write_rune st r else record st { in_single = not st.in_single })
    else if r == b'"'
    then (if st.in_single then write_rune st r else record st { in_double = not st.in_double })
    else if is_blank_rune r
    then (if st.in_single || st.in_double then write_rune st r else flush st)
    else write_rune st r

unfoldable pub split_loop : Splitter → Text → Splitter
split_loop st [] = st
split_loop st (r ∷ s) = split_loop (split_step st r) s

abbrev pub is_open : Splitter → Bool
is_open st = st.escaped || st.in_single || st.in_double

-- `parts[0]` and `parts[1:]`
abbrev pub first_and_rest : List Text → Result (Text × List Text)
first_and_rest [] = err empty_request
first_and_rest (p ∷ ps) = ok (p, ps)

-- `SplitCommandLine`
unfoldable pub split_command_line : Text → Result (Text × List Text)
split_command_line s =
    let st = split_loop start s in
    if is_open st then err unclosed_quote else first_and_rest (flush st).parts

-- The variables of `hasUnquotedShellMeta`.
pub record Quotes : Type 0 where
  pub in_single : Bool
  pub in_double : Bool
  pub escaped : Bool

abbrev pub unquoted : Quotes
unquoted = record { in_single = false; in_double = false; escaped = false }

abbrev pub shell_meta : Text
shell_meta = codes "><|&;$*?()[]{}`~"

-- Whether the round of the loop at `r` returns true.
unfoldable pub is_meta : Quotes → ℕ → Bool
is_meta q r =
    if q.escaped
    then false
    else if r == b'\\' || r == b'\'' || r == b'"'
    then false
    else if q.in_single || q.in_double
    then false
    else has_rune shell_meta r

-- The variables after a round of the loop that does not return.
unfoldable pub quotes_step : Quotes → ℕ → Quotes
quotes_step q r =
    if q.escaped
    then record q { escaped = false }
    else if r == b'\\'
    then (if q.in_single then q else record q { escaped = true })
    else if r == b'\''
    then (if q.in_double then q else record q { in_single = not q.in_single })
    else if r == b'"'
    then (if q.in_single then q else record q { in_double = not q.in_double })
    else q

unfoldable pub meta_loop : Quotes → Text → Bool
meta_loop q [] = false
meta_loop q (r ∷ s) = if is_meta q r then true else meta_loop (quotes_step q r) s

-- `hasUnquotedShellMeta`
unfoldable pub has_unquoted_shell_meta : Text → Bool
has_unquoted_shell_meta s = meta_loop unquoted s

abbrev pub program_or_empty : Result (Text × List Text) → Text
program_or_empty (ok (p, args)) = p
program_or_empty (err e) = []

-- `firstToken`, which `FirstToken` exports.
unfoldable pub first_token : Text → Text
first_token s = program_or_empty (split_command_line s)

abbrev pub posix_builtins : List Text
posix_builtins =
    codes "cd"
    ∷ codes "export"
    ∷ codes "source"
    ∷ codes "."
    ∷ codes "alias"
    ∷ codes "unalias"
    ∷ codes "set"
    ∷ codes "unset"
    ∷ codes "eval"
    ∷ codes "exec"
    ∷ codes "trap"
    ∷ codes "umask"
    ∷ codes "for"
    ∷ codes "while"
    ∷ codes "if"
    ∷ codes "then"
    ∷ codes "fi"
    ∷ codes "case"
    ∷ codes "function"
    ∷ []

abbrev pub windows_builtins : List Text
windows_builtins =
    codes "cd"
    ∷ codes "dir"
    ∷ codes "copy"
    ∷ codes "del"
    ∷ codes "erase"
    ∷ codes "move"
    ∷ codes "ren"
    ∷ codes "rename"
    ∷ codes "set"
    ∷ codes "type"
    ∷ codes "cls"
    ∷ codes "echo"
    ∷ []

-- The lookup at the end of `NeedsShell`.
abbrev pub is_builtin : Text → Text → Bool
is_builtin goos first =
    if text_eq goos (codes "windows")
    then has_text windows_builtins first
    else has_text posix_builtins first

-- `NeedsShell`
unfoldable pub needs_shell : Text → Text → Bool
needs_shell command goos =
    let s = trim_space command in
    let first = to_lower (first_token s) in
    if is_empty s
    then false
    else if has_unquoted_shell_meta s
    then true
    else if is_empty first
    then false
    else is_builtin goos first

-- `JoinCommand`
unfoldable pub join_command : Text → List Text → Text
join_command program [] = program
join_command program (a ∷ args) = program ++ (codes " " ++ join (a ∷ args) (codes " "))

-- `strconvQuote`
unfoldable pub strconv_quote : Text → Text
strconv_quote s = b'"' ∷ (replace_rune s b'"' (codes "\\\"") ++ b'"' ∷ [])

abbrev pub needs_quotes : Text → Bool
needs_quotes a = contains_any a (codes " \t\n\"'")

-- The loop over the arguments in `joinCommand`.
unfoldable pub quote_args : List Text → List Text
quote_args [] = []
quote_args (a ∷ args) = (if needs_quotes a then strconv_quote a else a) ∷ quote_args args

-- `joinCommand`, which quotes for display; `JoinCommand` above does not.
unfoldable pub join_command_quoting : Text → List Text → Text
join_command_quoting program args = join (program ∷ quote_args args) (codes " ")
