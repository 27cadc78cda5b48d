-- ===== src/CmdLine/Quoting.antt =====
-- `joinCommand` and `SplitCommandLine`: a command that is joined for display splits back.
use opengrab.Prelude.{
  ◌≡◌, ◌≢◌, sym, ap, ◌∙◌, true, false, List, [], ◌∷◌, ◌++◌, append-nil, append_assoc, if◌then◌else◌,
  arith, inl, inr, Bool-cases,
}
use opengrab.Text.{Text, codes, join, replace_rune, contains_any}
use opengrab.Error.{Result, ok, err, unclosed_quote}
use opengrab.CmdLine.{
  Splitter, is_open, first_and_rest, flush, split_step, split_loop, split_command_line,
  strconv_quote, needs_quotes, quote_args, join_command_quoting,
}

-- A text with no backslash, which `joinCommand` does not escape.
abbrev pub NoBackslash : Text → Type 0
NoBackslash [] = Unit
NoBackslash (r ∷ s) = (r ≢ b'\\') × NoBackslash s

-- A word that survives: it has a rune, and no backslash.
abbrev pub IsWord : Text → Type 0
IsWord w = (w ≢ []) × NoBackslash w

abbrev pub AllWords : List Text → Type 0
AllWords [] = Unit
AllWords (w ∷ ws) = IsWord w × AllWords ws

-- The splitter outside quotes, and between double quotes.
abbrev outside : List Text → Text → Splitter
outside parts buf = record {
  parts = parts;
  buf = buf;
  in_single = false;
  in_double = false;
  escaped = false;
}

abbrev inside : List Text → Text → Splitter
inside parts buf = record {
  parts = parts;
  buf = buf;
  in_single = false;
  in_double = true;
  escaped = false;
}

-- A word that needs no quotes is read as it stands.
split_loop-plain :
    (parts : List Text) (buf w rest : Text)
    → NoBackslash w
    → needs_quotes w ≡ false
    → split_loop (outside parts buf) (w ++ rest) ≡ split_loop (outside parts (buf ++ w)) rest
unfolding split_loop split_step contains_any
split_loop-plain parts buf [] rest h n = rw append-nil
split_loop-plain parts buf (r ∷ w) rest (hr, hw) n =
    ground (arith, split_loop-plain parts (buf ++ r ∷ []) w rest hw, append_assoc buf (r ∷ []) w)

-- Between double quotes an escaped text is read as what it stands for.
split_loop-escaped :
    (parts : List Text) (buf w rest : Text)
    → NoBackslash w
    → split_loop (inside parts buf) (replace_rune w b'"' (codes "\\\"") ++ rest)
      ≡ split_loop (inside parts (buf ++ w)) rest
unfolding split_loop split_step replace_rune
split_loop-escaped parts buf [] rest h = rw append-nil
split_loop-escaped parts buf (r ∷ w) rest (hr, hw) =
    ground (arith, split_loop-escaped parts (buf ++ r ∷ []) w rest hw, append_assoc buf (r ∷ []) w)

split_loop-quoted :
    (parts : List Text) (buf w rest : Text)
    → NoBackslash w
    → split_loop (outside parts buf) (strconv_quote w ++ rest)
      ≡ split_loop (outside parts (buf ++ w)) rest
unfolding strconv_quote split_loop split_step
split_loop-quoted parts buf w rest h =
    rw (append_assoc) (split_loop-escaped parts buf w (b'"' ∷ rest) h)

-- An argument is read back from the form that `joinCommand` gives it.
split_loop-arg :
    (parts : List Text) (buf w rest : Text)
    → NoBackslash w
    → split_loop (outside parts buf) ((if needs_quotes w then strconv_quote w else w) ++ rest)
      ≡ split_loop (outside parts (buf ++ w)) rest
split_loop-arg parts buf w rest h = elim (Bool-cases (needs_quotes w)) [
  | inl quoted ↦ rw quoted (split_loop-quoted parts buf w rest h)
  | inr plain ↦ rw plain (split_loop-plain parts buf w rest h plain)
]

-- Every word behind a space.
unfoldable pub spaced : List Text → Text
spaced [] = []
spaced (w ∷ ws) = b' ' ∷ (w ++ spaced ws)

pub join-spaced : (w : Text) (ws : List Text) → join (w ∷ ws) (codes " ") ≡ w ++ spaced ws
unfolding join spaced
join-spaced w [] = sym (append-nil w)
join-spaced w (v ∷ vs) = ap (λ t. w ++ (b' ' ∷ t)) (join-spaced v vs)

-- The end of `SplitCommandLine`.
abbrev finish : Splitter → Result (Text × List Text)
finish st = if is_open st then err unclosed_quote else first_and_rest (flush st).parts

split_loop-space :
    (parts : List Text) (buf rest : Text)
    → buf ≢ []
    → split_loop (outside parts buf) (b' ' ∷ rest)
      ≡ split_loop (outside (parts ++ buf ∷ []) []) rest
unfolding split_loop split_step
split_loop-space parts buf rest h = ground arith

finish-spaced :
    (parts : List Text) (buf : Text) (args : List Text)
    → buf ≢ []
    → AllWords args
    → finish (split_loop (outside parts buf) (spaced (quote_args args)))
      ≡ first_and_rest (parts ++ buf ∷ args)
unfolding spaced quote_args
finish-spaced parts buf [] h w = unfold split_loop in ground arith
finish-spaced parts buf (a ∷ args) h ((ha, hb), hw) =
    ap finish (
      split_loop-space parts buf _ h
      ∙ split_loop-arg (parts ++ buf ∷ []) [] a (spaced (quote_args args)) hb)
    ∙ finish-spaced (parts ++ buf ∷ []) a args ha hw
    ∙ ap first_and_rest (append_assoc parts (buf ∷ []) (a ∷ args))

-- A command is split back into its program and arguments from the text that `joinCommand` makes of
-- them, whatever quotes and white space the arguments hold, if no word is empty or holds a
-- backslash and the program needs no quotes.
pub split-join_command_quoting :
    (program : Text) (args : List Text)
    → IsWord program
    → needs_quotes program ≡ false
    → AllWords args
    → split_command_line (join_command_quoting program args) ≡ ok (program, args)
unfolding split_command_line join_command_quoting
split-join_command_quoting program args (hp, hb) plain words = rw join-spaced (
    ap finish (split_loop-plain [] [] program (spaced (quote_args args)) hb plain)
    ∙ finish-spaced [] program args hp words)
