-- ===== src/CmdLine/Meta.antt =====
-- `hasUnquotedShellMeta` reads quotes as `SplitCommandLine` does, and what `joinCommand` quotes is
-- hidden from it.
use opengrab.Prelude.{
  ℕ, ◌≢◌, ◌≡◌, refl, ap, ◌∙◌, Bool, true, false, ◌||◌, List, [], ◌∷◌, ◌++◌, append_assoc,
  if◌then◌else◌, arith, ◌⊎◌, inl, inr, Bool-cases, ◌↔◌,
}
use opengrab.Text.{trim_space, to_lower, Text, codes, replace_rune, contains_any, has_rune}
use opengrab.Error.{err, unclosed_quote}
use opengrab.CmdLine.{
  needs_shell, first_token, is_builtin, Splitter, Quotes, start, unquoted, is_meta, shell_meta,
  quotes_step, meta_loop, has_unquoted_shell_meta, split_step, split_loop, split_command_line,
  strconv_quote, needs_quotes, quote_args, join_command_quoting,
}
use opengrab.CmdLine.Quoting.{
  NoBackslash, IsWord, AllWords, split-join_command_quoting, spaced, join-spaced,
}

-- The splitter's flags.
abbrev flags : Splitter → Quotes
flags st = record { in_single = st.in_single; in_double = st.in_double; escaped = st.escaped }

-- The flags of `hasUnquotedShellMeta` behind a text in which it finds nothing.
abbrev pub quotes_loop : Quotes → Text → Quotes
quotes_loop q [] = q
quotes_loop q (r ∷ s) = quotes_loop (quotes_step q r) s

flags-split_step : (st : Splitter) (r : ℕ) → flags (split_step st r) ≡ quotes_step (flags st) r
unfolding split_step quotes_step
flags-split_step st r = ground arith

flags-split_loop : (st : Splitter) (s : Text) → flags (split_loop st s) ≡ quotes_loop (flags st) s
unfolding split_loop
flags-split_loop st [] = refl
flags-split_loop st (r ∷ s) =
    flags-split_loop (split_step st r) s ∙ ap (λ q. quotes_loop q s) (flags-split_step st r)

abbrev pub is_unclosed : Quotes → Bool
is_unclosed q = q.escaped || q.in_single || q.in_double

-- Splitting fails for want of a closing quote, or of a rune behind a backslash, exactly when the
-- walk of `hasUnquotedShellMeta` ends between quotes or behind a backslash.
pub split_unclosed_iff :
    (s : Text)
    → (split_command_line s ≡ err unclosed_quote) ↔ (is_unclosed (quotes_loop unquoted s) ≡ true)
unfolding split_command_line
split_unclosed_iff s = rw (← flags-split_loop start s) (ground arith)

-- The runes of a word that the shell would act on if they are not quoted.
abbrev pub is_harmless : Text → Bool
is_harmless [] = true
is_harmless (r ∷ s) = if has_rune shell_meta r then false else is_harmless s

-- An argument that `joinCommand` quotes, or that holds nothing for the shell.
abbrev pub AllShielded : List Text → Type 0
AllShielded [] = Unit
AllShielded (w ∷ ws) =
    NoBackslash w × ((needs_quotes w ≡ true) ⊎ (is_harmless w ≡ true)) × AllShielded ws

abbrev between : Quotes
between = record { in_single = false; in_double = true; escaped = false }

meta_loop-escaped :
    (w rest : Text)
    → NoBackslash w
    → meta_loop between (replace_rune w b'"' (codes "\\\"") ++ b'"' ∷ rest)
      ≡ meta_loop unquoted rest
unfolding meta_loop is_meta quotes_step replace_rune
meta_loop-escaped [] rest h = refl
meta_loop-escaped (r ∷ w) rest (hr, hw) = ground (arith, meta_loop-escaped w rest hw)

meta_loop-plain :
    (w rest : Text)
    → NoBackslash w
    → needs_quotes w ≡ false
    → is_harmless w ≡ true
    → meta_loop unquoted (w ++ rest) ≡ meta_loop unquoted rest
unfolding meta_loop is_meta quotes_step contains_any
meta_loop-plain [] rest h n m = refl
meta_loop-plain (r ∷ w) rest (hr, hw) n m = ground (arith, meta_loop-plain w rest hw)

meta_loop-shielded :
    (w rest : Text)
    → NoBackslash w
    → (needs_quotes w ≡ true) ⊎ (is_harmless w ≡ true)
    → meta_loop unquoted ((if needs_quotes w then strconv_quote w else w) ++ rest)
      ≡ meta_loop unquoted rest
unfolding strconv_quote
meta_loop-shielded w rest h shield = elim (Bool-cases (needs_quotes w)) [
  | inl quoted ↦ rw (quoted, append_assoc) (unfold meta_loop is_meta quotes_step in close)
  | inr plain ↦ rw plain (meta_loop-plain w rest h plain (ground arith))
]
  where
    close :
        meta_loop between (replace_rune w b'"' (codes "\\\"") ++ b'"' ∷ rest)
        ≡ meta_loop unquoted rest
    close = meta_loop-escaped w rest h

meta_loop-spaced :
    (args : List Text) → AllShielded args → meta_loop unquoted (spaced (quote_args args)) ≡ false
unfolding spaced quote_args meta_loop is_meta quotes_step
meta_loop-spaced [] h = refl
meta_loop-spaced (a ∷ args) (hb, shield, hs) =
    meta_loop-shielded a (spaced (quote_args args)) hb shield ∙ meta_loop-spaced args hs

-- What `joinCommand` makes of a harmless program that needs no quotes, and of arguments that hold
-- no backslash and are quoted or harmless, shows no shell syntax: quoting hides what the arguments
-- hold.
pub has_unquoted_shell_meta-join_command_quoting :
    (program : Text) (args : List Text)
    → NoBackslash program
    → needs_quotes program ≡ false
    → is_harmless program ≡ true
    → AllShielded args
    → has_unquoted_shell_meta (join_command_quoting program args) ≡ false
unfolding has_unquoted_shell_meta join_command_quoting
has_unquoted_shell_meta-join_command_quoting program args h plain harmless shields =
    rw join-spaced (
      meta_loop-plain program (spaced (quote_args args)) h plain harmless
      ∙ meta_loop-spaced args shields)

-- `NeedsShell` lets such a command go without a shell, if its program is no shell builtin.
pub needs_shell-join_command_quoting :
    (goos program : Text) (args : List Text) (cmd : Text)
    → cmd ≡ join_command_quoting program args
    → trim_space cmd ≡ cmd
    → IsWord program
    → needs_quotes program ≡ false
    → is_harmless program ≡ true
    → is_builtin goos (to_lower program) ≡ false
    → AllWords args
    → AllShielded args
    → needs_shell cmd goos ≡ false
unfolding needs_shell first_token
needs_shell-join_command_quoting goos program args cmd c t w q h b ws ss = ground (
  arith,
  split-join_command_quoting program args w q ws,
  has_unquoted_shell_meta-join_command_quoting program args w.1 q h ss,
)

pub join_command_quoting-ne-nil :
    (program : Text) (args : List Text) → program ≢ [] → join_command_quoting program args ≢ []
unfolding join_command_quoting
join_command_quoting-ne-nil [] args h = absurd (h refl)
join_command_quoting-ne-nil (r ∷ p) args h = rw join-spaced (cc)
