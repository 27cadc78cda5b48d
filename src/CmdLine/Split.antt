-- ===== src/CmdLine/Split.antt =====
-- `SplitCommandLine`: what the words that it returns have to do with its input.
use mathlib.Core.List.{flatten}
use mathlib.Core.Path.{subst}
use opengrab.Prelude.{
  ℕ, ◌≡◌, ◌≢◌, refl, sym, ap, ◌∙◌, Bool, true, ◌||◌, List, [], ◌∷◌, ◌++◌, append-nil, append_assoc,
  ◌==◌, if◌then◌else◌, arith, ◌⊎◌, inl, inr,
}
use opengrab.Text.{Text}
use opengrab.Error.{ok}
use opengrab.CmdLine.{
  Splitter, start, flush, is_blank_rune, split_step, split_loop, split_command_line,
}

-- The runes to which the splitter gives a meaning of their own.
abbrev pub is_special : ℕ → Bool
is_special r = r == b'\\' || r == b'\'' || r == b'"' || is_blank_rune r

-- The other runes of a text, in order.
abbrev pub ordinary : Text → Text
ordinary [] = []
ordinary (r ∷ s) = if is_special r then ordinary s else r ∷ ordinary s

ordinary-append : (s t : Text) → ordinary (s ++ t) ≡ ordinary s ++ ordinary t
ordinary-append [] t = refl
ordinary-append (r ∷ s) t = ground (arith, ordinary-append s t)

-- What a splitter has read and kept: its words and the one that it is at.
content : Splitter → Text
unfolding flatten
content st = flatten st.parts ++ st.buf

flatten-concat : (ps : List Text) (b : Text) → flatten (ps ++ b ∷ []) ≡ flatten ps ++ b
unfolding flatten
flatten-concat [] b = append-nil b
flatten-concat (p ∷ ps) b =
    ap (λ t. p ++ t) (flatten-concat ps b) ∙ sym (append_assoc p (flatten ps) b)

-- A round keeps its rune, or the rune is special.
content-split_step :
    (st : Splitter) (r : ℕ)
    → (content (split_step st r) ≡ content st ++ r ∷ [])
      ⊎ ((is_special r ≡ true) × (content (split_step st r) ≡ content st))
unfolding split_step content
content-split_step st r = ground (
  arith,
  append_assoc (flatten st.parts) st.buf (r ∷ []),
  flatten-concat st.parts st.buf,
  append-nil (flatten st.parts),
  append-nil (flatten st.parts ++ st.buf),
)

ordinary-special : (s : Text) (r : ℕ) → is_special r ≡ true → ordinary (s ++ r ∷ []) ≡ ordinary s
ordinary-special s r h = ordinary-append s (r ∷ []) ∙ rw h (append-nil (ordinary s))

ordinary-content-split_step :
    (st : Splitter) (r : ℕ) → ordinary (content (split_step st r)) ≡ ordinary (content st ++ r ∷ [])
ordinary-content-split_step st r = elim (content-split_step st r) [
  | inl kept ↦ ap ordinary kept
  | inr (special, same) ↦ ap ordinary same ∙ sym (ordinary-special (content st) r special)
]

ordinary-content-split_loop :
    (st : Splitter) (s : Text)
    → ordinary (content (split_loop st s)) ≡ ordinary (content st) ++ ordinary s
unfolding split_loop
ordinary-content-split_loop st [] = sym (append-nil (ordinary (content st)))
ordinary-content-split_loop st (r ∷ s) =
    ordinary-content-split_loop (split_step st r) s
    ∙ ap (λ t. t ++ ordinary s)
        (ordinary-content-split_step st r ∙ ordinary-append (content st) (r ∷ []))
    ∙ append_assoc (ordinary (content st)) (ordinary (r ∷ [])) (ordinary s)
    ∙ ap (λ t. ordinary (content st) ++ t) (sym (ordinary-append (r ∷ []) s))

flatten-flush : (st : Splitter) → flatten (flush st).parts ≡ content st
unfolding content
flatten-flush st = ground (arith, flatten-concat st.parts st.buf, append-nil (flatten st.parts))

-- No word is empty.
abbrev pub AllNonempty : List Text → Type 0
AllNonempty [] = Unit
AllNonempty (p ∷ ps) = (p ≢ []) × AllNonempty ps

AllNonempty-concat :
    (ps : List Text) (b : Text) → AllNonempty ps → b ≢ [] → AllNonempty (ps ++ b ∷ [])
AllNonempty-concat [] b h hb = (hb, tt)
AllNonempty-concat (p ∷ ps) b h hb = (h.0, AllNonempty-concat ps b h.1 hb)

flush-AllNonempty : (st : Splitter) → AllNonempty st.parts → AllNonempty (flush st).parts
flush-AllNonempty st h = ground (arith, AllNonempty-concat st.parts st.buf h)

split_step-AllNonempty :
    (st : Splitter) (r : ℕ) → AllNonempty st.parts → AllNonempty (split_step st r).parts
unfolding split_step
split_step-AllNonempty st r h = ground (arith, AllNonempty-concat st.parts st.buf h)

split_loop-AllNonempty :
    (st : Splitter) (s : Text) → AllNonempty st.parts → AllNonempty (split_loop st s).parts
unfolding split_loop
split_loop-AllNonempty st [] h = h
split_loop-AllNonempty st (r ∷ s) h =
    split_loop-AllNonempty (split_step st r) s (split_step-AllNonempty st r h)

-- What a successful split returns is the words of the last state.
split_command_line_ok :
    (s : Text) {p : Text} {args : List Text}
    → split_command_line s ≡ ok (p, args)
    → (flush (split_loop start s)).parts ≡ p ∷ args
unfolding split_command_line
split_command_line_ok s h = ground arith

-- A successful split returns no empty word, and its words hold the ordinary runes of the command
-- line (all but spaces, tabs, newlines, quotes and backslashes), each of them once and in order.
pub split_keeps :
    (s : Text) {p : Text} {args : List Text}
    → split_command_line s ≡ ok (p, args)
    → AllNonempty (p ∷ args) × (ordinary (flatten (p ∷ args)) ≡ ordinary s)
split_keeps s h =
    let e = split_command_line_ok s h in
    let st = split_loop start s in
    (
      subst AllNonempty e (flush-AllNonempty st (split_loop-AllNonempty start s tt)),
      ap (λ ps. ordinary (flatten ps)) (sym e)
          ∙ ap ordinary (flatten-flush st)
          ∙ unfold content flatten in ordinary-content-split_loop start s,
    )
