-- ===== src/Text/Laws.antt =====
-- Laws of Go's string functions.
use opengrab.Prelude.{◌++◌, ℕ, ◌≡◌, refl, true, false, [], ◌∷◌, arith, ap, ◌∙◌}
use opengrab.Text.Split.{cut_lines}
use opengrab.Text.Defs.{
  Text, has_rune, text_eq, is_space, trim_left, trim_right, trim_space, push_unless_blank,
}

pub text_eq→eq : (s t : Text) → text_eq s t ≡ true → s ≡ t
unfolding text_eq
text_eq→eq [] [] h = refl
text_eq→eq [] (d ∷ t) h = cc
text_eq→eq (c ∷ s) [] h = cc
text_eq→eq (c ∷ s) (d ∷ t) h = ground (arith, text_eq→eq s t)

pub text_eq_refl : (s : Text) → text_eq s s ≡ true
unfolding text_eq
text_eq_refl [] = refl
text_eq_refl (c ∷ s) = ground (arith, text_eq_refl s)

trim_right-push_unless_blank :
    (c : ℕ) (t : Text)
    → trim_right t ≡ t
    → trim_right (push_unless_blank c t) ≡ push_unless_blank c t
unfolding trim_right
trim_right-push_unless_blank c [] h = ground arith
trim_right-push_unless_blank c (d ∷ u) h = ap (push_unless_blank c) h

trim_right_idem : (s : Text) → trim_right (trim_right s) ≡ trim_right s
unfolding trim_right
trim_right_idem [] = refl
trim_right_idem (c ∷ s) = trim_right-push_unless_blank c (trim_right s) (trim_right_idem s)

-- A text trimmed on the left does not begin with white space.
pub trim_left_head : (s : Text) {c : ℕ} {t : Text} → trim_left s ≡ c ∷ t → is_space c ≡ false
unfolding trim_left
trim_left_head [] h = cc
trim_left_head (d ∷ s) {c} {t} h = ground (arith, trim_left_head s {c = c} {t = t})

trim_left_cons :
    (c : ℕ) (t : Text)
    → is_space c ≡ false
    → trim_left (push_unless_blank c t) ≡ push_unless_blank c t
unfolding trim_left
trim_left_cons c [] h = ground arith
trim_left_cons c (d ∷ t) h = ground arith

trim_left-trim_right : (s : Text) → trim_left s ≡ s → trim_left (trim_right s) ≡ trim_right s
unfolding trim_right
trim_left-trim_right [] h = unfold trim_left in refl
trim_left-trim_right (c ∷ s) h = trim_left_cons c (trim_right s) (trim_left_head (c ∷ s) h)

trim_left_idem : (s : Text) → trim_left (trim_left s) ≡ trim_left s
unfolding trim_left
trim_left_idem [] = refl
trim_left_idem (c ∷ s) = ground (arith, trim_left_idem s)

-- Trimming twice is trimming once.
pub trim_space_idem : (s : Text) → trim_space (trim_space s) ≡ trim_space s
unfolding trim_space
trim_space_idem s =
    ap trim_right (trim_left-trim_right (trim_left s) (trim_left_idem s))
    ∙ trim_right_idem (trim_left s)

-- A line before a newline is the first.
pub cut_lines-line :
    (line rest : Text)
    → has_rune line b'\n' ≡ false
    → cut_lines (line ++ (b'\n' ∷ rest)) ≡ (line, (cut_lines rest).0 ∷ (cut_lines rest).1)
unfolding cut_lines
cut_lines-line [] rest h = refl
cut_lines-line (c ∷ line) rest h = rw (cut_lines-line line rest (ground arith)) (ground arith)
