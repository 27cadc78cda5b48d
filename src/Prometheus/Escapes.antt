-- ===== src/Prometheus/Escapes.antt =====
-- What stands on one line in an exposition: names, escaped texts and labels.
use opengrab.Prelude.{
  ◌≡◌, ℕ, true, false, ◌||◌, List, [], ◌∷◌, ◌++◌, refl, arith, ◌∙◌, ◌==◌, Bool-cases, inl, inr, map,
}
use opengrab.Text.{Text, codes, has_rune, replace_rune, join}
use opengrab.Prometheus.{
  is_namespace_rune, is_label_rune, is_label_start, sanitize_label_name, escape_label_value,
  escape_help, format_label, format_labels, sort_strings,
}
use opengrab.Prometheus.Names.{
  all_runes, name-all_runes, label_start_rune, sanitize_label_name-is_name,
}
use opengrab.Prometheus.Exposition.{LabelMap, braced}

pub has_rune-append : (c : ℕ) (s t : Text) → has_rune (s ++ t) c ≡ (has_rune s c || has_rune t c)
has_rune-append c [] t = refl
has_rune-append c (d ∷ s) t = ground (arith, has_rune-append c s t)

pub name-one_line :
    (name : Text) → all_runes is_namespace_rune name ≡ true → has_rune name b'\n' ≡ false
unfolding all_runes is_namespace_rune
name-one_line [] h = refl
name-one_line (c ∷ name) h = ground (arith, name-one_line name)

label_name-one_line :
    (name : Text) → all_runes is_label_rune name ≡ true → has_rune name b'\n' ≡ false
unfolding all_runes is_label_rune
label_name-one_line [] h = refl
label_name-one_line (c ∷ name) h = ground (arith, label_name-one_line name)

-- Replacing newlines leaves none, and replacing others brings none.
replaced-one_line :
    (s new : Text) → has_rune new b'\n' ≡ false → has_rune (replace_rune s b'\n' new) b'\n' ≡ false
unfolding replace_rune
replaced-one_line [] new h = refl
replaced-one_line (c ∷ s) new h = elim (Bool-cases (c == b'\n')) [
  | inl newline ↦ rw newline (
      has_rune-append b'\n' new (replace_rune s b'\n' new)
      ∙ ground (arith, replaced-one_line s new h))
  | inr other ↦ rw other (ground (arith, replaced-one_line s new h))
]

kept-one_line :
    (s : Text) (old : ℕ) (new : Text)
    → has_rune new b'\n' ≡ false
    → has_rune s b'\n' ≡ false
    → has_rune (replace_rune s old new) b'\n' ≡ false
unfolding replace_rune
kept-one_line [] old new h k = refl
kept-one_line (c ∷ s) old new h k = elim (Bool-cases (c == old)) [
  | inl found ↦ rw found (
      has_rune-append b'\n' new (replace_rune s old new)
      ∙ ground (arith, kept-one_line s old new h))
  | inr other ↦ rw other (ground (arith, kept-one_line s old new h))
]

pub escape_help-one_line : (s : Text) → has_rune (escape_help s) b'\n' ≡ false
unfolding escape_help
escape_help-one_line s = replaced-one_line (replace_rune s b'\\' (codes "\\\\")) (codes "\\n") refl

escape_label_value-one_line : (s : Text) → has_rune (escape_label_value s) b'\n' ≡ false
unfolding escape_label_value
escape_label_value-one_line s =
    let t = replace_rune s b'\\' (codes "\\\\") in
    kept-one_line (replace_rune t b'\n' (codes "\\n")) b'"' (codes "\\\"") refl
      (replaced-one_line t (codes "\\n") refl)

sanitized-one_line : (k : Text) → has_rune (sanitize_label_name k) b'\n' ≡ false
sanitized-one_line k = label_name-one_line (sanitize_label_name k) (
    name-all_runes is_label_start is_label_rune label_start_rune (sanitize_label_name k)
      (sanitize_label_name-is_name k).0)

format_label-one_line : (get : Text → Text) (k : Text) → has_rune (format_label get k) b'\n' ≡ false
format_label-one_line get k =
    let value = escape_label_value (get k) in
    has_rune-append b'\n' (sanitize_label_name k) (codes "=\"" ++ (value ++ codes "\""))
    ∙ rw
        (
          sanitized-one_line k,
          has_rune-append b'\n' value (codes "\""),
          escape_label_value-one_line (get k),
        )
        refl

joined-one_line :
    (get : Text → Text) (ks : List Text)
    → has_rune (join (map (format_label get) ks) (codes ",")) b'\n' ≡ false
unfolding join
joined-one_line get [] = refl
joined-one_line get (k ∷ []) = format_label-one_line get k
joined-one_line get (k ∷ l ∷ ks) =
    let rest = join (map (format_label get) (l ∷ ks)) (codes ",") in
    has_rune-append b'\n' (format_label get k) (codes "," ++ rest)
    ∙ rw (format_label-one_line get k) (joined-one_line get (l ∷ ks))

braced-one_line :
    (ks : List Text) (inner : Text)
    → has_rune inner b'\n' ≡ false
    → has_rune (braced ks inner) b'\n' ≡ false
braced-one_line [] inner h = refl
braced-one_line (k ∷ ks) inner h = has_rune-append b'\n' inner (codes "}") ∙ rw h refl

abbrev pub labels_text : LabelMap → Text
labels_text m = braced m.keys (format_labels m.keys m.get)

pub labels_text-one_line : (m : LabelMap) → has_rune (labels_text m) b'\n' ≡ false
unfolding format_labels
labels_text-one_line m =
    braced-one_line m.keys (join (map (format_label m.get) (sort_strings m.keys)) (codes ","))
      (joined-one_line m.get (sort_strings m.keys))
