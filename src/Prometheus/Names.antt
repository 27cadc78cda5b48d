-- ===== src/Prometheus/Names.antt =====
-- Prometheus's grammar of names, and the names that the sanitizers return.
use opengrab.Prelude.{
  ◌≡◌, ℕ, Bool, true, false, ◌&&◌, [], ◌∷◌, ◌++◌, map, refl, arith, ap, ◌∙◌, ◌≢◌,
}
use opengrab.Text.{Text, is_blank, is_empty, is_space, trim_space, trim_left, trim_right}
use opengrab.Prometheus.{
  is_label_rune, is_label_start, or_underscore, write_first, label_name_of, sanitize_label_name,
  is_namespace_rune, is_namespace_start, namespace_of, sanitize_metric_namespace,
}

unfoldable pub all_runes : (ℕ → Bool) → Text → Bool
all_runes ok [] = true
all_runes ok (r ∷ s) = ok r && all_runes ok s

-- The grammar: a first rune and any number of further ones.
unfoldable pub is_name : (ℕ → Bool) → (ℕ → Bool) → Text → Bool
is_name start_ok ok [] = false
is_name start_ok ok (r ∷ s) = start_ok r && all_runes ok s

all_runes-map :
    (ok : ℕ → Bool) → ok b'_' ≡ true → (s : Text) → all_runes ok (map (or_underscore ok) s) ≡ true
unfolding all_runes
all_runes-map ok h [] = refl
all_runes-map ok h (r ∷ s) = ground (arith, all_runes-map ok h s)

map-or_underscore :
    (ok : ℕ → Bool) (s : Text) → all_runes ok s ≡ true → map (or_underscore ok) s ≡ s
unfolding all_runes
map-or_underscore ok [] h = refl
map-or_underscore ok (r ∷ s) h = ground (arith, map-or_underscore ok s)

label_rune_solid : (r : ℕ) → is_label_rune r ≡ true → is_space r ≡ false
unfolding is_label_rune is_space
label_rune_solid r h = ground arith

namespace_rune_solid : (r : ℕ) → is_namespace_rune r ≡ true → is_space r ≡ false
unfolding is_namespace_rune is_space
namespace_rune_solid r h = ground arith

module _ (ok : ℕ → Bool) (solid : (r : ℕ) → ok r ≡ true → is_space r ≡ false) where
  trim_right-solid : (s : Text) → all_runes ok s ≡ true → trim_right s ≡ s
  unfolding all_runes trim_right
  trim_right-solid [] h = refl
  trim_right-solid (r ∷ []) h = ground (arith, solid r)
  trim_right-solid (r ∷ c ∷ s) h = ground (arith, trim_right-solid (c ∷ s))

  trim_space-solid : (s : Text) → all_runes ok s ≡ true → trim_space s ≡ s
  unfolding trim_space trim_left
  trim_space-solid [] h = unfold trim_right in refl
  trim_space-solid (r ∷ s) h = unfold all_runes in ground (arith, solid r, trim_right-solid (r ∷ s))

-- What the loops of both sanitizers write.
abbrev written : (ℕ → Bool) → (ℕ → Bool) → ℕ → Text → Text
written start_ok ok r s = write_first start_ok (or_underscore ok r) ++ map (or_underscore ok) s

written-is_name :
    (start_ok ok : ℕ → Bool)
    → start_ok b'_' ≡ true
    → ok b'_' ≡ true
    → (r : ℕ) (s : Text) → is_name start_ok ok (written start_ok ok r s) ≡ true
unfolding is_name all_runes
written-is_name start_ok ok hs ho r s = ground (arith, all_runes-map ok ho s)

written_name :
    (start_ok ok : ℕ → Bool)
    → ((r : ℕ) → start_ok r ≡ true → ok r ≡ true)
    → (r : ℕ) (s : Text) → is_name start_ok ok (r ∷ s) ≡ true
    → written start_ok ok r s ≡ r ∷ s
unfolding is_name
written_name start_ok ok start r s h = ground (arith, start r, map-or_underscore ok s)

pub name-all_runes :
    (start_ok ok : ℕ → Bool)
    → ((r : ℕ) → start_ok r ≡ true → ok r ≡ true)
    → (s : Text) → is_name start_ok ok s ≡ true
    → all_runes ok s ≡ true
unfolding is_name all_runes
name-all_runes start_ok ok start [] h = refl
name-all_runes start_ok ok start (r ∷ s) h = ground (arith, start r)

pub label_start_rune : (r : ℕ) → is_label_start r ≡ true → is_label_rune r ≡ true
unfolding is_label_rune is_label_start
label_start_rune r h = ground arith

pub namespace_start_rune : (r : ℕ) → is_namespace_start r ≡ true → is_namespace_rune r ≡ true
unfolding is_namespace_rune is_namespace_start
namespace_start_rune r h = ground arith

pub label_name_of-is_name :
    (s : Text) → is_name is_label_start is_label_rune (label_name_of s) ≡ true
label_name_of-is_name [] = unfold is_name all_runes is_label_start is_label_rune in refl
label_name_of-is_name (r ∷ s) =
    written-is_name is_label_start is_label_rune (unfold is_label_start in refl)
      (unfold is_label_rune in refl) r s

sanitize_label_name-keeps :
    (s : Text) → is_name is_label_start is_label_rune s ≡ true → sanitize_label_name s ≡ s
unfolding sanitize_label_name
sanitize_label_name-keeps [] h = unfold is_name in cc
sanitize_label_name-keeps (r ∷ s) h =
    ap label_name_of (
      trim_space-solid is_label_rune label_rune_solid (r ∷ s)
        (name-all_runes is_label_start is_label_rune label_start_rune (r ∷ s) h))
    ∙ written_name is_label_start is_label_rune label_start_rune r s h

-- Whatever the key, `sanitizeLabelName` returns a label name of Prometheus's grammar, and a key that
-- is one already stays as it is.
pub sanitize_label_name-is_name :
    (s : Text)
    → (is_name is_label_start is_label_rune (sanitize_label_name s) ≡ true)
      × (is_name is_label_start is_label_rune s ≡ true → sanitize_label_name s ≡ s)
unfolding sanitize_label_name
sanitize_label_name-is_name s = (label_name_of-is_name (trim_space s), sanitize_label_name-keeps s)

is_empty→≢ : (s : Text) → is_empty s ≡ false → s ≢ []
is_empty→≢ [] h = cc
is_empty→≢ (r ∷ s) h = ground arith

pub namespace_of-is_name :
    (s : Text) → s ≢ [] → is_name is_namespace_start is_namespace_rune (namespace_of s) ≡ true
namespace_of-is_name [] h = ground arith
namespace_of-is_name (r ∷ s) h =
    written-is_name is_namespace_start is_namespace_rune (unfold is_namespace_start in refl)
      (unfold is_namespace_rune in refl) r s

sanitize_metric_namespace-keeps :
    (s : Text)
    → is_name is_namespace_start is_namespace_rune s ≡ true
    → sanitize_metric_namespace s ≡ s
unfolding sanitize_metric_namespace
sanitize_metric_namespace-keeps [] h = unfold is_name in cc
sanitize_metric_namespace-keeps (r ∷ s) h =
    ap namespace_of (
      trim_space-solid is_namespace_rune namespace_rune_solid (r ∷ s)
        (name-all_runes is_namespace_start is_namespace_rune namespace_start_rune (r ∷ s) h))
    ∙ written_name is_namespace_start is_namespace_rune namespace_start_rune r s h

-- The namespace that is not blank becomes a metric name of Prometheus's grammar, and one that is a
-- metric name already stays as it is.
pub sanitize_metric_namespace-is_name :
    (s : Text)
    → (is_blank s ≡ false
        → is_name is_namespace_start is_namespace_rune (sanitize_metric_namespace s) ≡ true)
      × (is_name is_namespace_start is_namespace_rune s ≡ true → sanitize_metric_namespace s ≡ s)
unfolding sanitize_metric_namespace
sanitize_metric_namespace-is_name s = (
  λ h. namespace_of-is_name (trim_space s) (is_empty→≢ (trim_space s) h),
  sanitize_metric_namespace-keeps s,
)
