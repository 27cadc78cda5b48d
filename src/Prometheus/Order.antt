-- ===== src/Prometheus/Order.antt =====
-- `formatLabels` and the order in which Go's `range` happens to yield a map's keys.
use mathlib.Core.List.{Perm}
use mathlib.Core.List.Perm.{foldr-eq}
use opengrab.Prelude.{◌≡◌, ◌⊎◌, inl, inr, true, List, [], ◌∷◌, map, refl, arith, ap}
use opengrab.Text.{Text, codes, join}
use opengrab.Prometheus.{text_leb, insert_string, format_label, format_labels}

text_leb_total : (s t : Text) → (text_leb s t ≡ true) ⊎ (text_leb t s ≡ true)
unfolding text_leb
text_leb_total [] t = inl refl
text_leb_total (c ∷ s) [] = inr refl
text_leb_total (c ∷ s) (d ∷ t) = ground (arith, text_leb_total s t)

text_leb_trans : (s t u : Text) → text_leb s t ≡ true → text_leb t u ≡ true → text_leb s u ≡ true
unfolding text_leb
text_leb_trans [] t u h k = refl
text_leb_trans (c ∷ s) [] u h k = ground arith
text_leb_trans (c ∷ s) (d ∷ t) [] h k = ground arith
text_leb_trans (c ∷ s) (d ∷ t) (e ∷ u) h k = ground (arith, text_leb_trans s t u)

text_leb_antisym : (s t : Text) → text_leb s t ≡ true → text_leb t s ≡ true → s ≡ t
unfolding text_leb
text_leb_antisym [] [] h k = refl
text_leb_antisym [] (d ∷ t) h k = ground arith
text_leb_antisym (c ∷ s) [] h k = ground arith
text_leb_antisym (c ∷ s) (d ∷ t) h k = ground (arith, text_leb_antisym s t)

-- Two keys may be inserted in either order.
insert_string_comm :
    (k l : Text) (ls : List Text)
    → insert_string k (insert_string l ls) ≡ insert_string l (insert_string k ls)
unfolding insert_string
insert_string_comm k l [] = ground (arith, text_leb_total k l, text_leb_antisym k l)
insert_string_comm k l (m ∷ ls) = ground (
  arith,
  text_leb_total k l,
  text_leb_antisym k l,
  text_leb_trans k l m,
  text_leb_trans l k m,
  insert_string_comm k l ls,
)

-- `formatLabels` writes the same text in whatever order `range` yields the keys of the map.
pub format_labels-Perm :
    {keys keys' : List Text} (get : Text → Text)
    → Perm keys keys'
    → format_labels keys get ≡ format_labels keys' get
unfolding format_labels
format_labels-Perm {keys} {keys'} get p =
    ap (λ ks. join (map (format_label get) ks) (codes ","))
      (foldr-eq (hlevel) insert_string insert_string_comm p [])
