-- ===== src/Excerpt/LogTail.antt =====
-- `tailLog`: of a log that is a header and entries the header and the last entries stay.
use opengrab.Prelude.{
  ◌≡◌, ℕ, zero, suc, ◌+◌, ◌-◌, ◌≤◌, true, false, ◌&&◌, List, [], ◌∷◌, ◌++◌, map, refl, arith, leb,
  ◌==◌, drop, length, length-append, if◌then◌else◌, sym, ap, ◌∙◌, append_assoc, append-nil,
  drop-append, drop-all, drop-zero,
}
use opengrab.Text.{Text, codes, trim_space, join, has_prefix, contains, split, split_from}
use opengrab.Excerpt.{tail_log, tail_of_parts, entry_mark, with_entry_mark}

abbrev pub separator : Text
separator = codes "\n## ["

-- What may stand behind the mark of an entry: no other mark, not even together with the next one.
pub record IsBody (b : Text) : Type 0 where
  pub no_mark : contains (b ++ codes "\n## ") separator ≡ false
  pub no_bracket : has_prefix b entry_mark ≡ false

abbrev pub AllBodies : List Text → Type 0
AllBodies [] = Unit
AllBodies (b ∷ bs) = IsBody b × AllBodies bs

-- A log: a header and the entries behind it.
unfoldable pub entries : List Text → Text
entries [] = []
entries (b ∷ bs) = separator ++ (b ++ entries bs)

has_prefix-long : (s t p : Text) → length p ≤ length s → has_prefix (s ++ t) p ≡ has_prefix s p
unfolding has_prefix
has_prefix-long s t [] h = refl
has_prefix-long [] t (d ∷ p) h = absurd (omega arith)
has_prefix-long (c ∷ s) t (d ∷ p) h = ap (λ b. c == d && b) (has_prefix-long s t p (omega arith))

has_prefix-separator :
    (c : ℕ) (b rest : Text)
    → contains ((c ∷ b) ++ codes "\n## ") separator ≡ false
    → has_prefix ((c ∷ b) ++ (separator ++ rest)) separator ≡ false
unfolding contains
has_prefix-separator c b rest h =
    ap (λ t. has_prefix t separator)
      (sym (append_assoc (c ∷ b) (codes "\n## ") (codes "[" ++ rest)))
    ∙ has_prefix-long ((c ∷ b) ++ codes "\n## ") (codes "[" ++ rest) separator
        (omega (arith, length-append (c ∷ b) (codes "\n## ")))
    ∙ ground arith

contains-tail : (c : ℕ) (s p : Text) → contains (c ∷ s) p ≡ false → contains s p ≡ false
unfolding contains
contains-tail c s p h = ground arith

-- A body is passed over up to the next mark.
split_from-body :
    (part b rest : Text)
    → contains (b ++ codes "\n## ") separator ≡ false
    → split_from separator part zero (b ++ (separator ++ rest))
      ≡ (part ++ b) ∷ split_from separator [] zero rest
unfolding split_from
split_from-body part [] rest h = unfold has_prefix in rw append-nil refl
split_from-body part (c ∷ b) rest h = rw (has_prefix-separator c b rest h) (
    split_from-body (part ++ c ∷ []) b rest (contains-tail c (b ++ codes "\n## ") separator h)
    ∙ ap (λ t. t ∷ split_from separator [] zero rest) (append_assoc part (c ∷ []) b))

has_prefix-append_right : (s t p : Text) → has_prefix s p ≡ true → has_prefix (s ++ t) p ≡ true
unfolding has_prefix
has_prefix-append_right s t [] h = refl
has_prefix-append_right [] t (d ∷ p) h = cc
has_prefix-append_right (c ∷ s) t (d ∷ p) h = ground (arith, has_prefix-append_right s t p)

no_prefix-last :
    (c : ℕ) (b : Text)
    → contains ((c ∷ b) ++ codes "\n## ") separator ≡ false
    → has_prefix (c ∷ b) separator ≡ false
unfolding contains
no_prefix-last c b h = ground (arith, has_prefix-append_right (c ∷ b) (codes "\n## ") separator)

split_from-last :
    (part b : Text)
    → contains (b ++ codes "\n## ") separator ≡ false
    → split_from separator part zero b ≡ (part ++ b) ∷ []
unfolding split_from
split_from-last part [] h = rw append-nil refl
split_from-last part (c ∷ b) h = rw (no_prefix-last c b h) (
    split_from-last (part ++ c ∷ []) b (contains-tail c (b ++ codes "\n## ") separator h)
    ∙ ap (λ t. t ∷ []) (append_assoc part (c ∷ []) b))

split_from-entries :
    (part : Text) (bs : List Text)
    → contains (part ++ codes "\n## ") separator ≡ false
    → AllBodies bs
    → split_from separator [] zero (part ++ entries bs) ≡ part ∷ bs
unfolding entries
split_from-entries part [] h k = rw append-nil (split_from-last [] part h)
split_from-entries part (b ∷ bs) h (kb, k) =
    split_from-body [] part (b ++ entries bs) h
    ∙ ap (λ t. part ∷ t) (split_from-entries b bs kb.no_mark k)

with_entry_mark-map :
    (bs : List Text) → AllBodies bs → map with_entry_mark bs ≡ map (λ b. entry_mark ++ b) bs
with_entry_mark-map [] h = refl
with_entry_mark-map (b ∷ bs) (kb, k) = rw (kb.no_bracket, with_entry_mark-map bs k) refl

AllBodies-append : (bs cs : List Text) → AllBodies (bs ++ cs) → AllBodies cs
AllBodies-append [] cs h = h
AllBodies-append (b ∷ bs) cs (kb, k) = AllBodies-append bs cs k

drop_older :
    (header : Text) (older recent : List Text)
    → drop (length (header ∷ (older ++ recent)) - length recent) (header ∷ (older ++ recent))
      ≡ recent
drop_older header older recent =
    let n : length (header ∷ (older ++ recent)) - length recent ≡ suc (length older) =
      omega (arith, length-append older recent) in
    rw n (
      drop-append (length older) older recent
      ∙ ap (λ t. t ++ drop (length older - length older) recent)
          (drop-all (length older) older (omega arith))
      ∙ drop-zero (length older - length older) recent (omega arith))

few :
    (header : Text) (older recent : List Text)
    → leb (length (header ∷ (older ++ recent))) (length recent + 1) ≡ (length older == 0)
few header older recent = ground (arith, length-append older recent)

-- Of a log that is a header and entries, where no entry holds the mark of another, `tailLog` with a
-- limit of `max` entries leaves the log whole if it has no more, and else the header, trimmed, and
-- the last `max` entries, each with its mark.
pub tail_log_lem :
    (header : Text) (older recent : List Text)
    → contains (header ++ codes "\n## ") separator ≡ false
    → AllBodies (older ++ recent)
    → tail_log (header ++ entries (older ++ recent)) (length recent) ≡ (
        if length older == 0
        then header ++ entries (older ++ recent)
        else trim_space header
          ++ (codes "\n\n" ++ join (map (λ b. entry_mark ++ b) recent) (codes "\n")))
unfolding tail_log split tail_of_parts
tail_log_lem header older recent h k =
    let parts = split_from-entries header (older ++ recent) h k in
    rw
      (
        parts,
        drop_older header older recent,
        with_entry_mark-map recent (AllBodies-append older recent k),
        few header older recent,
      )
      refl
