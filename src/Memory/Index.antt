-- ===== src/Memory/Index.antt =====
-- `insertIndexEntry`: where the entry goes, and that it goes there once.
use opengrab.Prelude.{
  ◌≡◌, ◌≢◌, ◌⊎◌, ℕ, Bool, true, false, [], ◌∷◌, ◌++◌, refl, arith, length, drop, Option, none, some,
  ap, ◌∙◌, sym, append_assoc, append-nil, inl, inr, Bool-cases, Option-cases,
}
use opengrab.Text.{Text, codes, has_prefix, contains, replace_first, trim_right_rune}
use opengrab.Memory.{
  marker, with_marker, insert_entry, insert_index_entry, text_or_empty, write_file,
}

pub has_prefix-append : (p s : Text) → has_prefix (p ++ s) p ≡ true
unfolding has_prefix
has_prefix-append [] s = refl
has_prefix-append (c ∷ p) s = ground (arith, has_prefix-append p s)

contains-prefix : (p s : Text) → has_prefix s p ≡ true → contains s p ≡ true
unfolding contains
contains-prefix p [] h = h
contains-prefix p (c ∷ s) h = ground arith

contains-append : (a p s : Text) → contains (a ++ (p ++ s)) p ≡ true
unfolding contains
contains-append [] p s = contains-prefix p (p ++ s) (has_prefix-append p s)
contains-append (c ∷ a) p s = ground (arith, contains-append a p s)

has_prefix→append : (s p : Text) → has_prefix s p ≡ true → s ≡ p ++ drop (length p) s
unfolding has_prefix
has_prefix→append s [] h = refl
has_prefix→append [] (d ∷ p) h = cc
has_prefix→append (c ∷ s) (d ∷ p) h = ground (arith, has_prefix→append s p)

-- Where a text is found, it is the first place, and there it is replaced.
abbrev Replaced : Text → Text → Text → Type 0
Replaced s old new =
    (before rest : Text) × (s ≡ before ++ (old ++ rest))
    × (replace_first s old new ≡ before ++ (new ++ rest))

replace_first-here :
    (c : ℕ) (s old new : Text) → has_prefix (c ∷ s) old ≡ true → Replaced (c ∷ s) old new
unfolding replace_first
replace_first-here c s old new h =
    ([], drop (length old) (c ∷ s), has_prefix→append (c ∷ s) old h, rw h refl)

replace_first-later :
    (c : ℕ) (s old new : Text)
    → has_prefix (c ∷ s) old ≡ false
    → Replaced s old new
    → Replaced (c ∷ s) old new
unfolding replace_first
replace_first-later c s old new h (before, rest, e, r) =
    (c ∷ before, rest, ap (λ t. c ∷ t) e, rw h (ap (λ t. c ∷ t) r))

contains-Replaced : (s old new : Text) → old ≢ [] → contains s old ≡ true → Replaced s old new
unfolding contains
contains-Replaced [] [] new h k = ground arith
contains-Replaced [] (d ∷ old) new h k = unfold has_prefix in cc
contains-Replaced (c ∷ s) old new h k = elim (Bool-cases (has_prefix (c ∷ s) old)) [
  | inl here ↦ replace_first-here c s old new here
  | inr later ↦ replace_first-later c s old new later (contains-Replaced s old new h (ground arith))
]

contains-with_marker : (content : Text) → contains (with_marker content) marker ≡ true
unfolding with_marker
contains-with_marker content = elim (Bool-cases (contains content marker)) [
  | inl found ↦ rw found found
  | inr missing ↦ rw missing (
      ap (λ t. contains t marker)
        (sym (append_assoc (trim_right_rune content b'\n') (codes "\n\n") marker))
      ∙ ap (λ t. contains ((trim_right_rune content b'\n' ++ codes "\n\n") ++ t) marker)
          (sym (append-nil marker))
      ∙ contains-append (trim_right_rune content b'\n' ++ codes "\n\n") marker [])
]

-- What an insertion leaves: the entry behind the first marker, which is put at the end if there is
-- none, and nothing else changed.
abbrev pub Inserted : Text → Text → Text → Type 0
Inserted content entry after =
    (contains after entry ≡ true)
    × ((before rest : Text) × (with_marker content ≡ before ++ (marker ++ rest))
        × (after ≡ before ++ (marker ++ (entry ++ rest))))

insert-Inserted :
    (content entry : Text) {after : Text}
    → insert_entry content entry ≡ some after
    → Inserted content entry after
unfolding insert_entry
insert-Inserted content entry {after} h =
    let (before, rest, e, r) =
      contains-Replaced (with_marker content) marker (marker ++ entry) (ground arith)
        (contains-with_marker content) in
    let after_is : after ≡ before ++ (marker ++ (entry ++ rest)) =
      ground (arith, r, append_assoc marker entry rest) in
    (
      ap (λ t. contains t entry) (after_is ∙ sym (append_assoc before marker (entry ++ rest)))
          ∙ contains-append (before ++ marker) entry rest,
      (before, rest, e, after_is),
    )

found : (content entry : Text) → insert_entry content entry ≡ none → contains content entry ≡ true
unfolding insert_entry
found content entry h = ground arith

insert_entry-found :
    (content entry : Text) → contains content entry ≡ true → insert_entry content entry ≡ none
unfolding insert_entry
insert_entry-found content entry h = rw h refl

written :
    (write_ok : Bool) (file : Option Text) (content entry after : Text)
    → Inserted content entry after
    → let result = write_file write_ok file (some after) in
      ((result.0 ≡ file) ⊎ Inserted content entry (text_or_empty result.0))
      × (result.1 ≡ false → result.0 ≡ file)
written true file content entry after i = (inr i, λ h. cc)
written false file content entry after i = (inl refl, λ h. refl)

again :
    (write_ok later_ok : Bool) (file : Option Text) (entry after : Text)
    → contains after entry ≡ true
    → (write_file write_ok file (some after)).1 ≡ true
    → let left = (write_file write_ok file (some after)).0 in
      (contains (text_or_empty left) entry ≡ true)
      × (insert_index_entry true later_ok left entry ≡ (left, true))
unfolding insert_index_entry
again true later_ok file entry after c h = (c, rw (insert_entry-found after entry c) refl)
again false later_ok file entry after c h = ground arith

pub insert_entry_cases :
    (content entry : Text)
    → ((insert_entry content entry ≡ none) × (contains content entry ≡ true))
      ⊎ ((after : Text) × (insert_entry content entry ≡ some after)
          × (Inserted content entry after))
insert_entry_cases content entry = elim (Option-cases (insert_entry content entry)) [
  | inl unchanged ↦ inl (unchanged, found content entry unchanged)
  | inr (after, e) ↦ inr (after, e, insert-Inserted content entry e)
]

-- On a file that can be read or is missing `insertIndexEntry` leaves the file, or the entry stands behind the first marker, which is put at
-- the end if there is none, and the rest is as it was. It leaves the file if it fails.
pub insert_index_entry-Inserted :
    (write_ok : Bool) (file : Option Text) (entry : Text)
    → let result = insert_index_entry true write_ok file entry in
      ((result.0 ≡ file) ⊎ Inserted (text_or_empty file) entry (text_or_empty result.0))
      × (result.1 ≡ false → result.0 ≡ file)
unfolding insert_index_entry
insert_index_entry-Inserted write_ok file entry =
    elim (insert_entry_cases (text_or_empty file) entry) [
      | inl (unchanged, found) ↦ rw unchanged (inl refl, λ h. refl)
      | inr (after, e, i) ↦ rw e (written write_ok file (text_or_empty file) entry after i)
    ]

-- Once `insertIndexEntry` has succeeded on a file that can be read or is missing the index has the entry, and inserting it again succeeds and
-- changes nothing, whether or not the file can be written by then.
pub insert_index_entry_again :
    (write_ok later_ok : Bool) (file : Option Text) (entry : Text)
    → (insert_index_entry true write_ok file entry).1 ≡ true
    → let after = (insert_index_entry true write_ok file entry).0 in
      (contains (text_or_empty after) entry ≡ true)
      × (insert_index_entry true later_ok after entry ≡ (after, true))
unfolding insert_index_entry
insert_index_entry_again write_ok later_ok file entry =
    elim (insert_entry_cases (text_or_empty file) entry) [
      | inl (unchanged, found) ↦ rw unchanged (λ h. (found, rw unchanged refl))
      | inr (after, e, i) ↦ rw e (again write_ok later_ok file entry after i.0)
    ]
