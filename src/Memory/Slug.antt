-- ===== src/Memory/Slug.antt =====
-- `slugify`: the form of a slug.
use opengrab.Prelude.{
  ◌≡◌, ℕ, Bool, true, false, not, ◌&&◌, ◌||◌, [], ◌∷◌, refl, arith, ◌==◌, if◌then◌else◌,
}
use opengrab.Text.{
  Text, is_empty, to_lower, trim_space, push_unless, trim_right_rune, trim_left_rune,
}
use opengrab.Memory.{is_slug_rune, replace_others, slugify}

-- Words of `[a-z0-9]+` with one dash between two, behind a dash or not.
unfoldable pub is_words : Bool → Text → Bool
is_words behind_dash [] = not behind_dash
is_words behind_dash (r ∷ s) =
    if r == b'-' then not behind_dash && is_words true s else is_slug_rune r && is_words false s

-- The empty text, or words that neither begin nor end with a dash.
abbrev pub is_slug : Text → Bool
is_slug s = is_empty s || is_words true s

-- The same, but there may be a dash at the end.
unfoldable has_single_dashes : Bool → Text → Bool
has_single_dashes behind_dash [] = true
has_single_dashes behind_dash (r ∷ s) =
    if r == b'-'
    then not behind_dash && has_single_dashes true s
    else is_slug_rune r && has_single_dashes false s

has_single_dashes-replace_others :
    (in_match : Bool) (s : Text) → has_single_dashes in_match (replace_others in_match s) ≡ true
unfolding has_single_dashes replace_others
has_single_dashes-replace_others in_match [] = refl
has_single_dashes-replace_others true (r ∷ s) =
    ground
      (arith, has_single_dashes-replace_others true s, has_single_dashes-replace_others false s)
has_single_dashes-replace_others false (r ∷ s) =
    ground
      (arith, has_single_dashes-replace_others true s, has_single_dashes-replace_others false s)

has_single_dashes-trim_left_rune :
    (behind_dash : Bool) (s : Text)
    → has_single_dashes behind_dash s ≡ true
    → has_single_dashes true (trim_left_rune s b'-') ≡ true
unfolding has_single_dashes trim_left_rune
has_single_dashes-trim_left_rune behind_dash [] h = refl
has_single_dashes-trim_left_rune behind_dash (r ∷ s) h =
    ground (arith, has_single_dashes-trim_left_rune true s)

is_words-push_unless :
    (behind_dash : Bool) (r : ℕ) (t : Text)
    → (if r == b'-'
        then not behind_dash && (is_empty t || is_words true t)
        else is_slug_rune r && (is_empty t || is_words false t))
      ≡ true
    → (is_empty (push_unless b'-' r t) || is_words behind_dash (push_unless b'-' r t)) ≡ true
unfolding is_words
is_words-push_unless true r [] h = ground arith
is_words-push_unless false r [] h = ground arith
is_words-push_unless behind_dash r (c ∷ t) h = ground arith

is_words-trim_right_rune :
    (behind_dash : Bool) (s : Text)
    → has_single_dashes behind_dash s ≡ true
    → (is_empty (trim_right_rune s b'-') || is_words behind_dash (trim_right_rune s b'-')) ≡ true
unfolding has_single_dashes trim_right_rune
is_words-trim_right_rune behind_dash [] h = refl
is_words-trim_right_rune behind_dash (r ∷ s) h =
    is_words-push_unless behind_dash r (trim_right_rune s b'-')
      (ground (arith, is_words-trim_right_rune true s, is_words-trim_right_rune false s))

-- Whatever the text, its slug is empty, or consists of words of lower case letters and digits with
-- one dash between two, and neither begins nor ends with a dash.
pub slugify-is_slug : (text : Text) → is_slug (slugify text) ≡ true
unfolding slugify
slugify-is_slug text =
    let s = to_lower (trim_space text) in
    is_words-trim_right_rune true (trim_left_rune (replace_others false s) b'-') (
      has_single_dashes-trim_left_rune false (replace_others false s)
        (has_single_dashes-replace_others false s))
