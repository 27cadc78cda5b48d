-- ===== src/Text/Search.antt =====
-- Go's functions that search, replace and trim in a text.
use opengrab.Prelude.{
  ℕ, Bool, true, false, ◌&&◌, ◌||◌, [], ◌∷◌, ◌++◌, ◌==◌, length, drop, if◌then◌else◌,
}
use opengrab.Text.Defs.{Text}

-- `strings.HasPrefix(s, prefix)`
unfoldable pub has_prefix : Text → Text → Bool
has_prefix s [] = true
has_prefix [] (d ∷ prefix) = false
has_prefix (c ∷ s) (d ∷ prefix) = c == d && has_prefix s prefix

-- `strings.Contains(s, substr)`
unfoldable pub contains : Text → Text → Bool
contains [] substr = has_prefix [] substr
contains (c ∷ s) substr = has_prefix (c ∷ s) substr || contains s substr

-- `strings.Replace(s, old, new, 1)` for an `old` that is not empty.
unfoldable pub replace_first : Text → Text → Text → Text
replace_first [] old new = []
replace_first (c ∷ s) old new =
    if has_prefix (c ∷ s) old then new ++ drop (length old) (c ∷ s) else c ∷ replace_first s old new

abbrev pub push_unless : ℕ → ℕ → Text → Text
push_unless r c [] = if c == r then [] else c ∷ []
push_unless r c (d ∷ s) = c ∷ d ∷ s

-- `strings.TrimRight(s, cutset)` and `strings.TrimLeft(s, cutset)` for a cutset of one rune.
unfoldable pub trim_right_rune : Text → ℕ → Text
trim_right_rune [] r = []
trim_right_rune (c ∷ s) r = push_unless r c (trim_right_rune s r)

unfoldable pub trim_left_rune : Text → ℕ → Text
trim_left_rune [] r = []
trim_left_rune (c ∷ s) r = if c == r then trim_left_rune s r else c ∷ s
