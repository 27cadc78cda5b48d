-- ===== src/Text/Split.antt =====
-- Go's functions that take a text apart.
use opengrab.Prelude.{ℕ, zero, suc, ◌-◌, List, [], ◌∷◌, ◌++◌, length, if◌then◌else◌, ◌==◌}
use opengrab.Text.Defs.{Text, is_space}
use opengrab.Text.Search.{has_prefix}

-- `strings.Split(s, sep)` for a `sep` that is not empty: the part so far, and how many runes of a
-- separator are still to be passed over.
unfoldable pub split_from : Text → Text → ℕ → Text → List Text
split_from sep part skip [] = part ∷ []
split_from sep part (suc skip) (c ∷ s) = split_from sep part skip s
split_from sep part zero (c ∷ s) =
    if has_prefix (c ∷ s) sep
    then part ∷ split_from sep [] (length sep - 1) s
    else split_from sep (part ++ c ∷ []) zero s

unfoldable pub split : Text → Text → List Text
split s sep = split_from sep [] zero s

abbrev pub push_word : Text → List Text → List Text
push_word [] ws = ws
push_word (c ∷ w) ws = (c ∷ w) ∷ ws

-- `strings.Fields(s)`, with the word so far.
unfoldable pub fields_from : Text → Text → List Text
fields_from word [] = push_word word []
fields_from word (c ∷ s) =
    if is_space c then push_word word (fields_from [] s) else fields_from (word ++ c ∷ []) s

unfoldable pub fields : Text → List Text
fields s = fields_from [] s

-- The lines of a text: the first, and the others.
unfoldable pub cut_lines : Text → Text × List Text
cut_lines [] = ([], [])
cut_lines (c ∷ s) =
    let (first, others) = cut_lines s in
    if c == b'\n' then ([], first ∷ others) else (c ∷ first, others)
