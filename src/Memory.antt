-- ===== src/Memory.antt =====
-- memory.go: the index of the wiki pages, and the slugs of their names.
mod Tests
pub mod Index
pub mod Slug
use opengrab.Prelude.{
  ℕ, Bool, true, false, not, ◌&&◌, ◌||◌, List, [], ◌∷◌, ◌++◌, Option, none, some, leb, ◌==◌, length,
  drop, if◌then◌else◌,
}
use opengrab.Text.{
  Text, codes, trim_space, to_lower, has_prefix, contains, replace_first, trim_right_rune,
  trim_left_rune,
}

abbrev pub marker : Text
marker = codes "## Conversation Pages\n"

-- The second `if` of `insertIndexEntry`.
unfoldable pub with_marker : Text → Text
with_marker content =
    if not (contains content marker)
    then trim_right_rune content b'\n' ++ (codes "\n\n" ++ marker)
    else content

-- The content that `insertIndexEntry` writes; none if it writes nothing.
unfoldable pub insert_entry : Text → Text → Option Text
insert_entry content entry =
    if contains content entry
    then none
    else some (replace_first (with_marker content) marker (marker ++ entry))

abbrev pub text_or_empty : Option Text → Text
text_or_empty none = []
text_or_empty (some s) = s

-- `readTextOrEmpty(path, 0)`, for a file that is there or not, and may be read or not.
abbrev pub read_text_or_empty : Bool → Option Text → Text
read_text_or_empty true file = text_or_empty file
read_text_or_empty false file = []

abbrev pub write_file : Bool → Option Text → Option Text → Option Text × Bool
write_file write_ok file none = (file, true)
write_file write_ok file (some content) = if write_ok then (some content, true) else (file, false)

-- `insertIndexEntry` on the file at `path`, with whether it returns nil. A write that is refused
-- leaves the file.
unfoldable pub insert_index_entry : Bool → Bool → Option Text → Text → Option Text × Bool
insert_index_entry read_ok write_ok file entry =
    write_file write_ok file (insert_entry (read_text_or_empty read_ok file) entry)

-- `[a-z0-9]`
abbrev pub is_slug_rune : ℕ → Bool
is_slug_rune r = (leb b'a' r && leb r b'z') || (leb b'0' r && leb r b'9')

-- `re.ReplaceAllString(text, "-")` for `[^a-z0-9]+`; the first argument says whether the rune before
-- was in a match.
unfoldable pub replace_others : Bool → Text → Text
replace_others in_match [] = []
replace_others in_match (r ∷ s) =
    if is_slug_rune r
    then r ∷ replace_others false s
    else if in_match
    then replace_others true s
    else b'-' ∷ replace_others true s

-- `slugify`
unfoldable pub slugify : Text → Text
slugify text =
    trim_right_rune (trim_left_rune (replace_others false (to_lower (trim_space text))) b'-') b'-'
