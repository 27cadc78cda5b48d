-- ===== src/Excerpt.antt =====
-- memory.go: the texts that go into the memory: `firstLine`, `oneLine`, `markdownTitle`, `tailLog`,
-- and the limit of `readTextOrEmpty`.
pub mod OneLine
pub mod LogTail
mod Tests
use opengrab.Prelude.{
  ℕ, ◌+◌, ◌-◌, Bool, ◌&&◌, List, [], ◌∷◌, ◌++◌, map, length, drop, ltb, leb, if◌then◌else◌,
}
use opengrab.Text.{
  Text, codes, is_empty, trim_space, join, replace_rune, has_prefix, byte_length, take_bytes,
  drop_bytes, split, fields,
}

-- `oneLine`
unfoldable pub one_line : Text → ℕ → Text
one_line text max =
    let line = join (fields text) (codes " ") in
    if ltb 0 max && ltb max (byte_length line)
    then trim_space (take_bytes max line) ++ codes "..."
    else line

-- The loop of `firstLine` over the lines.
unfoldable pub first_of : List Text → Text
first_of [] = []
first_of (line ∷ lines) =
    let trimmed = trim_space line in
    if is_empty trimmed then first_of lines else one_line trimmed 80

-- `firstLine`
unfoldable pub first_line : Text → Text
first_line text = first_of (split text (codes "\n"))

-- `markdownTitle`
unfoldable pub markdown_title : Text → Text
markdown_title text =
    let title = trim_space (replace_rune text b'#' []) in
    if is_empty title then codes "Conversation" else title

abbrev pub entry_mark : Text
entry_mark = codes "## ["

-- A round of the loop over `tail`.
abbrev pub with_entry_mark : Text → Text
with_entry_mark part = if has_prefix part entry_mark then part else entry_mark ++ part

abbrev pub head_of : List Text → Text
head_of [] = []
head_of (part ∷ parts) = part

-- `tailLog` behind `strings.Split`.
unfoldable pub tail_of_parts : Text → ℕ → List Text → Text
tail_of_parts text max_entries parts =
    if leb (length parts) (max_entries + 1)
    then text
    else trim_space (head_of parts)
      ++ (codes "\n\n"
          ++ join (map with_entry_mark (drop (length parts - max_entries) parts)) (codes "\n"))

-- `tailLog`
unfoldable pub tail_log : Text → ℕ → Text
tail_log text max_entries = tail_of_parts text max_entries (split text (codes "\n## ["))

-- The end of `readTextOrEmpty`; a limit of 0 is none.
unfoldable pub last_bytes : ℕ → Text → Text
last_bytes limit text =
    if ltb 0 limit && ltb limit (byte_length text)
    then drop_bytes (byte_length text - limit) text
    else text
