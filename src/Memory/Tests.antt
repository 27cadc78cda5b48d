-- ===== src/Memory/Tests.antt =====
-- memory.go at concrete texts.
use opengrab.Prelude.{◌≡◌, refl, true, false, Option, some}
use opengrab.Text.{
  Text, codes, to_lower, trim_space, trim_left, trim_right, is_space, lower_rune, trim_left_rune,
  trim_right_rune, contains, has_prefix, replace_first,
}
use opengrab.Memory.{slugify, replace_others, insert_index_entry, insert_entry, with_marker}

slug_of_title : slugify (codes " Hello, World! ") ≡ codes "hello-world"
unfolding slugify replace_others trim_left_rune trim_right_rune to_lower lower_rune trim_space
    trim_left trim_right is_space
slug_of_title = refl

abbrev entry : Text
entry = codes "- [[pages/a.md]] - a\n"

abbrev index : Option Text
index = some (codes "# Memory Index\n")

puts_marker_and_entry :
    insert_index_entry true true index entry
    ≡ (some (codes "# Memory Index\n\n## Conversation Pages\n- [[pages/a.md]] - a\n"), true)
unfolding insert_index_entry insert_entry with_marker contains has_prefix replace_first
    trim_right_rune
puts_marker_and_entry = refl

-- An index that cannot be read is taken for an empty one, and is overwritten.
unreadable_index_is_lost :
    insert_index_entry false true index entry
    ≡ (some (codes "\n\n## Conversation Pages\n- [[pages/a.md]] - a\n"), true)
unfolding insert_index_entry insert_entry with_marker contains has_prefix replace_first
    trim_right_rune
unreadable_index_is_lost = refl
