-- ===== src/Excerpt/Tests.antt =====
-- The excerpts at concrete texts.
use opengrab.Prelude.{◌≡◌, ◌≤◌, ◌+◌, refl, arith, true, false, [], ◌∷◌, ◌++◌, map}
use opengrab.Text.{
  codes, is_space, lone_byte, lone_bytes, byte_length, width, take_bytes, fields, fields_from, join,
  trim_space, trim_left, trim_right, contains, has_prefix, split, split_from, drop_bytes,
}
use opengrab.Excerpt.{one_line, first_line, first_of, tail_log, entry_mark, last_bytes}
use opengrab.Excerpt.OneLine.{is_one_line, one_line_lem}
use opengrab.Excerpt.LogTail.{IsBody, entries, tail_log_lem}

one_line_lem_example :
    (is_one_line (one_line (codes "a\n b\tc") 4) ≡ true)
    × (byte_length (one_line (codes "a\n b\tc") 4) ≤ 4 + 3)
one_line_lem_example = one_line_lem (codes "a\n b\tc") 4 (omega arith)

one_line_cut : one_line (codes "a\n b\tc") 4 ≡ codes "a b..."
unfolding one_line fields fields_from is_space join byte_length width take_bytes trim_space
    trim_left trim_right
one_line_cut = refl

-- The limit is one of bytes: a cut in a code point leaves a part of it.
one_line_cut_rune : one_line (0x4f60 ∷ 0x597d ∷ []) 4 ≡ 0x4f60 ∷ lone_byte 0xe5 ∷ codes "..."
unfolding one_line fields fields_from is_space join byte_length width take_bytes lone_bytes
    trim_space trim_left trim_right
one_line_cut_rune = refl

first_line_second : first_line (codes "  \n# A  b \nc") ≡ codes "# A b"
unfolding first_line first_of split split_from has_prefix one_line fields fields_from is_space join
    byte_length width trim_space trim_left trim_right
first_line_second = refl

last_bytes_cut_rune : last_bytes 2 (0x4f60 ∷ []) ≡ lone_byte 0xbd ∷ lone_byte 0xa0 ∷ []
unfolding last_bytes byte_length width drop_bytes lone_bytes
last_bytes_cut_rune = refl

entry-IsBody : (b : _) → b ≡ codes "x" → IsBody b
unfolding contains has_prefix
entry-IsBody b e = rw e (record { no_mark = refl; no_bracket = refl })

header_no_mark : contains (codes "# Log" ++ codes "\n## ") (codes "\n## [") ≡ false
unfolding contains has_prefix
header_no_mark = refl

tail_log_last :
    tail_log (codes "# Log" ++ entries (codes "x" ∷ codes "x" ∷ [])) 1
    ≡ trim_space (codes "# Log")
      ++ (codes "\n\n" ++ join (map (λ b. entry_mark ++ b) (codes "x" ∷ [])) (codes "\n"))
tail_log_last =
    tail_log_lem (codes "# Log") (codes "x" ∷ []) (codes "x" ∷ []) header_no_mark
      (entry-IsBody (codes "x") refl, (entry-IsBody (codes "x") refl, tt))
