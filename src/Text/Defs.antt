-- ===== src/Text/Defs.antt =====
-- The functions of Go's packages strings and unicode that the sources call.
use Prim.Native.Char.{code}
use Prim.Native.String.{String}
use opengrab.Prelude.{
  ℕ, ◌+◌, Bool, true, false, ◌&&◌, ◌||◌, List, [], ◌∷◌, ◌++◌, leb, ◌==◌, if◌then◌else◌,
}

-- A Go string is the list of its code points, as `range` gives them.
abbrev pub Text : Type 0
Text = List ℕ

abbrev pub codes : String → Text
codes String.[] = []
codes (String.◌∷◌ c s) = code c ∷ codes s

-- `s == ""`
abbrev pub is_empty : Text → Bool
is_empty [] = true
is_empty (c ∷ s) = false

-- `s == t`
unfoldable pub text_eq : Text → Text → Bool
text_eq [] [] = true
text_eq [] (d ∷ t) = false
text_eq (c ∷ s) [] = false
text_eq (c ∷ s) (d ∷ t) = c == d && text_eq s t

-- `unicode.IsSpace`
unfoldable pub is_space : ℕ → Bool
is_space c =
    (leb 9 c && leb c 13)
    || c == 0x20
    || c == 0x85
    || c == 0xa0
    || c == 0x1680
    || (leb 0x2000 c && leb c 0x200a)
    || c == 0x2028
    || c == 0x2029
    || c == 0x202f
    || c == 0x205f
    || c == 0x3000

-- `strings.TrimLeftFunc(s, unicode.IsSpace)`
unfoldable pub trim_left : Text → Text
trim_left [] = []
trim_left (c ∷ s) = if is_space c then trim_left s else c ∷ s

abbrev pub push_unless_blank : ℕ → Text → Text
push_unless_blank c [] = if is_space c then [] else c ∷ []
push_unless_blank c (d ∷ s) = c ∷ d ∷ s

-- `strings.TrimRightFunc(s, unicode.IsSpace)`
unfoldable pub trim_right : Text → Text
trim_right [] = []
trim_right (c ∷ s) = push_unless_blank c (trim_right s)

-- `strings.TrimSpace`
unfoldable pub trim_space : Text → Text
trim_space s = trim_right (trim_left s)

-- `strings.TrimSpace(s) == ""`
abbrev pub is_blank : Text → Bool
is_blank s = is_empty (trim_space s)

-- The runes whose lower case is ASCII: the capitals, `İ` and the Kelvin sign. `unicode.ToLower`
-- takes any other rune to one that is not ASCII or to itself; the callers tell those apart from
-- no ASCII text, so they stay as they are here.
unfoldable pub lower_rune : ℕ → ℕ
lower_rune c =
    if leb b'A' c && leb c b'Z'
    then c + 32
    else if c == 0x130
    then b'i'
    else if c == 0x212a
    then b'k'
    else c

-- `strings.ToLower`, as far as a comparison with ASCII texts can tell.
unfoldable pub to_lower : Text → Text
to_lower [] = []
to_lower (c ∷ s) = lower_rune c ∷ to_lower s

-- A lookup in a `map[string]struct{}`, or a case of a `switch` over runes.
unfoldable pub has_text : List Text → Text → Bool
has_text [] s = false
has_text (t ∷ ts) s = text_eq t s || has_text ts s

abbrev pub has_rune : Text → ℕ → Bool
has_rune [] c = false
has_rune (d ∷ ds) c = d == c || has_rune ds c

-- `strings.ContainsAny(s, chars)`
unfoldable pub contains_any : Text → Text → Bool
contains_any [] chars = false
contains_any (c ∷ s) chars = has_rune chars c || contains_any s chars

-- `strings.Join(parts, sep)`
unfoldable pub join : List Text → Text → Text
join [] sep = []
join (p ∷ []) sep = p
join (p ∷ q ∷ ps) sep = p ++ (sep ++ join (q ∷ ps) sep)

-- `strings.ReplaceAll(s, old, new)` for an `old` of one rune.
unfoldable pub replace_rune : Text → ℕ → Text → Text
replace_rune [] old new = []
replace_rune (c ∷ s) old new = (if c == old then new else c ∷ []) ++ replace_rune s old new
