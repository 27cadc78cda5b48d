-- ===== src/Text/Bytes.antt =====
-- The bytes of a text: `len(s)`, `s[:n]` and `s[n:]`. A cut inside a code point leaves bytes that no
-- code point's encoding covers; such a byte stands in a text as 0x110000 and itself.
use opengrab.Prelude.{
  ℕ, ◌+◌, ◌-◌, ◌/◌, ◌%◌, [], ◌∷◌, ◌++◌, ltb, leb, ◌==◌, take, drop, if◌then◌else◌,
}
use opengrab.Text.Defs.{Text}

-- The bytes of a code point in UTF-8; a byte that stands for itself is one.
unfoldable pub width : ℕ → ℕ
width c =
    if ltb c 0x80
    then 1
    else if ltb c 0x800
    then 2
    else if ltb c 0x10000
    then 3
    else if ltb c 0x110000
    then 4
    else 1

abbrev pub lone_byte : ℕ → ℕ
lone_byte b = 0x110000 + b

abbrev pub continuation : ℕ → ℕ
continuation c = lone_byte (0x80 + c % 0x40)

-- The bytes of a code point, each by itself.
unfoldable pub lone_bytes : ℕ → Text
lone_bytes c =
    if ltb c 0x80
    then c ∷ []
    else if ltb c 0x800
    then lone_byte (0xc0 + c / 0x40) ∷ continuation c ∷ []
    else if ltb c 0x10000
    then lone_byte (0xe0 + c / 0x1000) ∷ continuation (c / 0x40) ∷ continuation c ∷ []
    else if ltb c 0x110000
    then lone_byte (0xf0 + c / 0x40000)
      ∷ continuation (c / 0x1000)
      ∷ continuation (c / 0x40)
      ∷ continuation c
      ∷ []
    else c ∷ []

-- `len(s)`
unfoldable pub byte_length : Text → ℕ
byte_length [] = 0
byte_length (c ∷ s) = width c + byte_length s

-- `s[:n]`, for an `n` up to `len(s)`.
unfoldable pub take_bytes : ℕ → Text → Text
take_bytes n [] = []
take_bytes n (c ∷ s) =
    if leb (width c) n then c ∷ take_bytes (n - width c) s else take n (lone_bytes c)

-- `s[n:]`, for an `n` up to `len(s)`.
unfoldable pub drop_bytes : ℕ → Text → Text
drop_bytes n [] = []
drop_bytes n (c ∷ s) =
    if leb (width c) n
    then drop_bytes (n - width c) s
    else if n == 0
    then c ∷ s
    else drop n (lone_bytes c) ++ s
