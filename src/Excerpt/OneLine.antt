-- ===== src/Excerpt/OneLine.antt =====
-- `oneLine`: its length, and that it is one line.
use opengrab.Prelude.{
  ◌≡◌, ℕ, ◌+◌, ◌-◌, ◌≤◌, ◌<◌, ◌/◌, ◌%◌, Bool, true, false, not, ◌&&◌, ◌||◌, List, [], ◌∷◌, ◌++◌,
  refl, arith, ltb, leb, ◌==◌, take, length, zero, suc, min, Bool-cases, inl, inr,
}
use opengrab.Text.{
  Text, codes, is_space, trim_space, trim_left, trim_right, push_unless_blank, join, width,
  lone_byte, lone_bytes, byte_length, take_bytes, fields, fields_from, push_word,
}
use opengrab.Excerpt.{one_line}

byte_length-append : (s t : Text) → byte_length (s ++ t) ≡ byte_length s + byte_length t
unfolding byte_length
byte_length-append [] t = omega arith
byte_length-append (c ∷ s) t = omega (arith, byte_length-append s t)

-- Bytes that stand for themselves; they are no white space.
abbrev AllSingle : Text → Type 0
AllSingle [] = Unit
AllSingle (c ∷ s) = ((width c ≡ 1) × (is_space c ≡ false)) × AllSingle s

lone_byte_single : (b : ℕ) → (width (lone_byte b) ≡ 1) × (is_space (lone_byte b) ≡ false)
unfolding width is_space
lone_byte_single b = ground arith

wide : (c : ℕ) → 1 < width c → (0x80 ≤ c) × (c < 0x110000)
unfolding width
wide c h = ground arith

multi-AllSingle : (c : ℕ) → 0x80 ≤ c → c < 0x110000 → AllSingle (lone_bytes c)
unfolding lone_bytes
multi-AllSingle c h k = ground (
  arith,
  lone_byte_single (0xc0 + c / 0x40),
  lone_byte_single (0xe0 + c / 0x1000),
  lone_byte_single (0xf0 + c / 0x40000),
  lone_byte_single (0x80 + c % 0x40),
  lone_byte_single (0x80 + c / 0x40 % 0x40),
  lone_byte_single (0x80 + c / 0x1000 % 0x40),
)

lone_bytes-AllSingle : (c : ℕ) → 1 < width c → AllSingle (lone_bytes c)
lone_bytes-AllSingle c h = multi-AllSingle c (wide c h).0 (wide c h).1

length-lone_bytes : (c : ℕ) → length (lone_bytes c) ≡ width c
unfolding lone_bytes width
length-lone_bytes c = ground arith

byte_length-take_single :
    (n : ℕ) (s : Text) → AllSingle s → n ≤ length s → byte_length (take n s) ≡ n
unfolding byte_length
byte_length-take_single zero s h l = refl
byte_length-take_single (suc n) [] h l = absurd (omega arith)
byte_length-take_single (suc n) (c ∷ s) ((e, b), h) l =
    omega (arith, e, byte_length-take_single n s h (omega arith))

byte_length-lone_bytes : (c n : ℕ) → n < width c → byte_length (take n (lone_bytes c)) ≡ n
byte_length-lone_bytes c zero h = unfold byte_length in refl
byte_length-lone_bytes c (suc n) h =
    byte_length-take_single (suc n) (lone_bytes c) (lone_bytes-AllSingle c (omega arith))
      (omega (arith, length-lone_bytes c))

byte_length-take_bytes : (n : ℕ) (s : Text) → byte_length (take_bytes n s) ≡ min n (byte_length s)
unfolding byte_length take_bytes
byte_length-take_bytes n [] = omega arith
byte_length-take_bytes n (c ∷ s) =
    ground (arith, byte_length-take_bytes (n - width c) s, byte_length-lone_bytes c n)

-- The runes of a line: white space is a space.
unfoldable pub is_one_line : Text → Bool
is_one_line [] = true
is_one_line (c ∷ s) = (not (is_space c) || c == b' ') && is_one_line s

pub is_one_line-append :
    (s t : Text) → is_one_line s ≡ true → is_one_line t ≡ true → is_one_line (s ++ t) ≡ true
unfolding is_one_line
is_one_line-append [] t h k = k
is_one_line-append (c ∷ s) t h k = ground (arith, is_one_line-append s t)

abbrev AllOneLine : List Text → Type 0
AllOneLine [] = Unit
AllOneLine (s ∷ ss) = (is_one_line s ≡ true) × AllOneLine ss

push_word-AllOneLine :
    (w : Text) (ws : List Text) → is_one_line w ≡ true → AllOneLine ws → AllOneLine (push_word w ws)
push_word-AllOneLine [] ws h k = k
push_word-AllOneLine (c ∷ w) ws h k = (h, k)

fields_from-AllOneLine : (word s : Text) → is_one_line word ≡ true → AllOneLine (fields_from word s)
unfolding fields_from
fields_from-AllOneLine word [] h = push_word-AllOneLine word [] h tt
fields_from-AllOneLine word (c ∷ s) h = elim (Bool-cases (is_space c)) [
  | inl space ↦ rw space (
      push_word-AllOneLine word (fields_from [] s) h
        (fields_from-AllOneLine [] s (unfold is_one_line in refl)))
  | inr other ↦ rw other (
      fields_from-AllOneLine (word ++ c ∷ []) s
        (is_one_line-append word (c ∷ []) h (unfold is_one_line in ground arith)))
]

join-one_line : (ss : List Text) → AllOneLine ss → is_one_line (join ss (codes " ")) ≡ true
unfolding join
join-one_line [] h = unfold is_one_line in refl
join-one_line (s ∷ []) (h, k) = h
join-one_line (s ∷ t ∷ ss) (h, k) =
    is_one_line-append s (codes " " ++ join (t ∷ ss) (codes " ")) h (
      is_one_line-append (codes " ") (join (t ∷ ss) (codes " "))
        (unfold is_one_line is_space in refl) (join-one_line (t ∷ ss) k))

take_single-one_line : (n : ℕ) (s : Text) → AllSingle s → is_one_line (take n s) ≡ true
unfolding is_one_line
take_single-one_line zero s h = refl
take_single-one_line (suc n) [] h = refl
take_single-one_line (suc n) (c ∷ s) ((e, b), h) = ground (arith, take_single-one_line n s h)

take-lone_bytes-one_line : (c n : ℕ) → n < width c → is_one_line (take n (lone_bytes c)) ≡ true
take-lone_bytes-one_line c zero h = unfold is_one_line in refl
take-lone_bytes-one_line c (suc n) h =
    take_single-one_line (suc n) (lone_bytes c) (lone_bytes-AllSingle c (omega arith))

take_bytes-one_line :
    (n : ℕ) (s : Text) → is_one_line s ≡ true → is_one_line (take_bytes n s) ≡ true
unfolding take_bytes is_one_line
take_bytes-one_line n [] h = refl
take_bytes-one_line n (c ∷ s) h = elim (Bool-cases (leb (width c) n)) [
  | inl whole ↦ rw whole (ground (arith, take_bytes-one_line (n - width c) s))
  | inr cut ↦ rw cut (take-lone_bytes-one_line c n (ground arith))
]

trim_left-one_line : (s : Text) → is_one_line s ≡ true → is_one_line (trim_left s) ≡ true
unfolding is_one_line trim_left
trim_left-one_line [] h = refl
trim_left-one_line (c ∷ s) h = ground (arith, trim_left-one_line s)

push_unless_blank-one_line :
    (c : ℕ) (s : Text) → is_one_line (c ∷ s) ≡ true → is_one_line (push_unless_blank c s) ≡ true
unfolding is_one_line
push_unless_blank-one_line c [] h = ground arith
push_unless_blank-one_line c (d ∷ s) h = h

trim_right-one_line : (s : Text) → is_one_line s ≡ true → is_one_line (trim_right s) ≡ true
unfolding is_one_line trim_right
trim_right-one_line [] h = refl
trim_right-one_line (c ∷ s) h =
    push_unless_blank-one_line c (trim_right s) (ground (arith, trim_right-one_line s))

byte_length-trim_left : (s : Text) → byte_length (trim_left s) ≤ byte_length s
unfolding byte_length trim_left
byte_length-trim_left [] = omega arith
byte_length-trim_left (c ∷ s) = ground (arith, byte_length-trim_left s)

byte_length-push_unless_blank :
    (c : ℕ) (s : Text) → byte_length (push_unless_blank c s) ≤ width c + byte_length s
unfolding byte_length
byte_length-push_unless_blank c [] = ground arith
byte_length-push_unless_blank c (d ∷ s) = omega arith

byte_length-trim_right : (s : Text) → byte_length (trim_right s) ≤ byte_length s
unfolding byte_length trim_right
byte_length-trim_right [] = omega arith
byte_length-trim_right (c ∷ s) =
    omega (arith, byte_length-push_unless_blank c (trim_right s), byte_length-trim_right s)

fields-AllOneLine : (s : Text) → AllOneLine (fields s)
unfolding fields
fields-AllOneLine s = fields_from-AllOneLine [] s (unfold is_one_line in refl)

dots : byte_length (codes "...") ≡ 3
unfolding byte_length width
dots = refl

shortened :
    (line : Text) (max : ℕ)
    → is_one_line line ≡ true
    → (is_one_line (trim_space (take_bytes max line) ++ codes "...") ≡ true)
      × (byte_length (trim_space (take_bytes max line) ++ codes "...") ≤ max + 3)
unfolding trim_space
shortened line max h =
    let cut = take_bytes max line in
    (
      is_one_line-append (trim_right (trim_left cut)) (codes "...")
          (trim_right-one_line (trim_left cut)
            (trim_left-one_line cut (take_bytes-one_line max line h)))
          (unfold is_one_line is_space in refl),
      omega (
        arith,
        byte_length-append (trim_right (trim_left cut)) (codes "..."),
        dots,
        byte_length-trim_right (trim_left cut),
        byte_length-trim_left cut,
        byte_length-take_bytes max line,
      ),
    )

-- With a limit of `max` bytes `oneLine` returns at most max + 3 bytes, with the dots, and no white
-- space but spaces: it is one line, whatever text it is given.
pub one_line_lem :
    (text : Text) (max : ℕ)
    → 0 < max
    → (is_one_line (one_line text max) ≡ true) × (byte_length (one_line text max) ≤ max + 3)
unfolding one_line
one_line_lem text max h =
    let line = join (fields text) (codes " ") in
    let whole : is_one_line line ≡ true = join-one_line (fields text) (fields-AllOneLine text) in
    elim (Bool-cases (ltb 0 max && ltb max (byte_length line))) [
      | inl long ↦ rw long (shortened line max whole)
      | inr short ↦ rw short (whole, ground arith)
    ]
