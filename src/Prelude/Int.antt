-- ===== src/Prelude/Int.antt =====
-- Go's `int`, `int64` and `time.Duration` as integers, over the native numbers.
use Prim.Native.Nat.{ℕ, suc, ◌+◌, ◌-◌, ◌*◌, ◌^◌, ◌%◌, ◌≤◌, ◌<◌}
use mathlib.Core.Bool.{Bool}
use opengrab.Prelude.Tests.{ltb, leb, if◌then◌else◌}

-- `negsuc n` is -(n + 1).
pub data ℤ : Type 0 where
  pos : ℕ → ℤ
  negsuc : ℕ → ℤ

abbrev pub pos_part : ℤ → ℕ
pos_part (pos n) = n
pos_part (negsuc n) = 0

abbrev pub neg_part : ℤ → ℕ
neg_part (pos n) = 0
neg_part (negsuc n) = suc n

infix 50 ◌≤ℤ◌ ◌<ℤ◌
abbrev pub ◌≤ℤ◌ : ℤ → ℤ → Type 0
a ≤ℤ b = pos_part a + neg_part b ≤ pos_part b + neg_part a

abbrev pub ◌<ℤ◌ : ℤ → ℤ → Type 0
a <ℤ b = pos_part a + neg_part b < pos_part b + neg_part a

abbrev pub ltb_ℤ : ℤ → ℤ → Bool
ltb_ℤ a b = ltb (pos_part a + neg_part b) (pos_part b + neg_part a)

abbrev pub leb_ℤ : ℤ → ℤ → Bool
leb_ℤ a b = leb (pos_part a + neg_part b) (pos_part b + neg_part a)

-- `d *= 2` on an `int64`, which wraps around.
abbrev pub double_64 : ℤ → ℤ
double_64 (pos n) = if ltb (2 * n) (2 ^ 63) then pos (2 * n) else negsuc (2 ^ 64 - 2 * n - 1)
double_64 (negsuc n) =
    if leb (2 * n + 2) (2 ^ 63) then negsuc (2 * n + 1) else pos (2 ^ 64 - (2 * n + 2))

-- `n++` on a `uint64`
abbrev pub inc_64 : ℕ → ℕ
inc_64 n = (n + 1) % 2 ^ 64

-- `int(n)` of a `uint64`
abbrev pub int_of_uint64 : ℕ → ℤ
int_of_uint64 n = if ltb n (2 ^ 63) then pos n else negsuc (2 ^ 64 - n - 1)

-- `a + int64(n)`, which wraps around.
abbrev pub add_64 : ℤ → ℕ → ℤ
add_64 (pos a) n = if ltb (a + n) (2 ^ 63) then pos (a + n) else negsuc (2 ^ 64 - (a + n) - 1)
add_64 (negsuc a) n = if leb n a then negsuc (a - n) else pos (n - a - 1)
