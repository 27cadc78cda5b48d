-- ===== src/Backoff/Bounds.antt =====
-- `ExponentialBackoff`: its bound, and its value as long as nothing overflows.
use native.Mathlib.Nat.{pow-suc}
use native.Mathlib.Decide.{dec_lt}
use opengrab.Prelude.{
  ℕ, zero, suc, ◌-◌, ◌*◌, ◌^◌, ◌≤◌, ◌<◌, min, ◌≡◌, arith, ℤ, pos, double_64, ◌≤ℤ◌,
}
use opengrab.Backoff.{base_or_default, max_or_default, rounds, backoff_loop, exponential_backoff}

backoff_loop-le : (k : ℕ) (max d : ℤ) → backoff_loop k max d ≤ℤ max
unfolding backoff_loop
backoff_loop-le zero max d = ground arith
backoff_loop-le (suc k) max d = ground (arith, backoff_loop-le k max (double_64 d))

-- The wait before a restart is never longer than the maximum (30 s for a maximum that is not
-- positive), whatever overflows.
pub exponential_backoff-le :
    (base max restart_count : ℤ) → exponential_backoff base max restart_count ≤ℤ max_or_default max
unfolding exponential_backoff
exponential_backoff-le base max restart_count =
    backoff_loop-le (rounds restart_count) (max_or_default max) (base_or_default base)

mul-pow-suc : (d k : ℕ) → d * 2 ^ suc k ≡ 2 * d * 2 ^ k
mul-pow-suc d k = rw pow-suc (omega arith)

le-mul-pow : (k d : ℕ) → d ≤ d * 2 ^ k
le-mul-pow zero d = omega arith
le-mul-pow (suc k) d = omega (arith, le-mul-pow k d, le-mul-pow k (2 * d), mul-pow-suc d k)

double_64-pos : (d : ℕ) → d ≤ 2 ^ 62 - 1 → double_64 (pos d) ≡ pos (2 * d)
double_64-pos d h = ground arith

-- Below 2 ^ 62 no doubling overflows: the loop computes the capped power.
backoff_loop-min :
    (k m d : ℕ) → d ≤ m → m < 2 ^ 62 → backoff_loop k (pos m) (pos d) ≡ pos (min (d * 2 ^ k) m)
unfolding backoff_loop
backoff_loop-min zero m d h l = ground arith
backoff_loop-min (suc k) m d h l = elim (dec_lt (2 * d) m) [
  | yes small ↦
      rw (double_64-pos d (omega arith), mul-pow-suc) (ground (arith, backoff_loop-min k m (2 * d)))
  | no large ↦
      rw (double_64-pos d (omega arith), mul-pow-suc) (ground (arith, le-mul-pow k (2 * d)))
]

-- For a positive base that is not above a maximum of less than 2 ^ 62 ns the wait doubles with every restart but
-- the first, up to the maximum.
pub exponential_backoff-min :
    (base max n : ℕ)
    → 0 < base
    → base ≤ max
    → max < 2 ^ 62
    → exponential_backoff (pos base) (pos max) (pos n) ≡ pos (min (base * 2 ^ (n - 1)) max)
unfolding exponential_backoff
exponential_backoff-min base max n p h l = ground (arith, backoff_loop-min (n - 1) max base h l)
