-- ===== src/Backoff.antt =====
-- tools/cmdrunner/supervisor.go: `FixedBackoff` and `ExponentialBackoff`. A `time.Duration` is an
-- `int64` of nanoseconds. (`JitterBackoff` computes in floating point and is not modelled.)
pub mod Bounds
mod Tests
use opengrab.Prelude.{
  ℕ, zero, suc, ◌-◌, ◌*◌, ◌^◌, if◌then◌else◌, ℤ, pos, negsuc, ltb_ℤ, leb_ℤ, double_64,
}

-- `FixedBackoff`
pub fixed_backoff : ℤ → ℤ → ℤ
fixed_backoff d restart_count = d

-- What the two parameters are set to if they are not positive: 500 ms and 30 s.
abbrev pub base_or_default : ℤ → ℤ
base_or_default base = if leb_ℤ base (pos 0) then pos (500 * 10 ^ 6) else base

abbrev pub max_or_default : ℤ → ℤ
max_or_default max = if leb_ℤ max (pos 0) then pos (30 * 10 ^ 9) else max

-- The rounds of `for i := 1; i < restartCount; i++`.
abbrev pub rounds : ℤ → ℕ
rounds (pos n) = n - 1
rounds (negsuc n) = 0

-- The loop, with what is behind it.
pub backoff_loop : ℕ → ℤ → ℤ → ℤ
backoff_loop zero max d = if ltb_ℤ max d then max else d
backoff_loop (suc k) max d =
    let d' = double_64 d in let rest = backoff_loop k max d' in if leb_ℤ max d' then max else rest

-- `ExponentialBackoff`, applied to its arguments and to the restart count.
pub exponential_backoff : ℤ → ℤ → ℤ → ℤ
exponential_backoff base max restart_count =
    backoff_loop (rounds restart_count) (max_or_default max) (base_or_default base)
