-- ===== src/Backoff/Tests.antt =====
-- `ExponentialBackoff` at concrete durations.
use opengrab.Prelude.{◌≡◌, refl, ◌*◌, ◌^◌, ◌-◌, min, pos, negsuc, arith}
use opengrab.Backoff.{exponential_backoff, backoff_loop}
use opengrab.Backoff.Bounds.{exponential_backoff-min}

-- With a maximum that stands for "none" a second doubles until it wraps around: the 35th restart
-- has a negative wait, which is none.
wraps_around :
    exponential_backoff (pos (10 ^ 9)) (pos (2 ^ 63 - 1)) (pos 35) ≡ negsuc 1266874889709551615
unfolding exponential_backoff backoff_loop
wraps_around = refl

exponential_backoff-min_example :
    exponential_backoff (pos 3) (pos 10) (pos 2) ≡ pos (min (3 * 2 ^ (2 - 1)) 10)
exponential_backoff-min_example =
    exponential_backoff-min 3 10 2 (omega arith) (omega arith) (omega arith)
