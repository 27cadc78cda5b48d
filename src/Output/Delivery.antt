-- ===== src/Output/Delivery.antt =====
-- The log of a process's output, where no writer fails.
use mathlib.Core.List.{flatten}
use opengrab.Prelude.{
  ◌≡◌, refl, sym, ap, ◌∙◌, ℕ, suc, Bool, true, false, List, [], ◌∷◌, ◌++◌, append-nil, some, arith,
  ◌==◌, length,
}
use opengrab.RingBuffer.{RingBuffer, new_ring_buffer, bytes}
use opengrab.RingBuffer as Ring
use opengrab.RingBuffer.Tail.{last_n, count-write}
use opengrab.RotateWriter.{Os, RotateWriter}
use opengrab.RotateWriter as Log
use opengrab.RotateWriter.Rotate.{Succeeds}
use opengrab.RotateWriter.Log.{
  IsSized, Written, write-Written, write_all, AllShort, write_all-keeps_tail,
}
use opengrab.RotateWriter.Backlog.{backlog}
use opengrab.Output.Tail.{copy_output-tail}
use opengrab.Output.{
  filtered, combine_writers, sinks_of, Outputs, Answer, write_log, write_sink, write_multi,
  write_combined, copy_output,
}

-- The caller's writer takes everything, and the operating system refuses nothing.
pub record AllWell (a : Answer) : Type 0 where
  pub caller_takes : a.caller_ok ≡ true
  pub os_succeeds : Succeeds a.os

==_refl : (n : ℕ) → (n == n) ≡ true
==_refl n = ground arith

write_log-well :
    (os : Os) (w : RotateWriter) (p : List ℕ)
    → Written p w (Log.write os p w)
    → write_log os (some w) p ≡ (some (Log.write os p w).0, true)
unfolding write_log
write_log-well os w p h = rw (h.no_error, h.count_is, ==_refl) refl

write_combined-well :
    (has_caller : Bool) (a : Answer) (p : List ℕ) (o : Outputs) (w : RotateWriter)
    → a.caller_ok ≡ true
    → o.log ≡ some w
    → Written p w (Log.write a.os p w)
    → write_combined a (sinks_of has_caller) p o
      ≡ (record { ring = (Ring.write o.ring p).0; log = some (Log.write a.os p w).0 }, true)
unfolding sinks_of combine_writers filtered write_multi write_sink
write_combined-well true a p o w takes l h =
    let ring_good : (length p == length p) ≡ true = ==_refl (length p) in
    rw (takes, count-write o.ring p, ring_good, l, write_log-well a.os w p h) refl
write_combined-well false a p o w takes l h =
    let ring_good : (length p == length p) ≡ true = ==_refl (length p) in
    rw (count-write o.ring p, ring_good, l, write_log-well a.os w p h) refl

copy_output-write_all :
    (has_caller : Bool) (a : ℕ → Answer) (ps : List (List ℕ)) (o : Outputs) (w : RotateWriter)
    → ((n : ℕ) → AllWell (a n))
    → o.log ≡ some w
    → IsSized w
    → AllShort ps
    → let out = copy_output a (sinks_of has_caller) ps o in
      (out.1 ≡ true) × (out.0.log ≡ some (write_all (λ n. (a n).os) ps w))
unfolding copy_output write_all
copy_output-write_all has_caller a [] o w well l z short = (refl, l)
copy_output-write_all has_caller a (p ∷ ps) o w well l z (s, short) =
    let h = write-Written (a 0).os p w (well 0).os_succeeds z s in
    rw (write_combined-well has_caller (a 0) p o w (well 0).caller_takes l h) (
      copy_output-write_all has_caller (λ n. a (suc n)) ps _ (Log.write (a 0).os p w).0
        (λ n. well (suc n)) refl h.still_sized short)

-- Where no writer fails, the log is open and knows its size, and it and the chunks are below 2 ^ 62
-- bytes, all the output is copied, the ring buffer holds
-- its tail, and the log files hold together the last part of what was there and of the output.
pub copy_output-keeps_tail :
    (has_caller : Bool) (a : ℕ → Answer) (max : ℕ) (w : RotateWriter) (ps : List (List ℕ))
    → ((n : ℕ) → AllWell (a n))
    → IsSized w
    → AllShort ps
    → let out =
        copy_output a
          (sinks_of has_caller)
          ps
          (record { ring = new_ring_buffer max; log = some w }) in
      (out.1 ≡ true)
      × (bytes out.0.ring ≡ last_n (new_ring_buffer max).max (flatten ps))
      × ((w' : RotateWriter) × (dropped : List ℕ) × (out.0.log ≡ some w')
          × (backlog w.max_backups w.files ++ flatten ps
              ≡ dropped ++ backlog w'.max_backups w'.files))
copy_output-keeps_tail has_caller a max w ps well z short =
    let (good, l) =
      copy_output-write_all has_caller a ps (record { ring = new_ring_buffer max; log = some w }) w
        well refl z short in
    let (done, rest, e, h, k) = copy_output-tail has_caller a max (some w) ps in
    let all : done ≡ ps = sym (e ∙ ap (λ t. done ++ t) (k good) ∙ append-nil done) in
    (
      good,
      h ∙ ap (λ t. last_n (new_ring_buffer max).max (flatten t)) all,
      (
        write_all (λ n. (a n).os) ps w,
        (write_all-keeps_tail (λ n. (a n).os) ps w (λ n. (well n).os_succeeds) z short).0,
        l,
        (write_all-keeps_tail (λ n. (a n).os) ps w (λ n. (well n).os_succeeds) z short).1,
      ),
    )
