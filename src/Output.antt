-- ===== src/Output.antt =====
-- supervisor.go: `combineWriters`, and where `loop` sends what a process prints: to the caller's
-- writer, to the ring buffer and to the log, in this order.
pub mod Tail
pub mod Delivery
mod Tests
use opengrab.Prelude.{
  ℕ, suc, Bool, true, false, ◌&&◌, List, [], ◌∷◌, Option, none, some, ◌==◌, length, if◌then◌else◌,
}
use opengrab.RingBuffer.{RingBuffer}
use opengrab.RingBuffer as Ring
use opengrab.RotateWriter.{Os, RotateWriter, WriteError}
use opengrab.RotateWriter as Log

-- The loop of `combineWriters` over the writers; none is nil.
unfoldable pub filtered {ℓ} : {A : Type ℓ} → List (Option A) → List A
filtered [] = []
filtered (none ∷ ws) = filtered ws
filtered (some w ∷ ws) = w ∷ filtered ws

-- A nil writer, a single one, or an `io.MultiWriter`.
pub data Combined {ℓ} (A : Type ℓ) : Type ℓ where
  no_writer : Combined A
  single : A → Combined A
  multi : List A → Combined A

abbrev pub by_count {ℓ} : {A : Type ℓ} → List A → Combined A
by_count [] = no_writer
by_count (w ∷ []) = single w
by_count (w ∷ v ∷ ws) = multi (w ∷ v ∷ ws)

-- `combineWriters`
unfoldable pub combine_writers {ℓ} : {A : Type ℓ} → List (Option A) → Combined A
combine_writers ws = by_count (filtered ws)

-- The writers of `popts.Stdout`.
pub data Sink : Type 0 where
  caller ring log : Sink

-- The arguments of `combineWriters` in `loop`. A nil `*RotateWriter` is an `io.Writer` that is not
-- nil, so that the log is never filtered out.
unfoldable pub sinks_of : Bool → Combined Sink
sinks_of has_caller =
    combine_writers ((if has_caller then some caller else none) ∷ some ring ∷ some log ∷ [])

-- The ring buffer, and the log if there is one.
pub record Outputs : Type 0 where
  pub ring : RingBuffer
  pub log : Option RotateWriter

-- During one write: whether the caller's writer takes all and returns nil, and what the operating
-- system answers.
pub record Answer : Type 0 where
  pub caller_ok : Bool
  pub os : Os

abbrev pub is_nil_error : Option WriteError → Bool
is_nil_error none = true
is_nil_error (some e) = false

-- `RotateWriter.Write`, where the nil writer takes everything.
unfoldable pub write_log : Os → Option RotateWriter → List ℕ → Option RotateWriter × Bool
write_log os none p = (none, true)
write_log os (some w) p =
    let (w', n, e) = Log.write os p w in (some w', is_nil_error e && n == length p)

-- A write to one of the writers, with whether it took all of `p` and returned nil.
unfoldable pub write_sink : Answer → Sink → List ℕ → Outputs → Outputs × Bool
write_sink a caller p o = (o, a.caller_ok)
write_sink a ring p o = let (r, n) = Ring.write o.ring p in (record o { ring = r }, n == length p)
write_sink a log p o = let (l, good) = write_log a.os o.log p in (record o { log = l }, good)

-- `Write` of an `io.MultiWriter`: it stops at the first writer that fails or takes too little.
unfoldable pub write_multi : Answer → List Sink → List ℕ → Outputs → Outputs × Bool
write_multi a [] p o = (o, true)
write_multi a (s ∷ ss) p o =
    let (o', good) = write_sink a s p o in if good then write_multi a ss p o' else (o', false)

abbrev pub write_combined : Answer → Combined Sink → List ℕ → Outputs → Outputs × Bool
write_combined a no_writer p o = (o, true)
write_combined a (single s) p o = write_sink a s p o
write_combined a (multi ss) p o = write_multi a ss p o

-- `io.Copy` of a process's output, chunk by chunk: it ends at the first write that fails.
unfoldable pub copy_output : (ℕ → Answer) → Combined Sink → List (List ℕ) → Outputs → Outputs × Bool
copy_output a w [] o = (o, true)
copy_output a w (p ∷ ps) o =
    let (o', good) = write_combined (a 0) w p o in
    if good then copy_output (λ n. a (suc n)) w ps o' else (o', false)
