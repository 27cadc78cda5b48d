-- ===== src/Output/Tail.antt =====
-- The tail of a process's output, in the ring buffer and in the log.
use mathlib.Core.List.{flatten}
use opengrab.Prelude.{
  ◌≡◌, ◌⊎◌, inl, inr, refl, ap, ◌∙◌, ℕ, suc, Bool, true, false, List, [], ◌∷◌, ◌++◌, append-nil,
  append_assoc, Option, arith, Bool-cases,
}
use opengrab.RingBuffer.{RingBuffer, new_ring_buffer, bytes}
use opengrab.RingBuffer as Ring
use opengrab.RingBuffer.Tail.{
  last_n, write-IsTail, max-write, count-write, bytes_lem, new_ring_buffer-empty,
}
use opengrab.RotateWriter.{RotateWriter}
use opengrab.Output.{
  filtered, combine_writers, sinks_of, Outputs, Answer, write_sink, write_multi, write_combined,
  copy_output,
}

-- One write reaches the ring, or fails before it.
write_combined-ring :
    (has_caller : Bool) (a : Answer) (p : List ℕ) (o : Outputs)
    → let r = write_combined a (sinks_of has_caller) p o in
      (r.0.ring ≡ (Ring.write o.ring p).0) ⊎ ((r.0.ring ≡ o.ring) × (r.1 ≡ false))
unfolding sinks_of combine_writers filtered write_multi write_sink
write_combined-ring true a p o = ground (arith, count-write o.ring p)
write_combined-ring false a p o = ground (arith, count-write o.ring p)

-- A part of the output, of which the ring buffer has the tail: all of it, if no write failed.
abbrev pub Reached : ℕ → List ℕ → List (List ℕ) → Outputs × Bool → Type 0
Reached max seen ps out =
    (done rest : List (List ℕ)) × (ps ≡ done ++ rest)
    × (out.0.ring.buf ≡ last_n max (seen ++ flatten done))
    × (out.1 ≡ true → rest ≡ [])

-- The parts after a write that was taken whole.
Reached-cons :
    (max : ℕ) (seen p : List ℕ) (ps : List (List ℕ)) (out : Outputs × Bool)
    → Reached max (seen ++ p) ps out
    → Reached max seen (p ∷ ps) out
unfolding flatten
Reached-cons max seen p ps out (done, rest, e, h, k) =
    (p ∷ done, rest, ap (λ t. p ∷ t) e, h ∙ ap (last_n max) (append_assoc seen p (flatten done)), k)

-- A write that failed, in the ring or before it.
Reached-failed :
    (max : ℕ) (seen p : List ℕ) (ps : List (List ℕ)) (o : Outputs)
    → (o.ring.buf ≡ last_n max (seen ++ p)) ⊎ (o.ring.buf ≡ last_n max seen)
    → Reached max seen (p ∷ ps) (o, false)
unfolding flatten
Reached-failed max seen p ps o (inl written) = (p ∷ [], ps, refl, rw append-nil written, λ x. cc)
Reached-failed max seen p ps o (inr kept) = ([], p ∷ ps, refl, rw append-nil kept, λ x. cc)

-- What the ring holds behind a write.
ring-write_combined :
    (has_caller : Bool) (a : Answer) (max : ℕ) (seen p : List ℕ) (o : Outputs)
    → o.ring.max ≡ max
    → o.ring.buf ≡ last_n max seen
    → let r = write_combined a (sinks_of has_caller) p o in
      (r.0.ring.max ≡ max)
      × ((r.0.ring.buf ≡ last_n max (seen ++ p))
          ⊎ ((r.0.ring.buf ≡ last_n max seen) × (r.1 ≡ false)))
ring-write_combined has_caller a max seen p o e h =
    let tail : (Ring.write o.ring p).0.buf ≡ last_n max (seen ++ p) =
      rw (← e) (write-IsTail o.ring seen p (rw e h)) in
    elim (write_combined-ring has_caller a p o) [
      | inl taken ↦
          (ap (λ r. r.max) taken ∙ max-write o.ring p ∙ e, inl (ap (λ r. r.buf) taken ∙ tail))
      | inr (kept, failed) ↦ (ap (λ r. r.max) kept ∙ e, inr (ap (λ r. r.buf) kept ∙ h, failed))
    ]

copy_output-Reached :
    (has_caller : Bool) (a : ℕ → Answer) (max : ℕ) (seen : List ℕ) (ps : List (List ℕ))
    (o : Outputs)
    → o.ring.max ≡ max
    → o.ring.buf ≡ last_n max seen
    → Reached max seen ps (copy_output a (sinks_of has_caller) ps o)
unfolding copy_output flatten
copy_output-Reached has_caller a max seen [] o e h = ([], [], refl, rw append-nil h, λ _. refl)
copy_output-Reached has_caller a max seen (p ∷ ps) o e h =
    let r = write_combined (a 0) (sinks_of has_caller) p o in
    let (m, buf) = ring-write_combined has_caller (a 0) max seen p o e h in
    elim (Bool-cases r.1) [
      | inl good ↦ rw good (
          Reached-cons max seen p ps (copy_output (λ n. a (suc n)) (sinks_of has_caller) ps r.0) (
            copy_output-Reached has_caller (λ n. a (suc n)) max (seen ++ p) ps r.0 m
              (elim buf [ inl taken ↦ taken | inr (kept, failed) ↦ cc ])))
      | inr bad ↦ rw bad (
          Reached-failed max seen p ps r.0
            (elim buf [ inl taken ↦ inl taken | inr (kept, failed) ↦ inr kept ]))
    ]

-- Whatever fails, the ring buffer holds the tail of what a part of the output is, from its
-- beginning; it is the whole output if no write failed.
pub copy_output-tail :
    (has_caller : Bool) (a : ℕ → Answer) (max : ℕ) (l : Option RotateWriter) (ps : List (List ℕ))
    → let out =
        copy_output a (sinks_of has_caller) ps (record { ring = new_ring_buffer max; log = l }) in
      (done rest : List (List ℕ)) × (ps ≡ done ++ rest)
      × (bytes out.0.ring ≡ last_n (new_ring_buffer max).max (flatten done))
      × (out.1 ≡ true → rest ≡ [])
copy_output-tail has_caller a max l ps =
    let o : Outputs = record { ring = new_ring_buffer max; log = l } in
    let (done, rest, e, h, k) =
      copy_output-Reached has_caller a (new_ring_buffer max).max [] ps o refl
        (new_ring_buffer-empty max) in
    (done, rest, e, bytes_lem (copy_output a (sinks_of has_caller) ps o).0.ring ∙ h, k)
