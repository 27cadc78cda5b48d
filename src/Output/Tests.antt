-- ===== src/Output/Tests.antt =====
-- Output at concrete chunks: a ring buffer of four bytes and a log of five.
use mathlib.Core.List.{flatten}
use opengrab.Prelude.{
  zero, suc, ◌≡◌, refl, ℕ, Bool, true, false, List, [], ◌∷◌, ◌++◌, none, some, pos, arith,
}
use opengrab.RingBuffer.{new_ring_buffer, bytes}
use opengrab.RingBuffer.Tail.{last_n}
use opengrab.RotateWriter.{Os, RotateWriter}
use opengrab.RotateWriter.Log.{IsSized}
use opengrab.RotateWriter.Backlog.{backlog}
use opengrab.Output.{
  multi, caller, ring, log, sinks_of, combine_writers, filtered, Outputs, Answer, copy_output,
}
use opengrab.Output.Tail.{copy_output-tail}
use opengrab.Output.Delivery.{AllWell, copy_output-keeps_tail}

joins_three : sinks_of true ≡ multi (caller ∷ ring ∷ log ∷ [])
unfolding sinks_of combine_writers filtered
joins_three = refl

abbrev willing : Os
willing = record {
  close_ok = true;
  remove_ok = true;
  stat_ok = λ i. true;
  rename_ok = λ i. true;
  open_ok = true;
  written = λ n. n;
  write_ok = true;
}

abbrev well : Answer
well = record { caller_ok = true; os = willing }

well-AllWell : AllWell well
well-AllWell = record {
  caller_takes = refl;
  os_succeeds = record {
    closes = refl;
    removes = refl;
    stats = λ i. refl;
    renames = λ i. refl;
    opens = refl;
    takes_all = λ n. refl;
    writes = refl;
  };
}

abbrev empty_log : RotateWriter
empty_log = record {
  max_bytes = pos 5;
  max_backups = 2;
  is_open = true;
  size = pos 0;
  files = λ i. none;
}

empty_log-IsSized : IsSized empty_log
empty_log-IsSized = record {
  opened = refl;
  limit = 5;
  limit_is = refl;
  limit_fits = (omega arith, omega arith);
  backups = omega arith;
  size_is = refl;
  size_fits = omega arith;
}

abbrev chunks : List (List ℕ)
chunks = (1 ∷ 2 ∷ 3 ∷ []) ∷ (4 ∷ 5 ∷ 6 ∷ []) ∷ []

abbrev copied : Outputs × Bool
copied =
    copy_output (λ n. well) (sinks_of true) chunks
      (record { ring = new_ring_buffer 4; log = some empty_log })

copy_output-keeps_tail_example :
    (copied.1 ≡ true)
    × (bytes copied.0.ring ≡ last_n (new_ring_buffer 4).max (flatten chunks))
    × ((w' : RotateWriter) × (dropped : List ℕ) × (copied.0.log ≡ some w')
        × (backlog 2 empty_log.files ++ flatten chunks
            ≡ dropped ++ backlog w'.max_backups w'.files))
copy_output-keeps_tail_example =
    copy_output-keeps_tail true (λ n. well) 4 empty_log chunks (λ n. well-AllWell) empty_log-IsSized
      (omega arith, (omega arith, tt))

-- The caller's writer fails at the second chunk.
abbrev tired : ℕ → Answer
tired n = elim n [ zero ↦ well | suc k ↦ record well { caller_ok = false } ]

copy_output-tail_example :
    let out =
      copy_output tired (sinks_of true) chunks (record { ring = new_ring_buffer 4; log = none }) in
    (done rest : List (List ℕ)) × (chunks ≡ done ++ rest)
    × (bytes out.0.ring ≡ last_n (new_ring_buffer 4).max (flatten done))
    × (out.1 ≡ true → rest ≡ [])
copy_output-tail_example = copy_output-tail true tired 4 none chunks
