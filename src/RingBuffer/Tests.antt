-- ===== src/RingBuffer/Tests.antt =====
-- ring_buffer.go at concrete buffers.
use opengrab.Prelude.{◌≡◌, refl, List, [], ◌∷◌}
use opengrab.RingBuffer.{Op, put, reset, run, new_ring_buffer, write, make_room, bytes, clear}
use opengrab.RingBuffer.Tail.{last_n, history, bytes-run}

abbrev some_ops : List Op
some_ops = put (1 ∷ 2 ∷ []) ∷ reset ∷ put (3 ∷ 4 ∷ []) ∷ put (5 ∷ 6 ∷ []) ∷ []

keeps_the_last_three : bytes (run (new_ring_buffer 3) some_ops) ≡ 4 ∷ 5 ∷ 6 ∷ []
unfolding bytes run new_ring_buffer write make_room clear
keeps_the_last_three = refl

bytes-run_example :
    bytes (run (new_ring_buffer 3) some_ops) ≡ last_n (new_ring_buffer 3).max (history [] some_ops)
bytes-run_example = bytes-run 3 some_ops
