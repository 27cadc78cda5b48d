-- ===== src/RingBuffer/Tail.antt =====
-- ring_buffer.go against its contract: the last `max` bytes of everything that was written.
use opengrab.Prelude.{
  ◌<◌, ℕ, ◌+◌, ◌-◌, ◌≤◌, ◌≡◌, refl, ap, List, [], ◌∷◌, ◌++◌, append-nil, arith, length, drop,
  length-append, length-drop, ◌∙◌, sym, take-all, take-append_le, drop-all, drop-append, drop-drop,
  drop-zero, drop-nil_eq,
}
use opengrab.RingBuffer.{
  RingBuffer, new_ring_buffer, slide, make_room, write, bytes, clear, Op, put, reset, run,
}

-- The last `n` elements of a list.
abbrev pub last_n : ℕ → List ℕ → List ℕ
last_n n xs = drop (length xs - n) xs

-- `copy` and the truncation together drop the oldest bytes.
slide-drop : (n : ℕ) (buf : List ℕ) → n ≤ length buf → slide n buf ≡ drop n buf
slide-drop n buf h = rw (take-all (length buf) (drop n buf) (omega (arith, length-drop n buf))) (
    take-append_le (length buf - n) (drop n buf) _ (omega (arith, length-drop n buf))
    ∙ take-all (length buf - n) (drop n buf) (omega (arith, length-drop n buf)))

-- What is kept is the last part of the old bytes that leaves room for the new.
make_room-drop : (r : RingBuffer) (n : ℕ) → make_room r n ≡ drop (length r.buf + n - r.max) r.buf
unfolding make_room
make_room-drop r n =
    ground (
      arith,
      slide-drop (length r.buf + n - r.max) r.buf,
      drop-all (length r.buf + n - r.max) r.buf,
    )

-- The last `n` of `xs ++ ys` can be taken from the last `n` of `xs`.
last_n-append : (n : ℕ) (xs ys : List ℕ) → last_n n (last_n n xs ++ ys) ≡ last_n n (xs ++ ys)
last_n-append n xs ys =
    let kept = last_n n xs in
    let m = length (kept ++ ys) - n in
    let sizes : length kept ≡ length xs - (length xs - n) = length-drop (length xs - n) xs in
    let whole : length (xs ++ ys) ≡ length xs + length ys = length-append xs ys in
    let part : length (kept ++ ys) ≡ length kept + length ys = length-append kept ys in
    let behind : m - length kept ≡ length (xs ++ ys) - n - length xs = omega arith in
    cc (
      drop-append m kept ys,
      drop-append (length (xs ++ ys) - n) xs ys,
      drop-drop m (length xs - n) (length (xs ++ ys) - n) xs (omega arith),
      behind,
    )

-- One write, on each of its branches, keeps the last `max` bytes.
write-last_n :
    (r : RingBuffer) (p : List ℕ)
    → length r.buf ≤ r.max
    → (write r p).0.buf ≡ last_n r.max (r.buf ++ p)
unfolding write
write-last_n r [] h = rw (append-nil) (sym (drop-zero (length r.buf - r.max) r.buf (omega arith)))
write-last_n r (x ∷ xs) h =
    let p = x ∷ xs in
    let old = length r.buf + length p - r.max in
    let rest : old - length r.buf ≡ length p - r.max = omega arith in
    rw (length-append r.buf p, drop-append old r.buf p, rest)
      (ground
        (arith, make_room-drop r (length p), drop-all old r.buf, drop-zero (length p - r.max) p))

length-write :
    (r : RingBuffer) (p : List ℕ) → length r.buf ≤ r.max → length (write r p).0.buf ≤ r.max
length-write r p h =
    rw (write-last_n r p h) (omega (arith, length-drop (length (r.buf ++ p) - r.max) (r.buf ++ p)))

pub max-write : (r : RingBuffer) (p : List ℕ) → (write r p).0.max ≡ r.max
unfolding write
max-write r p = ground arith

-- `Write` takes every byte that it is given.
pub count-write : (r : RingBuffer) (p : List ℕ) → (write r p).1 ≡ length p
unfolding write
count-write r p = ground arith

-- What has been written since the last `Clear`, behind what was written before.
abbrev pub history : List ℕ → List Op → List ℕ
history seen [] = seen
history seen (put p ∷ ops) = history (seen ++ p) ops
history seen (reset ∷ ops) = history [] ops

-- One write brings the tail of what has been written up to date.
pub write-IsTail :
    (r : RingBuffer) (seen p : List ℕ)
    → r.buf ≡ last_n r.max seen
    → (write r p).0.buf ≡ last_n r.max (seen ++ p)
write-IsTail r seen p h =
    write-last_n r p (rw h (omega (arith, length-drop (length seen - r.max) seen)))
    ∙ ap (λ b. last_n r.max (b ++ p)) h
    ∙ last_n-append r.max seen p

run-IsTail :
    (r : RingBuffer) (max : ℕ) (seen : List ℕ) (ops : List Op)
    → r.max ≡ max
    → r.buf ≡ last_n max seen
    → (run r ops).buf ≡ last_n max (history seen ops)
unfolding run
run-IsTail r max seen [] e h = h
run-IsTail r max seen (put p ∷ ops) e h =
    run-IsTail (write r p).0 max (seen ++ p) ops (max-write r p ∙ e)
      (rw (← e) (write-IsTail r seen p (rw e h)))
run-IsTail r max seen (reset ∷ ops) e h =
    run-IsTail (clear r) max [] ops (unfold clear in e)
      (unfold clear in sym (drop-nil_eq (0 - max)))

-- `Bytes` copies the whole buffer.
pub bytes_lem : (r : RingBuffer) → bytes r ≡ r.buf
unfolding bytes
bytes_lem r = take-all _ r.buf (omega arith)

pub new_ring_buffer-empty :
    (max : ℕ) → (new_ring_buffer max).buf ≡ last_n (new_ring_buffer max).max []
unfolding new_ring_buffer
new_ring_buffer-empty max = sym (drop-nil_eq (0 - (new_ring_buffer max).max))

-- After any writes and clears of a new buffer, `Bytes` returns exactly the last `max` bytes of all
-- that was written since the last `Clear`, however it was cut into writes (64 KiB for a `max` of 0).
pub bytes-run :
    (max : ℕ) (ops : List Op)
    → bytes (run (new_ring_buffer max) ops) ≡ last_n (new_ring_buffer max).max (history [] ops)
bytes-run max ops =
    bytes_lem (run (new_ring_buffer max) ops)
    ∙ run-IsTail (new_ring_buffer max) _ [] ops refl (new_ring_buffer-empty max)

-- `Bytes` never returns more than `max` bytes.
length-bytes-run :
    (max : ℕ) (ops : List Op)
    → length (bytes (run (new_ring_buffer max) ops)) ≤ (new_ring_buffer max).max
length-bytes-run max ops =
    let all = history [] ops in
    rw bytes-run (omega (arith, length-drop (length all - (new_ring_buffer max).max) all))

-- A buffer has room for a byte at least.
pub new_ring_buffer-positive : (max : ℕ) → 0 < (new_ring_buffer max).max
unfolding new_ring_buffer
new_ring_buffer-positive max = ground arith
