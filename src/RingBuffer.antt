-- ===== src/RingBuffer.antt =====
-- tools/cmdrunner/ring_buffer.go: the in-memory tail of a process's output.
-- A method that updates `*r` returns the new buffer beside its result.
pub mod Tail
mod Tests
use opengrab.Prelude.{
  ℕ, ◌+◌, ◌-◌, ◌*◌, List, [], ◌∷◌, ◌++◌, leb, ltb, ◌==◌, if◌then◌else◌, length, take, drop,
}

-- `RingBuffer`; the mutex only serialises the methods.
pub record RingBuffer : Type 0 where
  pub max : ℕ
  pub buf : List ℕ

-- `max` is an `int`; a negative one is treated as 0 is.
pub new_ring_buffer : ℕ → RingBuffer
new_ring_buffer max = record { max = if max == 0 then 64 * 1024 else max; buf = [] }

-- The built-in `copy(dst, src)`: it overwrites the front of `dst`, as far as both reach.
abbrev pub copy : List ℕ → List ℕ → List ℕ
copy dst src = take (length dst) src ++ drop (length src) dst

-- `copy(r.buf, r.buf[drop:])`, then `r.buf[:len(r.buf)-drop]`.
abbrev pub slide : ℕ → List ℕ → List ℕ
slide n buf = take (length buf - n) (copy buf (drop n buf))

-- What `Write` keeps of the old bytes when `n` new ones come in.
pub make_room : RingBuffer → ℕ → List ℕ
make_room r n =
    let total = length r.buf + n in
    let excess = total - r.max in
    if ltb r.max total
    then (if leb (length r.buf) excess then [] else slide excess r.buf)
    else r.buf

-- `Write`; it returns the number of bytes taken, and never an error.
pub write : RingBuffer → List ℕ → RingBuffer × ℕ
write r p =
    let n = length p in
    if n == 0
    then (r, 0)
    else if leb r.max n
    then (record r { buf = drop (n - r.max) p }, n)
    else (record r { buf = make_room r n ++ p }, n)

-- `Bytes`; `String` is the same bytes.
pub bytes : RingBuffer → List ℕ
bytes r = take (length r.buf) r.buf

pub clear : RingBuffer → RingBuffer
clear r = record r { buf = [] }

-- What a client may do to a buffer.
pub data Op : Type 0 where
  put : List ℕ → Op
  reset : Op

-- A client's calls in their order.
pub run : RingBuffer → List Op → RingBuffer
run r [] = r
run r (put p ∷ ops) = run (write r p).0 ops
run r (reset ∷ ops) = run (clear r) ops
