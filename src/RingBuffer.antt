-- ===== src/RingBuffer.antt =====
-- bzerolib/ringbuffer/ringbuffer.go: the bytes kept for the replay of a shell. A Go panic, a slice
-- out of range, is `none`. The lock is not modelled: each method holds it from end to end.
-- `int` is ℕ: no field is ever negative, and the sum of two slice lengths does not overflow.
pub mod Copy
pub mod Window
pub mod Write
pub mod Read
pub mod Replay
mod Tests
use bzero.Shared.{
  ℕ, ◌+◌, ◌-◌, ◌%◌, min, max, Bool, true, false, not, ◌&&◌, Option, none, some, List, [], ◌++◌, ltb,
  leb, if◌then◌else◌, ◌>>=◌, length, take, drop, replicate,
}

pub record RingBuffer : Type 0 where
  pub buffer : List ℕ
  pub size : ℕ
  pub start : ℕ
  pub end : ℕ
  pub full : Bool

pub data SanityError : Type 0 where
  start_past_size end_past_size : SanityError

-- `make([]byte, size)` fills with zeros.
unfoldable pub new : ℕ → RingBuffer
new size = record { buffer = replicate size 0; size = size; start = 0; end = 0; full = false }

-- The three tests for a negative field cannot pass.
pub sanitycheck : RingBuffer → Option SanityError
sanitycheck r =
    if ltb r.size r.start
    then some start_past_size
    else if ltb r.size r.end
    then some end_past_size
    else none

-- `xs[lo:hi]`; the capacity is taken to be the length.
pub slice : List ℕ → ℕ → ℕ → Option (List ℕ)
slice xs lo hi = if leb lo hi && leb hi (length xs) then some (drop lo (take hi xs)) else none

-- `copy(dst[lo:hi], src)`: as many bytes as fit on both sides.
pub copy : List ℕ → ℕ → ℕ → List ℕ → Option (List ℕ)
copy dst lo hi src =
    let n = min (hi - lo) (length src) in
    if leb lo hi && leb hi (length dst)
    then some (take lo dst ++ (take n src ++ drop (lo + n) dst))
    else none

-- The branch of `Write` for a slice at least as long as the ring.
pub write_over : RingBuffer → Bool → List ℕ → Option (RingBuffer × ℕ)
write_over r full p = do
  src ← slice p (length p - r.size) (length p)
  buffer ← copy r.buffer 0 (length r.buffer) src
  some (record r { buffer = buffer; start = 0; end = 0; full = full }, r.size)

-- The copy of what did not fit before the end of the buffer, to its start.
pub wrap_around : List ℕ → ℕ → ℕ → List ℕ → Option (List ℕ)
wrap_around buffer done remainder p =
    if ltb 0 remainder
    then (do src ← slice p done (length p); copy buffer 0 remainder src)
    else some buffer

pub write_on : RingBuffer → Bool → List ℕ → Option (RingBuffer × ℕ)
write_on r full p = do
  let n = length p
  let writestop = min (r.end + n) r.size
  let done = writestop - r.end
  src ← slice p 0 done
  first ← copy r.buffer r.end writestop src
  buffer ← wrap_around first done (max 0 (n - done)) p
  let end = (r.end + n) % r.size
  some (
    record r { buffer = buffer; start = if full then end else r.start; end = end; full = full },
    n,
  )

-- The result is the new ring and the count that `Write` returns. Its call of `sanitycheck` drops the
-- error.
pub write : RingBuffer → List ℕ → Option (RingBuffer × ℕ)
write r p =
    let full = if not r.full && leb r.size (r.end + length p) then true else r.full in
    if leb r.size (length p) then write_over r full p else write_on r full p

-- The number of bytes to read; a negative one makes a slice panic.
pub read_count : RingBuffer → ℕ → Option ℕ
read_count r len =
    if not r.full
    then if ltb r.end r.start then none else some (min len (r.end - r.start))
    else some (min len r.size)

-- What `Read` leaves in `p`, with the count; or its error.
pub data ReadResult : Type 0 where
  bytes : List ℕ → ℕ → ReadResult
  failed : SanityError → ReadResult

pub read_bytes : RingBuffer → List ℕ → Option ReadResult
read_bytes r p = do
  n ← read_count r (length p)
  let readstop = min (r.start + n) r.size
  let done = readstop - r.start
  src ← slice r.buffer r.start readstop
  first ← copy p 0 done src
  let remainder = n - done
  out ←
      if ltb 0 remainder
      then (do rest ← slice r.buffer 0 remainder; copy first done (length first) rest)
      else some first
  some (bytes out n)

pub read : RingBuffer → List ℕ → Option ReadResult
read r p = elim (sanitycheck r) [ some e ↦ some (failed e) | none ↦ read_bytes r p ]

-- `outbuff[0:n]`; an error comes with an empty slice.
pub replay_of : ReadResult → Option (List ℕ × Option SanityError)
replay_of (bytes out n) = slice out 0 n >>= λ read. some (read, none)
replay_of (failed e) = some ([], some e)

pub read_all : RingBuffer → Option (List ℕ × Option SanityError)
unfolding replay_of
read_all r = read r (replicate r.size 0) >>= replay_of
