-- ===== src/RingBuffer/Copy.antt =====
-- What the slices and copies of ringbuffer.go yield within bounds, and the rings that `Write` leaves.
use bzero.Shared.{
  ℕ, ◌+◌, ◌-◌, ◌%◌, ◌≤◌, ◌<◌, min, max, ◌≡◌, ap, ◌∙◌, Bool, false, some, List, ◌++◌, append-nil,
  arith, ltb, if◌then◌else◌, lt→ltb, le→ltb, le→leb, length, take, drop, length-take, length-drop,
  length-append, take_all, drop_all, last_of,
}
use bzero.RingBuffer.{RingBuffer, slice, copy, wrap_around, write_over, write_on}

pub slice_lem :
    (xs : List ℕ) (lo hi : ℕ)
    → lo ≤ hi
    → hi ≤ length xs
    → slice xs lo hi ≡ some (drop lo (take hi xs))
unfolding slice
slice_lem xs lo hi p q = ground arith

-- A source no longer than the destination is copied whole.
pub copy_short :
    (dst : List ℕ) (lo hi : ℕ) (src : List ℕ)
    → lo ≤ hi
    → hi ≤ length dst
    → length src ≤ hi - lo
    → copy dst lo hi src ≡ some (take lo dst ++ (src ++ drop (lo + length src) dst))
unfolding copy
copy_short dst lo hi src p q e =
    simp
      (le→leb lo hi p, le→leb hi (length dst) q, shorter, take_all (length src) src (omega arith))
  where
    shorter : min (hi - lo) (length src) ≡ length src
    shorter = omega arith

pub copy_lem :
    (dst : List ℕ) (lo hi : ℕ) (src : List ℕ)
    → lo ≤ hi
    → hi ≤ length dst
    → length src ≡ hi - lo
    → copy dst lo hi src ≡ some (take lo dst ++ (src ++ drop hi dst))
copy_lem dst lo hi src p q e =
    copy_short dst lo hi src p q (omega arith)
    ∙ ap (λ k. some (take lo dst ++ (src ++ drop k dst))) {x = lo + length src} {y = hi}
        (omega arith)

module _ (r : RingBuffer) (p : List ℕ) (full : Bool) (sized : length r.buffer ≡ r.size) where
  pub write_over_lem :
      r.size ≤ length p
      → write_over r full p
        ≡ some (record r { buffer = last_of r.size p; start = 0; end = 0; full = full }, r.size)
  unfolding write_over
  write_over_lem h = simp (
    slice_lem p (length p - r.size) (length p) (omega arith) (omega arith),
    take_all (length p) p (omega arith),
    copy_lem r.buffer 0 (length r.buffer) (last_of r.size p) (omega arith) (omega arith)
        (omega (arith, length-drop (length p - r.size) p)),
    drop_all (length r.buffer) r.buffer (omega arith),
    append-nil,
  )

  -- The slice fits before the end of the buffer.
  pub write_on_fits :
      r.end + length p ≤ r.size
      → write_on r full p
        ≡ some (
          record r {
            buffer = take r.end r.buffer ++ (p ++ drop (r.end + length p) r.buffer);
            start = if full then (r.end + length p) % r.size else r.start;
            end = (r.end + length p) % r.size;
            full = full;
          },
          length p,
        )
  unfolding write_on wrap_around
  write_on_fits h = simp (
    writestop,
    done,
    slice_lem p 0 (length p) (omega arith) (omega arith),
    take_all (length p) p (omega arith),
    copy_lem r.buffer r.end (r.end + length p) p (omega arith) (omega arith) (omega arith),
    left,
  )
    where
      writestop : min (r.end + length p) r.size ≡ r.end + length p
      writestop = omega arith

      done : r.end + length p - r.end ≡ length p
      done = omega arith

      left : ltb 0 (max 0 (length p - length p)) ≡ false
      left = le→ltb _ _ (omega arith)

  -- It does not fit, and the rest goes to the start of the buffer.
  pub write_on_wraps :
      r.end ≤ r.size
      → length p < r.size
      → r.size < r.end + length p
      → let room = r.size - r.end in
        write_on r full p
        ≡ some (
          record r {
            buffer = drop room p ++ drop (length p - room) (take r.end r.buffer ++ take room p);
            start = if full then (r.end + length p) % r.size else r.start;
            end = (r.end + length p) % r.size;
            full = full;
          },
          length p,
        )
  unfolding write_on wrap_around
  write_on_wraps inside small over = simp (
    writestop,
    slice_lem p 0 (r.size - r.end) (omega arith) (omega arith),
    copy_lem r.buffer r.end r.size (take (r.size - r.end) p) (omega arith) (omega arith)
        (omega (arith, length-take (r.size - r.end) p)),
    drop_all r.size r.buffer (omega arith),
    append-nil,
    left,
    lt→ltb 0 (length p - (r.size - r.end)) (omega arith),
    slice_lem p (r.size - r.end) (length p) (omega arith) (omega arith),
    take_all (length p) p (omega arith),
    copy_lem (take r.end r.buffer ++ take (r.size - r.end) p) 0 (length p - (r.size - r.end))
        (drop (r.size - r.end) p) (omega arith)
        (omega (
          arith,
          length-append (take r.end r.buffer) (take (r.size - r.end) p),
          length-take r.end r.buffer,
          length-take (r.size - r.end) p,
        ))
        (omega (arith, length-drop (r.size - r.end) p)),
  )
    where
      writestop : min (r.end + length p) r.size ≡ r.size
      writestop = omega arith

      left : max 0 (length p - (r.size - r.end)) ≡ length p - (r.size - r.end)
      left = omega arith
