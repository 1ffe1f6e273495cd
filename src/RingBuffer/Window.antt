-- ===== src/RingBuffer/Window.antt =====
-- The ring seen as the bytes it holds, oldest first, and what `Write` makes of them.
use bzero.Shared.{
  append_last, rotate_last, wrap_last, wrap_last_fresh, last_of, sym, ap, ◌∙◌, arith, ℕ, ◌+◌, ◌-◌,
  ◌%◌, ◌≤◌, ◌<◌, ◌≡◌, sym, ap, ap₂, ◌∙◌, Bool, true, false, List, ◌++◌, drop-drop, append_assoc,
  arith, if◌then◌else◌, length, take, drop, length-take, length-drop, length-append, take-append_at,
  drop-append_at, drop-append_le, take-append-drop,
}
use native.Mathlib.Nat.{mod-eq_of_lt, mod-eq-sub-mod}
use bzero.RingBuffer.{RingBuffer}

pub record IsValid (r : RingBuffer) : Type 0 where
  pub sized : length r.buffer ≡ r.size
  pub inside : r.end ≤ r.size
  pub room : 0 < r.size → r.end < r.size
  pub tail : r.start ≡ (if r.full then r.end else 0)

-- The bytes that a reader may see, oldest first.
abbrev pub contents : RingBuffer → List ℕ
contents r = if r.full then drop r.start r.buffer ++ take r.start r.buffer else take r.end r.buffer

pub mod-eq-sub : (n m : ℕ) → m ≤ n → n < m + m → n % m ≡ n - m
mod-eq-sub n m h k =
    omega (arith, mod-eq-sub-mod {n = n} {m = m} h, mod-eq_of_lt {n = n - m} {m = m} (omega arith))

-- The lengths of the two parts of a valid ring's buffer, and how they make it up.
module _ (r : RingBuffer) (v : IsValid r) where
  pub length-before : length (take r.end r.buffer) ≡ r.end
  length-before = omega (arith, length-take r.end r.buffer, v.sized, v.inside)

  pub length-after : length (drop r.end r.buffer) ≡ r.size - r.end
  length-after = omega (arith, length-drop r.end r.buffer, v.sized)

  pub parts-size : length (take r.end r.buffer) + length (drop r.end r.buffer) ≡ r.size
  parts-size = omega (arith, length-before, length-after, v.inside)

  pub contents-full : r.full ≡ true → contents r ≡ drop r.end r.buffer ++ take r.end r.buffer
  contents-full f = ground (arith, v.tail)

  pub contents-fresh : r.full ≡ false → contents r ≡ take r.end r.buffer
  contents-fresh f = ground arith

-- The specification's window, over the two parts of the buffer.
module _ (r : RingBuffer) (p : List ℕ) (v : IsValid r) where
  by_parts :
      (xs : List ℕ)
      → last_of (length (take r.end r.buffer) + length (drop r.end r.buffer)) xs ≡ last_of r.size xs
  by_parts xs = ap (λ k. last_of k xs) (parts-size r v)

  pub newest_full :
      r.full ≡ true
      → length p ≤ r.size - r.end
      → last_of r.size (contents r ++ p)
        ≡ drop (length p) (drop r.end r.buffer) ++ (take r.end r.buffer ++ p)
  newest_full f h =
      sym (by_parts (contents r ++ p))
      ∙ rw (contents-full r v f) (
          rotate_last (take r.end r.buffer) (drop r.end r.buffer) p
            (omega (arith, length-after r v)))

  pub newest_fresh :
      r.full ≡ false
      → length p ≤ r.size - r.end
      → last_of r.size (contents r ++ p) ≡ take r.end r.buffer ++ p
  newest_fresh f h =
      sym (by_parts (contents r ++ p))
      ∙ rw (contents-fresh r v f) (
          append_last (take r.end r.buffer) (drop r.end r.buffer) p
            (omega (arith, length-after r v)))

  pub newest_wrapped :
      (b : Bool)
      → r.full ≡ b
      → r.size - r.end ≤ length p
      → length p ≤ r.size
      → last_of r.size (contents r ++ p)
        ≡ drop (length p - (r.size - r.end)) (take r.end r.buffer) ++ p
  newest_wrapped true f h k =
      sym (by_parts (contents r ++ p))
      ∙ rw (contents-full r v f) (
          wrap_last (take r.end r.buffer) (drop r.end r.buffer) p (omega (arith, length-after r v))
            (omega (arith, parts-size r v)))
      ∙ ap (λ k. drop (length p - k) (take r.end r.buffer) ++ p) (length-after r v)
  newest_wrapped false f h k =
      sym (by_parts (contents r ++ p))
      ∙ rw (contents-fresh r v f) (
          wrap_last_fresh (take r.end r.buffer) (drop r.end r.buffer) p
            (omega (arith, length-after r v)) (omega (arith, parts-size r v)))
      ∙ ap (λ k. drop (length p - k) (take r.end r.buffer) ++ p) (length-after r v)

-- The rings that `Write` leaves where the slice fits before the end of the buffer, and where it does
-- not.
module _ (r : RingBuffer) (p : List ℕ) where
  abbrev pub fits_buffer : List ℕ
  fits_buffer = take r.end r.buffer ++ (p ++ drop (r.end + length p) r.buffer)

  abbrev pub wraps_buffer : List ℕ
  wraps_buffer =
      drop (r.size - r.end) p
      ++ drop (length p - (r.size - r.end)) (take r.end r.buffer ++ take (r.size - r.end) p)

module _ (r : RingBuffer) (p : List ℕ) (full : Bool) where
  abbrev pub fits_ring : RingBuffer
  fits_ring = record r {
    buffer = fits_buffer r p;
    start = if full then (r.end + length p) % r.size else r.start;
    end = (r.end + length p) % r.size;
    full = full;
  }

  abbrev pub wraps_ring : RingBuffer
  wraps_ring = record r {
    buffer = wraps_buffer r p;
    start = if full then (r.end + length p) % r.size else r.start;
    end = (r.end + length p) % r.size;
    full = full;
  }

pub length-fits_buffer :
    (r : RingBuffer) (p : List ℕ)
    → IsValid r
    → r.end + length p ≤ r.size
    → length (fits_buffer r p) ≡ r.size
length-fits_buffer r p v h = omega (
  arith,
  length-append (take r.end r.buffer) (p ++ drop (r.end + length p) r.buffer),
  length-append p (drop (r.end + length p) r.buffer),
  length-drop (r.end + length p) r.buffer,
  length-before r v,
  v.sized,
)

module _ (r : RingBuffer) (p : List ℕ) (v : IsValid r) where
  module _ (fits : r.end + length p ≤ r.size) where
    pub take-fits_buffer : take (r.end + length p) (fits_buffer r p) ≡ take r.end r.buffer ++ p
    take-fits_buffer =
        ap (take (r.end + length p))
          (sym (append_assoc (take r.end r.buffer) p (drop (r.end + length p) r.buffer)))
        ∙ take-append_at (r.end + length p) (take r.end r.buffer ++ p)
            (drop (r.end + length p) r.buffer)
            (omega (arith, length-append (take r.end r.buffer) p, length-before r v))

    pub drop-fits_buffer :
        drop (r.end + length p) (fits_buffer r p) ≡ drop (length p) (drop r.end r.buffer)
    drop-fits_buffer =
        ap (drop (r.end + length p))
          (sym (append_assoc (take r.end r.buffer) p (drop (r.end + length p) r.buffer)))
        ∙ drop-append_at (r.end + length p) (take r.end r.buffer ++ p)
            (drop (r.end + length p) r.buffer)
            (omega (arith, length-append (take r.end r.buffer) p, length-before r v))
        ∙ sym (drop-drop (length p) r.end r.buffer)

  module _ (inside : length p < r.size) (over : r.size < r.end + length p) where
    pub before-drop :
        drop (length p - (r.size - r.end)) (take r.end r.buffer ++ take (r.size - r.end) p)
        ≡ drop (length p - (r.size - r.end)) (take r.end r.buffer) ++ take (r.size - r.end) p
    before-drop =
        drop-append_le (length p - (r.size - r.end)) (take r.end r.buffer) (take (r.size - r.end) p)
          (omega (arith, length-before r v))

    pub length-carried : length (drop (r.size - r.end) p) ≡ length p - (r.size - r.end)
    length-carried = length-drop (r.size - r.end) p

    pub wrapped_end : (r.end + length p) % r.size ≡ length p - (r.size - r.end)
    wrapped_end = omega (
      arith,
      mod-eq-sub (r.end + length p) r.size (omega arith) (omega (arith, v.inside)),
      v.inside,
    )

    pub length-wraps_buffer : length (wraps_buffer r p) ≡ r.size
    length-wraps_buffer = omega (
      arith,
      length-append (drop (r.size - r.end) p)
          (drop (length p - (r.size - r.end)) (take r.end r.buffer ++ take (r.size - r.end) p)),
      length-carried,
      length-drop (length p - (r.size - r.end)) (take r.end r.buffer ++ take (r.size - r.end) p),
      length-append (take r.end r.buffer) (take (r.size - r.end) p),
      length-take (r.size - r.end) p,
      length-before r v,
      v.inside,
    )

    pub contents-wraps :
        contents (wraps_ring r p true)
        ≡ drop (length p - (r.size - r.end)) (take r.end r.buffer) ++ p
    contents-wraps = rw wrapped_end (
        ap₂ ◌++◌
          (drop-append_at (length p - (r.size - r.end)) (drop (r.size - r.end) p) _
              (sym length-carried)
            ∙ before-drop)
          (take-append_at (length p - (r.size - r.end)) (drop (r.size - r.end) p) _
            (sym length-carried))
        ∙ append_assoc (drop (length p - (r.size - r.end)) (take r.end r.buffer))
            (take (r.size - r.end) p) (drop (r.size - r.end) p)
        ∙ ap (◌++◌ (drop (length p - (r.size - r.end)) (take r.end r.buffer)))
            (take-append-drop (r.size - r.end) p))
