-- ===== src/RingBuffer/Write.antt =====
-- `Write` of bzerolib/ringbuffer/ringbuffer.go against the bytes that the ring holds.
use bzero.Shared.{
  ℕ, ◌+◌, ◌-◌, ◌%◌, ◌≤◌, ◌<◌, min, ◌≡◌, refl, sym, ap, ◌∙◌, Bool, true, false, not, ◌&&◌, Option,
  some, List, ◌++◌, last_of-append, append-nil, arith, leb, if◌then◌else◌, le→leb, lt→leb, length,
  take, drop, length-drop, drop_all, last_of,
}
use native.Mathlib.Nat.{mod-eq_of_lt}
use native.Mathlib.Decide.{dec_lt, dec_le}
use bzero.RingBuffer.{RingBuffer, write}
use bzero.RingBuffer.Copy.{write_over_lem, write_on_fits, write_on_wraps}
use bzero.RingBuffer.Window.{newest_full, newest_fresh, newest_wrapped}
use bzero.RingBuffer.Window.{
  IsValid, contents, fits_buffer, fits_ring, wraps_ring, length-fits_buffer, length-after,
  take-fits_buffer, drop-fits_buffer, wrapped_end, length-wraps_buffer, contents-wraps, mod-eq-sub,
}

-- The ring `r'` is valid and holds the last bytes of what `r` held and of `p`.
pub record Keeps (r : RingBuffer) (p : List ℕ) (r' : RingBuffer) : Type 0 where
  pub valid : IsValid r'
  pub same_size : r'.size ≡ r.size
  pub newest : contents r' ≡ last_of r.size (contents r ++ p)

abbrev over_ring : RingBuffer → List ℕ → RingBuffer
over_ring r p = record r { buffer = last_of r.size p; start = 0; end = 0; full = true }

module _ (r : RingBuffer) (p : List ℕ) (v : IsValid r) where
  module _ (fits : r.end + length p < r.size) where
    at_end : (r.end + length p) % r.size ≡ r.end + length p
    at_end = mod-eq_of_lt fits

    fits_ring-IsValid : (full : Bool) → r.full ≡ full → IsValid (fits_ring r p full)
    fits_ring-IsValid full e = record {
      sized = length-fits_buffer r p v (omega arith);
      inside = omega (arith, at_end);
      room = λ _. omega (arith, at_end);
      tail = ground (arith, v.tail);
    }

    fits-full : r.full ≡ true → Keeps r p (fits_ring r p true)
    fits-full f = record {
      valid = fits_ring-IsValid true f;
      same_size = refl;
      newest =
          rw (at_end, drop-fits_buffer r p v (omega arith), take-fits_buffer r p v (omega arith))
            (sym (newest_full r p v f (omega arith)));
    }

    fits-fresh : r.full ≡ false → Keeps r p (fits_ring r p false)
    fits-fresh f = record {
      valid = fits_ring-IsValid false f;
      same_size = refl;
      newest =
          rw (at_end, take-fits_buffer r p v (omega arith))
            (sym (newest_fresh r p v f (omega arith)));
    }

  -- The slice ends where the buffer does, and the ring is full from here on.
  module _ (small : length p < r.size) (fits : r.end + length p ≡ r.size) where
    at_start : (r.end + length p) % r.size ≡ 0
    at_start = omega (arith, mod-eq-sub (r.end + length p) r.size (omega arith) (omega arith))

    whole : fits_buffer r p ≡ take r.end r.buffer ++ p
    whole = rw (drop_all (r.end + length p) r.buffer (omega (arith, v.sized)), append-nil)

    fits-exact : (b : Bool) → r.full ≡ b → Keeps r p (fits_ring r p true)
    fits-exact b f = record {
      valid = record {
        sized = length-fits_buffer r p v (omega arith);
        inside = omega (arith, at_start);
        room = λ h. omega (arith, at_start);
        tail = refl;
      };
      same_size = refl;
      newest = rw (at_start, append-nil, whole) (held b f);
    }
      where
        held : (b : Bool) → r.full ≡ b → take r.end r.buffer ++ p ≡ last_of r.size (contents r ++ p)
        held true f =
            ap (λ xs. xs ++ (take r.end r.buffer ++ p))
              (sym (drop_all (length p) (drop r.end r.buffer) (omega (arith, length-after r v))))
            ∙ sym (newest_full r p v f (omega arith))
        held false f = sym (newest_fresh r p v f (omega arith))

  wraps-Keeps :
      (b : Bool)
      → r.full ≡ b
      → length p < r.size
      → r.size < r.end + length p
      → Keeps r p (wraps_ring r p true)
  wraps-Keeps b f small over = record {
    valid = record {
      sized = length-wraps_buffer r p v small over;
      inside = omega (arith, wrapped_end r p v small over);
      room = λ _. omega (arith, wrapped_end r p v small over, v.inside);
      tail = refl;
    };
    same_size = refl;
    newest =
        contents-wraps r p v small over
        ∙ sym (newest_wrapped r p v b f (omega arith) (omega arith));
  }

  -- A slice as long as the ring replaces all that it held.
  over-Keeps : r.size ≤ length p → Keeps r p (over_ring r p)
  over-Keeps h = record {
    valid = record {
      sized = omega (arith, length-drop (length p - r.size) p);
      inside = omega arith;
      room = λ k. k;
      tail = refl;
    };
    same_size = refl;
    newest = append-nil (last_of r.size p) ∙ sym (last_of-append r.size (contents r) p h);
  }

module _ (r : RingBuffer) (p : List ℕ) (v : IsValid r) where
  write_fits :
      (b : Bool)
      → r.full ≡ b
      → length p < r.size
      → r.end + length p < r.size
      → (r' : RingBuffer) × (write r p ≡ some (r', length p)) × Keeps r p r'
  unfolding write
  write_fits true f small fits = (
    fits_ring r p true,
    simp (f, lt→leb r.size (length p) small) (write_on_fits r p true v.sized (omega arith)),
    fits-full r p v fits f,
  )
  write_fits false f small fits = (
    fits_ring r p false,
    simp (f, lt→leb r.size (length p) small, lt→leb r.size (r.end + length p) fits)
        (write_on_fits r p false v.sized (omega arith)),
    fits-fresh r p v fits f,
  )

  filled :
      (b : Bool)
      → r.full ≡ b
      → r.size ≤ r.end + length p
      → (if not r.full && leb r.size (r.end + length p) then true else r.full) ≡ true
  filled true f h = rw f
  filled false f h = rw (f, le→leb r.size (r.end + length p) h)

  write_fills :
      r.size ≤ r.end + length p
      → (r' : RingBuffer) × (write r p ≡ some (r', min (length p) r.size)) × Keeps r p r'
  unfolding write
  write_fills h = elim (dec_le r.size (length p)) [
    | yes long ↦ (
      over_ring r p,
      simp (filled r.full refl h, le→leb r.size (length p) long)
          (write_over_lem r p true v.sized long ∙ counted (over_ring r p) r.size (omega arith)),
      over-Keeps r p v long,
    )
    | no short ↦ elim (dec_lt r.size (r.end + length p)) [
      | yes over ↦ (
        wraps_ring r p true,
        simp (filled r.full refl h, lt→leb r.size (length p) (omega arith))
            (write_on_wraps r p true v.sized v.inside (omega arith) over
              ∙ counted (wraps_ring r p true) (length p) (omega arith)),
        wraps-Keeps r p v r.full refl (omega arith) over,
      )
      | no exact ↦ (
        fits_ring r p true,
        simp (filled r.full refl h, lt→leb r.size (length p) (omega arith))
            (write_on_fits r p true v.sized (omega arith)
              ∙ counted (fits_ring r p true) (length p) (omega arith)),
        fits-exact r p v (omega arith) (omega arith) r.full refl,
      )
    ]
  ]
    where
      counted :
          (r' : RingBuffer) (n : ℕ)
          → n ≡ min (length p) r.size
          → ◌≡◌ {A = Option (RingBuffer × ℕ)} (some (r', n)) (some (r', min (length p) r.size))
      counted r' n e = ap (λ k. some (r', k)) e

-- `Write` on a valid ring never panics. It returns the number of bytes it kept, the length of the
-- slice or the size of the ring, and leaves a valid ring of the same size that holds the last `size`
-- bytes of what it held before followed by the slice.
pub write-Keeps :
    (r : RingBuffer) (p : List ℕ)
    → IsValid r
    → (r' : RingBuffer) × (write r p ≡ some (r', min (length p) r.size)) × Keeps r p r'
write-Keeps r p v = elim (dec_lt (r.end + length p) r.size) [
  | yes fits ↦
      let (r', e, k) = write_fits r p v r.full refl (omega arith) fits in
      (r', e ∙ ap (λ k. some (r', k)) {x = length p} {y = min (length p) r.size} (omega arith), k)
  | no fills ↦ write_fills r p v (omega arith)
]
