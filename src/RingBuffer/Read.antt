-- ===== src/RingBuffer/Read.antt =====
-- `Read` of bzerolib/ringbuffer/ringbuffer.go against the bytes that the ring holds.
use bzero.Shared.{
  ℕ, ◌+◌, ◌-◌, ◌≤◌, ◌<◌, min, ◌≡◌, refl, sym, ap, ap₂, ◌∙◌, Bool, true, false, none, some, List,
  ◌++◌, append_assoc, arith, ltb, if◌then◌else◌, lt→ltb, le→ltb, length, take, drop, length-take,
  length-drop, length-append, take_all, inl, inr, Bool-cases, take-append_at, drop-append_ge,
  take-append_le, take-append_ge, drop-drop, drop-take, take-take,
}
use native.Mathlib.Decide.{dec_lt}
use native.Mathlib.Nat.{zero-add}
use bzero.RingBuffer.{RingBuffer, sanitycheck, read_count, read_bytes, read, bytes}
use bzero.RingBuffer.Copy.{slice_lem, copy_lem, copy_short}
use bzero.RingBuffer.Window.{IsValid, contents}

sanitycheck-none : (r : RingBuffer) → IsValid r → sanitycheck r ≡ none
unfolding sanitycheck
sanitycheck-none r v = simp (le→ltb r.size r.end v.inside, le→ltb r.size r.start start_inside)
  where
    start_inside : r.start ≤ r.size
    start_inside = ground (arith, v.tail, v.inside)

-- How many bytes the ring holds.
abbrev pub held : RingBuffer → ℕ
held r = if r.full then r.size else r.end

read_count-held : (r : RingBuffer) (n : ℕ) → IsValid r → read_count r n ≡ some (min n (held r))
unfolding read_count
read_count-held r n v = ground (arith, v.tail)

-- The bytes that `Read` copies, where they stand in one piece.
one_piece :
    (r : RingBuffer) (n : ℕ)
    → IsValid r
    → n ≤ held r
    → r.start + n ≤ r.size
    → (b : Bool) → r.full ≡ b
    → drop r.start (take (r.start + n) r.buffer) ≡ take n (contents r)
one_piece r n v h k true f = rw f (
    drop-take r.start n r.buffer
    ∙ sym (
        take-append_le n (drop r.start r.buffer) (take r.start r.buffer)
          (omega (arith, length-drop r.start r.buffer, v.sized))))
one_piece r n v h k false f = rw (f, from_zero, zero-add) (sym (take-take n r.end r.buffer bound))
  where
    from_zero : r.start ≡ 0
    from_zero = ground (arith, v.tail)

    bound : n ≤ r.end
    bound = ground (arith, f)

pub length-contents : (r : RingBuffer) → IsValid r → length (contents r) ≡ held r
length-contents r v = ground (
  arith,
  length-append (drop r.start r.buffer) (take r.start r.buffer),
  length-drop r.start r.buffer,
  length-take r.start r.buffer,
  length-take r.end r.buffer,
  v.tail,
)

module _ (r : RingBuffer) (p : List ℕ) (v : IsValid r) where
  abbrev count : ℕ
  count = min (length p) (held r)

  read_piece :
      r.start + count ≤ r.size
      → read_bytes r p ≡ some (bytes (take count (contents r) ++ drop count p) count)
  unfolding read_bytes
  read_piece h = simp (
    read_count-held r (length p) v,
    readstop,
    done,
    slice_lem r.buffer r.start (r.start + count) (omega arith) (omega (arith, v.sized)),
    one_piece r count v (omega arith) h r.full refl,
    copy_lem p 0 count (take count (contents r)) (omega arith) (omega arith)
        (omega (arith, length-piece)),
    left,
  )
    where
      readstop : min (r.start + count) r.size ≡ r.start + count
      readstop = omega arith

      done : r.start + count - r.start ≡ count
      done = omega arith

      left : ltb 0 (count - count) ≡ false
      left = le→ltb _ _ (omega arith)

      length-piece : length (take count (contents r)) ≡ count
      length-piece = omega (arith, length-take count (contents r), length-contents r v)

  -- The part of the buffer from the oldest byte on.
  abbrev room : ℕ
  room = r.size - r.start

  abbrev first_copy : List ℕ
  first_copy = drop r.start r.buffer ++ drop room p

  module _ (f : r.full ≡ true) (round : r.size < r.start + count) where
    full_bounds : (r.start ≤ r.size) × (count ≤ r.size) × (count ≤ length p)
    full_bounds = ground (arith, v.tail, v.inside, f)

    length-tail : length (drop r.start r.buffer) ≡ room
    length-tail = omega (arith, length-drop r.start r.buffer, v.sized)

    length-first_copy : length first_copy ≡ length p
    length-first_copy = omega (
      arith,
      length-append (drop r.start r.buffer) (drop room p),
      length-tail,
      length-drop room p,
      full_bounds,
    )

    length-rest : length (take (count - room) r.buffer) ≡ count - room
    length-rest = omega (arith, length-take (count - room) r.buffer, v.sized, full_bounds)

    whole_read :
        take room first_copy
          ++ (take (count - room) r.buffer
              ++ drop (room + length (take (count - room) r.buffer)) first_copy)
        ≡ take count (contents r) ++ drop count p
    whole_read =
        ap₂ ◌++◌ (take-append_at room (drop r.start r.buffer) (drop room p) (sym length-tail))
          (ap (◌++◌ (take (count - room) r.buffer)) unread)
        ∙ sym (append_assoc (drop r.start r.buffer) (take (count - room) r.buffer) (drop count p))
        ∙ ap (λ xs. xs ++ drop count p) (sym taken)
      where
        unread : drop (room + length (take (count - room) r.buffer)) first_copy ≡ drop count p
        unread =
            ap (λ k. drop k first_copy) {x = room + length (take (count - room) r.buffer)}
              {y = count} (omega (arith, length-rest, full_bounds))
            ∙ drop-append_ge count (drop r.start r.buffer) (drop room p)
                (omega (arith, length-tail, full_bounds))
            ∙ drop-drop (count - length (drop r.start r.buffer)) room p
            ∙ ap (λ k. drop k p) {y = count} (omega (arith, length-tail, full_bounds))

        taken : take count (contents r) ≡ drop r.start r.buffer ++ take (count - room) r.buffer
        taken =
            ap (take count) (ground (arith, f))
            ∙ take-append_ge count (drop r.start r.buffer) (take r.start r.buffer)
                (omega (arith, length-tail, full_bounds))
            ∙ ap (λ k. drop r.start r.buffer ++ take k (take r.start r.buffer)) {y = count - room}
                (omega (arith, length-tail))
            ∙ ap (◌++◌ (drop r.start r.buffer))
                (take-take (count - room) r.start r.buffer (omega (arith, full_bounds)))

    -- The ring is full, and the read goes round its end.
    read_round : read_bytes r p ≡ some (bytes (take count (contents r) ++ drop count p) count)
    unfolding read_bytes
    read_round =
        simp
          (
            read_count-held r (length p) v,
            readstop,
            slice_lem r.buffer r.start r.size full_bounds.0 (omega (arith, v.sized)),
            take_all r.size r.buffer (omega (arith, v.sized)),
            copy_lem p 0 room (drop r.start r.buffer) (omega arith) (omega (arith, full_bounds))
                (omega (arith, length-tail)),
            lt→ltb 0 (count - room) (omega (arith, full_bounds)),
            slice_lem r.buffer 0 (count - room) (omega arith) (omega (arith, v.sized, full_bounds)),
            copy_short first_copy room (length first_copy) (take (count - room) r.buffer)
                (omega (arith, length-first_copy, full_bounds)) (omega arith)
                (omega (arith, length-first_copy, length-rest, full_bounds)),
          )
          (ap (λ out. some (bytes out count)) whole_read)
      where
        readstop : min (r.start + count) r.size ≡ r.size
        readstop = omega arith

-- `Read` fills the slice with the oldest bytes held, as many as it has room for or the ring holds,
-- returns their number, and leaves the rest of the slice; it neither panics nor fails.
pub read_lem :
    (r : RingBuffer) (p : List ℕ)
    → IsValid r
    → let n = min (length p) (held r) in read r p ≡ some (bytes (take n (contents r) ++ drop n p) n)
unfolding read
read_lem r p v =
    rw (sanitycheck-none r v, read)
      (elim (dec_lt r.size (r.start + count r p v)) [
        | yes round ↦ elim (Bool-cases r.full) [
          | inl f ↦ read_round r p v f round
          | inr f ↦ absurd (ground (arith, v.tail, v.inside, f))
        ]
        | no piece ↦ read_piece r p v (omega arith)
      ])
