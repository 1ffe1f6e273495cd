-- ===== src/RingBuffer/Replay.antt =====
-- `ReadAll`, and the replay after a history of writes from a new ring.
use bzero.Shared.{
  ℕ, ◌≤◌, min, ◌≡◌, refl, sym, ap, ap₂, ◌∙◌, Option, none, some, List, [], ◌∷◌, ◌++◌, append-nil,
  append_assoc, arith, length, drop, replicate, length-append, length-replicate, take_all, last_of,
  take-append_at, last_of-last_of, last_of_all,
}
use bzero.RingBuffer.{RingBuffer, new, read_all, write}
use bzero.RingBuffer.Read.{held, length-contents, read_lem}
use bzero.RingBuffer.Copy.{slice_lem}
use bzero.RingBuffer.Window.{IsValid, contents}
use bzero.RingBuffer.Write.{Keeps, write-Keeps}

pub new-IsValid : (size : ℕ) → IsValid (new size)
unfolding new
new-IsValid size = record {
  sized = length-replicate size 0;
  inside = omega arith;
  room = λ h. h;
  tail = refl;
}

-- `ReadAll` returns exactly the bytes held, oldest first, without an error.
pub read_all-contents : (r : RingBuffer) → IsValid r → read_all r ≡ some (contents r, none)
unfolding read_all
read_all-contents r v = simp (
  read_lem r (replicate r.size 0) v,
  count_held,
  take_all (held r) (contents r) (omega (arith, length-contents r v)),
  slice_lem (contents r ++ unused) 0 (held r) (omega arith)
      (omega (arith, length-append (contents r) unused, length-contents r v)),
  take-append_at (held r) (contents r) unused (sym (length-contents r v)),
)
  where
    unused : List ℕ
    unused = drop (held r) (replicate r.size 0)

    count_held : min (length {A = ℕ} (replicate r.size 0)) (held r) ≡ held r
    count_held = ground (arith, length-replicate {A = ℕ} r.size 0, v.inside)

-- A history of `Write` calls, in order.
unfoldable pub write_each : RingBuffer → List (List ℕ) → Option RingBuffer
write_each r [] = some r
write_each r (p ∷ ps) = elim (write r p) [ none ↦ none | some (r', n) ↦ write_each r' ps ]

abbrev pub concat : List (List ℕ) → List ℕ
concat [] = []
concat (p ∷ ps) = p ++ concat ps

write_each-last :
    (ps : List (List ℕ)) (r : RingBuffer)
    → IsValid r
    → (r' : RingBuffer) × (write_each r ps ≡ some r')
      × IsValid r'
      × (contents r' ≡ last_of r.size (contents r ++ concat ps))
unfolding write_each
write_each-last [] r v =
    (r, refl, v, rw append-nil (sym (last_of_all r.size (contents r) (bound r v))))
  where
    bound : (r : RingBuffer) → IsValid r → length (contents r) ≤ r.size
    bound r v = ground (arith, length-contents r v, v.inside)
write_each-last (p ∷ ps) r v =
    let (r1, e, k) = write-Keeps r p v in
    let (r2, e2, v2, c) = write_each-last ps r1 k.valid in
    (r2, rw (e, write_each) e2, v2, step r1 r2 k c)
  where
    step :
        (r1 r2 : RingBuffer)
        → Keeps r p r1
        → contents r2 ≡ last_of r1.size (contents r1 ++ concat ps)
        → contents r2 ≡ last_of r.size (contents r ++ (p ++ concat ps))
    step r1 r2 k c =
        c
        ∙ ap₂ (λ n xs. last_of n (xs ++ concat ps)) k.same_size k.newest
        ∙ last_of-last_of r.size (contents r ++ p) (concat ps)
        ∙ ap (last_of r.size) (append_assoc (contents r) p (concat ps))

-- After any sequence of writes to a new ring, `ReadAll` returns the last `size` bytes of all that was
-- written, in order, and nothing has panicked.
pub replay_lem :
    (size : ℕ) (ps : List (List ℕ))
    → (r : RingBuffer) × (write_each (new size) ps ≡ some r)
      × (read_all r ≡ some (last_of size (concat ps), none))
unfolding new
replay_lem size ps =
    let (r, e, v, c) = write_each-last ps (new size) (new-IsValid size) in
    (r, e, read_all-contents r v ∙ ap (λ xs. some (xs, none)) c)
