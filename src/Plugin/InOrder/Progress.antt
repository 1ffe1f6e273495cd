-- ===== src/Plugin/InOrder/Progress.antt =====
-- What the loop that puts messages in order keeps true of the messages as they were sent.
use bzero.Shared.{
  ℕ, zero, suc, ◌≡◌, ◌⊎◌, inl, inr, refl, Bool, true, false, ◌||◌, some, List, [], ◌∷◌, ◌++◌, ◌<◌,
  ◌≤◌, if◌then◌else◌, length, take, arith, Bool-cases, Option-cases,
}
use bzero.Plugin.InOrder.Lookup.{
  at, AreSent, find, has, remove, insert, has_of-find, has-remove_ne, find_of-remove, length-remove,
  has-insert, find-insert, has-nil, has-cons, find-nil,
}
use bzero.Plugin.InOrder.Loop.{
  Reorder, begin, drain, arrive, arrive_all, deliver, drain_idle, drain_on, drain_ends,
  arrive_stopped, arrive_live, arrive_dead,
}

at-length : {A : Type 0} (k : ℕ) (xs : List A) (x : A) → at k xs ≡ some x → k < length xs
unfolding at
at-length k [] x e = absurd (ground arith)
at-length zero (y ∷ xs) x e = omega arith
at-length (suc k) (y ∷ xs) x e = omega (arith, at-length k xs x e)

if_flag : {S : Type 0} (p : S × Bool) → (if p.1 then (p.0, true) else (p.0, false)) ≡ p
if_flag (s, true) = refl
if_flag (s, false) = refl

module _ {M S : Type 0} (step : M → S → S × Bool) where
  -- One more message of those that were sent.
  deliver-take-suc :
      (k : ℕ) (sent : List M) (s t : S) (m : M)
      → deliver step (take k sent) s ≡ (t, true)
      → at k sent ≡ some m
      → deliver step (take (suc k) sent) s ≡ step m t
  unfolding deliver at
  deliver-take-suc k [] s t m d e = absurd (ground arith)
  deliver-take-suc zero (x ∷ xs) s t m d e = grind (arith, if_flag (step x s))
  deliver-take-suc (suc k) (x ∷ xs) s t m d e = elim (Bool-cases (step x s).1) [
    | inl on ↦ grind (arith, deliver-take-suc k xs (step x s).0 t m)
    | inr off ↦ ground arith
  ]

  -- After the message that ends the stream nothing is delivered.
  pub deliver-take_ended :
      (k : ℕ) (sent : List M) (s t : S)
      → deliver step (take k sent) s ≡ (t, false)
      → deliver step sent s ≡ (t, false)
  unfolding deliver
  deliver-take_ended zero sent s t d = ground arith
  deliver-take_ended (suc k) [] s t d = d
  deliver-take_ended (suc k) (x ∷ xs) s t d = ground (arith, deliver-take_ended k xs (step x s).0 t)

module _ {M S : Type 0} (number : M → ℕ) (alive : S → Bool) (step : M → S → S × Bool)
    (sent : List M) (s : S) where
  -- The loop has run the handler over the messages before the one it expects, and has each later one in
  -- its map, or still has it to come among `rest`.
  pub record Tracks (q : Reorder M S) (rest : List M) : Type 0 where
    pub delivered : deliver step (take q.expected sent) s ≡ (q.state, true)
    pub genuine : (k : ℕ) (m : M) → find number k q.waiting ≡ some m → at k sent ≡ some m
    pub covered :
        (k : ℕ)
        → q.expected ≤ k
        → k < length sent
        → (has number k q.waiting || has number k rest) ≡ true

  -- The handler ended the stream, or a state in which it goes no further was reached.
  abbrev pub HasEnded : Reorder M S → Type 0
  HasEnded q =
      (n : ℕ) × ((deliver step (take n sent) s ≡ (q.state, false))
        ⊎ ((deliver step (take n sent) s ≡ (q.state, true)) × (alive q.state ≡ false)))

  abbrev pub IsInOrder : Reorder M S → List M → Type 0
  IsInOrder q rest = ((q.stopped ≡ true) × HasEnded q) ⊎ ((q.stopped ≡ false) × Tracks q rest)

  -- One round of the inner loop.
  round-Tracks :
      (q : Reorder M S) (rest : List M) (m : M)
      → Tracks q rest
      → find number q.expected q.waiting ≡ some m
      → (step m q.state).1 ≡ true
      → Tracks
          (record q {
            expected = suc q.expected;
            waiting = remove number q.expected q.waiting;
            state = (step m q.state).0;
          })
          rest
  round-Tracks q rest m t f on = record {
    delivered = grind (
      arith,
      deliver-take-suc step q.expected sent s q.state m t.delivered (t.genuine q.expected m f),
    );
    genuine = λ k x g. t.genuine k x (find_of-remove number q.expected k q.waiting x g);
    covered = λ k le lt. ground (arith, has-remove_ne number q.expected k q.waiting, t.covered k);
  }

  last_round-HasEnded :
      (q : Reorder M S) (rest : List M) (m : M)
      → Tracks q rest
      → find number q.expected q.waiting ≡ some m
      → (step m q.state).1 ≡ false
      → HasEnded (record q { state = (step m q.state).0; stopped = true })
  last_round-HasEnded q rest m t f ends = (
    suc q.expected,
    inl (
        grind (
          arith,
          deliver-take-suc step q.expected sent s q.state m t.delivered (t.genuine q.expected m f),
        )),
  )

  pub drain-IsInOrder :
      (fuel : ℕ) (q : Reorder M S) (rest : List M)
      → q.stopped ≡ false
      → Tracks q rest
      → length q.waiting ≤ fuel
      → let r = drain number alive step fuel q in
        IsInOrder r rest × ((r.stopped ≡ false) → has number r.expected r.waiting ≡ false)
  unfolding drain
  drain-IsInOrder zero q rest on t h = (inr (on, t), λ _. none_left q.waiting h)
    where
      none_left : (w : List M) → length w ≤ 0 → has number q.expected w ≡ false
      none_left [] k = has-nil number q.expected
      none_left (x ∷ w) k = absurd (omega arith)
  drain-IsInOrder (suc fuel) q rest on t h =
      elim (Option-cases (find number q.expected q.waiting)) [
        | inl f ↦
            rw (drain_idle number alive step fuel q f)
              (inr (on, t), λ _. has_of-find number q.expected q.waiting f)
        | inr (m, f) ↦ elim (Bool-cases (step m q.state).1) [
          | inl more ↦ rw (drain_on number alive step fuel q m f more) (
              drain-IsInOrder fuel _ rest on (round-Tracks q rest m t f more)
                (omega (arith, length-remove number q.expected q.waiting m f)))
          | inr ends ↦
              rw (drain_ends number alive step fuel q m f ends)
                (inl (refl, last_round-HasEnded q rest m t f ends), λ e. absurd (ground arith))
        ]
      ]

  -- The next message has not come, unless the loop has returned.
  abbrev pub IsDrained : Reorder M S → Type 0
  IsDrained q = (q.stopped ≡ false) → has number q.expected q.waiting ≡ false

  insert-Tracks :
      (q : Reorder M S) (m : M) (rest : List M)
      → at (number m) sent ≡ some m
      → Tracks q (m ∷ rest)
      → Tracks (record q { waiting = insert number m q.waiting }) rest
  insert-Tracks q m rest e t = record {
    delivered = t.delivered;
    genuine = λ k x g. elim (find-insert number k m x q.waiting g) [
      | inl same ↦ grind arith
      | inr old ↦ t.genuine k x old
    ];
    covered = λ k le lt. ground (
      arith,
      has-insert number k m q.waiting,
      has-cons number k m q.waiting,
      has-cons number k m rest,
      t.covered k le lt,
    );
  }

  -- One message that was sent comes in, of those that are still to come.
  pub arrive-IsInOrder :
      (q : Reorder M S) (m : M) (rest : List M)
      → at (number m) sent ≡ some m
      → IsInOrder q (m ∷ rest)
      → IsInOrder (arrive number alive step m q) rest × IsDrained (arrive number alive step m q)
  arrive-IsInOrder q m rest e (inl h) =
      rw (arrive_stopped number alive step m q h.0) (inl h, λ on. absurd (ground arith))
  arrive-IsInOrder q m rest e (inr (on, t)) = elim (Bool-cases (alive q.state)) [
    | inl live ↦
        rw (arrive_live number alive step m q on live)
          (drain-IsInOrder _ _ rest on (insert-Tracks q m rest e t) (omega arith))
    | inr dead ↦
        rw (arrive_dead number alive step m q on dead)
          (inl (refl, (q.expected, inr (t.delivered, dead))), λ e. absurd (ground arith))
  ]

  -- Whatever has come so far of messages that are all to come.
  pub arrive_all-IsInOrder :
      (q : Reorder M S) (early late : List M)
      → AreSent number sent early
      → IsInOrder q (early ++ late)
      → IsDrained q
      → let r = arrive_all number alive step early q in IsInOrder r late × IsDrained r
  unfolding arrive_all
  arrive_all-IsInOrder q [] late h t d = (t, d)
  arrive_all-IsInOrder q (m ∷ ms) late h t d =
      let came = arrive-IsInOrder q m (ms ++ late) h.0 t in
      arrive_all-IsInOrder (arrive number alive step m q) ms late h.1 came.0 came.1

  pub begin-IsInOrder :
      (all : List M)
      → ((k : ℕ) → k < length sent → has number k all ≡ true)
      → IsInOrder (begin s) all × IsDrained (begin s)
  unfolding deliver
  begin-IsInOrder all h = (
    inr (
      refl,
      record {
        delivered = refl;
        genuine = λ k m f. absurd (ground (arith, find-nil number k));
        covered = λ k _ lt. ground (arith, has-nil number k, h k lt);
      },
    ),
    λ _. has-nil number 0,
  )
