-- ===== src/Plugin/InOrder/Complete.antt =====
-- The loop that puts messages in order against the handler over the messages as they were sent, for
-- any order in which the messages come, each at least once.
use bzero.Shared.{
  ℕ, zero, suc, ◌+◌, ◌≡◌, inl, inr, refl, ap, ◌∙◌, Bool, true, not, Option, none, some, List, [],
  ◌∷◌, ◌++◌, append-nil, ◌<◌, ◌≤◌, length, take, take_all, arith, Option-cases,
}
use native.Mathlib.Nat.{zero-add}
use bzero.Plugin.InOrder.Lookup.{AreSent, at, has, has-nil, has-cons}
use bzero.Plugin.InOrder.Loop.{Reorder, begin, arrive_all, deliver}
use bzero.Plugin.InOrder.Progress.{
  IsInOrder, IsDrained, arrive_all-IsInOrder, begin-IsInOrder, deliver-take_ended,
}

abbrev prepend : {M : Type 0} → Option M → List M → List M
prepend none ms = ms
prepend (some m) ms = m ∷ ms

-- The messages at some positions, in the order of the positions.
unfoldable pub pick : {M : Type 0} → List ℕ → List M → List M
pick [] sent = []
pick (i ∷ is) sent = prepend (at i sent) (pick is sent)

-- Messages count from `n` on.
abbrev pub Numbered : {M : Type 0} → (M → ℕ) → ℕ → List M → Type 0
Numbered number n [] = Unit
Numbered number n (m ∷ ms) = (number m ≡ n) × Numbered number (suc n) ms

-- Every position below `n` stands in the order.
abbrev pub Covers : List ℕ → ℕ → Type 0
Covers order n = (k : ℕ) → k < n → has (λ i. i) k order ≡ true

module _ {M : Type 0} (number : M → ℕ) where
  at-Numbered :
      (n k : ℕ) (sent : List M) (m : M)
      → Numbered number n sent
      → at k sent ≡ some m
      → number m ≡ n + k
  unfolding at
  at-Numbered n k [] m h e = absurd (ground arith)
  at-Numbered n zero (x ∷ xs) m h e = grind arith
  at-Numbered n (suc k) (x ∷ xs) m h e = omega (arith, at-Numbered (suc n) k xs m h.1 e)

  at-some : (k : ℕ) (sent : List M) → k < length sent → (m : M) × (at k sent ≡ some m)
  unfolding at
  at-some k [] h = absurd (omega arith)
  at-some zero (x ∷ xs) h = (x, refl)
  at-some (suc k) (x ∷ xs) h = at-some k xs (omega arith)

  pub pick-AreSent :
      (order : List ℕ) (sent : List M)
      → Numbered number 0 sent
      → AreSent number sent (pick order sent)
  unfolding pick
  pick-AreSent [] sent h = tt
  pick-AreSent (i ∷ is) sent h = elim (Option-cases (at i sent)) [
    | inl out ↦ rw out (pick-AreSent is sent h)
    | inr (m, e) ↦
        rw e (
          ap (λ k. at k sent) (at-Numbered 0 i sent m h e ∙ zero-add i) ∙ e,
          pick-AreSent is sent h,
        )
  ]

  pub has-pick :
      (k : ℕ) (order : List ℕ) (sent : List M)
      → Numbered number 0 sent
      → k < length sent
      → has (λ i. i) k order ≡ true
      → has number k (pick order sent) ≡ true
  unfolding pick
  has-pick k [] sent h lt c = absurd (ground (arith, has-nil (λ i. i) k))
  has-pick k (i ∷ is) sent h lt c = elim (Option-cases (at i sent)) [
    | inl out ↦
        rw out
          (ground (arith, has-cons (λ j. j) k i is, at-some k sent lt, has-pick k is sent h lt))
    | inr (m, e) ↦ rw e (
        ground (
          arith,
          has-cons (λ j. j) k i is,
          has-cons number k m (pick is sent),
          at-Numbered 0 i sent m h e,
          has-pick k is sent h lt,
        ))
  ]

  -- Any order in which every message comes at least once.
  pub has-pick_all :
      (order : List ℕ) (sent : List M)
      → Numbered number 0 sent
      → Covers order (length sent)
      → (k : ℕ) → k < length sent
      → has number k (pick order sent) ≡ true
  has-pick_all order sent h c k lt = has-pick k order sent h lt (c k lt)

module _ {M S : Type 0} (number : M → ℕ) (alive : S → Bool) (step : M → S → S × Bool) where
  -- The handler leaves the state one in which the loop goes on.
  abbrev pub KeepsAlive : Type 0
  KeepsAlive = (m : M) (s : S) → alive s ≡ true → alive (step m s).0 ≡ true

  deliver-alive :
      (ms : List M) (s : S) → KeepsAlive → alive s ≡ true → alive (deliver step ms s).0 ≡ true
  unfolding deliver
  deliver-alive [] s keep h = h
  deliver-alive (m ∷ ms) s keep h = ground (arith, deliver-alive ms (step m s).0 keep, keep m s)

  -- All of the messages have come, none remain.
  at_end :
      (sent : List M) (s : S) (q : Reorder M S)
      → KeepsAlive
      → alive s ≡ true
      → IsInOrder number alive step sent s q []
      → IsDrained number alive step sent s q
      → (q.state, not q.stopped) ≡ deliver step sent s
  at_end sent s q keep live (inl (stop, (n, inl ended))) d =
      grind (arith, deliver-take_ended step n sent s q.state ended)
  at_end sent s q keep live (inl (stop, (n, inr dead))) d =
      absurd (grind (arith, deliver-alive (take n sent) s keep live))
  at_end sent s q keep live (inr (on, t)) d =
      grind (arith, t.delivered, take_all q.expected sent past)
    where
      past : length sent ≤ q.expected
      past = ground (arith, t.covered q.expected, d on, has-nil number q.expected)

  -- Messages that came in any order, each at least once, leave what they would have in order.
  pub arrive_all-deliver :
      (sent : List M) (s : S) (order : List ℕ)
      → KeepsAlive
      → alive s ≡ true
      → Numbered number 0 sent
      → Covers order (length sent)
      → let r = arrive_all number alive step (pick order sent) (begin s) in
        (r.state, not r.stopped) ≡ deliver step sent s
  arrive_all-deliver sent s order keep live num cov =
      let start =
        begin-IsInOrder number alive step sent s (pick order sent ++ [])
          (rw append-nil (has-pick_all number order sent num cov)) in
      let done =
        arrive_all-IsInOrder number alive step sent s (begin s) (pick order sent) []
          (pick-AreSent number order sent num) start.0 start.1 in
      at_end sent s _ keep live done.0 done.1

module _ {M : Type 0} (number : M → ℕ) where
  has-append : (k : ℕ) (xs ys : List M) → has number k ys ≡ true → has number k (xs ++ ys) ≡ true
  has-append k [] ys h = h
  has-append k (x ∷ xs) ys h = ground (arith, has-cons number k x (xs ++ ys), has-append k xs ys h)

  has-Numbered :
      (n k : ℕ) (sent : List M)
      → Numbered number n sent
      → k < length sent
      → has number (n + k) sent ≡ true
  has-Numbered n k [] h lt = absurd (omega arith)
  has-Numbered n zero (x ∷ xs) h lt = ground (arith, has-cons number n x xs, h.0)
  has-Numbered n (suc k) (x ∷ xs) h lt =
      ground (arith, has-cons number (n + suc k) x xs, has-Numbered (suc n) k xs h.1)

module _ {M S : Type 0} (number : M → ℕ) (alive : S → Bool) (step : M → S → S × Bool) where
  handled :
      (sent : List M) (s : S) (q : Reorder M S) (late : List M)
      → IsInOrder number alive step sent s q late
      → (n : ℕ) × ((deliver step (take n sent) s).0 ≡ q.state)
  handled sent s q late (inl (stop, (n, inl ended))) = (n, ap (λ p. p.0) ended)
  handled sent s q late (inl (stop, (n, inr dead))) = (n, ap (λ p. p.0) dead.0)
  handled sent s q late (inr (on, t)) = (q.expected, ap (λ p. p.0) t.delivered)

  -- Whatever has come, some first messages have been handled, in the order in which they were sent.
  pub arrive_all_prefix :
      (sent : List M) (s : S) (order : List ℕ)
      → Numbered number 0 sent
      → (n : ℕ) × ((deliver step (take n sent) s).0
          ≡ (arrive_all number alive step (pick order sent) (begin s)).state)
  arrive_all_prefix sent s order num =
      let start = begin-IsInOrder number alive step sent s (pick order sent ++ sent) (λ k lt.
        has-append number k (pick order sent) sent
          (ground (arith, has-Numbered number 0 k sent num))) in
      let done =
        arrive_all-IsInOrder number alive step sent s (begin s) (pick order sent) sent
          (pick-AreSent number order sent num) start.0 start.1 in
      handled sent s _ sent done.0
