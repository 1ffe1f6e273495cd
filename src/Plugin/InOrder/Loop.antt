-- ===== src/Plugin/InOrder/Loop.antt =====
-- The loop that puts messages in order, and the same handler run over the messages as they were sent.
use bzero.Shared.{
  ℕ, zero, suc, Bool, true, false, none, some, List, [], ◌∷◌, if◌then◌else◌, length, ◌≡◌, arith,
}
use bzero.Plugin.InOrder.Lookup.{find, remove, insert}

-- The number that comes next, the messages that wait, the state the handler works on, and whether the
-- loop has returned.
pub record Reorder (M S : Type 0) : Type 0 where
  pub expected : ℕ
  pub waiting : List M
  pub state : S
  pub stopped : Bool

abbrev pub begin : {M S : Type 0} → S → Reorder M S
begin s = record { expected = 0; waiting = []; state = s; stopped = false }

module _ {M S : Type 0} (number : M → ℕ) (alive : S → Bool) (step : M → S → S × Bool) where
  -- The inner loop. Every round takes a message from the map, whose size is enough fuel.
  unfoldable pub drain : ℕ → Reorder M S → Reorder M S
  drain zero q = q
  drain (suc fuel) q = elim (find number q.expected q.waiting) [
    | none ↦ q
    | some m ↦
        let rest = drain fuel (record q {
          expected = suc q.expected;
          waiting = remove number q.expected q.waiting;
          state = (step m q.state).0;
        }) in
        if (step m q.state).1 then rest else record q { state = (step m q.state).0; stopped = true }
  ]

  -- One message comes in.
  unfoldable pub arrive : M → Reorder M S → Reorder M S
  arrive m q =
      let drained =
        drain (length (insert number m q.waiting))
          (record q { waiting = insert number m q.waiting }) in
      if q.stopped then q else if alive q.state then drained else record q { stopped = true }

  unfoldable pub arrive_all : List M → Reorder M S → Reorder M S
  arrive_all [] q = q
  arrive_all (m ∷ ms) q = arrive_all ms (arrive m q)

  -- The rounds of the inner loop, and what comes of a message.
  pub drain_idle :
      (fuel : ℕ) (q : Reorder M S)
      → find number q.expected q.waiting ≡ none
      → drain (suc fuel) q ≡ q
  unfolding drain
  drain_idle fuel q f = ground arith

  pub drain_on :
      (fuel : ℕ) (q : Reorder M S) (m : M)
      → find number q.expected q.waiting ≡ some m
      → (step m q.state).1 ≡ true
      → drain (suc fuel) q
        ≡ drain fuel (record q {
          expected = suc q.expected;
          waiting = remove number q.expected q.waiting;
          state = (step m q.state).0;
        })
  unfolding drain
  drain_on fuel q m f on = ground arith

  pub drain_ends :
      (fuel : ℕ) (q : Reorder M S) (m : M)
      → find number q.expected q.waiting ≡ some m
      → (step m q.state).1 ≡ false
      → drain (suc fuel) q ≡ record q { state = (step m q.state).0; stopped = true }
  unfolding drain
  drain_ends fuel q m f off = ground arith

  pub arrive_stopped : (m : M) (q : Reorder M S) → q.stopped ≡ true → arrive m q ≡ q
  unfolding arrive
  arrive_stopped m q h = ground arith

  pub arrive_dead :
      (m : M) (q : Reorder M S)
      → q.stopped ≡ false
      → alive q.state ≡ false
      → arrive m q ≡ record q { stopped = true }
  unfolding arrive
  arrive_dead m q h dead = ground arith

  pub arrive_live :
      (m : M) (q : Reorder M S)
      → q.stopped ≡ false
      → alive q.state ≡ true
      → arrive m q
        ≡ drain
            (length (insert number m q.waiting))
            (record q { waiting = insert number m q.waiting })
  unfolding arrive
  arrive_live m q h live = ground arith

module _ {M S : Type 0} (step : M → S → S × Bool) where
  -- The handler over the messages as they were sent, up to the one that ends the stream.
  unfoldable pub deliver : List M → S → S × Bool
  deliver [] s = (s, true)
  deliver (m ∷ ms) s =
      let rest = deliver ms (step m s).0 in if (step m s).1 then rest else ((step m s).0, false)

  pub deliver_on :
      (m : M) (ms : List M) (s t : S) → step m s ≡ (t, true) → deliver (m ∷ ms) s ≡ deliver ms t
  unfolding deliver
  deliver_on m ms s t e = grind arith

  pub deliver_off :
      (m : M) (ms : List M) (s t : S) → step m s ≡ (t, false) → deliver (m ∷ ms) s ≡ (t, false)
  unfolding deliver
  deliver_off m ms s t e = grind arith
