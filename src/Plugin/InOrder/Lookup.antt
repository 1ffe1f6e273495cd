-- ===== src/Plugin/InOrder/Lookup.antt =====
-- The map of messages that wait, and positions in a list of messages.
use bzero.Shared.{
  ℕ, zero, suc, ◌≡◌, ◌≢◌, ◌⊎◌, refl, Bool, true, false, Option, none, some, List, [], ◌∷◌, ◌<◌, ◌≤◌,
  ◌==◌, if◌then◌else◌, length, arith, inl, inr, Bool-cases,
}

-- The element at a position.
unfoldable pub at {ℓ} : {A : Type ℓ} → ℕ → List A → Option A
at k [] = none
at zero (x ∷ xs) = some x
at (suc k) (x ∷ xs) = at k xs

module _ {M : Type 0} (number : M → ℕ) where
  -- `m, ok := messages[k]`
  unfoldable pub find : ℕ → List M → Option M
  find k [] = none
  find k (m ∷ ms) = if number m == k then some m else find k ms

  unfoldable pub has : ℕ → List M → Bool
  has k [] = false
  has k (m ∷ ms) = if number m == k then true else has k ms

  pub has-nil : (k : ℕ) → has k [] ≡ false
  unfolding has
  has-nil k = refl

  pub has-cons :
      (k : ℕ) (m : M) (ms : List M) → has k (m ∷ ms) ≡ (if number m == k then true else has k ms)
  unfolding has
  has-cons k m ms = refl

  pub find-nil : (k : ℕ) → find k [] ≡ none
  unfolding find
  find-nil k = refl

  -- `delete(messages, k)`
  unfoldable pub remove : ℕ → List M → List M
  remove k [] = []
  remove k (m ∷ ms) = let rest = remove k ms in if number m == k then rest else m ∷ rest

  -- `messages[m.SequenceNumber] = m`
  unfoldable pub insert : M → List M → List M
  insert m ms = m ∷ remove (number m) ms

  pub find-has : (k : ℕ) (ms : List M) → has k ms ≡ true → (m : M) × (find k ms ≡ some m)
  unfolding find has
  find-has k [] h = absurd (ground arith)
  find-has k (m ∷ ms) h = elim (Bool-cases (number m == k)) [
    | inl here ↦ (m, rw here refl)
    | inr there ↦ let later : has k ms ≡ true = ground arith in rw there (find-has k ms later)
  ]

  pub has_of-find : (k : ℕ) (ms : List M) → find k ms ≡ none → has k ms ≡ false
  unfolding find has
  has_of-find k [] h = refl
  has_of-find k (m ∷ ms) h = ground (arith, has_of-find k ms)

  pub find-number : (k : ℕ) (ms : List M) (m : M) → find k ms ≡ some m → number m ≡ k
  unfolding find
  find-number k [] m h = absurd (ground arith)
  find-number k (x ∷ ms) m h = ground (arith, find-number k ms m)

  pub has-remove_ne : (j k : ℕ) (ms : List M) → k ≢ j → has k (remove j ms) ≡ has k ms
  unfolding has remove
  has-remove_ne j k [] h = refl
  has-remove_ne j k (m ∷ ms) h = ground (arith, has-remove_ne j k ms h)

  find-remove_self : (k : ℕ) (ms : List M) → find k (remove k ms) ≡ none
  unfolding find remove
  find-remove_self k [] = refl
  find-remove_self k (m ∷ ms) = ground (arith, find-remove_self k ms)

  find-remove_ne : (j k : ℕ) (ms : List M) → k ≢ j → find k (remove j ms) ≡ find k ms
  unfolding find remove
  find-remove_ne j k [] h = refl
  find-remove_ne j k (m ∷ ms) h = ground (arith, find-remove_ne j k ms h)

  pub find_of-remove :
      (j k : ℕ) (ms : List M) (m : M) → find k (remove j ms) ≡ some m → find k ms ≡ some m
  find_of-remove j k ms m h = grind (arith, find-remove_ne j k ms, find-remove_self k ms)

  pub length-remove_le : (k : ℕ) (ms : List M) → length (remove k ms) ≤ length ms
  unfolding remove
  length-remove_le k [] = omega arith
  length-remove_le k (m ∷ ms) = ground (arith, length-remove_le k ms)

  pub length-remove :
      (k : ℕ) (ms : List M) (m : M) → find k ms ≡ some m → length (remove k ms) < length ms
  unfolding find remove
  length-remove k [] m h = absurd (ground arith)
  length-remove k (x ∷ ms) m h = ground (arith, length-remove k ms m, length-remove_le k ms)

  pub has-insert : (k : ℕ) (m : M) (ms : List M) → has k (insert m ms) ≡ has k (m ∷ ms)
  unfolding insert has
  has-insert k m ms = ground (arith, has-remove_ne (number m) k ms)

  pub find-insert :
      (k : ℕ) (m x : M) (ms : List M)
      → find k (insert m ms) ≡ some x
      → ((number m ≡ k) × (m ≡ x)) ⊎ (find k ms ≡ some x)
  unfolding insert find
  find-insert k m x ms h = ground (arith, find_of-remove (number m) k ms x)

-- Each message is one of those that were sent, and stands there at its number.
abbrev pub AreSent : {M : Type 0} → (M → ℕ) → List M → List M → Type 0
AreSent number sent [] = Unit
AreSent number sent (m ∷ ms) = (at (number m) sent ≡ some m) × AreSent number sent ms
