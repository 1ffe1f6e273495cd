-- ===== src/Connection/Places.antt =====
-- The broker of an agent's connection as places of its channels
-- (bctl/agent/controlchannel/dataconnection/connection.go).
use bzero.Shared.{
  ℕ, zero, suc, ◌<◌, ◌≡◌, ◌≢◌, refl, sym, ap, ◌∙◌, some, String, List, [], ◌∷◌, ◌++◌, length,
  str_eq, eq_iff, Bool-cases, inl, inr, arith,
}
use bzero.Channel.Broker.{Subscribers, lookup, store, erase}
use bzero.Channel.Broker.Laws.{
  IsMap, lookup-store_self, lookup-store_other, lookup-erase_self, lookup-erase_other, erase-IsMap,
  store-IsMap,
}
use bzero.Connection.{get_elem?, change}

module _ {A : Type 0} where
  pub get_elem?-change_self :
      (n : ℕ) (f : A → A) (cs : List A) (c : A)
      → get_elem? cs n ≡ some c
      → get_elem? (change n f cs) n ≡ some (f c)
  unfolding get_elem? change
  get_elem?-change_self n f [] c e = absurd (ground (arith, e))
  get_elem?-change_self zero f (b ∷ cs) c e = ground (arith, e)
  get_elem?-change_self (suc n) f (b ∷ cs) c e = get_elem?-change_self n f cs c e

  pub get_elem?-change_other :
      (m n : ℕ) (f : A → A) (cs : List A) → m ≢ n → get_elem? (change m f cs) n ≡ get_elem? cs n
  unfolding get_elem? change
  get_elem?-change_other m n f [] d = refl
  get_elem?-change_other zero zero f (b ∷ cs) d = absurd (d refl)
  get_elem?-change_other zero (suc n) f (b ∷ cs) d = refl
  get_elem?-change_other (suc m) zero f (b ∷ cs) d = refl
  get_elem?-change_other (suc m) (suc n) f (b ∷ cs) d =
      get_elem?-change_other m n f cs (λ e. d (ap suc e))

  pub get_elem?-append :
      (n : ℕ) (cs : List A) (b c : A)
      → get_elem? cs n ≡ some c
      → (get_elem? (cs ++ b ∷ []) n ≡ some c) × (n < length cs)
  unfolding get_elem?
  get_elem?-append n [] b c e = absurd (ground (arith, e))
  get_elem?-append zero (a ∷ cs) b c e = (e, omega arith)
  get_elem?-append (suc n) (a ∷ cs) b c e =
      let rest = get_elem?-append n cs b c e in (rest.0, omega (arith, rest.1))

-- The id leads to the place, and no other id does.
abbrev pub LeadsTo : Subscribers ℕ → String → ℕ → Type 0
LeadsTo b id h =
    IsMap b
    × (lookup id b ≡ some (some h))
    × ((other' : String) → id ≢ other' → lookup other' b ≢ some (some h))

pub store-LeadsTo :
    (b : Subscribers ℕ) (id other' : String) (h k : ℕ)
    → id ≢ other'
    → h ≢ k
    → LeadsTo b id h
    → LeadsTo (store other' (some k) b) id h
store-LeadsTo b id other' h k d n (v, e, only) = (
  store-IsMap other' (some k) b v,
  lookup-store_other other' id (some k) b (λ e. d (sym e)) ∙ e,
  λ third d' f. elim (Bool-cases (str_eq other' third)) [
    | inl y ↦ ground (arith, f, n, lookup-store_self other' (some k) b, (eq_iff other' third).0 y)
    | inr y ↦ only third d' (
        sym (
          lookup-store_other other' third (some k) b
            (λ e. ground (arith, y, eq_iff other' third, e)))
        ∙ f)
  ],
)

pub erase-LeadsTo :
    (b : Subscribers ℕ) (id other' : String) (h : ℕ)
    → id ≢ other'
    → LeadsTo b id h
    → LeadsTo (erase other' b) id h
erase-LeadsTo b id other' h d (v, e, only) = (
  erase-IsMap other' b v,
  lookup-erase_other other' id b (λ e. d (sym e)) ∙ e,
  λ third d' f. elim (Bool-cases (str_eq other' third)) [
    | inl y ↦ ground (arith, f, lookup-erase_self other' b v, (eq_iff other' third).0 y)
    | inr y ↦ only third d' (
        sym (lookup-erase_other other' third b (λ e. ground (arith, y, eq_iff other' third, e)))
        ∙ f)
  ],
)
