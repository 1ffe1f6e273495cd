-- ===== src/KeyShards/Distinct.antt =====
-- No two entries of a key shard config are for the same shard, whatever is done to it
-- (keyshardconfig.go of bctl/agent/config/keyshardconfig).
use bzero.Shared.{
  ℕ, zero, suc, ◌≡◌, refl, ap, ap₂, Bool, true, false, Option, none, some, String, List, [], ◌∷◌,
  ◌++◌, if◌then◌else◌, str_eq, eq_iff, inl, inr, ◌⊎◌, arith, Bool-cases, Option-cases, Outcome, ok,
  err, panic,
}
use bzero.KeyShards.{
  KeyEntry, MappedKeyEntry, KeyShardData, ConfigError, no_op_error, entry_at, set_targets,
  contains_id, cut_target, find_entry, added_key, added_target, add_to_all, add_ids, without_target,
  total_targets,
}
use bzero.KeyShards.Search.{added_key_fresh}
use bzero.KeyShards.Remove.{purge, purged, remove_newest, remove_target_hard, remove_target_soft}

abbrev pub shards : KeyShardData → List String
shards [] = []
shards (k ∷ ks) = k.key_data.key_shard_pem ∷ shards ks

abbrev pub Distinct : List String → Type 0
Distinct [] = Unit
Distinct (p ∷ ps) = (contains_id ps p ≡ false) × Distinct ps

abbrev pub IsDistinct : KeyShardData → Type 0
IsDistinct keys = Distinct (shards keys)

shards-set_targets :
    (i : ℕ) (f : List String → List String) (keys : KeyShardData)
    → shards (set_targets i f keys) ≡ shards keys
unfolding set_targets
shards-set_targets i f [] = refl
shards-set_targets zero f (k ∷ ks) = refl
shards-set_targets (suc i) f (k ∷ ks) =
    ap (◌∷◌ k.key_data.key_shard_pem) (shards-set_targets i f ks)

shards-purge : (target : String) (keys : KeyShardData) → shards (purge target keys) ≡ shards keys
unfolding purge
shards-purge target [] = refl
shards-purge target (k ∷ ks) = ap (◌∷◌ k.key_data.key_shard_pem) (shards-purge target ks)

pem_kept :
    (b : Bool) (k : MappedKeyEntry) (ids : List String)
    → (if b then k else record k { target_ids = ids }).key_data.key_shard_pem
      ≡ k.key_data.key_shard_pem
pem_kept true k ids = refl
pem_kept false k ids = refl

shards-add_to_all :
    (target : String) (keys : KeyShardData) (added : Bool)
    → shards (add_to_all target keys added).0 ≡ shards keys
unfolding add_to_all
shards-add_to_all target [] added = refl
shards-add_to_all target (k ∷ ks) added =
    ap₂ ◌∷◌ (pem_kept (contains_id k.target_ids target) k (k.target_ids ++ target ∷ []))
      (shards-add_to_all target ks _)

shards-append : (xs ys : KeyShardData) → shards (xs ++ ys) ≡ shards xs ++ shards ys
shards-append [] ys = refl
shards-append (x ∷ xs) ys = ap (◌∷◌ x.key_data.key_shard_pem) (shards-append xs ys)

find_entry-none :
    (keys : KeyShardData) (key : KeyEntry)
    → find_entry keys key ≡ none
    → contains_id (shards keys) key.key_shard_pem ≡ false
unfolding find_entry contains_id
find_entry-none [] key h = refl
find_entry-none (k ∷ ks) key h = ground (arith, find_entry-none ks key)

contains_id-append :
    (xs : List String) (p q : String)
    → contains_id (xs ++ q ∷ []) p ≡ (if contains_id xs p then true else str_eq q p)
unfolding contains_id
contains_id-append [] p q = ground arith
contains_id-append (x ∷ xs) p q = ground (arith, contains_id-append xs p q)

Distinct-append :
    (xs : List String) (p : String)
    → Distinct xs
    → contains_id xs p ≡ false
    → Distinct (xs ++ p ∷ [])
unfolding contains_id
Distinct-append [] p d h = (refl, tt)
Distinct-append (x ∷ xs) p d h = (
  ground (arith, contains_id-append xs x p, eq_iff x p, eq_iff p x),
  Distinct-append xs p d.1 (ground arith),
)

shards-remove_newest :
    (target : String) (keys after : KeyShardData)
    → remove_newest target keys ≡ some after
    → shards after ≡ shards keys
unfolding remove_newest
shards-remove_newest target [] after h = absurd (ground arith)
shards-remove_newest target (k ∷ ks) after h = elim (Option-cases (remove_newest target ks)) [
  | inr (rest, e) ↦
      let whole : after ≡ k ∷ rest = ground arith in
      rw whole (ap (◌∷◌ k.key_data.key_shard_pem) (shards-remove_newest target ks rest e))
  | inl last ↦ elim (Option-cases (cut_target target k.target_ids)) [
    | inl absent ↦ absurd (ground arith)
    | inr (kept, e) ↦
        let whole : after ≡ record k { target_ids = kept } ∷ ks = ground arith in rw whole refl
  ]
]

-- The entries an operation comes to, if it comes to some, are for distinct shards.
abbrev pub Keeps : Outcome ConfigError KeyShardData → Type 0
Keeps (ok keys) = IsDistinct keys
Keeps (err e) = Unit
Keeps panic = Unit

module _ (keys : KeyShardData) (entry : MappedKeyEntry) where
  -- The entries, if the shard stands at `idx`.
  abbrev at_found : ℕ → MappedKeyEntry → Outcome ConfigError KeyShardData
  at_found idx found =
      let new = add_ids entry.target_ids found.target_ids false in
      if new.1 then ok (set_targets idx (λ _. new.0) keys) else err no_op_error

  added_known :
      (idx : ℕ)
      → find_entry keys entry.key_data ≡ some idx
      → (added_key keys entry ≡ panic)
        ⊎ ((found : MappedKeyEntry) × (added_key keys entry ≡ at_found idx found))
  unfolding added_key
  added_known idx h = elim (Option-cases (entry_at idx keys)) [
    | inl out ↦ inl (ground arith)
    | inr (found, there) ↦ inr (found, ground arith)
  ]

  at_found-Keeps : (idx : ℕ) (found : MappedKeyEntry) → IsDistinct keys → Keeps (at_found idx found)
  at_found-Keeps idx found d =
      elim (Bool-cases (add_ids entry.target_ids found.target_ids false).1) [
        | inl some_new ↦ rw some_new (
            rw
              (shards-set_targets idx (λ _. (add_ids entry.target_ids found.target_ids false).0)
                keys)
              d)
        | inr none_new ↦ rw none_new tt
      ]

  pub added_key-Keeps : IsDistinct keys → Keeps (added_key keys entry)
  added_key-Keeps d = elim (Option-cases (find_entry keys entry.key_data)) [
    | inl fresh ↦ rw (added_key_fresh keys entry fresh) (
        rw (shards-append keys (entry ∷ [])) (
          Distinct-append (shards keys) entry.key_data.key_shard_pem d
            (find_entry-none keys entry.key_data fresh)))
    | inr (idx, e) ↦ elim (added_known idx e) [
      | inl panics ↦ rw panics tt
      | inr (found, there) ↦ rw there (at_found-Keeps idx found d)
    ]
  ]

pub added_target-Keeps :
    (keys : KeyShardData) (target : String) → IsDistinct keys → Keeps (added_target keys target)
unfolding added_target
added_target-Keeps keys target d = elim (Bool-cases (add_to_all target keys false).1) [
  | inl some_new ↦ rw some_new (rw (shards-add_to_all target keys false) d)
  | inr none_new ↦ rw none_new tt
]

pub without_target-Keeps :
    (keys : KeyShardData) (target : String) (hard : Bool)
    → IsDistinct keys
    → Keeps (without_target keys target hard)
unfolding without_target
without_target-Keeps keys target true d =
    rw (remove_target_hard (suc (total_targets keys)) keys target (omega arith))
      (by_round (remove_newest target keys))
  where
    by_round : (o : Option KeyShardData) → Keeps (purged target keys o)
    by_round none = tt
    by_round (some after) = rw (shards-purge target keys) d
without_target-Keeps keys target false d =
    rw (remove_target_soft (total_targets keys) keys target)
      (elim (Option-cases (remove_newest target keys)) [
        | inl absent ↦ rw absent tt
        | inr (after, e) ↦ rw e (rw (shards-remove_newest target keys after e) d)
      ])
