-- ===== src/KeyShards/Search.antt =====
-- The loops of keyshardconfig.go that search for an index, along the list of entries.
use bzero.Shared.{
  ℕ, zero, suc, ◌≡◌, refl, Option, none, some, String, [], ◌∷◌, ◌++◌, if◌then◌else◌, inl, inr,
  length, ok, arith, Bool-cases, Option-cases,
}
use bzero.KeyShards.{
  find_entry, added_key, MappedKeyEntry, KeyShardData, entry_at, contains_target, search_down,
  last_index,
}

-- An index, with one more entry before it.
abbrev pub past : MappedKeyEntry → String → Option ℕ → Option ℕ
past k target none = if contains_target k target then some 0 else none
past k target (some i) = some (suc i)

search_down-past :
    (k : MappedKeyEntry) (ks : KeyShardData) (target : String) (n : ℕ)
    → search_down (k ∷ ks) target (suc n) ≡ past k target (search_down ks target n)
unfolding search_down entry_at
search_down-past k ks target zero = refl
search_down-past k ks target (suc n) = elim (Option-cases (entry_at n ks)) [
  | inl out ↦ ground (arith, search_down-past k ks target n)
  | inr (e, found) ↦ elim (Bool-cases (contains_target e target)) [
    | inl yes_ ↦ ground (arith, search_down-past k ks target n)
    | inr no_ ↦ ground (arith, search_down-past k ks target n)
  ]
]

pub last_index-nil : (target : String) → last_index [] target ≡ none
unfolding last_index search_down
last_index-nil target = refl

pub last_index-cons :
    (k : MappedKeyEntry) (ks : KeyShardData) (target : String)
    → last_index (k ∷ ks) target ≡ past k target (last_index ks target)
unfolding last_index
last_index-cons k ks target = search_down-past k ks target (length ks)

-- `AddKey` appends an entry for a shard that has none.
pub added_key_fresh :
    (keys : KeyShardData) (entry : MappedKeyEntry)
    → find_entry keys entry.key_data ≡ none
    → added_key keys entry ≡ ok (keys ++ entry ∷ [])
unfolding added_key
added_key_fresh keys entry h = ground arith
