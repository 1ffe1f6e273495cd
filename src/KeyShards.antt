-- ===== src/KeyShards.antt =====
-- bctl/agent/config/keyshardconfig: the list of key shards of an agent, each with the targets it is for.
-- The client that stores it is a parameter: what it has stored, and whether a fetch and a save succeed. A
-- save that fails leaves what was stored.
mod Search
mod Remove
mod Distinct
mod Calls
mod Holders
mod Tests
use bzero.Shared.{
  ℕ, zero, suc, ◌+◌, Bool, true, false, ◌||◌, Option, none, some, String, List, [], ◌∷◌, ◌++◌,
  if◌then◌else◌, str_eq, length, Outcome, ok, err, panic,
}

pub record KeyEntry : Type 0 where
  pub key_shard_pem : String
  pub ca_cert_pem : String

pub record MappedKeyEntry : Type 0 where
  pub key_data : KeyEntry
  pub target_ids : List String

-- `KeyShardData` is its list of entries.
abbrev pub KeyShardData : Type 0
KeyShardData = List MappedKeyEntry

-- `c.data`, and what the client has stored.
pub record KeyShardConfig : Type 0 where
  pub current_data : KeyShardData
  pub stored : KeyShardData

-- The errors; `out_of_fuel` is no error of the source.
pub data ConfigError : Type 0 where
  fetch_error save_error no_op_error corrupted : ConfigError
  target_error : String → ConfigError
  out_of_fuel : ConfigError

-- The element of a list that an index within bounds stands for, and its replacement.
unfoldable pub entry_at : ℕ → KeyShardData → Option MappedKeyEntry
entry_at i [] = none
entry_at zero (k ∷ ks) = some k
entry_at (suc i) (k ∷ ks) = entry_at i ks

unfoldable pub set_targets : ℕ → (List String → List String) → KeyShardData → KeyShardData
set_targets i f [] = []
set_targets zero f (k ∷ ks) = record k { target_ids = f k.target_ids } ∷ ks
set_targets (suc i) f (k ∷ ks) = k ∷ set_targets i f ks

-- The index of the first entry with the key's shard.
unfoldable pub find_entry : KeyShardData → KeyEntry → Option ℕ
find_entry [] key = none
find_entry (k ∷ ks) key =
    let rest = find_entry ks key in
    if str_eq k.key_data.key_shard_pem key.key_shard_pem
    then some 0
    else elim rest [ none ↦ none | some i ↦ some (suc i) ]

unfoldable pub contains_id : List String → String → Bool
contains_id [] target = false
contains_id (t ∷ ts) target = if str_eq t target then true else contains_id ts target

abbrev pub contains_target : MappedKeyEntry → String → Bool
contains_target entry target = contains_id entry.target_ids target

-- The loop of `lastIndex`, from an index that counts down.
unfoldable pub search_down : KeyShardData → String → ℕ → Option ℕ
search_down keys target zero = none
search_down keys target (suc i) =
    let rest = search_down keys target i in
    elim (entry_at i keys) [
      | none ↦ rest
      | some k ↦ if contains_target k target then some i else rest
    ]

unfoldable pub last_index : KeyShardData → String → Option ℕ
last_index keys target = search_down keys target (length keys)

-- The targets without the first that is `target`; `none` if none is.
unfoldable pub cut_target : String → List String → Option (List String)
cut_target target [] = none
cut_target target (t ∷ ts) =
    let rest = cut_target target ts in
    if str_eq t target then some ts else elim rest [ none ↦ none | some us ↦ some (t ∷ us) ]

-- A hard removal goes on until a removal finds no target.
abbrev settle : KeyShardData → Outcome ConfigError KeyShardData → Outcome ConfigError KeyShardData
settle keys (err (target_error target)) = ok keys
settle keys result = result

-- The recursion of `removeTarget`, on fuel.
unfoldable pub remove_target : ℕ → KeyShardData → String → Bool → Outcome ConfigError KeyShardData
remove_target zero keys target hard = err out_of_fuel
remove_target (suc fuel) keys target hard = elim (last_index keys target) [
  | none ↦ err (target_error target)
  | some idx ↦ elim (entry_at idx keys) [
    | none ↦ panic
    | some entry ↦ elim (cut_target target entry.target_ids) [
      | none ↦ err corrupted
      | some kept ↦
          let after = set_targets idx (λ _. kept) keys in
          let rest = remove_target fuel after target hard in
          if hard then settle after rest else ok after
    ]
  ]
]

-- The loop of `AddKey`: each target that is not there yet is appended; with `addedSomeTargets`.
unfoldable pub add_ids : List String → List String → Bool → List String × Bool
add_ids [] ids added = (ids, added)
add_ids (t ∷ new) ids added =
    let seen = contains_id ids t in
    add_ids new (if seen then ids else ids ++ t ∷ []) (if seen then added else true)

-- The loop of `AddTarget`, with `added`.
unfoldable pub add_to_all : String → KeyShardData → Bool → KeyShardData × Bool
add_to_all target [] added = ([], added)
add_to_all target (k ∷ ks) added =
    let seen = contains_target k target in
    let rest = add_to_all target ks (if seen then added else true) in
    ((if seen then k else record k { target_ids = k.target_ids ++ target ∷ [] }) ∷ rest.0, rest.1)

-- How often targets stand in the entries.
unfoldable pub total_targets : KeyShardData → ℕ
total_targets [] = 0
total_targets (k ∷ ks) = length k.target_ids + total_targets ks

-- The entries after `AddKey`, or its error.
unfoldable pub added_key : KeyShardData → MappedKeyEntry → Outcome ConfigError KeyShardData
added_key keys entry = elim (find_entry keys entry.key_data) [
  | none ↦ ok (keys ++ entry ∷ [])
  | some idx ↦ elim (entry_at idx keys) [
    | none ↦ panic
    | some found ↦
        let new = add_ids entry.target_ids found.target_ids false in
        if new.1 then ok (set_targets idx (λ _. new.0) keys) else err no_op_error
  ]
]

unfoldable pub added_target : KeyShardData → String → Outcome ConfigError KeyShardData
added_target keys target =
    let new = add_to_all target keys false in if new.1 then ok new.0 else err no_op_error

unfoldable pub last_key_of : KeyShardData → String → Outcome ConfigError KeyEntry
last_key_of keys target = elim (last_index keys target) [
  | none ↦ err (target_error target)
  | some idx ↦ elim (entry_at idx keys) [ none ↦ panic | some k ↦ ok k.key_data ]
]

-- Every round but the last removes a target, so that their number is enough fuel.
unfoldable pub without_target : KeyShardData → String → Bool → Outcome ConfigError KeyShardData
without_target keys target hard = remove_target (suc (total_targets keys)) keys target hard

unfoldable pub last_key : Bool → String → KeyShardConfig → Outcome ConfigError KeyEntry
last_key fetches target c = if fetches then last_key_of c.stored target else err fetch_error

module _ (fetches saves : Bool) where
  -- `c.client.Save`, after `c.data` was set.
  unfoldable pub save : KeyShardData → KeyShardConfig → Outcome ConfigError Unit × KeyShardConfig
  save keys c =
      if saves
      then (ok tt, record { current_data = keys; stored = keys })
      else (err save_error, record c { current_data = keys })

  abbrev pub and_save :
      KeyShardConfig → Outcome ConfigError KeyShardData → Outcome ConfigError Unit × KeyShardConfig
  and_save c (ok keys) = save keys c
  and_save c (err e) = (err e, c)
  and_save c panic = (panic, c)

  unfoldable pub add_key :
      MappedKeyEntry → KeyShardConfig → Outcome ConfigError Unit × KeyShardConfig
  add_key entry c = if fetches then and_save c (added_key c.stored entry) else (err fetch_error, c)

  unfoldable pub add_target : String → KeyShardConfig → Outcome ConfigError Unit × KeyShardConfig
  add_target target c =
      if fetches then and_save c (added_target c.stored target) else (err fetch_error, c)

  -- `Clear` leaves `c.data`.
  unfoldable pub clear : KeyShardConfig → Outcome ConfigError Unit × KeyShardConfig
  clear c =
      if fetches
      then elim c.stored [
        | [] ↦ (err no_op_error, c)
        | _ ∷ _ ↦ if saves then (ok tt, record c { stored = [] }) else (err save_error, c)
      ]
      else (err fetch_error, c)

  unfoldable pub delete_target :
      String → Bool → KeyShardConfig → Outcome ConfigError Unit × KeyShardConfig
  delete_target target hard c =
      if fetches then and_save c (without_target c.stored target hard) else (err fetch_error, c)
