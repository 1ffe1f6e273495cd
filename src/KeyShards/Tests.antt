-- ===== src/KeyShards/Tests.antt =====
-- Runs of the key shard config, and its theorems at concrete configs.
use bzero.Shared.{
  ◌≡◌, eq_iff, arith, refl, true, false, String, List, [], ◌∷◌, if◌then◌else◌, ok, err,
}
use bzero.KeyShards.{
  KeyEntry, MappedKeyEntry, KeyShardData, KeyShardConfig, ConfigError, target_error, no_op_error,
  add_key, add_target, delete_target, last_key, contains_target,
}
use bzero.KeyShards.Holders.{holders, deleted_or_error, add_key-last_key, delete_target-last_key}
use bzero.KeyShards.Distinct.{IsDistinct}
use bzero.KeyShards.Calls.{
  call_all, call_all-IsDistinct, adds_key, adds_target, deletes_target, clears,
}

abbrev key : String → KeyEntry
key pem = record { key_shard_pem = pem; ca_cert_pem = "" }

abbrev entry : String → List String → MappedKeyEntry
entry pem ids = record { key_data = key pem; target_ids = ids }

abbrev two_keys : KeyShardConfig
two_keys = record {
  current_data = [];
  stored = entry "123" ("t1" ∷ "t2" ∷ []) ∷ entry "101" ("t1" ∷ []) ∷ [];
}

-- A target that a later entry has keeps its key when an earlier entry is added again with it.
newest_stays :
    last_key true "t1" (add_key true true (entry "123" ("t1" ∷ "t3" ∷ [])) two_keys).1
    ≡ ok (key "101")
unfolding last_key bzero.KeyShards.last_key_of bzero.KeyShards.last_index
    bzero.KeyShards.search_down add_key bzero.KeyShards.added_key bzero.KeyShards.find_entry
    bzero.KeyShards.entry_at bzero.KeyShards.add_ids bzero.KeyShards.contains_id
    bzero.KeyShards.save bzero.KeyShards.set_targets
newest_stays = refl

soft_deletion : last_key true "t1" (delete_target true true "t1" false two_keys).1 ≡ ok (key "123")
unfolding last_key bzero.KeyShards.last_key_of bzero.KeyShards.last_index
    bzero.KeyShards.search_down delete_target bzero.KeyShards.without_target
    bzero.KeyShards.remove_target bzero.KeyShards.entry_at bzero.KeyShards.contains_id
    bzero.KeyShards.cut_target bzero.KeyShards.save bzero.KeyShards.set_targets
soft_deletion = refl

add_key-last_key_example :
    let r = add_key true true (entry "7" ("t1" ∷ [])) two_keys in
    (r.0 ≡ ok tt)
    × (last_key true "t1" r.1 ≡ (
        if contains_target (entry "7" ("t1" ∷ [])) "t1"
        then ok (key "7")
        else last_key true "t1" two_keys))
unfolding bzero.KeyShards.find_entry
add_key-last_key_example = add_key-last_key two_keys (entry "7" ("t1" ∷ [])) "t1" refl

delete_target-last_key_example :
    let r = delete_target true true "t1" true two_keys in
    (r.0 ≡ deleted_or_error "t1" (holders "t1" two_keys.stored))
    × (last_key true "t1" r.1 ≡ err (target_error "t1"))
    × (last_key true "t2" r.1 ≡ last_key true "t2" two_keys)
delete_target-last_key_example =
    delete_target-last_key two_keys "t1" "t2" (λ e. ground (arith, eq_iff "t2" "t1"))

call_all-IsDistinct_example :
    IsDistinct
      (call_all
        (adds_key true true (entry "9" [])
          ∷ adds_target true false "t4"
          ∷ deletes_target true true "t1" true
          ∷ clears false true
          ∷ [])
        two_keys).stored
unfolding bzero.KeyShards.contains_id
call_all-IsDistinct_example =
    call_all-IsDistinct
      (adds_key true true (entry "9" [])
        ∷ adds_target true false "t4"
        ∷ deletes_target true true "t1" true
        ∷ clears false true
        ∷ [])
      two_keys (refl, (refl, tt))
