-- ===== src/KeyShards/Calls.antt =====
-- Calls of a key shard config, one after the other (keyshardconfig.go of bctl/agent/config/keyshardconfig).
use bzero.Shared.{
  ◌≡◌, Bool, true, false, String, List, [], ◌∷◌, inl, inr, ◌⊎◌, arith, Outcome, ok, err, panic,
}
use bzero.KeyShards.{
  MappedKeyEntry, KeyShardData, KeyShardConfig, ConfigError, added_key, add_key, added_target,
  add_target, and_save, clear, without_target, delete_target, save,
}
use bzero.KeyShards.Distinct.{
  IsDistinct, Keeps, added_key-Keeps, added_target-Keeps, without_target-Keeps,
}

-- The calls of a config, each with whether its fetch and its save succeed.
pub data Call : Type 0 where
  adds_key : Bool → Bool → MappedKeyEntry → Call
  adds_target : Bool → Bool → String → Call
  deletes_target : Bool → Bool → String → Bool → Call
  clears : Bool → Bool → Call

unfoldable pub call : Call → KeyShardConfig → KeyShardConfig
call (adds_key fetches saves entry) c = (add_key fetches saves entry c).1
call (adds_target fetches saves target) c = (add_target fetches saves target c).1
call (deletes_target fetches saves target hard) c = (delete_target fetches saves target hard c).1
call (clears fetches saves) c = (clear fetches saves c).1

save-IsDistinct :
    (fetches saves : Bool) (keys : KeyShardData) (c : KeyShardConfig)
    → IsDistinct c.stored
    → IsDistinct keys
    → IsDistinct (save fetches saves keys c).1.stored
unfolding save
save-IsDistinct fetches true keys c d k = k
save-IsDistinct fetches false keys c d k = d

and_save-IsDistinct :
    (fetches saves : Bool) (c : KeyShardConfig) (r : Outcome ConfigError KeyShardData)
    → IsDistinct c.stored
    → Keeps r
    → IsDistinct (and_save fetches saves c r).1.stored
and_save-IsDistinct fetches saves c (ok keys) d k = save-IsDistinct fetches saves keys c d k
and_save-IsDistinct fetches saves c (err e) d k = d
and_save-IsDistinct fetches saves c panic d k = d

clear_stored :
    (saves : Bool) (c : KeyShardConfig)
    → ((clear true saves c).1.stored ≡ c.stored) ⊎ ((clear true saves c).1.stored ≡ [])
unfolding clear
clear_stored saves c = ground arith

clear-IsDistinct :
    (fetches saves : Bool) (c : KeyShardConfig)
    → IsDistinct c.stored
    → IsDistinct (clear fetches saves c).1.stored
unfolding clear
clear-IsDistinct false saves c d = d
clear-IsDistinct true saves c d = elim (clear_stored saves c) [
  | inl same ↦ rw same d
  | inr gone ↦ rw gone tt
]

call-IsDistinct :
    (x : Call) (c : KeyShardConfig) → IsDistinct c.stored → IsDistinct (call x c).stored
unfolding call add_key add_target delete_target
call-IsDistinct (adds_key true saves entry) c d =
    and_save-IsDistinct true saves c (added_key c.stored entry) d (added_key-Keeps c.stored entry d)
call-IsDistinct (adds_target true saves target) c d =
    and_save-IsDistinct true saves c (added_target c.stored target) d
      (added_target-Keeps c.stored target d)
call-IsDistinct (deletes_target true saves target hard) c d =
    and_save-IsDistinct true saves c (without_target c.stored target hard) d
      (without_target-Keeps c.stored target hard d)
call-IsDistinct (clears fetches saves) c d = clear-IsDistinct fetches saves c d
call-IsDistinct (adds_key false saves entry) c d = d
call-IsDistinct (adds_target false saves target) c d = d
call-IsDistinct (deletes_target false saves target hard) c d = d

unfoldable pub call_all : List Call → KeyShardConfig → KeyShardConfig
call_all [] c = c
call_all (x ∷ xs) c = call_all xs (call x c)

-- The stored entries stay for distinct shards through every call, whatever fetches and saves fail.
pub call_all-IsDistinct :
    (calls : List Call) (c : KeyShardConfig)
    → IsDistinct c.stored
    → IsDistinct (call_all calls c).stored
unfolding call_all
call_all-IsDistinct [] c d = d
call_all-IsDistinct (x ∷ xs) c d = call_all-IsDistinct xs (call x c) (call-IsDistinct x c d)
