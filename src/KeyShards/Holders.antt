-- ===== src/KeyShards/Holders.antt =====
-- What keyshardconfig.go promises of a target: the keys that are for it, the oldest first, of which
-- `LastKey` yields the newest.
use bzero.Shared.{
  ℕ, suc, ◌≡◌, ◌≢◌, refl, sym, ap, ◌∙◌, true, false, Option, none, some, String, List, [], ◌∷◌,
  ◌++◌, append-nil, if◌then◌else◌, eq_iff, inl, inr, arith, Bool-cases, Option-cases, Outcome, ok,
  err,
}
use bzero.KeyShards.{
  KeyEntry, MappedKeyEntry, KeyShardData, KeyShardConfig, ConfigError, target_error, entry_at,
  contains_id, contains_target, find_entry, last_index, last_key_of, last_key, add_key,
  without_target, delete_target, save, total_targets,
}
use bzero.KeyShards.Search.{added_key_fresh, last_index-nil, last_index-cons}
use bzero.KeyShards.Remove.{
  other_ids, purge, purged, remove_newest, remove_target_hard, missing, found,
}

-- The keys for a target, the oldest first.
unfoldable pub holders : String → KeyShardData → List KeyEntry
holders target [] = []
holders target (k ∷ ks) =
    let rest = holders target ks in if contains_target k target then k.key_data ∷ rest else rest

abbrev pub newest_of : List KeyEntry → Option KeyEntry
newest_of [] = none
newest_of (k ∷ ks) = elim (newest_of ks) [ none ↦ some k | some later ↦ some later ]

abbrev pub key_or_error : String → Option KeyEntry → Outcome ConfigError KeyEntry
key_or_error target none = err (target_error target)
key_or_error target (some k) = ok k

holders_absent :
    (target : String) (keys : KeyShardData)
    → last_index keys target ≡ none
    → holders target keys ≡ []
unfolding holders
holders_absent target [] h = refl
holders_absent target (k ∷ ks) h =
    ground (arith, last_index-cons k ks target, holders_absent target ks)

pub record Newest (target : String) (keys : KeyShardData) (idx : ℕ) : Type 0 where
  pub entry : MappedKeyEntry
  pub there : entry_at idx keys ≡ some entry
  pub is_newest : newest_of (holders target keys) ≡ some entry.key_data

last_index-Newest :
    (target : String) (keys : KeyShardData) (idx : ℕ)
    → last_index keys target ≡ some idx
    → Newest target keys idx
unfolding holders entry_at
last_index-Newest target [] idx h = absurd (ground (arith, last_index-nil target))
last_index-Newest target (k ∷ ks) idx h = elim (Option-cases (last_index ks target)) [
  | inr (i, later) ↦
      let f = last_index-Newest target ks i later in
      let at_next : suc i ≡ idx = ground (arith, last_index-cons k ks target) in
      rw (← at_next)
        (record { entry = f.entry; there = f.there; is_newest = ground (arith, f.is_newest) })
  | inl none_later ↦
      let holds : contains_target k target ≡ true =
        ground (arith, last_index-cons k ks target, none_later) in
      let at_zero : 0 ≡ idx = ground (arith, last_index-cons k ks target, none_later) in
      rw (← at_zero) (record {
        entry = k;
        there = refl;
        is_newest = simp (holds, holders_absent target ks none_later);
      })
]

-- `LastKey` yields the newest key for a target.
pub last_key_of-holders :
    (keys : KeyShardData) (target : String)
    → last_key_of keys target ≡ key_or_error target (newest_of (holders target keys))
unfolding last_key_of
last_key_of-holders keys target = elim (Option-cases (last_index keys target)) [
  | inl absent ↦ ground (arith, holders_absent target keys absent)
  | inr (idx, e) ↦
      let f = last_index-Newest target keys idx e in ground (arith, f.there, f.is_newest)
]

-- What the operations do to the keys for a target.
pub holders-append :
    (target : String) (keys more : KeyShardData)
    → holders target (keys ++ more) ≡ holders target keys ++ holders target more
unfolding holders
holders-append target [] more = refl
holders-append target (k ∷ ks) more = ground (arith, holders-append target ks more)

contains-other_ids :
    (target : String) (ids : List String) → contains_id (other_ids target ids) target ≡ false
unfolding contains_id other_ids
contains-other_ids target [] = refl
contains-other_ids target (t ∷ ts) = ground (arith, contains-other_ids target ts)

contains-other_ids_ne :
    (target u : String) (ids : List String)
    → u ≢ target
    → contains_id (other_ids target ids) u ≡ contains_id ids u
unfolding contains_id other_ids
contains-other_ids_ne target u [] h = refl
contains-other_ids_ne target u (t ∷ ts) h =
    ground (arith, contains-other_ids_ne target u ts h, eq_iff t target, eq_iff t u)

pub holders-purge :
    (target : String) (keys : KeyShardData) → holders target (purge target keys) ≡ []
unfolding holders purge
holders-purge target [] = refl
holders-purge target (k ∷ ks) =
    simp (contains-other_ids target k.target_ids, holders-purge target ks)

pub holders-purge_ne :
    (target u : String) (keys : KeyShardData)
    → u ≢ target
    → holders u (purge target keys) ≡ holders u keys
unfolding holders purge
holders-purge_ne target u [] h = refl
holders-purge_ne target u (k ∷ ks) h =
    simp (contains-other_ids_ne target u k.target_ids h, holders-purge_ne target u ks h)

newest_of-append : (xs : List KeyEntry) (k : KeyEntry) → newest_of (xs ++ k ∷ []) ≡ some k
newest_of-append [] k = refl
newest_of-append (x ∷ xs) k = simp (newest_of-append xs k)

newest_of-appended :
    (keys : KeyShardData) (entry : MappedKeyEntry) (target : String)
    → key_or_error target (newest_of (holders target keys ++ holders target (entry ∷ [])))
      ≡ (if contains_target entry target then ok entry.key_data else last_key_of keys target)
unfolding holders
newest_of-appended keys entry target = elim (Bool-cases (contains_target entry target)) [
  | inl holds ↦ simp (holds, newest_of-append (holders target keys) entry.key_data)
  | inr lacks ↦ simp (lacks, append-nil, last_key_of-holders keys target)
]

-- After a key that was not in the config was added, `LastKey` yields it for each of its targets, and for
-- every other target what it yielded before.
pub add_key-last_key :
    (c : KeyShardConfig) (entry : MappedKeyEntry) (target : String)
    → find_entry c.stored entry.key_data ≡ none
    → let r = add_key true true entry c in
      (r.0 ≡ ok tt)
      × (last_key true target r.1
          ≡ (if contains_target entry target then ok entry.key_data else last_key true target c))
unfolding add_key save last_key
add_key-last_key c entry target fresh = rw (added_key_fresh c.stored entry fresh) (
  refl,
  last_key_of-holders (c.stored ++ entry ∷ []) target
      ∙ ap (λ l. key_or_error target (newest_of l)) (holders-append target c.stored (entry ∷ []))
      ∙ newest_of-appended c.stored entry target,
)

abbrev pub deleted_or_error : String → List KeyEntry → Outcome ConfigError Unit
deleted_or_error target [] = err (target_error target)
deleted_or_error target (k ∷ ks) = ok tt

deleted_or_error-newest_of :
    (target : String) (ks : List KeyEntry) (k : KeyEntry)
    → newest_of ks ≡ some k
    → deleted_or_error target ks ≡ ok tt
deleted_or_error-newest_of target [] k h = absurd (ground arith)
deleted_or_error-newest_of target (x ∷ xs) k h = refl

without_target_hard :
    (keys : KeyShardData) (target : String)
    → without_target keys target true ≡ purged target keys (remove_newest target keys)
unfolding without_target
without_target_hard keys target =
    remove_target_hard (suc (total_targets keys)) keys target (omega arith)

-- A hard deletion fails exactly if no entry has the target, and then nothing was there to delete. After it
-- `LastKey` finds no key for the target, and for any other target the key it found before.
pub delete_target-last_key :
    (c : KeyShardConfig) (target u : String)
    → u ≢ target
    → let r = delete_target true true target true c in
      (r.0 ≡ deleted_or_error target (holders target c.stored))
      × (last_key true target r.1 ≡ err (target_error target))
      × (last_key true u r.1 ≡ last_key true u c)
unfolding delete_target without_target save last_key
delete_target-last_key c target u ne = elim (Option-cases (last_index c.stored target)) [
  | inl absent ↦
      rw (without_target_hard c.stored target, missing c.stored target absent)
        (
          ap (deleted_or_error target) (sym (holders_absent target c.stored absent)),
          last_key_of-holders c.stored target
              ∙ ap (λ l. key_or_error target (newest_of l)) (holders_absent target c.stored absent),
          refl,
        )
  | inr (idx, e) ↦
      let f = found c.stored target idx e in
      let n = last_index-Newest target c.stored idx e in
      rw (without_target_hard c.stored target, f.removed)
        (
          sym (
              deleted_or_error-newest_of target (holders target c.stored) n.entry.key_data
                n.is_newest),
          last_key_of-holders (purge target c.stored) target
              ∙ ap (λ l. key_or_error target (newest_of l)) (holders-purge target c.stored),
          last_key_of-holders (purge target c.stored) u
              ∙ ap (λ l. key_or_error u (newest_of l)) (holders-purge_ne target u c.stored ne)
              ∙ sym (last_key_of-holders c.stored u),
        )
]
