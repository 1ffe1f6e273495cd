-- ===== src/KeyShards/Remove.antt =====
-- `removeTarget` of keyshardconfig.go, one round and all of them.
use bzero.Shared.{
  ℕ, zero, suc, ◌<◌, ◌≡◌, refl, sym, ap, ◌∙◌, Bool, true, false, Option, none, some, String, List,
  [], ◌∷◌, if◌then◌else◌, str_eq, inl, inr, length, arith, Bool-cases, Option-cases, Outcome, ok,
  err,
}
use bzero.KeyShards.{
  MappedKeyEntry, KeyShardData, ConfigError, target_error, entry_at, set_targets, contains_id,
  contains_target, cut_target, last_index, remove_target, total_targets, settle,
}
use bzero.KeyShards.Search.{last_index-nil, last_index-cons}

-- The entries without the first occurrence of a target in the last entry that has it.
unfoldable pub remove_newest : String → KeyShardData → Option KeyShardData
remove_newest target [] = none
remove_newest target (k ∷ ks) =
    let rest = remove_newest target ks in
    elim rest [
      | some after ↦ some (k ∷ after)
      | none ↦ elim (cut_target target k.target_ids) [
        | none ↦ none
        | some kept ↦ some (record k { target_ids = kept } ∷ ks)
      ]
    ]

cut_target-contains :
    (target : String) (ids : List String)
    → contains_id ids target ≡ true
    → (kept : List String) × (cut_target target ids ≡ some kept)
unfolding contains_id cut_target
cut_target-contains target [] h = absurd (ground arith)
cut_target-contains target (t ∷ ts) h = elim (Bool-cases (str_eq t target)) [
  | inl same ↦ (ts, simp same)
  | inr other ↦
      let later : contains_id ts target ≡ true = ground arith in
      let (kept, e) = cut_target-contains target ts later in (t ∷ kept, simp (other, e))
]

cut_target-none :
    (target : String) (ids : List String)
    → contains_id ids target ≡ false
    → cut_target target ids ≡ none
unfolding contains_id cut_target
cut_target-none target [] h = refl
cut_target-none target (t ∷ ts) h = ground (arith, cut_target-none target ts)

-- What the last index of a target stands for.
pub record Found (keys : KeyShardData) (target : String) (idx : ℕ) : Type 0 where
  pub entry : MappedKeyEntry
  pub kept : List String
  pub there : entry_at idx keys ≡ some entry
  pub cut : cut_target target entry.target_ids ≡ some kept
  pub removed : remove_newest target keys ≡ some (set_targets idx (λ _. kept) keys)

pub missing :
    (keys : KeyShardData) (target : String)
    → last_index keys target ≡ none
    → remove_newest target keys ≡ none
unfolding remove_newest
missing [] target h = refl
missing (k ∷ ks) target h =
    ground
      (arith, last_index-cons k ks target, missing ks target, cut_target-none target k.target_ids)

pub found :
    (keys : KeyShardData) (target : String) (idx : ℕ)
    → last_index keys target ≡ some idx
    → Found keys target idx
unfolding remove_newest entry_at set_targets
found [] target idx h = absurd (ground (arith, last_index-nil target))
found (k ∷ ks) target idx h = elim (Option-cases (last_index ks target)) [
  | inr (i, later) ↦
      let f = found ks target i later in
      let at_next : suc i ≡ idx = ground (arith, last_index-cons k ks target) in
      rw (← at_next) (record {
        entry = f.entry;
        kept = f.kept;
        there = f.there;
        cut = f.cut;
        removed = simp f.removed;
      })
  | inl none_later ↦
      let holds : contains_target k target ≡ true =
        ground (arith, last_index-cons k ks target, none_later) in
      let at_zero : 0 ≡ idx = ground (arith, last_index-cons k ks target, none_later) in
      let (kept, e) = cut_target-contains target k.target_ids holds in
      rw (← at_zero) (record {
        entry = k;
        kept = kept;
        there = refl;
        cut = e;
        removed = simp (missing ks target none_later, e);
      })
]

-- One round, with the result of the rounds that follow a hard removal.
pub round_missing :
    (fuel : ℕ) (keys : KeyShardData) (target : String) (hard : Bool)
    → last_index keys target ≡ none
    → remove_target (suc fuel) keys target hard ≡ err (target_error target)
unfolding remove_target
round_missing fuel keys target hard e = ground arith

pub round_found :
    (fuel : ℕ) (keys : KeyShardData) (target : String) (hard : Bool) (idx : ℕ)
    (f : Found keys target idx)
    → last_index keys target ≡ some idx
    → let after = set_targets idx (λ _. f.kept) keys in
      remove_target (suc fuel) keys target hard
      ≡ (if hard then settle after (remove_target fuel after target hard) else ok after)
unfolding remove_target
round_found fuel keys target hard idx f e = ground (arith, f.there, f.cut)

-- The ids that are not the target, and the entries with those only.
unfoldable pub other_ids : String → List String → List String
other_ids target [] = []
other_ids target (t ∷ ts) =
    let rest = other_ids target ts in if str_eq t target then rest else t ∷ rest

unfoldable pub purge : String → KeyShardData → KeyShardData
purge target [] = []
purge target (k ∷ ks) = record k { target_ids = other_ids target k.target_ids } ∷ purge target ks

other_ids-cut :
    (target : String) (ids kept : List String)
    → cut_target target ids ≡ some kept
    → (other_ids target kept ≡ other_ids target ids) × (length kept < length ids)
unfolding cut_target other_ids
other_ids-cut target [] kept h = absurd (ground arith)
other_ids-cut target (t ∷ ts) kept h = elim (Bool-cases (str_eq t target)) [
  | inl same ↦ let e : kept ≡ ts = ground arith in rw e (rw same refl, omega arith)
  | inr other ↦ elim (Option-cases (cut_target target ts)) [
    | inl no_more ↦ absurd (ground arith)
    | inr (us, e) ↦
        let ih = other_ids-cut target ts us e in
        let whole : kept ≡ t ∷ us = ground arith in
        rw whole (rw other (ap (◌∷◌ t) ih.0), omega (arith, ih.1))
  ]
]

other_ids_absent :
    (target : String) (ids : List String)
    → cut_target target ids ≡ none
    → other_ids target ids ≡ ids
unfolding cut_target other_ids
other_ids_absent target [] h = refl
other_ids_absent target (t ∷ ts) h = ground (arith, other_ids_absent target ts)

purge-remove_newest :
    (target : String) (keys after : KeyShardData)
    → remove_newest target keys ≡ some after
    → (purge target after ≡ purge target keys) × (total_targets after < total_targets keys)
unfolding remove_newest purge total_targets
purge-remove_newest target [] after h = absurd (ground arith)
purge-remove_newest target (k ∷ ks) after h = elim (Option-cases (remove_newest target ks)) [
  | inr (rest, e) ↦
      let ih = purge-remove_newest target ks rest e in
      let whole : after ≡ k ∷ rest = ground arith in
      rw whole (
        ap (◌∷◌ (record k { target_ids = other_ids target k.target_ids })) ih.0,
        omega (arith, ih.1),
      )
  | inl last ↦ elim (Option-cases (cut_target target k.target_ids)) [
    | inl absent ↦ absurd (ground arith)
    | inr (kept, e) ↦
        let cut = other_ids-cut target k.target_ids kept e in
        let whole : after ≡ record k { target_ids = kept } ∷ ks = ground arith in
        rw whole
          (ap (λ ids. record k { target_ids = ids } ∷ purge target ks) cut.0, omega (arith, cut.1))
  ]
]

pub purge_absent :
    (target : String) (keys : KeyShardData)
    → remove_newest target keys ≡ none
    → purge target keys ≡ keys
unfolding remove_newest purge
purge_absent target [] h = refl
purge_absent target (k ∷ ks) h = elim (Option-cases (remove_newest target ks)) [
  | inr (rest, e) ↦ absurd (ground arith)
  | inl last ↦
      let absent : cut_target target k.target_ids ≡ none = ground arith in
      rw (purge_absent target ks last, other_ids_absent target k.target_ids absent) refl
]

-- What a hard removal comes to, by whether there is something to remove.
abbrev pub purged : String → KeyShardData → Option KeyShardData → Outcome ConfigError KeyShardData
purged target keys none = err (target_error target)
purged target keys (some after) = ok (purge target keys)

settle-purged :
    (target : String) (keys after : KeyShardData)
    → purge target after ≡ purge target keys
    → settle after (purged target after (remove_newest target after)) ≡ ok (purge target keys)
settle-purged target keys after e = elim (Option-cases (remove_newest target after)) [
  | inl absent ↦ rw absent (ap ok (sym (purge_absent target after absent) ∙ e))
  | inr (rest, more) ↦ rw more (ap ok e)
]

-- A hard removal ends within as many rounds as there are targets, and leaves every other target.
pub remove_target_hard :
    (fuel : ℕ) (keys : KeyShardData) (target : String)
    → total_targets keys < fuel
    → remove_target fuel keys target true ≡ purged target keys (remove_newest target keys)
remove_target_hard zero keys target h = absurd (omega arith)
remove_target_hard (suc fuel) keys target h = elim (Option-cases (last_index keys target)) [
  | inl absent ↦
      round_missing fuel keys target true absent
      ∙ ap (purged target keys) (sym (missing keys target absent))
  | inr (idx, e) ↦
      let f = found keys target idx e in
      let after : KeyShardData = set_targets idx (λ _. f.kept) keys in
      let less = purge-remove_newest target keys after f.removed in
      round_found fuel keys target true idx f e
      ∙ ap (settle after) (remove_target_hard fuel after target (omega (arith, less.1)))
      ∙ settle-purged target keys after less.0
      ∙ ap (purged target keys) (sym f.removed)
]

abbrev pub cut_once : String → Option KeyShardData → Outcome ConfigError KeyShardData
cut_once target none = err (target_error target)
cut_once target (some after) = ok after

pub remove_target_soft :
    (fuel : ℕ) (keys : KeyShardData) (target : String)
    → remove_target (suc fuel) keys target false ≡ cut_once target (remove_newest target keys)
remove_target_soft fuel keys target = elim (Option-cases (last_index keys target)) [
  | inl absent ↦
      round_missing fuel keys target false absent
      ∙ ap (cut_once target) (sym (missing keys target absent))
  | inr (idx, e) ↦
      let f = found keys target idx e in
      round_found fuel keys target false idx f e ∙ ap (cut_once target) (sym f.removed)
]
