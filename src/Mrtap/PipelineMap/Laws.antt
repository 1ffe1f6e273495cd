-- ===== src/Mrtap/PipelineMap/Laws.antt =====
-- Keys and order of the pairs under `put` and `remove`.
use bzero.Shared.{
  ◌+◌, ◌≤◌, ◌≡◌, refl, ap, ◌∙◌, inl, inr, Bool-cases, none, some, String, [], ◌∷◌, ◌++◌, str_eq,
  eq_refl, arith, length,
}
use bzero.Mrtap.Types.{Message}
use bzero.Mrtap.PipelineMap.{Pairs, find, newest, put, remove}

pub put-fresh :
    (k : String) (v : Message) (ps : Pairs) → find k ps ≡ none → put k v ps ≡ ps ++ ((k, v) ∷ [])
unfolding put find
put-fresh k v [] h = refl
put-fresh k v ((j, m) ∷ ps) h = ground (arith, put-fresh k v ps)

newest-append : (k : String) (v : Message) (ps : Pairs) → newest (ps ++ ((k, v) ∷ [])) ≡ some v
unfolding newest
newest-append k v [] = refl
newest-append k v (p ∷ []) = refl
newest-append k v (p ∷ q ∷ ps) = newest-append k v (q ∷ ps)

-- A message set under a new key is the newest.
pub newest-put :
    (k : String) (v : Message) (ps : Pairs) → find k ps ≡ none → newest (put k v ps) ≡ some v
newest-put k v ps h = ap newest (put-fresh k v ps h) ∙ newest-append k v ps

pub length-put : (k : String) (v : Message) (ps : Pairs) → length (put k v ps) ≤ length ps + 1
unfolding put
length-put k v [] = omega arith
length-put k v ((j, m) ∷ ps) = ground (arith, length-put k v ps)

pub length-remove :
    (k : String) (m : Message) (ps : Pairs)
    → find k ps ≡ some m
    → length (remove k ps) + 1 ≡ length ps
unfolding remove find
length-remove k m [] h = absurd (ground arith)
length-remove k m ((j, n) ∷ ps) h = elim (Bool-cases (str_eq j k)) [
  | inl e ↦ ground (arith, e)
  | inr e ↦ ground (arith, e, length-remove k m ps)
]

pub length-remove_le : (k : String) (ps : Pairs) → length (remove k ps) ≤ length ps
unfolding remove
length-remove_le k [] = omega arith
length-remove_le k ((j, n) ∷ ps) = ground (arith, length-remove_le k ps)

pub find-put_self : (k : String) (v : Message) (ps : Pairs) → find k (put k v ps) ≡ some v
unfolding put find
find-put_self k v [] = ground (arith, eq_refl k)
find-put_self k v ((j, m) ∷ ps) = ground (arith, find-put_self k v ps)

pub remove-put_fresh :
    (k : String) (v : Message) (ps : Pairs) → find k ps ≡ none → remove k (put k v ps) ≡ ps
unfolding put find remove
remove-put_fresh k v [] h = ground (arith, eq_refl k)
remove-put_fresh k v ((j, m) ∷ ps) h = ground (arith, remove-put_fresh k v ps)
