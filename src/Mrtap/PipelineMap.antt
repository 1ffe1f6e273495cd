-- ===== src/Mrtap/PipelineMap.antt =====
-- The ordered map of the messages in flight. It is github.com/wk8/go-ordered-map, a parameter `M` with
-- the documented effect of its writes on the pairs that it lists from `Oldest` to `Newest`; its reads
-- are functions of that list.
pub mod Laws
use bzero.Shared.{Option, none, some, String, List, [], ◌∷◌, ◌≡◌, str_eq, if◌then◌else◌}
use bzero.Mrtap.Types.{Message}

abbrev pub Pairs : Type 0
Pairs = List (String × Message)

-- `Get` and `GetPair`
unfoldable pub find : String → Pairs → Option Message
find k [] = none
find k ((j, m) ∷ ps) = if str_eq j k then some m else find k ps

-- The pairs that `Next` reaches from the one of a key.
unfoldable pub following : String → Pairs → Option Pairs
following k [] = none
following k ((j, m) ∷ ps) = if str_eq j k then some ps else following k ps

unfoldable pub newest : Pairs → Option Message
newest [] = none
newest ((k, m) ∷ []) = some m
newest ((k, m) ∷ p ∷ ps) = newest (p ∷ ps)

-- `Set` of a new key appends; of an old one it keeps the place.
unfoldable pub put : String → Message → Pairs → Pairs
put k v [] = (k, v) ∷ []
put k v ((j, m) ∷ ps) = if str_eq j k then (j, v) ∷ ps else (j, m) ∷ put k v ps

unfoldable pub remove : String → Pairs → Pairs
remove k [] = []
remove k ((j, m) ∷ ps) = if str_eq j k then ps else (j, m) ∷ remove k ps

pub record OrderedMap (M : Type 0) : Type 0 where
  pub empty : M
  pub set : M → String → Message → M
  pub delete : M → String → M
  pub pairs : M → Pairs
  pub pairs-empty : pairs empty ≡ []
  pub pairs-set : (m : M) (k : String) (v : Message) → pairs (set m k v) ≡ put k v (pairs m)
  pub pairs-delete : (m : M) (k : String) → pairs (delete m k) ≡ remove k (pairs m)
