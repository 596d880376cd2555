-- ===== src/Dict.antt =====
-- Go maps whose keys are byte arrays or strings, as association lists. The order of the list is the
-- order in which `range` visits the entries; nothing that is proved of the program depends on it.
pub mod Laws
use go_clean_architecture.Prelude.{
  ℕ, Bool, Option, none, some, List, [], ◌∷◌, if◌then◌else◌, Bytes, bytes_eq, not,
}

pub data Entry {ℓ} (V : Type ℓ) : Type ℓ where
  entry : Bytes → V → Entry V

abbrev pub key {ℓ} : {V : Type ℓ} → Entry V → Bytes
key (entry k v) = k

abbrev pub value {ℓ} : {V : Type ℓ} → Entry V → V
value (entry k v) = v

module _ {ℓ} {V : Type ℓ} where
  unfoldable pub lookup : Bytes → List (Entry V) → Option V
  lookup k [] = none
  lookup k (entry j v ∷ m) = if bytes_eq j k then some v else lookup k m

  unfoldable pub insert : Bytes → V → List (Entry V) → List (Entry V)
  insert k v [] = entry k v ∷ []
  insert k v (entry j w ∷ m) = if bytes_eq j k then entry k v ∷ m else entry j w ∷ insert k v m

  -- `delete(m, k)`
  unfoldable pub erase : Bytes → List (Entry V) → List (Entry V)
  erase k [] = []
  erase k (entry j w ∷ m) = let rest = erase k m in if bytes_eq j k then rest else entry j w ∷ rest

  -- Deletion, while ranging over the map, of the entries whose value passes a test.
  unfoldable pub drop_if : (V → Bool) → List (Entry V) → List (Entry V)
  drop_if p [] = []
  drop_if p (entry j w ∷ m) = let rest = drop_if p m in if p w then rest else entry j w ∷ rest

  -- The values, in the order of `range`.
  unfoldable pub values : List (Entry V) → List V
  values [] = []
  values (entry j w ∷ m) = w ∷ values m
