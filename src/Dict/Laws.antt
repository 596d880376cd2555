-- ===== src/Dict/Laws.antt =====
-- The laws of the maps.
use go_clean_architecture.Prelude.{
  ◌+◌, ◌≤◌, ◌≡◌, refl, Bool, false, none, some, List, [], ◌∷◌, arith, if◌then◌else◌, Bytes,
  bytes_eq, bytes_eq_refl, bytes_eq_iff, length,
}
use go_clean_architecture.Dict.{Entry, entry, lookup, insert, erase, drop_if}

module _ {ℓ} {V : Type ℓ} where
  pub lookup-insert :
      (k j : Bytes) (v : V) (m : List (Entry V))
      → lookup j (insert k v m) ≡ (if bytes_eq k j then some v else lookup j m)
  unfolding lookup insert
  lookup-insert k j v [] = refl
  lookup-insert k j v (entry i w ∷ m) =
      ground (arith, bytes_eq_iff k j, bytes_eq_iff i k, bytes_eq_iff i j, lookup-insert k j v m)

  pub lookup-insert_self :
      (k : Bytes) (v : V) (m : List (Entry V)) → lookup k (insert k v m) ≡ some v
  lookup-insert_self k v m = rw (lookup-insert k k v m, bytes_eq_refl k) refl

  pub lookup-erase :
      (k j : Bytes) (m : List (Entry V))
      → lookup j (erase k m) ≡ (if bytes_eq k j then none else lookup j m)
  unfolding lookup erase
  lookup-erase k j [] = ground arith
  lookup-erase k j (entry i w ∷ m) =
      ground (arith, bytes_eq_iff k j, bytes_eq_iff i k, bytes_eq_iff i j, lookup-erase k j m)

  -- Every key once.
  abbrev pub Absent : Bytes → List (Entry V) → Type ℓ
  Absent k m = lookup k m ≡ none

  abbrev pub IsMap : List (Entry V) → Type ℓ
  IsMap [] = Unit
  IsMap (entry k v ∷ m) = Absent k m × IsMap m

  pub insert-IsMap : (k : Bytes) (v : V) (m : List (Entry V)) → IsMap m → IsMap (insert k v m)
  unfolding insert lookup
  insert-IsMap k v [] h = (refl, tt)
  insert-IsMap k v (entry j w ∷ m) h =
      ground
        (arith, bytes_eq_iff j k, bytes_eq_iff k j, lookup-insert k j v m, insert-IsMap k v m h.1)

  pub erase-IsMap : (k : Bytes) (m : List (Entry V)) → IsMap m → IsMap (erase k m)
  unfolding erase
  erase-IsMap k [] h = tt
  erase-IsMap k (entry j w ∷ m) h = ground (arith, lookup-erase k j m, erase-IsMap k m h.1)

  pub lookup-drop_if-none :
      (p : V → Bool) (k : Bytes) (m : List (Entry V))
      → lookup k m ≡ none
      → lookup k (drop_if p m) ≡ none
  unfolding lookup drop_if
  lookup-drop_if-none p k [] h = refl
  lookup-drop_if-none p k (entry j w ∷ m) h = ground (arith, lookup-drop_if-none p k m)

  pub drop_if-IsMap : (p : V → Bool) (m : List (Entry V)) → IsMap m → IsMap (drop_if p m)
  unfolding drop_if
  drop_if-IsMap p [] h = tt
  drop_if-IsMap p (entry j w ∷ m) h =
      ground (arith, lookup-drop_if-none p j m, drop_if-IsMap p m h.1)

  -- Dropping entries leaves exactly those that fail the test.
  pub lookup-drop_if :
      (p : V → Bool) (k : Bytes) (m : List (Entry V)) (v : V)
      → IsMap m
      → lookup k m ≡ some v
      → lookup k (drop_if p m) ≡ (if p v then none else some v)
  unfolding lookup drop_if
  lookup-drop_if p k [] v h e = cc
  lookup-drop_if p k (entry j w ∷ m) v h e =
      ground (arith, bytes_eq_iff j k, lookup-drop_if p k m v h.1, lookup-drop_if-none p k m)

  pub lookup-drop_if-some :
      (p : V → Bool) (k : Bytes) (m : List (Entry V)) (v : V)
      → IsMap m
      → lookup k (drop_if p m) ≡ some v
      → (lookup k m ≡ some v) × (p v ≡ false)
  unfolding lookup drop_if
  lookup-drop_if-some p k [] v h e = cc
  lookup-drop_if-some p k (entry j w ∷ m) v h e =
      ground (arith, bytes_eq_iff j k, lookup-drop_if-some p k m v h.1, lookup-drop_if-none p k m)

  pub length-insert_new :
      (k : Bytes) (v : V) (m : List (Entry V))
      → lookup k m ≡ none
      → length (insert k v m) ≡ length m + 1
  unfolding lookup insert
  length-insert_new k v [] h = refl
  length-insert_new k v (entry j w ∷ m) h = ground (arith, length-insert_new k v m)

  pub length-insert-le :
      (k : Bytes) (v : V) (m : List (Entry V)) → length (insert k v m) ≤ length m + 1
  unfolding insert
  length-insert-le k v [] = omega arith
  length-insert-le k v (entry j w ∷ m) = ground (arith, length-insert-le k v m)

  pub length-erase-le : (k : Bytes) (m : List (Entry V)) → length (erase k m) ≤ length m
  unfolding erase
  length-erase-le k [] = omega arith
  length-erase-le k (entry j w ∷ m) = ground (arith, length-erase-le k m)

  pub length-erase-some :
      (k : Bytes) (m : List (Entry V)) (v : V)
      → lookup k m ≡ some v
      → length (erase k m) + 1 ≤ length m
  unfolding erase lookup
  length-erase-some k [] v h = cc
  length-erase-some k (entry j w ∷ m) v h =
      ground (arith, length-erase-le k m, length-erase-some k m v)

  pub length-drop_if-le : (p : V → Bool) (m : List (Entry V)) → length (drop_if p m) ≤ length m
  unfolding drop_if
  length-drop_if-le p [] = omega arith
  length-drop_if-le p (entry j w ∷ m) = ground (arith, length-drop_if-le p m)

  pub length-insert_old :
      (k : Bytes) (v w : V) (m : List (Entry V))
      → lookup k m ≡ some w
      → length (insert k v m) ≡ length m
  unfolding insert lookup
  length-insert_old k v w [] h = cc
  length-insert_old k v w (entry j x ∷ m) h = ground (arith, length-insert_old k v w m)
