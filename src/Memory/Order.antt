-- ===== src/Memory/Order.antt =====
-- The order of `ListAfter` is a strict total order on items with different ids, and sorting by it.
use go_clean_architecture.Prelude.{
  ◌+◌, ◌≡◌, refl, Bool, true, false, ◌||◌, inl, inr, List, [], ◌∷◌, ◌++◌, arith, bytes_eq,
  bytes_ltb_irrefl, bytes_ltb_trans, bytes_trichotomy, length, Bool-cases,
}
use mathlib.Core.List.{Perm}
use mathlib.Core.List.Perm
use go_clean_architecture.Std.Time.{before, equal}
use go_clean_architecture.Item.Model.{Item}
use go_clean_architecture.Item.Cursor.{CursorPosition}
use go_clean_architecture.Memory.{newer, insert_sorted, sort_slice, behind, start_index}

pub newer_irrefl : (a : Item) → newer a a ≡ false
unfolding newer equal before
newer_irrefl a = ground (arith, bytes_ltb_irrefl a.id)

pub newer_trans : (a b c : Item) → newer a b ≡ true → newer b c ≡ true → newer a c ≡ true
unfolding newer equal before
newer_trans a b c h k = ground (arith, bytes_ltb_trans c.id b.id a.id)

pub newer_total : (a b : Item) → (newer a b || (bytes_eq a.id b.id || newer b a)) ≡ true
unfolding newer equal before
newer_total a b = ground (arith, bytes_trichotomy a.id b.id)

-- The position of an item, as `CursorPositionForItem` takes it.
abbrev pub position_of : Item → CursorPosition
position_of v = record { created_at = v.created_at; id = v.id }

-- What lies behind an item's position is what the order puts after the item.
pub behind-position_of : (a b : Item) → behind (position_of a) b ≡ newer a b
unfolding behind newer equal before
behind-position_of a b = ground arith

-- No other item of the list has the id.
abbrev pub Fresh : Item → List Item → Type 0
Fresh a [] = Unit {0}
Fresh a (b ∷ bs) = (bytes_eq a.id b.id ≡ false) × Fresh a bs

abbrev pub Distinct : List Item → Type 0
Distinct [] = Unit {0}
Distinct (a ∷ rest) = Fresh a rest × Distinct rest

-- An item before all items of the list.
abbrev pub Above : Item → List Item → Type 0
Above a [] = Unit {0}
Above a (b ∷ bs) = (newer a b ≡ true) × Above a bs

-- Strictly newest first.
abbrev pub IsSorted : List Item → Type 0
IsSorted [] = Unit {0}
IsSorted (a ∷ rest) = Above a rest × IsSorted rest

Above-trans : (a b : Item) (xs : List Item) → newer a b ≡ true → Above b xs → Above a xs
Above-trans a b [] h k = tt
Above-trans a b (x ∷ xs) h k = (newer_trans a b x h k.0, Above-trans a b xs h k.1)

insert_sorted-Above :
    (a x : Item) (xs : List Item)
    → newer a x ≡ true
    → Above a xs
    → Above a (insert_sorted newer x xs)
unfolding insert_sorted
insert_sorted-Above a x [] h k = (h, tt)
insert_sorted-Above a x (y ∷ ys) h k = ground (arith, insert_sorted-Above a x ys h k.1)

insert_sorted-Fresh :
    (a x : Item) (xs : List Item)
    → bytes_eq a.id x.id ≡ false
    → Fresh a xs
    → Fresh a (insert_sorted newer x xs)
unfolding insert_sorted
insert_sorted-Fresh a x [] h k = (h, tt)
insert_sorted-Fresh a x (y ∷ ys) h k = ground (arith, insert_sorted-Fresh a x ys h k.1)

insert_sorted-IsSorted :
    (x : Item) (xs : List Item) → Fresh x xs → IsSorted xs → IsSorted (insert_sorted newer x xs)
unfolding insert_sorted
insert_sorted-IsSorted x [] f s = (tt, tt)
insert_sorted-IsSorted x (y ∷ ys) f s = elim (Bool-cases (newer x y)) [
  | inl e ↦ rw e ((e, Above-trans x y ys e s.0), s)
  | inr e ↦ rw e (
    insert_sorted-Above y x ys (ground (arith, newer_total x y)) s.0,
    insert_sorted-IsSorted x ys f.1 s.1,
  )
]

sort_slice-Fresh : (a : Item) (xs : List Item) → Fresh a xs → Fresh a (sort_slice newer xs)
unfolding sort_slice
sort_slice-Fresh a [] h = tt
sort_slice-Fresh a (x ∷ xs) h =
    insert_sorted-Fresh a x (sort_slice newer xs) h.0 (sort_slice-Fresh a xs h.1)

pub sort_slice-IsSorted : (xs : List Item) → Distinct xs → IsSorted (sort_slice newer xs)
unfolding sort_slice
sort_slice-IsSorted [] d = tt
sort_slice-IsSorted (x ∷ xs) d =
    insert_sorted-IsSorted x (sort_slice newer xs) (sort_slice-Fresh x xs d.0)
      (sort_slice-IsSorted xs d.1)

insert_sorted-perm {ℓ} :
    {A : Type ℓ} (less : A → A → Bool) (x : A) (xs : List A)
    → Perm (insert_sorted less x xs) (x ∷ xs)
unfolding insert_sorted
insert_sorted-perm less x [] = Perm.refl (x ∷ [])
insert_sorted-perm less x (y ∷ ys) = elim (Bool-cases (less x y)) [
  | inl e ↦ rw e (Perm.refl (x ∷ y ∷ ys))
  | inr e ↦ rw e (Perm.trans (Perm.cons y (insert_sorted-perm less x ys)) (Perm.swap x y ys))
]

-- Sorting keeps every element, as often as it stands.
pub sort_slice-perm {ℓ} :
    {A : Type ℓ} (less : A → A → Bool) (xs : List A) → Perm (sort_slice less xs) xs
unfolding sort_slice
sort_slice-perm less [] = Perm.refl []
sort_slice-perm less (x ∷ xs) =
    Perm.trans (insert_sorted-perm less x (sort_slice less xs))
      (Perm.cons x (sort_slice-perm less xs))

newer_asym : (a b : Item) → newer a b ≡ true → newer b a ≡ false
newer_asym a b h = ground (arith, newer_trans a b a, newer_irrefl a)

start_index-Above : (a : Item) (xs : List Item) → Above a xs → start_index (position_of a) xs ≡ 0
unfolding start_index
start_index-Above a [] h = refl
start_index-Above a (x ∷ xs) h = rw (behind-position_of a x, h.0) refl

Above-append : (a b : Item) (ys zs : List Item) → Above a (ys ++ b ∷ zs) → newer a b ≡ true
Above-append a b [] zs h = h.0
Above-append a b (y ∷ ys) zs h = Above-append a b ys zs h.1

-- In a sorted list the rows behind an item's position are those that follow the item.
pub start_index-position_of :
    (ys : List Item) (a : Item) (zs : List Item)
    → IsSorted (ys ++ a ∷ zs)
    → start_index (position_of a) (ys ++ a ∷ zs) ≡ length ys + 1
unfolding start_index
start_index-position_of [] a zs s =
    rw (behind-position_of a a, newer_irrefl a, start_index-Above a zs s.0) refl
start_index-position_of (y ∷ ys) a zs s =
    rw (behind-position_of a y, newer_asym y a (Above-append y a ys zs s.0))
      (omega (arith, start_index-position_of ys a zs s.1))
