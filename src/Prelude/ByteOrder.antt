-- ===== src/Prelude/ByteOrder.antt =====
-- Go strings and byte slices as lists of byte values: equality, order and text constants.
use Prim.Native.Nat.{ℕ, suc}
use Prim.Native.Char.{code}
use Prim.Native.String.{String}
use mathlib.Core.Path.{◌≡◌, refl}
use mathlib.Core.Bool.{Bool, true, false, ◌&&◌, ◌||◌}
use mathlib.Core.Logic.{◌↔◌}
use mathlib.Core.List.{List, [], ◌∷◌}
use native.Mathlib.Omega.{arith}
use go_clean_architecture.Prelude.Lists.{length}
use go_clean_architecture.Prelude.Tests.{ltb, ◌==◌}

abbrev pub Bytes : Type 0
Bytes = List ℕ

-- The code points of a text: its bytes, if it is ASCII.
abbrev pub codes : String → Bytes
codes String.[] = []
codes (String.◌∷◌ c s) = code c ∷ codes s

-- `bytes.Equal`, and `==` of strings.
unfoldable pub bytes_eq : Bytes → Bytes → Bool
bytes_eq [] [] = true
bytes_eq [] (y ∷ ys) = false
bytes_eq (x ∷ xs) [] = false
bytes_eq (x ∷ xs) (y ∷ ys) = (x == y) && bytes_eq xs ys

-- `bytes.Compare(a, b) < 0`, and `<` of strings.
unfoldable pub bytes_ltb : Bytes → Bytes → Bool
bytes_ltb [] [] = false
bytes_ltb [] (y ∷ ys) = true
bytes_ltb (x ∷ xs) [] = false
bytes_ltb (x ∷ xs) (y ∷ ys) = ltb x y || ((x == y) && bytes_ltb xs ys)

pub bytes_eq_refl : (xs : Bytes) → bytes_eq xs xs ≡ true
unfolding bytes_eq
bytes_eq_refl [] = refl
bytes_eq_refl (x ∷ xs) = ground (arith, bytes_eq_refl xs)

pub bytes_eq→eq : (xs ys : Bytes) → bytes_eq xs ys ≡ true → xs ≡ ys
unfolding bytes_eq
bytes_eq→eq [] [] h = refl
bytes_eq→eq [] (y ∷ ys) h = cc
bytes_eq→eq (x ∷ xs) [] h = cc
bytes_eq→eq (x ∷ xs) (y ∷ ys) h = ground (arith, bytes_eq→eq xs ys)

pub bytes_eq_iff : (xs ys : Bytes) → (bytes_eq xs ys ≡ true) ↔ (xs ≡ ys)
bytes_eq_iff xs ys = (bytes_eq→eq xs ys, λ e. rw e (bytes_eq_refl ys))

pub bytes_ltb_irrefl : (xs : Bytes) → bytes_ltb xs xs ≡ false
unfolding bytes_ltb
bytes_ltb_irrefl [] = refl
bytes_ltb_irrefl (x ∷ xs) = ground (arith, bytes_ltb_irrefl xs)

pub bytes_ltb_trans :
    (xs ys zs : Bytes) → bytes_ltb xs ys ≡ true → bytes_ltb ys zs ≡ true → bytes_ltb xs zs ≡ true
unfolding bytes_ltb
bytes_ltb_trans [] [] zs h k = cc
bytes_ltb_trans [] (y ∷ ys) [] h k = cc
bytes_ltb_trans [] (y ∷ ys) (z ∷ zs) h k = refl
bytes_ltb_trans (x ∷ xs) [] zs h k = cc
bytes_ltb_trans (x ∷ xs) (y ∷ ys) [] h k = cc
bytes_ltb_trans (x ∷ xs) (y ∷ ys) (z ∷ zs) h k = ground (arith, bytes_ltb_trans xs ys zs)

pub bytes_trichotomy :
    (xs ys : Bytes) → (bytes_ltb xs ys || (bytes_eq xs ys || bytes_ltb ys xs)) ≡ true
unfolding bytes_ltb bytes_eq
bytes_trichotomy [] [] = refl
bytes_trichotomy [] (y ∷ ys) = refl
bytes_trichotomy (x ∷ xs) [] = refl
bytes_trichotomy (x ∷ xs) (y ∷ ys) = ground (arith, bytes_trichotomy xs ys)

pub bytes_eq-nil : (xs : Bytes) {n : ℕ} → length xs ≡ suc n → bytes_eq xs [] ≡ false
unfolding bytes_eq
bytes_eq-nil [] h = absurd (omega arith)
bytes_eq-nil (x ∷ xs) h = refl
