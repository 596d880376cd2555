-- ===== src/Bootstrap/Order.antt =====
-- The replacements in the order in which they are tried.
use go_clean_architecture.Prelude.{
  ℕ, ◌≤◌, ◌<◌, ◌≡◌, ◌⊎◌, refl, Bool, true, false, ◌||◌, inl, inr, none, some, List, [], ◌∷◌, arith,
  ◌==◌, if◌then◌else◌, Bytes, bytes_eq, length, Bool-cases,
}
use go_clean_architecture.Memory.{sort_slice, insert_sorted}
use go_clean_architecture.Bootstrap.{
  Replacement, has_prefix, first_match, goes_first, is_seen, distinct_from, normalize_replacements,
}

-- The old texts have at most `n` bytes.
abbrev pub AllUpTo : ℕ → List Replacement → Type 0
AllUpTo n [] = Unit {0}
AllUpTo n (r ∷ rs) = (length r.old ≤ n) × AllUpTo n rs

-- Longer old texts first, and none is empty.
abbrev pub IsRanked : List Replacement → Type 0
IsRanked [] = Unit {0}
IsRanked (r ∷ rs) = (0 < length r.old) × AllUpTo (length r.old) rs × IsRanked rs

abbrev pub AllFilled : List Replacement → Type 0
AllFilled [] = Unit {0}
AllFilled (r ∷ rs) = (0 < length r.old) × AllFilled rs

AllUpTo-trans : (m n : ℕ) (rs : List Replacement) → m ≤ n → AllUpTo m rs → AllUpTo n rs
AllUpTo-trans m n [] h k = tt
AllUpTo-trans m n (r ∷ rs) h k = (omega (arith, k.0), AllUpTo-trans m n rs h k.1)

insert-AllUpTo :
    (n : ℕ) (x : Replacement) (rs : List Replacement)
    → length x.old ≤ n
    → AllUpTo n rs
    → AllUpTo n (insert_sorted goes_first x rs)
unfolding insert_sorted
insert-AllUpTo n x [] h k = (h, tt)
insert-AllUpTo n x (r ∷ rs) h k = elim (Bool-cases (goes_first x r)) [
  | inl e ↦ rw e (h, k)
  | inr e ↦ rw e (k.0, insert-AllUpTo n x rs h k.1)
]

goes_first-length :
    (a b : Replacement) (t : Bool)
    → goes_first a b ≡ t
    → if t then length b.old ≤ length a.old else length a.old ≤ length b.old
unfolding goes_first
goes_first-length a b true h = ground arith
goes_first-length a b false h = ground arith

insert-IsRanked :
    (x : Replacement) (rs : List Replacement)
    → 0 < length x.old
    → IsRanked rs
    → IsRanked (insert_sorted goes_first x rs)
unfolding insert_sorted
insert-IsRanked x [] f h = (f, tt, tt)
insert-IsRanked x (r ∷ rs) f h = elim (Bool-cases (goes_first x r)) [
  | inl e ↦
      let shorter = goes_first-length x r true e in
      rw e (f, (shorter, AllUpTo-trans (length r.old) (length x.old) rs shorter h.1), h)
  | inr e ↦ rw e (
    h.0,
    insert-AllUpTo (length r.old) x rs (goes_first-length x r false e) h.1,
    insert-IsRanked x rs f h.2,
  )
]

sort-IsRanked : (rs : List Replacement) → AllFilled rs → IsRanked (sort_slice goes_first rs)
unfolding sort_slice
sort-IsRanked [] h = tt
sort-IsRanked (r ∷ rs) h = insert-IsRanked r (sort_slice goes_first rs) h.0 (sort-IsRanked rs h.1)

distinct_from-AllFilled :
    (seen : List Bytes) (rs : List Replacement) → AllFilled (distinct_from seen rs)
unfolding distinct_from
distinct_from-AllFilled seen [] = tt
distinct_from-AllFilled seen (r ∷ rs) =
    elim (Bool-cases ((length r.old == 0) || (bytes_eq r.old r.new || is_seen r.old seen))) [
      | inl e ↦ rw e (distinct_from-AllFilled seen rs)
      | inr e ↦ rw e (ground arith, distinct_from-AllFilled (r.old ∷ seen) rs)
    ]

-- The normalized replacements are ranked: longer texts first, and none is empty.
pub normalize_replacements-IsRanked :
    (items : List Replacement) → IsRanked (normalize_replacements items)
unfolding normalize_replacements
normalize_replacements-IsRanked items =
    sort-IsRanked (distinct_from [] items) (distinct_from-AllFilled [] items)

abbrev pub IsIn : Replacement → List Replacement → Type 0
IsIn r [] = ⊥
IsIn r (x ∷ xs) = (r ≡ x) ⊎ IsIn r xs

-- No old text is a prefix.
abbrev pub NoMatch : Bytes → List Replacement → Type 0
NoMatch s [] = Unit {0}
NoMatch s (r ∷ rs) = (has_prefix s r.old ≡ false) × NoMatch s rs

-- Every old text that is a prefix has at most `n` bytes.
abbrev pub Covers : ℕ → Bytes → List Replacement → Type 0
Covers n s [] = Unit {0}
Covers n s (r ∷ rs) = ((has_prefix s r.old ≡ false) ⊎ (length r.old ≤ n)) × Covers n s rs

-- One of the replacements, whose old text is a prefix, and no longer one is.
abbrev pub IsLongest : List Replacement → Replacement → Bytes → Type 0
IsLongest rs r s = IsIn r rs × (has_prefix s r.old ≡ true) × Covers (length r.old) s rs

AllUpTo-Covers : (n : ℕ) (s : Bytes) (rs : List Replacement) → AllUpTo n rs → Covers n s rs
AllUpTo-Covers n s [] h = tt
AllUpTo-Covers n s (r ∷ rs) h = (inr h.0, AllUpTo-Covers n s rs h.1)

-- What the inner loop finds: nothing where no text is a prefix, else the longest one.
pub first_match-cases :
    (rs : List Replacement) (s : Bytes)
    → IsRanked rs
    → ((first_match rs s ≡ none) × NoMatch s rs)
      ⊎ ((r : Replacement) × (first_match rs s ≡ some r) × IsLongest rs r s)
unfolding first_match
first_match-cases [] s h = inl (refl, tt)
first_match-cases (r ∷ rs) s h = elim (Bool-cases (has_prefix s r.old)) [
  | inl e ↦
      inr (r, rw e refl, (inl refl, e, (inr (omega arith), AllUpTo-Covers (length r.old) s rs h.1)))
  | inr e ↦ elim (first_match-cases rs s h.2) [
    | inl (missing, rest) ↦ inl (rw e missing, (e, rest))
    | inr (q, found, (there, prefix, covers)) ↦
        inr (q, rw e found, (inr there, prefix, (inl e, covers)))
  ]
]

-- The replacement that is found is not empty.
pub IsIn-filled :
    (r : Replacement) (rs : List Replacement) → IsRanked rs → IsIn r rs → 0 < length r.old
IsIn-filled r [] h k = elim k [ ]
IsIn-filled r (x ∷ xs) h (inl e) = rw e h.0
IsIn-filled r (x ∷ xs) h (inr k) = IsIn-filled r xs h.2 k
