-- ===== src/Bootstrap/Rewrite.antt =====
-- What `replaceOnce` makes of the bytes of a file.
use go_clean_architecture.Prelude.{
  ℕ, zero, suc, ◌<◌, ◌≡◌, refl, true, inl, inr, some, List, [], ◌∷◌, ◌++◌, arith, Bytes, length,
  drop, length-drop,
}
use go_clean_architecture.Bootstrap.{
  Replacement, has_prefix, replace_from, replace_once, normalize_replacements,
}
use go_clean_architecture.Bootstrap.Order.{
  IsRanked, IsIn-filled, NoMatch, IsLongest, first_match-cases, normalize_replacements-IsRanked,
}

-- A text read once from left to right: a byte at which no old text starts is copied, else the longest old text that
-- starts there is read and its new text written.
pub data Rewrites (rs : List Replacement) : Bytes → Bytes → Type 0 where
  done : Rewrites rs [] []
  copied :
      {c : ℕ} {cs out : Bytes}
      → NoMatch (c ∷ cs) rs
      → Rewrites rs cs out
      → Rewrites rs (c ∷ cs) (c ∷ out)
  replaced :
      (r : Replacement) {s rest out : Bytes}
      → IsLongest rs r s
      → s ≡ r.old ++ rest
      → Rewrites rs rest out
      → Rewrites rs s (r.new ++ out)

has_prefix-append : (s p : Bytes) → has_prefix s p ≡ true → s ≡ p ++ drop (length p) s
unfolding has_prefix
has_prefix-append s [] h = refl
has_prefix-append [] (p ∷ ps) h = absurd (ground arith)
has_prefix-append (c ∷ cs) (p ∷ ps) h = ground (arith, has_prefix-append cs ps)

replace_from-Rewrites :
    (n : ℕ) (rs : List Replacement) (s : Bytes)
    → IsRanked rs
    → length s < n
    → (out : Bytes) × (replace_from n rs s ≡ some out) × Rewrites rs s out
unfolding replace_from
replace_from-Rewrites zero rs s h k = absurd (omega arith)
replace_from-Rewrites (suc n) rs [] h k = ([], refl, done)
replace_from-Rewrites (suc n) rs (c ∷ cs) h k = elim (first_match-cases rs (c ∷ cs) h) [
  | inl (missing, free) ↦
      let (out, ran, rewrites) = replace_from-Rewrites n rs cs h (omega arith) in
      (c ∷ out, rw (replace_from, missing, ran) refl, copied free rewrites)
  | inr (r, found, longest) ↦
      let filled = IsIn-filled r rs h longest.0 in
      let (out, ran, rewrites) =
        replace_from-Rewrites n rs (drop (length r.old) (c ∷ cs)) h
          (omega (arith, filled, length-drop (length r.old) (c ∷ cs))) in
      (
        r.new ++ out,
        rw (replace_from, found, ran) refl,
        replaced r longest (has_prefix-append (c ∷ cs) r.old longest.1) rewrites,
      )
]

-- Without replacements a text stays as it is.
Rewrites-nil : (s : Bytes) → Rewrites [] s s
Rewrites-nil [] = done
Rewrites-nil (c ∷ cs) = copied tt (Rewrites-nil cs)

replace_once-ranked :
    (rs : List Replacement) (input : Bytes)
    → IsRanked rs
    → (out : Bytes) × (replace_once input rs ≡ some out) × Rewrites rs input out
unfolding replace_once
replace_once-ranked [] input h = (input, refl, Rewrites-nil input)
replace_once-ranked (r ∷ rs) input h =
    replace_from-Rewrites (suc (length input)) (r ∷ rs) input h (omega arith)

-- With normalized replacements `replaceOnce` ends on every input, and reads it once from left to right: a byte at which
-- no old text starts is copied, else the longest old text that starts there is replaced. What has been
-- written is never read again.
pub replace_once-Rewrites :
    (items : List Replacement) (input : Bytes)
    → (out : Bytes) × (replace_once input (normalize_replacements items) ≡ some out)
      × Rewrites (normalize_replacements items) input out
replace_once-Rewrites items input =
    replace_once-ranked (normalize_replacements items) input (normalize_replacements-IsRanked items)
