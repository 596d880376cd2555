-- ===== src/Metrics/Routes.antt =====
-- The route labels are bounded, and never hold a number or a UUID of a raw path.
use go_clean_architecture.Prelude.{
  ℕ, suc, ◌+◌, ◌-◌, ◌≤◌, ◌≡◌, ◌⊎◌, refl, sym, Bool, true, false, not, ◌&&◌, ◌||◌, inl, inr, some,
  List, [], ◌∷◌, arith, ltb, leb, ◌==◌, Bytes, bytes_eq, codes, length, length-append, all, any,
  Bool-cases, Option-cases,
}
use go_clean_architecture.Std.Text.{Text, to_bytes, trim_space, valid_string}
use go_clean_architecture.Item.Idempotency.{one_of, is_alphanumeric}
use go_clean_architecture.Item.HttpApi.Creating.{trim_slashes}
use go_clean_architecture.Metrics.{
  unknown_route, prepend, split, join, is_digit, is_hex_digit, valid_placeholder, valid_literal,
  looks_like_raw_segment, without_brace, literal_segment, normalize_segment, normalize_segments,
  label_of, normalize_path, normalize_route, has_empty_segment,
}

-- A byte of a label: visible ASCII other than the slash.
abbrev pub is_label_byte : ℕ → Bool
is_label_byte c = leb 33 c && (leb c 126 && not (c == b'/'))

-- A segment of a label: not empty, of label bytes, and neither a number nor the text of a UUID.
abbrev pub IsStable : Bytes → Type 0
IsStable s = (1 ≤ length s) × (all is_label_byte s ≡ true) × (looks_like_raw_segment s ≡ false)

abbrev pub AllStable : List Bytes → Type 0
AllStable [] = Unit {0}
AllStable (s ∷ ss) = IsStable s × AllStable ss

placeholder-bytes :
    (s : Bytes)
    → all (λ c. is_alphanumeric c || ((c == b'_') || (c == b'-'))) s ≡ true
    → all is_label_byte s ≡ true
unfolding is_alphanumeric
placeholder-bytes [] h = refl
placeholder-bytes (c ∷ cs) h = ground (arith, placeholder-bytes cs)

literal-bytes :
    (s : Bytes)
    → all (λ c. is_alphanumeric c || one_of (codes "._~-") c) s ≡ true
    → all is_label_byte s ≡ true
unfolding is_alphanumeric one_of
literal-bytes [] h = refl
literal-bytes (c ∷ cs) h = ground (arith, literal-bytes cs)

and_false : (a b : Bool) → (a && (b && false)) ≡ false
and_false true true = refl
and_false true false = refl
and_false false b = refl

mark-is_digit : (c : ℕ) → ((c == b':') || (c == b'*')) ≡ true → is_digit c ≡ false
mark-is_digit c h = ground arith

mark-is_hex_digit :
    (c : ℕ) → ((c == b':') || (c == b'*')) ≡ true → ((c == b'-') || is_hex_digit c) ≡ false
mark-is_hex_digit c h = ground arith

marked-looks_like_raw_segment :
    (c : ℕ) (s : Bytes)
    → ((c == b':') || (c == b'*')) ≡ true
    → looks_like_raw_segment (c ∷ s) ≡ false
unfolding looks_like_raw_segment
marked-looks_like_raw_segment c s h = rw (mark-is_hex_digit c h, mark-is_digit c h) (and_false _ _)

marked-bytes :
    (c : ℕ) (s : Bytes)
    → ((c == b':') || (c == b'*')) ≡ true
    → valid_placeholder s ≡ true
    → all is_label_byte (c ∷ s) ≡ true
unfolding valid_placeholder
marked-bytes c s h k = ground (arith, placeholder-bytes s)

-- A placeholder with its mark.
marked-IsStable :
    (c : ℕ) (s : Bytes)
    → ((c == b':') || (c == b'*')) ≡ true
    → valid_placeholder s ≡ true
    → IsStable (c ∷ s)
marked-IsStable c s h k = (omega arith, marked-bytes c s h k, marked-looks_like_raw_segment c s h)

literal_segment-IsStable :
    (s t : Bytes) → literal_segment s ≡ some t → IsStable t × (length t ≤ length s)
unfolding valid_literal
literal_segment-IsStable s t h = elim (Bool-cases (valid_literal s)) [
  | inr bad ↦ absurd (ground arith)
  | inl good ↦ elim (Bool-cases (looks_like_raw_segment s)) [
    | inl raw ↦ absurd (ground arith)
    | inr stable ↦
        let fine : IsStable s = (ground arith, literal-bytes s (ground arith), stable) in
        let same : s ≡ t = ground arith in rw (sym same) (fine, omega arith)
  ]
]

without_brace-length : (s name : Bytes) → without_brace s ≡ some name → suc (length name) ≤ length s
unfolding without_brace
without_brace-length [] name h = absurd (ground arith)
without_brace-length (c ∷ []) name h = ground arith
without_brace-length (c ∷ d ∷ cs) name h = elim (Option-cases (without_brace (d ∷ cs))) [
  | inl e ↦ absurd (ground arith)
  | inr (n, e) ↦ ground (arith, without_brace-length (d ∷ cs) n e)
]

cost : List Bytes → ℕ
cost [] = 0
cost (s ∷ ss) = suc (length s) + cost ss

cost-split : (p : Bytes) → cost (split p) ≡ length p + 1
unfolding cost split
cost-split [] = refl
cost-split (c ∷ cs) = elim (Bool-cases (c == b'/')) [
  | inl e ↦ rw e (omega (arith, cost-split cs))
  | inr e ↦ rw e (
      elim (split cs) as (λ x. cost x ≡ length cs + 1 → cost (prepend c x) ≡ suc (length cs) + 1) [
        | [] ↦ λ h. omega arith
        | s ∷ ss ↦ λ h. omega arith
      ]
        (cost-split cs))
]

length-join : (ss : List Bytes) → length (join ss) ≤ cost ss - 1
unfolding join cost
length-join [] = omega arith
length-join (s ∷ []) = omega arith
length-join (s ∷ t ∷ ts) =
    omega (arith, length-append s (b'/' ∷ join (t ∷ ts)), length-join (t ∷ ts))

length-trim_slashes : (s : Bytes) → length (trim_slashes s) ≤ length s
unfolding trim_slashes
length-trim_slashes [] = omega arith
length-trim_slashes (c ∷ cs) = ground (arith, length-trim_slashes cs)

normalize_segment-IsStable :
    (s t : Bytes) → normalize_segment s ≡ some t → IsStable t × (length t ≤ length s)
unfolding normalize_segment
normalize_segment-IsStable [] t h = absurd (ground arith)
normalize_segment-IsStable (c ∷ cs) t h =
    elim (Bool-cases (bytes_eq (c ∷ cs) (codes ".") || bytes_eq (c ∷ cs) (codes ".."))) [
      | inl dots ↦ absurd (ground arith)
      | inr plain ↦ elim (Bool-cases ((c == b':') || (c == b'*'))) [
        | inl mark ↦ elim (Bool-cases (valid_placeholder cs)) [
          | inl valid ↦
              let same : c ∷ cs ≡ t = ground arith in
              rw (sym same) (marked-IsStable c cs mark valid, omega arith)
          | inr bad ↦ absurd (ground arith)
        ]
        | inr unmarked ↦ elim (Bool-cases (c == b'{')) [
          | inr literal ↦ literal_segment-IsStable (c ∷ cs) t (ground arith)
          | inl brace ↦ elim (Option-cases (without_brace cs)) [
            | inl single ↦ literal_segment-IsStable (c ∷ cs) t (ground arith)
            | inr (name, e) ↦ elim (Bool-cases (valid_placeholder name)) [
              | inl valid ↦
                  let same : b':' ∷ name ≡ t = ground arith in
                  rw (sym same) (
                    marked-IsStable b':' name refl valid,
                    omega (arith, without_brace-length cs name e),
                  )
              | inr bad ↦ absurd (ground arith)
            ]
          ]
        ]
      ]
    ]

normalize_segments-AllStable :
    (ss ts : List Bytes) → normalize_segments ss ≡ some ts → AllStable ts × (cost ts ≤ cost ss)
unfolding normalize_segments cost
normalize_segments-AllStable [] ts h =
    let same : [] ≡ ts = ground arith in rw (sym same) (tt, omega arith)
normalize_segments-AllStable (s ∷ ss) ts h = elim (Option-cases (normalize_segment s)) [
  | inl e ↦ absurd (ground arith)
  | inr (t, e) ↦ elim (Option-cases (normalize_segments ss)) [
    | inl f ↦ absurd (ground arith)
    | inr (us, f) ↦
        let same : t ∷ us ≡ ts = ground arith in
        let (stable, shorter) = normalize_segment-IsStable s t e in
        let (rest, less) = normalize_segments-AllStable ss us f in
        rw (sym same) ((stable, rest), omega arith)
  ]
]

-- A label of a route: the unknown one, or at most 128 bytes of stable segments, each behind a slash.
abbrev pub IsLabel : Bytes → Type 0
IsLabel label =
    (label ≡ unknown_route)
    ⊎ ((length label ≤ 128)
        × (segments : List Bytes) × (label ≡ b'/' ∷ join segments)
        × AllStable segments)

label_of-IsLabel : (path : Bytes) → length path ≤ 127 → IsLabel (label_of path)
unfolding label_of
label_of-IsLabel path h = elim (Option-cases (normalize_segments (split path))) [
  | inl e ↦ rw (label_of, e) (inl refl)
  | inr (ts, e) ↦
      let (stable, less) = normalize_segments-AllStable (split path) ts e in
      rw (label_of, e)
        (inr (omega (arith, less, cost-split path, length-join ts), ts, refl, stable))
]

normalize_path-IsLabel : (path : Bytes) → IsLabel (normalize_path path)
unfolding normalize_path
normalize_path-IsLabel [] = inl refl
normalize_path-IsLabel (c ∷ cs) = elim (Bool-cases (ltb 128 (length (c ∷ cs)) || not (c == b'/'))) [
  | inl bad ↦ rw bad (inl refl)
  | inr fine ↦
      elim (Bool-cases (any (one_of (codes "?#\r\n\t")) cs || has_empty_segment (c ∷ cs))) [
        | inl bad ↦ rw (fine, bad) (inl refl)
        | inr clean ↦ elim (Bool-cases (length cs == 0)) [
          | inr long ↦
              rw (fine, clean, long)
                (label_of-IsLabel (trim_slashes cs) (ground (arith, length-trim_slashes cs)))
          | inl short ↦
              let single : c ∷ cs ≡ b'/' ∷ [] = ground arith in
              rw (fine, clean, short) (inr (ground arith, [], single, tt))
        ]
      ]
]

-- Whatever the route is, its label is `unmatched`, or it has at most 128 bytes and consists of segments, each behind a
-- slash, that are not empty, hold visible ASCII other than the slash and are neither a number nor the text of a UUID.
pub normalize_route-IsLabel : (route : Text) → IsLabel (normalize_route route)
unfolding normalize_route
normalize_route-IsLabel route = elim (Bool-cases (valid_string (trim_space route))) [
  | inl e ↦ rw e (normalize_path-IsLabel (to_bytes (trim_space route)))
  | inr e ↦ rw e (inl refl)
]
