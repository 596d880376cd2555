-- ===== src/Bootstrap.antt =====
-- cmd/bootstrap/main.go: the replacements of a bootstrap, and their application to the bytes of a file.
pub mod Order
pub mod Rewrite
pub mod Plan
pub mod Files
pub mod Run
use go_clean_architecture.Prelude.{
  ℕ, zero, suc, Bool, true, false, not, ◌&&◌, ◌||◌, Option, none, some, List, [], ◌∷◌, ◌++◌, ltb,
  leb, ◌+◌, ◌-◌, ◌==◌, if◌then◌else◌, Bytes, codes, bytes_eq, bytes_ltb, length, take, drop, all,
  any,
}
use go_clean_architecture.Memory.{sort_slice}
use go_clean_architecture.Metrics.{split, is_digit}

pub record Replacement : Type 0 where
  pub old : Bytes
  pub new : Bytes

-- `strings.HasPrefix`
unfoldable pub has_prefix : Bytes → Bytes → Bool
has_prefix s [] = true
has_prefix [] (p ∷ ps) = false
has_prefix (c ∷ cs) (p ∷ ps) = (c == p) && has_prefix cs ps

-- The inner loop of `replaceOnce`: the first replacement whose old text is a prefix.
unfoldable pub first_match : List Replacement → Bytes → Option Replacement
unfolding has_prefix
first_match [] s = none
first_match (r ∷ rs) s = let rest = first_match rs s in if has_prefix s r.old then some r else rest

-- The outer loop, with a bound on its rounds.
unfoldable pub replace_from : ℕ → List Replacement → Bytes → Option Bytes
unfolding first_match
replace_from zero rs s = none
replace_from (suc n) rs [] = some []
replace_from (suc n) rs (c ∷ cs) = elim (first_match rs (c ∷ cs)) [
  | none ↦ elim (replace_from n rs cs) [ none ↦ none | some out ↦ some (c ∷ out) ]
  | some r ↦ elim (replace_from n rs (drop (length r.old) (c ∷ cs))) [
    | none ↦ none
    | some out ↦ some (r.new ++ out)
  ]
]

-- `replaceOnce`; `none` is a loop that does not end.
unfoldable pub replace_once : Bytes → List Replacement → Option Bytes
unfolding replace_from
replace_once input [] = some input
replace_once input (r ∷ rs) = replace_from (suc (length input)) (r ∷ rs) input

-- The order of the replacements: longer texts first.
unfoldable pub goes_first : Replacement → Replacement → Bool
goes_first a b =
    if length a.old == length b.old
    then bytes_ltb a.old b.old
    else ltb (length b.old) (length a.old)

abbrev pub is_seen : Bytes → List Bytes → Bool
is_seen old seen = any (bytes_eq old) seen

-- The loop of `normalizeReplacements`.
unfoldable pub distinct_from : List Bytes → List Replacement → List Replacement
distinct_from seen [] = []
distinct_from seen (r ∷ rs) =
    let skip = distinct_from seen rs in
    let keep = r ∷ distinct_from (r.old ∷ seen) rs in
    if (length r.old == 0) || (bytes_eq r.old r.new || is_seen r.old seen) then skip else keep

-- `normalizeReplacements`; no two texts are equal, so the sort need not be stable.
unfoldable pub normalize_replacements : List Replacement → List Replacement
unfolding distinct_from sort_slice goes_first
normalize_replacements items = sort_slice goes_first (distinct_from [] items)

-- The last part, if any, and the one before it.
unfoldable pub last_two : List Bytes → Option (Bytes × Option Bytes)
last_two [] = none
last_two (p ∷ []) = some (p, none)
last_two (p ∷ q ∷ []) = some (q, some p)
last_two (p ∷ q ∷ r ∷ rest) = last_two (q ∷ r ∷ rest)

-- A part such as `v2`.
abbrev pub is_version : Bytes → Bool
is_version [] = false
is_version (c ∷ cs) = (c == b'v') && (not (length cs == 0) && all is_digit cs)

-- `projectSlug`
unfoldable pub project_slug : Bytes → Bytes
unfolding last_two split
project_slug path = elim (last_two (split path)) [
  | none ↦ []
  | some (last, none) ↦ last
  | some (last, some before) ↦ if is_version last then before else last
]

abbrev pub lower : ℕ → ℕ
lower c = if leb b'A' c && leb c b'Z' then c + 32 else c

-- `strings.EqualFold` with "github.com", of which no letter folds with one outside ASCII.
unfoldable pub fold_eq : Bytes → Bytes → Bool
fold_eq [] [] = true
fold_eq [] (y ∷ ys) = false
fold_eq (x ∷ xs) [] = false
fold_eq (x ∷ xs) (y ∷ ys) = (lower x == lower y) && fold_eq xs ys

-- `githubOwner`
unfoldable pub github_owner : Bytes → Bytes
unfolding split fold_eq
github_owner path = elim (split path) [
  | host ∷ owner ∷ repository ∷ rest ↦ if fold_eq host (codes "github.com") then owner else []
  | _ ↦ []
]

-- `strings.ToUpper` of one byte: a byte outside ASCII becomes U+FFFD.
abbrev pub upper : ℕ → Bytes
upper c =
    if ltb 127 c
    then 0xef ∷ 0xbf ∷ 0xbd ∷ []
    else if leb b'a' c && leb c b'z'
    then (c - 32) ∷ []
    else c ∷ []

-- `titleFromSlug`: whether a part has begun, and whether one has been written.
unfoldable pub title_from : Bool → Bool → Bytes → Bytes
title_from inside written [] = []
title_from inside written (c ∷ cs) =
    let skip = title_from false written cs in
    let next = title_from true true cs in
    if (c == b'-') || ((c == b'_') || (c == b'.'))
    then skip
    else if inside
    then c ∷ next
    else (if written then b' ' ∷ [] else []) ++ (upper c ++ next)

unfoldable pub title_from_slug : Bytes → Bytes
unfolding title_from
title_from_slug = title_from false false
