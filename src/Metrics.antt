-- ===== src/Metrics.antt =====
-- pkg/metrics/metrics.go: the route label of a metric. The registry is of a client library.
pub mod Routes
pub mod Tracking
use go_clean_architecture.Prelude.{
  ℕ, Bool, true, false, not, ◌&&◌, ◌||◌, Option, none, some, List, [], ◌∷◌, ◌++◌, ltb, leb, ◌==◌,
  if◌then◌else◌, Bytes, codes, bytes_eq, length, drop, all, any,
}
use go_clean_architecture.Std.Text.{Text, to_bytes, trim_space, valid_string}
use go_clean_architecture.Item.Idempotency.{one_of, is_alphanumeric}
use go_clean_architecture.Item.HttpApi.Creating.{trim_slashes}

abbrev pub unknown_route : Bytes
unknown_route = codes "unmatched"

abbrev pub max_route_bytes : ℕ
max_route_bytes = 128

-- `strings.Contains(route, "//")`
unfoldable pub has_empty_segment : Bytes → Bool
has_empty_segment [] = false
has_empty_segment (c ∷ []) = false
has_empty_segment (c ∷ d ∷ cs) = ((c == b'/') && (d == b'/')) || has_empty_segment (d ∷ cs)

abbrev pub prepend : ℕ → List Bytes → List Bytes
prepend c [] = (c ∷ []) ∷ []
prepend c (s ∷ ss) = (c ∷ s) ∷ ss

-- `strings.Split(route, "/")`
unfoldable pub split : Bytes → List Bytes
split [] = [] ∷ []
split (c ∷ cs) = let rest = split cs in if c == b'/' then [] ∷ rest else prepend c rest

-- `strings.Join(segments, "/")`
unfoldable pub join : List Bytes → Bytes
join [] = []
join (s ∷ []) = s
join (s ∷ t ∷ ts) = s ++ (b'/' ∷ join (t ∷ ts))

-- `validPlaceholder`
unfoldable pub valid_placeholder : Bytes → Bool
valid_placeholder value =
    not (length value == 0) && all (λ c. is_alphanumeric c || ((c == b'_') || (c == b'-'))) value

-- `validLiteral`
unfoldable pub valid_literal : Bytes → Bool
valid_literal value =
    all (λ c. is_alphanumeric c || one_of (codes "._~-") c) value && not (length value == 0)

abbrev pub is_digit : ℕ → Bool
is_digit c = leb b'0' c && leb c b'9'

-- `isHexDigit`
abbrev pub is_hex_digit : ℕ → Bool
is_hex_digit c = (leb b'a' c && leb c b'f') || ((leb b'A' c && leb c b'F') || is_digit c)

-- `value[n] == '-'`
abbrev pub dash_at : ℕ → Bytes → Bool
dash_at n value = elim (drop n value) [ [] ↦ false | c ∷ cs ↦ c == b'-' ]

-- `looksLikeRawSegment`: a number or the text of a UUID.
unfoldable pub looks_like_raw_segment : Bytes → Bool
looks_like_raw_segment value =
    all is_digit value
    || ((length value == 36)
        && ((dash_at 8 value && (dash_at 13 value && (dash_at 18 value && dash_at 23 value)))
            && all (λ c. (c == b'-') || is_hex_digit c) value))

-- `segment[1 : len(segment)-1]` of a segment behind its first byte, if it ends in a brace.
unfoldable pub without_brace : Bytes → Option Bytes
without_brace [] = none
without_brace (c ∷ []) = if c == b'}' then some [] else none
without_brace (c ∷ d ∷ cs) = elim (without_brace (d ∷ cs)) [
  | none ↦ none
  | some name ↦ some (c ∷ name)
]

abbrev pub literal_segment : Bytes → Option Bytes
literal_segment s = if not (valid_literal s) || looks_like_raw_segment s then none else some s

-- A segment in the loop of `NormalizeRoute`; `none` is the return of `UnknownRoute`.
unfoldable pub normalize_segment : Bytes → Option Bytes
unfolding valid_placeholder valid_literal looks_like_raw_segment without_brace
normalize_segment [] = none
normalize_segment (c ∷ cs) =
    if bytes_eq (c ∷ cs) (codes ".") || bytes_eq (c ∷ cs) (codes "..")
    then none
    else if (c == b':') || (c == b'*')
    then (if valid_placeholder cs then some (c ∷ cs) else none)
    else if c == b'{'
    then elim (without_brace cs) [
      | none ↦ literal_segment (c ∷ cs)
      | some name ↦ if valid_placeholder name then some (b':' ∷ name) else none
    ]
    else literal_segment (c ∷ cs)

-- The loop of `NormalizeRoute`.
unfoldable pub normalize_segments : List Bytes → Option (List Bytes)
unfolding normalize_segment
normalize_segments [] = some []
normalize_segments (s ∷ ss) = elim (normalize_segment s) [
  | none ↦ none
  | some t ↦ elim (normalize_segments ss) [ none ↦ none | some ts ↦ some (t ∷ ts) ]
]

-- The segments of a route behind its slash, and the label.
unfoldable pub label_of : Bytes → Bytes
unfolding split join normalize_segments
label_of path = elim (normalize_segments (split path)) [
  | none ↦ unknown_route
  | some segments ↦ b'/' ∷ join segments
]

-- `NormalizeRoute` behind the trimming and the tests of the bytes.
unfoldable pub normalize_path : Bytes → Bytes
unfolding label_of has_empty_segment one_of
normalize_path [] = unknown_route
normalize_path (c ∷ cs) =
    if ltb max_route_bytes (length (c ∷ cs)) || not (c == b'/')
    then unknown_route
    else if any (one_of (codes "?#\r\n\t")) cs || has_empty_segment (c ∷ cs)
    then unknown_route
    else if length cs == 0
    then c ∷ cs
    else label_of (trim_slashes cs)

-- `NormalizeRoute`
unfoldable pub normalize_route : Text → Bytes
unfolding normalize_path
normalize_route route =
    let trimmed = trim_space route in
    if valid_string trimmed then normalize_path (to_bytes trimmed) else unknown_route
