-- ===== src/Metrics/Tracking.antt =====
-- Track and Observe of pkg/metrics/metrics.go. A gauge of the client library is a number by label, from zero on; a
-- completion function that Track has returned is known by its place among them. A nil Metrics records nothing.
pub mod Open
use go_clean_architecture.Prelude.{
  ℕ, zero, suc, ◌+◌, ◌/◌, ◌%◌, ℤ, pos, negsuc, pos_part, ltb_ℤ, Bool, true, false, not, ◌&&◌, ◌||◌,
  Option, none, some, List, [], ◌∷◌, ◌++◌, if◌then◌else◌, Bytes, codes, bytes_eq, any,
}
use go_clean_architecture.Std.Text.{Text, to_bytes, trim_space}
use go_clean_architecture.Metrics.{normalize_route}

abbrev pub supported_methods : List Bytes
supported_methods =
    codes "CONNECT"
    ∷ codes "DELETE"
    ∷ codes "GET"
    ∷ codes "HEAD"
    ∷ codes "OPTIONS"
    ∷ codes "PATCH"
    ∷ codes "POST"
    ∷ codes "PUT"
    ∷ codes "TRACE"
    ∷ []

abbrev pub other_method : Bytes
other_method = codes "OTHER"

-- `normalizeMethod`, by `strings.ToUpper`.
unfoldable pub normalize_method : (Text → Text) → Text → Bytes
normalize_method to_upper method =
    let name = to_bytes (to_upper (trim_space method)) in
    if any (bytes_eq name) supported_methods then name else other_method

abbrev pub unknown_status : Bytes
unknown_status = codes "unknown"

abbrev pub digit : ℕ → ℕ
digit n = b'0' + n

-- `normalizeStatus`: the class and the code.
unfoldable pub normalize_status : ℤ → Bytes × Bytes
normalize_status status =
    let n = pos_part status in
    if ltb_ℤ status (pos 100) || ltb_ℤ (pos 599) status
    then (unknown_status, unknown_status)
    else (digit (n / 100) ∷ codes "xx", digit (n / 100) ∷ digit (n / 10 % 10) ∷ digit (n % 10) ∷ [])

-- The labels of the gauge.
pub record Label : Type 0 where
  pub method : Bytes
  pub route : Bytes

abbrev pub label_eq : Label → Label → Bool
label_eq a b = bytes_eq a.method b.method && bytes_eq a.route b.route

-- A completion function: its label, and whether its `once` has run.
pub record Tracker : Type 0 where
  pub label : Label
  pub is_done : Bool

pub record InFlight : Type 0 where
  pub gauge : Label → ℤ
  pub trackers : List Tracker

abbrev pub increment : ℤ → ℤ
increment (pos n) = pos (suc n)
increment (negsuc zero) = pos 0
increment (negsuc (suc n)) = negsuc n

abbrev pub decrement : ℤ → ℤ
decrement (pos zero) = negsuc 0
decrement (pos (suc n)) = pos n
decrement (negsuc n) = negsuc (suc n)

-- A gauge with another number at one label.
abbrev pub change : (ℤ → ℤ) → Label → (Label → ℤ) → Label → ℤ
change f at gauge l = if label_eq l at then f (gauge l) else gauge l

-- `Track`
unfoldable pub track : (Text → Text) → Text → Text → InFlight → InFlight
unfolding normalize_method normalize_route
track to_upper method route s =
    let l : Label = record {
      method = normalize_method to_upper method;
      route = normalize_route route;
    } in
    record {
      gauge = change increment l s.gauge;
      trackers = s.trackers ++ (record { label = l; is_done = false } ∷ []);
    }

-- The `once` of a completion function: the label to count down, if it has not run.
unfoldable pub do_once : ℕ → List Tracker → Option Label × List Tracker
do_once n [] = (none, [])
do_once zero (t ∷ ts) = (if t.is_done then none else some t.label, record t { is_done = true } ∷ ts)
do_once (suc n) (t ∷ ts) = let (l, rest) = do_once n ts in (l, t ∷ rest)

-- A call of the completion function.
unfoldable pub complete : ℕ → InFlight → InFlight
unfolding do_once
complete n s =
    let (first, ts) = do_once n s.trackers in
    elim first [
      | none ↦ record { gauge = s.gauge; trackers = ts }
      | some l ↦ record { gauge = change decrement l s.gauge; trackers = ts }
    ]

-- What `Observe` records.
pub record Observation : Type 0 where
  pub method : Bytes
  pub route : Bytes
  pub class : Bytes
  pub code : Bytes
  pub duration : ℤ

-- `Observe`
unfoldable pub observe : (Text → Text) → Text → Text → ℤ → ℤ → Observation
unfolding normalize_method normalize_status normalize_route
observe to_upper method route status duration =
    let (class, code) = normalize_status status in
    record {
      method = normalize_method to_upper method;
      route = normalize_route route;
      class = class;
      code = code;
      duration = if ltb_ℤ duration (pos 0) then pos 0 else duration;
    }
