-- ===== src/Metrics/Tracking/Open.antt =====
-- The gauge counts what is in flight, and what is observed has few labels.
use go_clean_architecture.Prelude.{
  ℕ, zero, suc, ◌+◌, ◌/◌, ◌≤◌, ◌≡◌, refl, ◌∙◌, ap, ℤ, pos, pos_part, ltb_ℤ, true, false, not, ◌&&◌,
  ◌||◌, inl, inr, Option, none, some, List, [], ◌∷◌, ◌++◌, arith, if◌then◌else◌, Bytes, codes,
  bytes_eq, bytes_eq_refl, length, any, Bool-cases, Option-cases,
}
use go_clean_architecture.Std.Text.{Text, to_bytes, trim_space}
use go_clean_architecture.Metrics.{normalize_route}
use go_clean_architecture.Metrics.Routes.{IsLabel, normalize_route-IsLabel}
use go_clean_architecture.Metrics.Tracking.{
  supported_methods, other_method, normalize_method, unknown_status, digit, normalize_status, Label,
  label_eq, Tracker, InFlight, decrement, track, do_once, complete, observe,
}

-- The trackers of a label that have not been completed.
abbrev pub open_count : Label → List Tracker → ℕ
open_count l [] = 0
open_count l (t ∷ ts) =
    let rest = open_count l ts in if not t.is_done && label_eq l t.label then suc rest else rest

-- Calls in any order.
pub data Call : Type 0 where
  tracks : Text → Text → Call
  completes : ℕ → Call

abbrev pub step : (Text → Text) → Call → InFlight → InFlight
step to_upper (tracks method route) s = track to_upper method route s
step to_upper (completes n) s = complete n s

abbrev pub run : (Text → Text) → List Call → InFlight → InFlight
run to_upper [] s = s
run to_upper (c ∷ cs) s = run to_upper cs (step to_upper c s)

-- No request is in flight.
abbrev pub idle : InFlight
idle = record { gauge = λ l. pos 0; trackers = [] }

abbrev pub Counts : InFlight → Type 0
Counts s = (l : Label) → s.gauge l ≡ pos (open_count l s.trackers)

open_count-append :
    (l : Label) (ts : List Tracker) (t : Tracker)
    → open_count l (ts ++ (t ∷ []))
      ≡ (if not t.is_done && label_eq l t.label then suc (open_count l ts) else open_count l ts)
open_count-append l [] t = refl
open_count-append l (u ∷ ts) t = ground (arith, open_count-append l ts t)

-- What a first completion takes off the count of a label.
abbrev hit : Label → Option Label → ℕ
hit l none = 0
hit l (some m) = if label_eq l m then 1 else 0

open_count-do_once :
    (l : Label) (n : ℕ) (ts : List Tracker)
    → open_count l ts ≡ hit l ((do_once n ts).0) + open_count l ((do_once n ts).1)
unfolding do_once
open_count-do_once l n [] = omega arith
open_count-do_once l zero (t ∷ ts) = elim (Bool-cases t.is_done) [
  | inl e ↦ rw e (omega arith)
  | inr e ↦ elim (Bool-cases (label_eq l t.label)) [
    | inl h ↦ rw (e, h) (omega arith)
    | inr h ↦ rw (e, h) (omega arith)
  ]
]
open_count-do_once l (suc n) (t ∷ ts) = ground (arith, open_count-do_once l n ts)

track-Counts :
    (to_upper : Text → Text) (method route : Text) (s : InFlight)
    → Counts s
    → Counts (track to_upper method route s)
unfolding track
track-Counts to_upper method route s h l =
    let t : Tracker = record {
      label = record { method = normalize_method to_upper method; route = normalize_route route };
      is_done = false;
    } in
    elim (Bool-cases (label_eq l t.label)) [
      | inl e ↦ rw (open_count-append l s.trackers t, e, h l) refl
      | inr e ↦ rw (open_count-append l s.trackers t, e, h l) refl
    ]

-- One less than a count that is not zero.
decrement-pos : (n m : ℕ) → n ≡ 1 + m → decrement (pos n) ≡ pos m
decrement-pos zero m h = absurd (omega arith)
decrement-pos (suc n) m h = ap pos (omega arith)

complete-Counts : (n : ℕ) (s : InFlight) → Counts s → Counts (complete n s)
unfolding complete
complete-Counts n s h l =
    let less = open_count-do_once l n s.trackers in
    elim (Option-cases ((do_once n s.trackers).0)) [
      | inl e ↦ rw (complete, e) (h l ∙ ap pos (omega (arith, rw e at less)))
      | inr (m, e) ↦ elim (Bool-cases (label_eq l m)) [
        | inl here ↦
            rw (complete, e, here, h l)
              (decrement-pos (open_count l s.trackers) (open_count l ((do_once n s.trackers).1))
                (rw (e, here) at less))
        | inr apart ↦ rw (complete, e, apart) (h l ∙ ap pos (omega (arith, rw (e, apart) at less)))
      ]
    ]

-- If the gauge of every label is the number of the calls of Track with that label whose function has not been called, it is
-- so after any further calls of Track and of the functions it returns, in any order and with repetitions.
pub run-Counts :
    (to_upper : Text → Text) (cs : List Call) (s : InFlight) → Counts s → Counts (run to_upper cs s)
run-Counts to_upper [] s h = h
run-Counts to_upper (tracks method route ∷ cs) s h =
    run-Counts to_upper cs (track to_upper method route s) (track-Counts to_upper method route s h)
run-Counts to_upper (completes n ∷ cs) s h =
    run-Counts to_upper cs (complete n s) (complete-Counts n s h)

-- The classes of a status.
abbrev pub classes : List Bytes
classes = codes "1xx" ∷ codes "2xx" ∷ codes "3xx" ∷ codes "4xx" ∷ codes "5xx" ∷ unknown_status ∷ []

abbrev pub IsOneOf : List Bytes → Bytes → Type 0
IsOneOf names b = any (bytes_eq b) names ≡ true

class-IsOneOf : (q : ℕ) → 1 ≤ q → q ≤ 5 → IsOneOf classes (digit q ∷ codes "xx")
unfolding bytes_eq
class-IsOneOf zero h k = absurd (omega arith)
class-IsOneOf (suc zero) h k = refl
class-IsOneOf (suc (suc zero)) h k = refl
class-IsOneOf (suc (suc (suc zero))) h k = refl
class-IsOneOf (suc (suc (suc (suc zero)))) h k = refl
class-IsOneOf (suc (suc (suc (suc (suc zero))))) h k = refl
class-IsOneOf (suc (suc (suc (suc (suc (suc q)))))) h k = absurd (omega arith)

unknown-IsOneOf : IsOneOf classes unknown_status
unfolding bytes_eq
unknown-IsOneOf = refl

normalize_status-bounded :
    (status : ℤ)
    → IsOneOf classes ((normalize_status status).0) × (length ((normalize_status status).1) ≤ 7)
unfolding normalize_status
normalize_status-bounded status =
    elim (Bool-cases (ltb_ℤ status (pos 100) || ltb_ℤ (pos 599) status)) [
      | inl out ↦ rw out (unknown-IsOneOf, omega arith)
      | inr fine ↦
          let low : 100 ≤ pos_part status = ground (arith, fine) in
          let high : pos_part status ≤ 599 = ground (arith, fine) in
          rw fine (class-IsOneOf (pos_part status / 100) (omega arith) (omega arith), omega arith)
    ]

normalize_method-IsOneOf :
    (to_upper : Text → Text) (method : Text)
    → IsOneOf (other_method ∷ supported_methods) (normalize_method to_upper method)
unfolding normalize_method
normalize_method-IsOneOf to_upper method =
    elim (Bool-cases (any (bytes_eq (to_bytes (to_upper (trim_space method)))) supported_methods)) [
      | inl known ↦ rw known (ground (arith, known))
      | inr other ↦ rw other (rw (bytes_eq_refl other_method) refl)
    ]

-- Whatever it is called with, Observe records one of ten methods, a route label, one of six classes, a code of at most 7 bytes,
-- and a duration that is not negative.
pub observe-bounded :
    (to_upper : Text → Text) (method route : Text) (status duration : ℤ)
    → let o = observe to_upper method route status duration in
      IsOneOf (other_method ∷ supported_methods) o.method
      × IsLabel o.route
      × IsOneOf classes o.class
      × (length o.code ≤ 7)
      × (ltb_ℤ o.duration (pos 0) ≡ false)
unfolding observe
observe-bounded to_upper method route status duration =
    let (class, code) = normalize_status-bounded status in
    (
      normalize_method-IsOneOf to_upper method,
      normalize_route-IsLabel route,
      class,
      code,
      elim (Bool-cases (ltb_ℤ duration (pos 0))) [ inl e ↦ rw e refl | inr e ↦ rw e e ],
    )
