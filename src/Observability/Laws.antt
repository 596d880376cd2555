-- ===== src/Observability/Laws.antt =====
-- The identifiers of requests, and the logged events.
use go_clean_architecture.Prelude.{
  ℕ, pos, ltb_ℤ, ◌≤◌, ◌≡◌, ◌↔◌, refl, Bool, true, ◌&&◌, inl, inr, Option, none, some, List, [], ◌∷◌,
  arith, leb, Bytes, length, all, Bool-cases,
}
use go_clean_architecture.Item.Idempotency.{is_token_character, is_alphanumeric, one_of}
use go_clean_architecture.Observability.{
  Request, Written, Event, warn, error, all_token, valid_request_id, request_id_for, choose_id,
  level_of, status_of, route_of, event_of, observability_middleware,
}

-- A byte of visible ASCII: neither a control character nor a space.
abbrev pub is_visible : ℕ → Bool
is_visible c = leb 33 c && leb c 126

-- An identifier that is fit for a header and a log: 1 to 128 bytes, all visible.
abbrev pub IsClean : Bytes → Type 0
IsClean id = (1 ≤ length id) × (length id ≤ 128) × (all is_visible id ≡ true)

is_token_character-is_visible : (c : ℕ) → is_token_character c ≡ true → is_visible c ≡ true
unfolding is_token_character is_alphanumeric one_of
is_token_character-is_visible c h = ground arith

all_token-all : (id : Bytes) → all_token id ≡ true → all is_visible id ≡ true
unfolding all_token
all_token-all [] h = refl
all_token-all (c ∷ cs) h = ground (arith, is_token_character-is_visible c, all_token-all cs)

valid_request_id-IsClean : (id : Bytes) → valid_request_id id ≡ true → IsClean id
unfolding valid_request_id
valid_request_id-IsClean id h = ground (arith, all_token-all id)

choose_id-IsClean :
    (fresh : Bytes) (ids : List Bytes) → IsClean fresh → IsClean (choose_id fresh ids)
unfolding choose_id
choose_id-IsClean fresh [] h = h
choose_id-IsClean fresh (v ∷ []) h = elim (Bool-cases (valid_request_id v)) [
  | inl e ↦ rw e (valid_request_id-IsClean v e)
  | inr e ↦ rw e h
]
choose_id-IsClean fresh (v ∷ w ∷ vs) h = h

request_id_for-IsClean :
    (fresh : Bytes) (request : Option Request)
    → IsClean fresh
    → IsClean (request_id_for fresh request)
unfolding request_id_for
request_id_for-IsClean fresh none h = h
request_id_for-IsClean fresh (some request) h = choose_id-IsClean fresh request.request_ids h

-- The level of an event tells the class of its status.
abbrev pub IsLeveled : Event → Type 0
IsLeveled e =
    ((e.level ≡ error) ↔ (500 ≤ e.status))
    × ((e.level ≡ warn) ↔ ((400 ≤ e.status) × (e.status ≤ 499)))

level_of-error : (n : ℕ) → (level_of n ≡ error) ↔ (500 ≤ n)
unfolding level_of
level_of-error n = (λ h. ground arith, λ h. ground arith)

level_of-warn : (n : ℕ) → (level_of n ≡ warn) ↔ ((400 ≤ n) × (n ≤ 499))
unfolding level_of
level_of-warn n = (λ h. ground arith, λ h. ground arith)

status_of-positive : (written : Written) → 1 ≤ status_of written
unfolding status_of
status_of-positive written = elim (Bool-cases (ltb_ℤ (pos 0) written.status)) [
  | inl e ↦ rw e (ground arith)
  | inr e ↦ rw e (omega arith)
]

route_of-nonempty : (written : Written) → 1 ≤ length (route_of written)
unfolding route_of
route_of-nonempty written = ground arith

-- Where `uuid.NewString` returns 1 to 128 visible bytes, so is the identifier of every request; the response's header,
-- the context of the handlers and the event carry the same one. The event's level is error exactly for a status of at least 500
-- and warn exactly for one from 400 to 499, its status is positive and its route is not empty.
pub observability_middleware_lem :
    (fresh : Bytes) (next : Option Bytes → Written) (request : Option Request)
    → IsClean fresh
    → let (header, written, event) = observability_middleware fresh next request in
      IsClean header
      × (event.request_id ≡ header)
      × (written ≡ next (some header))
      × IsLeveled event
      × (1 ≤ event.status)
      × (1 ≤ length event.route)
unfolding observability_middleware event_of
observability_middleware_lem fresh next request h =
    let id = request_id_for fresh request in
    let written = next (some id) in
    (
      request_id_for-IsClean fresh request h,
      refl,
      refl,
      (level_of-error (status_of written), level_of-warn (status_of written)),
      status_of-positive written,
      route_of-nonempty written,
    )
