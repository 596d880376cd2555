-- ===== src/Observability.antt =====
-- internal/controller/http/observability.go: the identifier of a request, and the event that is logged after it.
pub mod Laws
use go_clean_architecture.Prelude.{
  ℕ, ℤ, pos, pos_part, ltb_ℤ, Bool, true, false, not, ◌&&◌, ◌||◌, Option, none, some, List, [], ◌∷◌,
  ltb, ◌==◌, if◌then◌else◌, Bytes, codes, length,
}
use go_clean_architecture.Item.Idempotency.{is_token_character}

-- What is read of `c.Request`: the method, the values of X-Request-ID, and the texts of the trace and of the span of
-- a valid span context.
pub record Request : Type 0 where
  pub method : Bytes
  pub request_ids : List Bytes
  pub span : Option (Bytes × Bytes)

-- What is read of the response once the handlers have run.
pub record Written : Type 0 where
  pub status : ℤ
  pub size : ℤ
  pub full_path : Bytes
  pub elapsed : ℕ

pub data Level : Type 0 where
  info warn error : Level

pub record Event : Type 0 where
  pub level : Level
  pub request_id : Bytes
  pub method : Bytes
  pub route : Bytes
  pub status : ℕ
  pub bytes : ℕ
  pub duration : ℕ
  pub span : Option (Bytes × Bytes)

abbrev pub max_request_id_bytes : ℕ
max_request_id_bytes = 128

abbrev pub default_route_name : Bytes
default_route_name = codes "unmatched"

-- The loop of `validRequestID`.
unfoldable pub all_token : Bytes → Bool
all_token [] = true
all_token (c ∷ cs) = let rest = all_token cs in if is_token_character c then rest else false

-- `validRequestID`
unfoldable pub valid_request_id : Bytes → Bool
unfolding all_token
valid_request_id value =
    if (length value == 0) || ltb max_request_id_bytes (length value)
    then false
    else all_token value

-- Of the values of the header, the only one, if it is valid.
unfoldable pub choose_id : Bytes → List Bytes → Bytes
unfolding valid_request_id
choose_id fresh [] = fresh
choose_id fresh (v ∷ []) = if valid_request_id v then v else fresh
choose_id fresh (v ∷ w ∷ vs) = fresh

-- `requestIDFor`; `fresh` is what `uuid.NewString` returns.
unfoldable pub request_id_for : Bytes → Option Request → Bytes
unfolding choose_id
request_id_for fresh none = fresh
request_id_for fresh (some request) = choose_id fresh request.request_ids

-- `requestIDFromContext`, of the value under `requestIDKey`.
unfoldable pub request_id_from_context : Option Bytes → Bytes
request_id_from_context none = []
request_id_from_context (some value) = value

unfoldable pub level_of : ℕ → Level
level_of status =
    if not (ltb status 500) then error else if not (ltb status 400) then warn else info

abbrev pub method_of : Option Request → Bytes
method_of none = []
method_of (some request) = request.method

abbrev pub span_of : Option Request → Option (Bytes × Bytes)
span_of none = none
span_of (some request) = request.span

-- The status that is logged: one that was not written is 200.
unfoldable pub status_of : Written → ℕ
status_of written = if ltb_ℤ (pos 0) written.status then pos_part written.status else 200

-- The route that is logged: never the raw path.
unfoldable pub route_of : Written → Bytes
route_of written = if length written.full_path == 0 then default_route_name else written.full_path

-- The event of `observabilityMiddleware`.
unfoldable pub event_of : Bytes → Option Request → Written → Event
unfolding level_of status_of route_of
event_of id request written = record {
  level = level_of (status_of written);
  request_id = id;
  method = method_of request;
  route = route_of written;
  status = status_of written;
  bytes = pos_part written.size;
  duration = written.elapsed;
  span = span_of request;
}

-- The handler of `observabilityMiddleware`: the rest of the chain, `c.Next()`, runs with the identifier under
-- `requestIDKey`; the answer is the header X-Request-ID, the chain's response and the event.
unfoldable pub observability_middleware :
    Bytes → (Option Bytes → Written) → Option Request → Bytes × Written × Event
unfolding request_id_for event_of
observability_middleware fresh next request =
    let id = request_id_for fresh request in
    let written = next (some id) in (id, written, event_of id request written)
