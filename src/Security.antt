-- ===== src/Security.antt =====
-- internal/controller/http/security.go: authentication and rate limiting before the routes.
pub mod Keys
pub mod Laws
use go_clean_architecture.Prelude.{
  ℕ, ℤ, pos, ◌+◌, ◌/◌, ◌%◌, Bool, true, false, not, ◌||◌, Option, none, some, List, [], ◌∷◌, ◌++◌,
  ◌==◌, if◌then◌else◌, Bytes, codes, bytes_eq, length, take, Result, ok, err,
}
use go_clean_architecture.Std.Time.{Time, is_zero, unix_seconds}
use go_clean_architecture.Std.Text.{Text, ascii, to_bytes}
use go_clean_architecture.Std.Hex
use go_clean_architecture.Item.Context.{Context}
use go_clean_architecture.Item.Cursor.{Sha256}
use go_clean_architecture.Item.Idempotency.{with_idempotency_scope}
use go_clean_architecture.Auth
use go_clean_architecture.Auth.{AuthError, AuthContext, Principal, context_with_principal}
use go_clean_architecture.RateLimit.{FloatOps, Limiter, Decision}
use go_clean_architecture.RateLimit.Allow.{allow}

-- The headers that the middleware writes; numbers stand for their decimal text.
pub data Header : Type 0 where
  rate_limit_remaining rate_limit_reset retry_after : ℕ → Header
  www_authenticate cache_control_no_store : Header

-- `securityErrorResponse` with its status; the message goes with the code.
pub record Refusal : Type 0 where
  pub status : ℕ
  pub code : Bytes

-- A request: its path, the headers and context that an authenticator reads, the item package's view of the
-- context, and the text of the direct peer's address, if `net.SplitHostPort` and `net.ParseIP` find one.
pub record Request : Type 0 where
  pub path : Bytes
  pub header : Auth.Request
  pub auth : AuthContext
  pub ctx : Context
  pub peer : Option Bytes

-- What becomes of a request: it is answered at once, or it goes on to the routes.
pub data Outcome : Type 0 where
  aborted : Refusal → List Header → Outcome
  passed : Option Request → List Header → Outcome

-- `auth.Authenticator`
abbrev pub Authenticator : Type 0
Authenticator = AuthContext → ℕ → Auth.Request → Result AuthError Principal

abbrev pub anonymous_rate_key : Bytes
anonymous_rate_key = codes "anonymous"

abbrev pub principal_key_prefix : Bytes
principal_key_prefix = codes "principal:"

abbrev pub address_key_prefix : Bytes
address_key_prefix = codes "address:"

-- `writeSecurityError`
abbrev pub write_security_error : ℕ → Bytes → List Header → Outcome
write_security_error status code headers =
    aborted (record { status = status; code = code }) (headers ++ (cache_control_no_store ∷ []))

-- `writeUnauthorized`
abbrev pub write_unauthorized : List Header → Outcome
write_unauthorized headers =
    write_security_error 401 (codes "unauthorized") (headers ++ (www_authenticate ∷ []))

-- `isVersionedAPIPath`
unfoldable pub is_versioned_api_path : Bytes → Bool
unfolding bytes_eq
is_versioned_api_path path =
    bytes_eq path (codes "/api/v1") || bytes_eq (take 8 path) (codes "/api/v1/")

-- `principalRateKey`
unfoldable pub principal_rate_key : Sha256 → Text → Bytes
principal_rate_key sha subject = principal_key_prefix ++ Hex.encode (sha.digest (to_bytes subject))

-- `clientRateKey`
unfoldable pub client_rate_key : Option Request → Bytes
client_rate_key none = anonymous_rate_key
client_rate_key (some request) = elim request.peer [
  | none ↦ anonymous_rate_key
  | some address ↦ address_key_prefix ++ address
]

-- `retryAfterSeconds`
unfoldable pub retry_after_seconds : ℕ → ℕ
retry_after_seconds value =
    if value == 0
    then 1
    else (let whole = value / 1_000_000_000 in
        let seconds = if value % 1_000_000_000 == 0 then whole else whole + 1 in
        if seconds == 0 then 1 else seconds)

-- The request with the idempotency scope of a key.
unfoldable pub scoped : Bytes → Request → Request
scoped key request = record request {
  ctx = elim (with_idempotency_scope (some request.ctx) (ascii (codes "items:create:" ++ key))) [
    | none ↦ request.ctx
    | some ctx ↦ ctx
  ];
}

abbrev pub reset_header : Time → List Header
reset_header t = if is_zero t then [] else rate_limit_reset (unix_seconds t) ∷ []

module _ {F : Type 0} (fl : FloatOps F) (now : Time) where
  -- The headers of a decision, and the refusal that it makes.
  unfoldable pub write_decision : Decision → Option Outcome × List Header
  unfolding retry_after_seconds
  write_decision d =
      if d.allowed then (none, rate_limit_remaining d.remaining ∷ reset_header d.reset) else (
        some (
            write_security_error 429 (codes "rate_limited") (
              retry_after (retry_after_seconds d.retry_after)
              ∷ rate_limit_remaining 0
              ∷ reset_header d.reset)),
        [],
      )

  -- `allowSecurityRequest`: a refusal, or the headers to go on with; a nil limiter is `none`.
  unfoldable pub allow_security_request :
      Option (Limiter F) → Bytes → (Option Outcome × List Header) × Option (Limiter F)
  unfolding write_decision
  allow_security_request none key = ((none, []), none)
  allow_security_request (some l) key =
      let (d, l') = allow fl now (ascii key) (some l) in (write_decision d, l')

  -- A refused credential: it counts against the anonymous bucket.
  unfoldable pub reject : Option (Limiter F) → Outcome × Option (Limiter F)
  unfolding allow_security_request
  reject limiter =
      let (answer, l) = allow_security_request limiter anonymous_rate_key in
      (elim answer.0 [ none ↦ write_unauthorized answer.1 | some refusal ↦ refusal ], l)

  -- The request goes on if the limiter lets its key pass.
  unfoldable pub admit : Bytes → Option Request → Option (Limiter F) → Outcome × Option (Limiter F)
  unfolding allow_security_request
  admit key request limiter =
      let (answer, l) = allow_security_request limiter key in
      (elim answer.0 [ none ↦ passed request answer.1 | some refusal ↦ refusal ], l)

  -- A request whose credentials have been verified.
  unfoldable pub enter :
      Sha256 → Request → Principal → Option (Limiter F) → Outcome × Option (Limiter F)
  unfolding admit scoped principal_rate_key
  enter sha request principal limiter =
      elim (context_with_principal (some request.auth) principal) [
        | err e ↦ (write_security_error 500 (codes "internal_error") [], limiter)
        | ok auth ↦
            let key = principal_rate_key sha principal.subject in
            admit key (some (scoped key (record request { auth = auth }))) limiter
      ]

  -- `securityMiddleware`; `m` is the moment from which the context is observed.
  unfoldable pub security_middleware :
      Sha256
      → Option Authenticator
      → ℕ
      → Option Request
      → Option (Limiter F)
      → Outcome × Option (Limiter F)
  unfolding reject admit enter scoped client_rate_key
  security_middleware sha none m none limiter = admit (client_rate_key none) none limiter
  security_middleware sha none m (some request) limiter =
      let key = client_rate_key (some request) in admit key (some (scoped key request)) limiter
  security_middleware sha (some authenticate) m none limiter = reject limiter
  security_middleware sha (some authenticate) m (some request) limiter =
      elim (authenticate request.auth m request.header) [
        | err e ↦ reject limiter
        | ok principal ↦ enter sha request principal limiter
      ]

  -- `apiSecurityMiddleware`
  unfoldable pub api_security_middleware :
      Sha256
      → Option Authenticator
      → ℕ
      → Option Request
      → Option (Limiter F)
      → Outcome × Option (Limiter F)
  unfolding security_middleware is_versioned_api_path
  api_security_middleware sha authenticator m none limiter = (passed none [], limiter)
  api_security_middleware sha authenticator m (some request) limiter =
      if is_versioned_api_path request.path
      then security_middleware sha authenticator m (some request) limiter
      else (passed (some request) [], limiter)
