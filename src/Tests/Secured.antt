-- ===== src/Tests/Secured.antt =====
-- Requests through the security middleware, with the limiter of two clients.
use go_clean_architecture.Prelude.{
  ◌*◌, ◌≤◌, ◌<◌, ℕ, ◌≡◌, ◌⊎◌, refl, true, false, none, Option, some, List, [], codes, ok, err,
}
use go_clean_architecture.Std.Text.{ascii, to_bytes, text_eq, trim_space, valid_string, is_control}
use go_clean_architecture.Auth.{
  invalid_credentials, Principal, AuthContext, validate, validate_scopes, validate_principal_text,
  context_with_principal,
}
use go_clean_architecture.RateLimit.{Limiter, valid_key}
use go_clean_architecture.Security.{
  Request, passed, aborted, Refusal, Header, Authenticator, anonymous_rate_key, principal_rate_key,
  scoped, retry_after_seconds, is_versioned_api_path, api_security_middleware, security_middleware,
  enter, admit, allow_security_request,
}
use go_clean_architecture.Security.Keys.{valid_key-principal_rate_key}
use go_clean_architecture.Security.Laws.{
  retry_after_seconds_lem, charged, lets_pass, api_security_middleware-eq-err,
  api_security_middleware-passed,
}
use go_clean_architecture.Tests.{sha, ctx, noon}
use go_clean_architecture.Tests.Limits.{fl, limiter}

program : Unit {0}
unfolding is_versioned_api_path api_security_middleware security_middleware enter admit
    allow_security_request context_with_principal validate validate_scopes validate_principal_text
    to_bytes text_eq trim_space valid_string is_control
program = tt

retry_after_seconds_lem_example :
    (1_000_000_001 ≤ retry_after_seconds 1_000_000_001 * 1_000_000_000)
    × (0 < retry_after_seconds 1_000_000_001)
    × ((n : ℕ) → 0 < n → 1_000_000_001 ≤ n * 1_000_000_000 → retry_after_seconds 1_000_000_001 ≤ n)
retry_after_seconds_lem_example = retry_after_seconds_lem 1_000_000_001

valid_key-principal_rate_key_example :
    valid_key (ascii (principal_rate_key sha (ascii (codes "reader")))) ≡ true
valid_key-principal_rate_key_example = valid_key-principal_rate_key sha (ascii (codes "reader"))

abbrev reader : Principal
reader = record { subject = ascii (codes "reader"); scopes = [] }

abbrev request : Request
request = record {
  path = codes "/api/v1/items";
  header = record { header = [] };
  auth = record { ended_at = λ m. false; principal = none };
  ctx = ctx;
  peer = none;
}

abbrev refusing : Authenticator
refusing c m h = err invalid_credentials

abbrev trusting : Authenticator
trusting c m h = ok reader

versioned : is_versioned_api_path request.path ≡ true
unfolding program
versioned = refl

api_security_middleware-eq-err_example :
    (r : Refusal) × (hs : List Header) × ((api_security_middleware fl noon sha
        (some refusing)
        0
        (some request)
        (some limiter)).0
      ≡ aborted r hs)
    × ((r.status ≡ 401) ⊎ (r.status ≡ 429))
    × ((api_security_middleware fl noon sha (some refusing) 0 (some request) (some limiter)).1
        ≡ charged fl noon anonymous_rate_key (some limiter))
api_security_middleware-eq-err_example =
    api_security_middleware-eq-err fl noon sha refusing 0 request (some limiter) invalid_credentials
      versioned refl

abbrev no_limiter : Option (Limiter ℕ)
no_limiter = none

abbrev entered : Request
entered =
    scoped (principal_rate_key sha reader.subject)
      (record request { auth = record request.auth { principal = some reader } })

goes_on :
    (api_security_middleware fl noon sha (some trusting) 0 (some request) no_limiter).0
    ≡ passed (some entered) []
unfolding program
goes_on = refl

api_security_middleware-passed_example :
    (p : Principal) × (auth : AuthContext) × (trusting request.auth 0 request.header ≡ ok p)
    × (context_with_principal (some request.auth) p ≡ ok auth)
    × (lets_pass fl noon (principal_rate_key sha p.subject) no_limiter ≡ true)
    × (some entered
        ≡ some (scoped (principal_rate_key sha p.subject) (record request { auth = auth })))
    × ((api_security_middleware fl noon sha (some trusting) 0 (some request) no_limiter).1
        ≡ charged fl noon (principal_rate_key sha p.subject) no_limiter)
api_security_middleware-passed_example =
    api_security_middleware-passed fl noon sha trusting 0 request no_limiter (some entered) []
      versioned goes_on
