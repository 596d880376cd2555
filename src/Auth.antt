-- ===== src/Auth.antt =====
-- pkg/auth/auth.go: bearer credentials and principals.
pub mod Laws
use go_clean_architecture.Prelude.{
  ℕ, suc, ◌+◌, Bool, true, false, not, ◌&&◌, ◌||◌, Option, none, some, List, [], ◌∷◌, ltb, leb,
  ◌==◌, ◌++◌, if◌then◌else◌, Bytes, codes, bytes_eq, length, any, drop, take, Result, ok, err,
  ◌>>=◌, ◌>>◌, fail_if,
}
use go_clean_architecture.Std.Text.{
  Text, ascii, to_bytes, text_eq, trim_space, valid_string, is_control,
}
use go_clean_architecture.Std.Hex
use go_clean_architecture.Item.Cursor.{Sha256}
use go_clean_architecture.Item.Idempotency.{is_alphanumeric, one_of}

abbrev pub max_bearer_token_bytes : ℕ
max_bearer_token_bytes = 4096

abbrev pub max_principal_subject_bytes : ℕ
max_principal_subject_bytes = 256

abbrev pub max_principal_scopes : ℕ
max_principal_scopes = 128

abbrev pub max_principal_scope_bytes : ℕ
max_principal_scope_bytes = 256

abbrev pub max_principal_scope_total_bytes : ℕ
max_principal_scope_total_bytes = 4096

pub data AuthError : Type 0 where
  missing_credentials duplicate_credentials unsupported_scheme credentials_too_long : AuthError
  invalid_credentials nil_context nil_request invalid_digest invalid_principal : AuthError
  -- `ctx.Err()`
  context_ended : AuthError

-- `Principal`
pub record Principal : Type 0 where
  pub subject : Text
  pub scopes : List Text

-- `validatePrincipalText`
unfoldable pub validate_principal_text : Text → ℕ → Bool → Result AuthError (Unit {0})
validate_principal_text value max_bytes require_non_empty = do
  let size = length (to_bytes value)
  fail_if
      ((require_non_empty && (size == 0))
        || (ltb max_bytes size
            || (not (valid_string value)
                || (not (text_eq value (trim_space value)) || any is_control value))))
      invalid_principal
  fail_if (not require_non_empty && (size == 0)) invalid_principal

-- The loop over the scopes, with the bytes so far.
unfoldable pub validate_scopes : ℕ → List Text → Result AuthError (Unit {0})
validate_scopes total [] = ok tt
validate_scopes total (scope ∷ rest) =
    let tail = validate_scopes (total + length (to_bytes scope)) rest in
    do
      validate_principal_text scope max_principal_scope_bytes false
      fail_if (ltb max_principal_scope_total_bytes (total + length (to_bytes scope)))
          invalid_principal
      tail

-- `Principal.Validate`
unfoldable pub validate : Principal → Result AuthError (Unit {0})
validate p = do
  validate_principal_text p.subject max_principal_subject_bytes true
  fail_if (ltb max_principal_scopes (length p.scopes)) invalid_principal
  validate_scopes 0 p.scopes

-- `HasScope`
unfoldable pub has_scope : Principal → Text → Bool
has_scope p [] = false
has_scope p (r ∷ rs) = any (λ candidate. text_eq candidate (r ∷ rs)) p.scopes

-- `strings.IndexByte`
unfoldable pub index_byte : ℕ → Bytes → Option ℕ
index_byte c [] = none
index_byte c (b ∷ bs) =
    let rest = index_byte c bs in
    if b == c then some 0 else elim rest [ none ↦ none | some i ↦ some (suc i) ]

-- Only padding is left.
unfoldable pub only_padding : Bytes → Bool
only_padding [] = true
only_padding (c ∷ cs) = (c == b'=') && only_padding cs

unfoldable pub is_bearer_character : ℕ → Bool
unfolding is_alphanumeric one_of
is_bearer_character c = is_alphanumeric c || one_of (codes "-._~+/") c

-- The loop of `validBearerToken`.
unfoldable pub bearer_characters : Bytes → Bool
unfolding is_bearer_character only_padding
bearer_characters [] = true
bearer_characters (c ∷ cs) =
    let rest = bearer_characters cs in
    if is_bearer_character c then rest else if c == b'=' then only_padding (c ∷ cs) else false

-- `validBearerToken`
unfoldable pub valid_bearer_token : Bytes → Bool
unfolding bearer_characters
valid_bearer_token [] = false
valid_bearer_token (c ∷ cs) = if c == b'=' then false else bearer_characters (c ∷ cs)

-- Letters are compared without case; no letter outside ASCII folds onto one of `Bearer`.
unfoldable pub to_lower : ℕ → ℕ
to_lower c = if leb b'A' c && leb c b'Z' then c + 32 else c

unfoldable pub lower : Bytes → Bytes
unfolding to_lower
lower [] = []
lower (c ∷ cs) = to_lower c ∷ lower cs

-- `ParseBearerHeader` behind the separator's position.
unfoldable pub parse_credentials : Bytes → ℕ → Result AuthError Bytes
parse_credentials raw separator = do
  let token = drop (separator + 1) raw
  fail_if
      ((separator == 0)
        || ((length token == 0) || elim (index_byte b' ' token) [ none ↦ false | some _ ↦ true ]))
      invalid_credentials
  fail_if (not (bytes_eq (lower (take separator raw)) (codes "bearer"))) unsupported_scheme
  fail_if (length token == 0) invalid_credentials
  fail_if (ltb max_bearer_token_bytes (length token)) credentials_too_long
  fail_if (not (valid_bearer_token token)) invalid_credentials
  ok token

-- `ParseBearerHeader`; `raw` are the bytes of the one value.
unfoldable pub parse_bearer_header : List Text → Result AuthError Bytes
parse_bearer_header [] = err missing_credentials
parse_bearer_header (a ∷ b ∷ rest) = err duplicate_credentials
parse_bearer_header (value ∷ []) = do
  let raw = to_bytes value
  fail_if (ltb (max_bearer_token_bytes + 7) (length raw)) credentials_too_long
  fail_if (length raw == 0) invalid_credentials
  fail_if (not (text_eq value (trim_space value)) || any (one_of (9 ∷ 13 ∷ 10 ∷ [])) raw)
      invalid_credentials
  elim (index_byte b' ' raw) [
    | none ↦ err invalid_credentials
    | some separator ↦ parse_credentials raw separator
  ]

-- A request: its header as pairs of a name and its values, in the order of `range`.
pub record Request : Type 0 where
  pub header : List (Bytes × List Text)

-- All values under the names that spell `Authorization` in some case.
unfoldable pub authorization_values : List (Bytes × List Text) → List Text
unfolding lower bytes_eq
authorization_values [] = []
authorization_values ((name, entries) ∷ rest) =
    let others = authorization_values rest in
    if bytes_eq (lower name) (codes "authorization") then entries ++ others else others

-- `ParseBearerToken`; a nil request is `none`.
unfoldable pub parse_bearer_token : Option Request → Result AuthError Bytes
parse_bearer_token none = err nil_request
parse_bearer_token (some request) = parse_bearer_header (authorization_values request.header)

-- `parseSHA256Digest`
unfoldable pub parse_sha256_digest : Text → Result AuthError Bytes
parse_sha256_digest raw = do
  fail_if (not (length (to_bytes raw) == 64) || not (text_eq raw (trim_space raw))) invalid_digest
  elim (Hex.decode (to_bytes raw)) [
    | none ↦ err invalid_digest
    | some digest ↦ if length digest == 32 then ok digest else err invalid_digest
  ]

-- `BearerSHA256`
pub record BearerSha256 : Type 0 where
  pub digest : Bytes
  pub principal : Principal

-- `NewBearerSHA256FromDigest`
unfoldable pub new_bearer_sha256_from_digest : Bytes → Text → Result AuthError BearerSha256
new_bearer_sha256_from_digest digest subject = do
  let principal : Principal = record { subject = subject; scopes = [] }
  validate principal
  ok (record { digest = digest; principal = principal })

-- `NewBearerSHA256WithSubject`
unfoldable pub new_bearer_sha256_with_subject : Text → Text → Result AuthError BearerSha256
unfolding parse_sha256_digest new_bearer_sha256_from_digest
new_bearer_sha256_with_subject digest_hex subject = do
  digest ← parse_sha256_digest digest_hex
  new_bearer_sha256_from_digest digest subject

abbrev pub default_bearer_subject : Text
default_bearer_subject = ascii (codes "configured-bearer")

-- `NewBearerSHA256`
unfoldable pub new_bearer_sha256 : Text → Result AuthError BearerSha256
unfolding new_bearer_sha256_with_subject
new_bearer_sha256 digest_hex = new_bearer_sha256_with_subject digest_hex default_bearer_subject

-- A context of this package: whether it has ended at each moment, and the principal it carries.
pub record AuthContext : Type 0 where
  pub ended_at : ℕ → Bool
  pub principal : Option Principal

-- `ContextWithPrincipal`
unfoldable pub context_with_principal :
    Option AuthContext → Principal → Result AuthError AuthContext
context_with_principal none principal = err nil_context
context_with_principal (some ctx) principal = do
  validate principal
  ok (record ctx { principal = some principal })

-- `WithPrincipal`
unfoldable pub with_principal : Option AuthContext → Principal → Option AuthContext
unfolding context_with_principal
with_principal ctx principal = elim (context_with_principal ctx principal) [
  | ok updated ↦ some updated
  | err e ↦ ctx
]

-- `PrincipalFromContext`
unfoldable pub principal_from_context : Option AuthContext → Option Principal
principal_from_context none = none
principal_from_context (some ctx) = ctx.principal

-- `Authenticate`; a nil verifier is `none`.
unfoldable pub authenticate :
    Sha256
    → Option BearerSha256
    → Option AuthContext
    → ℕ
    → Option Request
    → Result AuthError Principal
authenticate sha verifier none m request = err nil_context
authenticate sha verifier (some ctx) m none = do
  fail_if (ctx.ended_at m) context_ended
  err nil_request
authenticate sha none (some ctx) m (some request) = do
  fail_if (ctx.ended_at m) context_ended
  err invalid_credentials
authenticate sha (some v) (some ctx) m (some request) = do
  fail_if (ctx.ended_at m) context_ended
  token ← parse_bearer_token (some request)
  fail_if (ctx.ended_at (m + 1)) context_ended
  fail_if (not (bytes_eq (sha.digest token) v.digest)) invalid_credentials
  fail_if (ctx.ended_at (m + 2)) context_ended
  ok v.principal
