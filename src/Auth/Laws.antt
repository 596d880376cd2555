-- ===== src/Auth/Laws.antt =====
-- What the authenticator guarantees.
use go_clean_architecture.Prelude.{
  ℕ, zero, suc, inl, inr, ◌++◌, take, drop, codes, ◌+◌, ◌≤◌, ◌<◌, ◌≡◌, refl, Bool, true, false,
  some, List, [], ◌∷◌, arith, Bytes, bytes_eq→eq, length, any, ok, Option-cases, Result-cases,
}
use go_clean_architecture.Std.Text.{
  Text, to_bytes, trim_space, valid_string, is_control, text_eq→eq,
}
use go_clean_architecture.Item.Cursor.{Sha256}
use go_clean_architecture.Auth.{
  Principal, validate, validate_scopes, validate_principal_text, valid_bearer_token,
  parse_credentials, parse_bearer_header, parse_bearer_token, Request, BearerSha256, AuthContext,
  authenticate, index_byte, lower,
}

-- A caller is authenticated only as the verifier's own principal, by one token whose digest is the
-- configured one, and only while the context has not ended.
pub authenticate-eq-ok :
    (sha : Sha256) (v : BearerSha256) (ctx : AuthContext) (m : ℕ) (request : Request)
    (p : Principal)
    → authenticate sha (some v) (some ctx) m (some request) ≡ ok p
    → (token : Bytes) × (parse_bearer_token (some request) ≡ ok token)
      × (sha.digest token ≡ v.digest)
      × (ctx.ended_at m ≡ false)
      × (ctx.ended_at (m + 1) ≡ false)
      × (ctx.ended_at (m + 2) ≡ false)
      × (p ≡ v.principal)
unfolding authenticate
authenticate-eq-ok sha v ctx m request p h =
    elim (Result-cases (parse_bearer_token (some request))) [
      | inr (e, bad) ↦ absurd (ground arith)
      | inl (token, parsed) ↦ (
        token,
        parsed,
        bytes_eq→eq (sha.digest token) v.digest (ground arith),
        ground arith,
        ground arith,
        ground arith,
        ground arith,
      )
    ]

-- The first occurrence of a byte splits the string.
index_byte-split :
    (c : ℕ) (bs : Bytes) (i : ℕ) → index_byte c bs ≡ some i → bs ≡ take i bs ++ c ∷ drop (i + 1) bs
unfolding index_byte
index_byte-split c [] i h = cc
index_byte-split c (b ∷ bs) zero h = elim (Option-cases (index_byte c bs)) [
  | inl absent ↦ ground arith
  | inr (j, found) ↦ ground arith
]
index_byte-split c (b ∷ bs) (suc i) h = elim (Option-cases (index_byte c bs)) [
  | inl absent ↦ absurd (ground arith)
  | inr (j, found) ↦ ground (arith, index_byte-split c bs i)
]

parse_credentials-eq-ok :
    (raw : Bytes) (i : ℕ) (token : Bytes)
    → parse_credentials raw i ≡ ok token
    → (drop (i + 1) raw ≡ token)
      × (lower (take i raw) ≡ codes "bearer")
      × (valid_bearer_token token ≡ true)
      × (length token ≤ 4096)
unfolding parse_credentials
parse_credentials-eq-ok raw i token h = (
  ground arith,
  bytes_eq→eq (lower (take i raw)) (codes "bearer") (ground arith),
  ground arith,
  ground arith,
)

-- A credential is read from one header value only, which is the scheme `Bearer` in some case, one space and
-- the token; the token is a non-empty b64token of at most 4096 bytes.
parse_bearer_header-eq-ok :
    (values : List Text) (token : Bytes)
    → parse_bearer_header values ≡ ok token
    → (value : Text) × (scheme : Bytes) × (values ≡ value ∷ [])
      × (to_bytes value ≡ scheme ++ 32 ∷ token)
      × (lower scheme ≡ codes "bearer")
      × (valid_bearer_token token ≡ true)
      × (length token ≤ 4096)
unfolding parse_bearer_header
parse_bearer_header-eq-ok [] token h = absurd (ground arith)
parse_bearer_header-eq-ok (v ∷ w ∷ rest) token h = absurd (ground arith)
parse_bearer_header-eq-ok (v ∷ []) token h = elim (Option-cases (index_byte 32 (to_bytes v))) [
  | inl absent ↦ absurd (ground arith)
  | inr (i, found) ↦
      let (same, scheme, valid, size) =
        parse_credentials-eq-ok (to_bytes v) i token (ground arith) in
      (
        v,
        take i (to_bytes v),
        refl,
        rw (← same) (index_byte-split 32 (to_bytes v) i found),
        scheme,
        valid,
        size,
      )
]

-- The bytes of a list of scopes.
abbrev pub total_bytes : List Text → ℕ
total_bytes [] = 0
total_bytes (t ∷ ts) = length (to_bytes t) + total_bytes ts

-- A non-empty text of at most `n` bytes, trimmed, without control characters.
pub record IsBoundedText (n : ℕ) (t : Text) : Type 0 where
  pub nonempty : 0 < length (to_bytes t)
  pub short : length (to_bytes t) ≤ n
  pub utf8 : valid_string t ≡ true
  pub trimmed : t ≡ trim_space t
  pub printable : any is_control t ≡ false

abbrev pub AllBounded : List Text → Type 0
AllBounded [] = Unit {0}
AllBounded (t ∷ ts) = IsBoundedText 256 t × AllBounded ts

validate_principal_text-eq-ok :
    (t : Text) (n : ℕ) (b : Bool) → validate_principal_text t n b ≡ ok tt → IsBoundedText n t
unfolding validate_principal_text
validate_principal_text-eq-ok t n b h = record {
  nonempty = ground arith;
  short = ground arith;
  utf8 = ground arith;
  trimmed = text_eq→eq t (trim_space t) (ground arith);
  printable = ground arith;
}

validate_scopes-eq-ok :
    (total : ℕ) (scopes : List Text)
    → total ≤ 4096
    → validate_scopes total scopes ≡ ok tt
    → AllBounded scopes × (total + total_bytes scopes ≤ 4096)
unfolding validate_scopes
validate_scopes-eq-ok total [] k h = (tt, omega arith)
validate_scopes-eq-ok total (t ∷ ts) k h =
    let first : validate_principal_text t 256 false ≡ ok tt = (ground arith) in
    let fits : total + length (to_bytes t) ≤ 4096 = (ground arith) in
    let (bounded, sum) =
      validate_scopes-eq-ok (total + length (to_bytes t)) ts fits (ground arith) in
    ((validate_principal_text-eq-ok t 256 false first, bounded), omega arith)

-- A principal that is accepted is bounded: its subject, the number of its scopes, each scope, and the bytes of
-- all scopes together.
validate-eq-ok :
    (p : Principal)
    → validate p ≡ ok tt
    → IsBoundedText 256 p.subject
      × (length p.scopes ≤ 128)
      × AllBounded p.scopes
      × (total_bytes p.scopes ≤ 4096)
unfolding validate
validate-eq-ok p h =
    let subject = validate_principal_text-eq-ok p.subject 256 true (ground arith) in
    let (bounded, sum) = validate_scopes-eq-ok 0 p.scopes (omega arith) (ground arith) in
    (subject, (ground arith), bounded, omega arith)
