-- ===== src/Security/Laws.antt =====
-- What passes the security middleware, and what refused credentials touch.
use go_clean_architecture.Prelude.{
  ℕ, ◌*◌, ◌≤◌, ◌<◌, ◌≡◌, ◌⊎◌, refl, Bool, true, false, inl, inr, Option, none, some, List, [], ◌∷◌,
  ◌++◌, arith, Bytes, codes, ok, err, Bool-cases, Result-cases,
}
use go_clean_architecture.Std.Time.{Time}
use go_clean_architecture.Std.Text.{ascii}
use go_clean_architecture.Item.Cursor.{Sha256}
use go_clean_architecture.Auth.{AuthError, Principal, AuthContext, context_with_principal}
use go_clean_architecture.RateLimit.{FloatOps, Limiter}
use go_clean_architecture.RateLimit.Allow.{allow}
use go_clean_architecture.Security.{
  Header, rate_limit_remaining, retry_after, www_authenticate, cache_control_no_store, reset_header,
  Request, aborted, passed, Refusal, Authenticator, anonymous_rate_key, principal_rate_key, scoped,
  retry_after_seconds, is_versioned_api_path, write_decision, allow_security_request, reject, admit,
  enter, security_middleware, api_security_middleware,
}

-- The advice to wait is the least whole number of seconds, at least one, that covers the time.
pub retry_after_seconds_lem :
    (d : ℕ)
    → (d ≤ retry_after_seconds d * 1_000_000_000)
      × (0 < retry_after_seconds d)
      × ((n : ℕ) → 0 < n → d ≤ n * 1_000_000_000 → retry_after_seconds d ≤ n)
unfolding retry_after_seconds
retry_after_seconds_lem d = (ground arith, ground arith, λ n p h. ground arith)

-- The limiter behind a call with a key.
abbrev pub charged :
    {F : Type 0} → FloatOps F → Time → Bytes → Option (Limiter F) → Option (Limiter F)
charged fl now key none = none
charged fl now key (some l) = (allow fl now (ascii key) (some l)).1

module _ {F : Type 0} (fl : FloatOps F) (now : Time) where
  charged-allow_security_request :
      (key : Bytes) (limiter : Option (Limiter F))
      → (allow_security_request fl now limiter key).1 ≡ charged fl now key limiter
  unfolding allow_security_request
  charged-allow_security_request key none = refl
  charged-allow_security_request key (some l) = refl

  -- Whether the limiter lets a key pass; without a limiter every key does.
  abbrev pub lets_pass : Bytes → Option (Limiter F) → Bool
  lets_pass key none = true
  lets_pass key (some l) = (allow fl now (ascii key) (some l)).0.allowed

  allow_security_request-refusal :
      (key : Bytes) (limiter : Option (Limiter F))
      → ((allow_security_request fl now limiter key).0.0 ≡ none) × (lets_pass key limiter ≡ true)
        ⊎ ((r : Refusal) × (hs : List Header) × ((allow_security_request fl now limiter key).0.0
              ≡ some (aborted r hs))
            × (r.status ≡ 429)
            × (lets_pass key limiter ≡ false))
  unfolding allow_security_request write_decision
  allow_security_request-refusal key none = inl (refl, refl)
  allow_security_request-refusal key (some l) =
      let d = (allow fl now (ascii key) (some l)).0 in
      elim (Bool-cases d.allowed) [
        | inl yes_allowed ↦ inl (rw yes_allowed refl, yes_allowed)
        | inr refused ↦ inr (
          record { status = 429; code = codes "rate_limited" },
          retry_after (retry_after_seconds d.retry_after)
                ∷ rate_limit_remaining 0
                ∷ reset_header d.reset
              ++ (cache_control_no_store ∷ []),
          rw refused refl,
          refl,
          refused,
        )
      ]

  reject_lem :
      (limiter : Option (Limiter F))
      → (r : Refusal) × (hs : List Header) × ((reject fl now limiter).0 ≡ aborted r hs)
        × ((r.status ≡ 401) ⊎ (r.status ≡ 429))
        × ((reject fl now limiter).1 ≡ charged fl now anonymous_rate_key limiter)
  unfolding reject
  reject_lem limiter =
      let after = charged-allow_security_request anonymous_rate_key limiter in
      elim (allow_security_request-refusal anonymous_rate_key limiter) [
        | inl (e, pass) ↦ (
          record { status = 401; code = codes "unauthorized" },
          (allow_security_request fl now limiter anonymous_rate_key).0.1
              ++ (www_authenticate ∷ [])
              ++ (cache_control_no_store ∷ []),
          rw (e, reject) refl,
          inl refl,
          after,
        )
        | inr (r, hs, e, status, stop) ↦ (r, hs, rw (e, reject) refl, inr status, after)
      ]

  api-security :
      (sha : Sha256) (authenticator : Option Authenticator) (m : ℕ) (request : Request)
      (limiter : Option (Limiter F))
      → is_versioned_api_path request.path ≡ true
      → api_security_middleware fl now sha authenticator m (some request) limiter
        ≡ security_middleware fl now sha authenticator m (some request) limiter
  unfolding api_security_middleware
  api-security sha authenticator m request limiter versioned = rw versioned refl

  admit-passed :
      (key : Bytes) (request entered : Option Request) (limiter : Option (Limiter F))
      (hs : List Header)
      → (admit fl now key request limiter).0 ≡ passed entered hs
      → (lets_pass key limiter ≡ true) × (entered ≡ request)
  unfolding admit
  admit-passed key request entered limiter hs h =
      elim (allow_security_request-refusal key limiter) [
        | inl (e, pass) ↦ (pass, ground arith)
        | inr (r, hs', e, status, stop) ↦ absurd (ground arith)
      ]

  charged-admit :
      (key : Bytes) (request : Option Request) (limiter : Option (Limiter F))
      → (admit fl now key request limiter).1 ≡ charged fl now key limiter
  unfolding admit
  charged-admit key request limiter = charged-allow_security_request key limiter

  -- A verified request that passes.
  abbrev Enters : Sha256 → Request → Principal → Option (Limiter F) → Option Request → Type 0
  Enters sha request p limiter entered =
      (auth : AuthContext) × (context_with_principal (some request.auth) p ≡ ok auth)
      × (lets_pass (principal_rate_key sha p.subject) limiter ≡ true)
      × (entered
          ≡ some (scoped (principal_rate_key sha p.subject) (record request { auth = auth })))
      × ((enter fl now sha request p limiter).1
          ≡ charged fl now (principal_rate_key sha p.subject) limiter)

  enter-passed :
      (sha : Sha256) (request : Request) (p : Principal) (limiter : Option (Limiter F))
      (entered : Option Request) (hs : List Header)
      → (enter fl now sha request p limiter).0 ≡ passed entered hs
      → Enters sha request p limiter entered
  unfolding enter
  enter-passed sha request p limiter entered hs h =
      elim (Result-cases (context_with_principal (some request.auth) p)) [
        | inr (e, invalid) ↦ absurd (ground arith)
        | inl (auth, set) ↦
            let key = principal_rate_key sha p.subject in
            let target = some (scoped key (record request { auth = auth })) in
            let (pass, same) = admit-passed key target entered limiter hs (rw (set, enter) at h) in
            (auth, set, pass, same, rw (set, enter) (charged-admit key target limiter))
      ]

  -- A request below /api/v1 whose credentials are refused is answered at once, with 401 or, when the
  -- limiter refuses too, with 429; the limiter is charged for the shared anonymous key and for no other.
  pub api_security_middleware-eq-err :
      (sha : Sha256) (authenticate : Authenticator) (m : ℕ) (request : Request)
      (limiter : Option (Limiter F)) (e : AuthError)
      → is_versioned_api_path request.path ≡ true
      → authenticate request.auth m request.header ≡ err e
      → (r : Refusal) × (hs : List Header) × ((api_security_middleware fl now sha
            (some authenticate)
            m
            (some request)
            limiter).0
          ≡ aborted r hs)
        × ((r.status ≡ 401) ⊎ (r.status ≡ 429))
        × ((api_security_middleware fl now sha (some authenticate) m (some request) limiter).1
            ≡ charged fl now anonymous_rate_key limiter)
  unfolding security_middleware
  api_security_middleware-eq-err sha authenticate m request limiter e versioned refused =
      rw
        (
          api-security sha (some authenticate) m request limiter versioned,
          refused,
          security_middleware,
        )
        (reject_lem limiter)

  -- Behind an authenticator, a request below /api/v1 reaches the routes only when the authenticator has verified a principal
  -- and the limiter lets the principal's own key pass; it then carries the principal in its context, and its
  -- idempotency scope is that key's.
  pub api_security_middleware-passed :
      (sha : Sha256) (authenticate : Authenticator) (m : ℕ) (request : Request)
      (limiter : Option (Limiter F)) (entered : Option Request) (hs : List Header)
      → is_versioned_api_path request.path ≡ true
      → (api_security_middleware fl now sha (some authenticate) m (some request) limiter).0
        ≡ passed entered hs
      → (p : Principal) × (auth : AuthContext) × (authenticate request.auth m request.header ≡ ok p)
        × (context_with_principal (some request.auth) p ≡ ok auth)
        × (lets_pass (principal_rate_key sha p.subject) limiter ≡ true)
        × (entered
            ≡ some (scoped (principal_rate_key sha p.subject) (record request { auth = auth })))
        × ((api_security_middleware fl now sha (some authenticate) m (some request) limiter).1
            ≡ charged fl now (principal_rate_key sha p.subject) limiter)
  unfolding security_middleware
  api_security_middleware-passed sha authenticate m request limiter entered hs versioned h =
      let open_up = api-security sha (some authenticate) m request limiter versioned in
      elim (Result-cases (authenticate request.auth m request.header)) [
        | inr (e, refused) ↦
            let (r, hs', aborts, status, after) =
              api_security_middleware-eq-err sha authenticate m request limiter e versioned
                refused in
            absurd (ground (arith, aborts))
        | inl (p, verified) ↦
            let h' = rw (open_up, verified, security_middleware) at h in
            let (auth, set, pass, same, after) = enter-passed sha request p limiter entered hs h' in
            (p, auth, verified, set, pass, same, rw (open_up, verified, security_middleware) after)
      ]
