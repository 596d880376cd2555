-- ===== src/App/Startup.antt =====
-- The parts that a run makes of a configuration.
use go_clean_architecture.Prelude.{
  pos_part, ◌≡◌, ◌≢◌, ◌⊎◌, refl, true, false, inl, inr, Option, none, some, [], arith, ◌==◌, Bytes,
  codes, length, any, ok, Bool-cases, Option-cases,
}
use go_clean_architecture.Std.Text.{
  to_bytes, trim_space, is_space, text_eq, text_eq_refl, valid_string, is_control, encode_rune,
}
use go_clean_architecture.Std.Hex
use go_clean_architecture.Item.Context.{Clock}
use go_clean_architecture.Item.Cursor.{
  Sha256, SignedCursorCodec, new_signed_cursor_codec, default_cursor_ttl, apply_options,
  apply_option, validate_cursor_codec_config,
}
use go_clean_architecture.Auth.{
  AuthError, BearerSha256, parse_sha256_digest, new_bearer_sha256, new_bearer_sha256_with_subject,
  new_bearer_sha256_from_digest, default_bearer_subject, validate_principal_text, validate_scopes,
}
use go_clean_architecture.Auth
use go_clean_architecture.RateLimit
use go_clean_architecture.RateLimit.{ConfigError, Limiter, reject_new}
use go_clean_architecture.Config.{
  Libs, Config, is_empty, size, validate_auth_digest, validate_cursor_key, validate_limits,
  cursor_signing_key_bytes, in_production,
}
use go_clean_architecture.App.{
  app_purpose, codec_of_key, cursor_codec, authenticator, limiter_config, limiter,
}
use go_clean_architecture.Config.Endpoint.{validate}
use go_clean_architecture.Config.Accepted.{
  IsAccepted, validate-IsAccepted, decode-is_hex, decode-trim_space,
}

-- The limiter that a run starts with.
abbrev pub limiter_of : {F : Type 0} → Config F → Limiter F
limiter_of c = record {
  capacity = pos_part c.limit_burst;
  refill_rate = c.limit_rate;
  max_clients = pos_part c.limit_clients;
  idle_ttl = c.limit_idle_ttl;
  overflow = reject_new;
  buckets = [];
}

module _ {F : Type 0} (libs : Libs F) (c : Config F) (a : IsAccepted libs c) where
  limiter-new :
      c.limit_enabled ≡ true → RateLimit.new libs.floats (limiter_config c) ≡ ok (limiter_of c)
  unfolding RateLimit.new RateLimit.validate validate_limits
  limiter-new on = ground (arith, a.limits on)

  digest-parse :
      is_empty c.auth_digest ≡ false → (d : Bytes) × (parse_sha256_digest c.auth_digest ≡ ok d)
  unfolding validate_auth_digest parse_sha256_digest
  digest-parse there = elim (Option-cases (Hex.decode (to_bytes c.auth_digest))) [
    | inl e ↦ absurd (ground (arith, a.digest))
    | inr (d, e) ↦
        let whole = decode-trim_space c.auth_digest d e in
        let double = (decode-is_hex (to_bytes c.auth_digest) d e).1 in
        let long : (size c.auth_digest == 64) ≡ true = ground (arith, a.digest) in
        let half : (length d == 32) ≡ true = ground (arith, double) in
        (d, rw (e, long, whole, text_eq_refl c.auth_digest, half) refl)
  ]

  -- The cursor key of an accepted configuration: none, outside production only, or 32 bytes.
  abbrev pub HasKey : Type 0
  HasKey =
      ((cursor_signing_key_bytes c ≡ ok []) × (in_production c ≡ false))
      ⊎ ((k : Bytes) × (cursor_signing_key_bytes c ≡ ok k) × (length k ≡ 32))

  key-HasKey : HasKey
  unfolding validate_cursor_key cursor_signing_key_bytes
  key-HasKey = elim (Bool-cases (is_empty (trim_space c.cursor_key))) [
    | inl empty ↦ inl (rw empty refl, ground (arith, a.key, empty))
    | inr there ↦ elim (Option-cases (Hex.decode (to_bytes (trim_space c.cursor_key)))) [
      | inl e ↦ absurd (ground (arith, a.key, there, e))
      | inr (d, e) ↦
          let double = (decode-is_hex (to_bytes (trim_space c.cursor_key)) d e).1 in
          let long : (size (trim_space c.cursor_key) == 64) ≡ true =
            ground (arith, a.key, there, e) in
          let half : (length d == 32) ≡ true = ground (arith, double) in
          inr (d, rw (there, e, half) refl, ground (arith, half))
    ]
  ]

purpose-valid :
    (to_bytes app_purpose ≡ codes "items:list:created_at_desc_id_desc:v1")
    × (valid_string app_purpose ≡ true)
    × (any is_control app_purpose ≡ false)
unfolding to_bytes encode_rune valid_string is_control
purpose-valid = (refl, refl, refl)

-- The codec of a key of 32 bytes.
abbrev pub codec_of : Sha256 → Clock → Bytes → SignedCursorCodec
codec_of sha time_now key = record {
  key = sha.digest key;
  ttl = default_cursor_ttl;
  clock = some time_now;
  purpose = app_purpose;
}

new_signed_cursor_codec-eq :
    (sha : Sha256) (time_now : Clock) (key : Bytes)
    → length key ≡ 32
    → codec_of_key sha time_now key ≡ ok (some (codec_of sha time_now key))
unfolding codec_of_key new_signed_cursor_codec apply_options apply_option
    validate_cursor_codec_config
new_signed_cursor_codec-eq sha time_now key h =
    let (bytes, valid, plain) = purpose-valid in rw (h, bytes, valid, plain) refl

subject-valid : Auth.validate (record { subject = default_bearer_subject; scopes = [] }) ≡ ok tt
unfolding Auth.validate validate_principal_text validate_scopes to_bytes encode_rune valid_string
    is_control trim_space text_eq is_space
subject-valid = refl

module _ {F : Type 0} (libs : Libs F) (c : Config F) (a : IsAccepted libs c) where
  cursor_codec-ok :
      (sha : Sha256) (time_now : Clock)
      → (o : Option SignedCursorCodec) × (cursor_codec sha time_now c ≡ ok o)
        × ((in_production c ≡ false) ⊎ (o ≢ none))
  unfolding cursor_codec codec_of_key
  cursor_codec-ok sha time_now = elim (key-HasKey libs c a) [
    | inl (e, dev) ↦ (none, rw e refl, inl dev)
    | inr (k, e, long) ↦ (
      some (codec_of sha time_now k),
      rw (e) (new_signed_cursor_codec-eq sha time_now k long),
      inr (λ h. cc),
    )
  ]

  -- The verifier of a digest.
  abbrev pub bearer_of : Bytes → BearerSha256
  bearer_of d = record {
    digest = d;
    principal = record { subject = default_bearer_subject; scopes = [] };
  }

  bearer-new :
      is_empty c.auth_digest ≡ false → (v : BearerSha256) × (new_bearer_sha256 c.auth_digest ≡ ok v)
  unfolding new_bearer_sha256 new_bearer_sha256_with_subject new_bearer_sha256_from_digest
  bearer-new there =
      let (d, parsed) = digest-parse libs c a there in
      (bearer_of d, rw (parsed, subject-valid) refl)

  authenticator-ok :
      (v : Option BearerSha256) × (authenticator c ≡ ok v) × ((c.auth_enabled ≡ false) ⊎ (v ≢ none))
  unfolding authenticator
  authenticator-ok = elim (Bool-cases c.auth_enabled) [
    | inr off ↦ (none, rw off refl, inl off)
    | inl on ↦
        let (v, made) = bearer-new (ground (arith, a.has_digest, on)) in
        (some v, rw (on, made) refl, inr (λ h. cc))
  ]

  limiter-ok :
      (l : Option (Limiter F)) × (limiter libs c ≡ ok l)
      × ((c.limit_enabled ≡ false) ⊎ (l ≡ some (limiter_of c)))
  unfolding limiter
  limiter-ok = elim (Bool-cases c.limit_enabled) [
    | inr off ↦ (none, rw off refl, inl off)
    | inl on ↦ (some (limiter_of c), rw (on, limiter-new libs c a on) refl, inr refl)
  ]

-- Of a configuration that `Validate` accepts every part can be made: a cursor codec, which may be missing only
-- outside production, an authenticator, which is there if it is enabled, and a limiter, which is there if it is.
pub validate-starts :
    {F : Type 0} (libs : Libs F) (sha : Sha256) (time_now : Clock) (c : Config F)
    → validate libs c ≡ ok tt
    → ((o : Option SignedCursorCodec) × (cursor_codec sha time_now c ≡ ok o)
        × ((in_production c ≡ false) ⊎ (o ≢ none)))
      × ((v : Option BearerSha256) × (authenticator c ≡ ok v)
          × ((c.auth_enabled ≡ false) ⊎ (v ≢ none)))
      × ((l : Option (Limiter F)) × (limiter libs c ≡ ok l)
          × ((c.limit_enabled ≡ false) ⊎ (l ≡ some (limiter_of c))))
validate-starts libs sha time_now c h =
    let a = validate-IsAccepted libs c h in
    (cursor_codec-ok libs c a sha time_now, authenticator-ok libs c a, limiter-ok libs c a)
