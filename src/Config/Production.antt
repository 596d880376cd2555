-- ===== src/Config/Production.antt =====
-- What loading guarantees of a production configuration.
use go_clean_architecture.Prelude.{
  ◌≡◌, refl, true, false, inl, inr, some, arith, Bytes, length, ◌==◌, ok, Bool-cases, Option-cases,
  Result-cases,
}
use mathlib.Core.Path.{subst}
use go_clean_architecture.Std.Text.{Text, to_bytes, trim_space, is_space, text_eq, text_eq→eq}
use go_clean_architecture.Std.Hex
use go_clean_architecture.Config.{
  Libs, Config, Setting, database_url, cursor_key, production, in_production, is_empty, size,
  development_cursor_key, validate_cursor_key, cursor_signing_key_bytes,
}
use go_clean_architecture.Config.Endpoint.{endpoint_uses_http, validate_exporter, validate}
use go_clean_architecture.Config.Load.{
  Env, is_set, text_keys, validate_env, read, check_explicit, load,
}
use go_clean_architecture.Config.Accepted.{IsAccepted, both_ok, validate-IsAccepted, decode-is_hex}

trimmed_production : text_eq (trim_space production) production ≡ true
unfolding trim_space is_space text_eq
trimmed_production = refl

named-in_production :
    {F : Type 0} (c : Config F) → text_eq c.app_env production ≡ true → in_production c ≡ true
named-in_production c h =
    let e : c.app_env ≡ production = text_eq→eq c.app_env production h in rw e trimmed_production

module _ {F : Type 0} (libs : Libs F) where
  -- A cursor key of 32 bytes, which is not the one of development.
  abbrev pub HasOwnKey : Config F → Type 0
  HasOwnKey c =
      ((k : Bytes) × (cursor_signing_key_bytes c ≡ ok k) × (length k ≡ 32))
      × (libs.equal_fold (trim_space c.cursor_key) development_cursor_key ≡ false)

  key-HasOwnKey : (c : Config F) → IsAccepted libs c → in_production c ≡ true → HasOwnKey c
  unfolding validate_cursor_key cursor_signing_key_bytes
  key-HasOwnKey c a prod = elim (Bool-cases (is_empty (trim_space c.cursor_key))) [
    | inl empty ↦ absurd (ground (arith, a.key, empty, prod))
    | inr there ↦ elim (Option-cases (Hex.decode (to_bytes (trim_space c.cursor_key)))) [
      | inl e ↦ absurd (ground (arith, a.key, there, e))
      | inr (d, e) ↦
          let double = (decode-is_hex (to_bytes (trim_space c.cursor_key)) d e).1 in
          let long : (size (trim_space c.cursor_key) == 64) ≡ true =
            ground (arith, a.key, there, e) in
          let half : (length d == 32) ≡ true = ground (arith, double) in
          (
            (d, rw (there, e, half) refl, ground (arith, half)),
            ground (arith, a.key, there, e, prod),
          )
    ]
  ]

  -- An exporter that does not send plain text.
  exporter-secure :
      (c : Config F)
      → IsAccepted libs c
      → in_production c ≡ true
      → (c.exporter_insecure ≡ false) × (endpoint_uses_http libs c.exporter_endpoint ≡ false)
  unfolding validate_exporter
  exporter-secure c a prod = (ground (arith, a.exporter, prod), ground (arith, a.exporter, prod))

  is_set-there :
      (env : Env) (key : Setting) → is_set env key ≡ true → (t : Text) × (env key ≡ some t)
  is_set-there env key h = elim (Option-cases (env key)) [
    | inl e ↦ absurd (ground (arith, h, e))
    | inr (t, e) ↦ (t, e)
  ]

  explicit-there :
      (env : Env) (c : Config F)
      → check_explicit libs env c ≡ ok tt
      → text_eq c.app_env production ≡ true
      → (is_set env database_url ≡ true) × (is_set env cursor_key ≡ true)
  unfolding check_explicit
  explicit-there env c h prod = (ground (arith, h, prod), ground (arith, h, prod))

  -- A configuration that is loaded has passed every check.
  load-checked :
      (env : Env) (c : Config F)
      → load libs env ≡ ok c
      → (check_explicit libs env c ≡ ok tt) × (validate libs c ≡ ok tt)
  unfolding load
  load-checked env c h =
      let loaded = (both_ok (validate_env env text_keys) _ h).1 in
      elim (Result-cases (read libs env)) [
        | inr (e, bad) ↦ absurd (ground (arith, rw bad at loaded))
        | inl (d, parsed) ↦
            let (explicit, rest) = both_ok (check_explicit libs env d) _ (rw parsed at loaded) in
            let (valid, same) = both_ok (validate libs d) _ rest in
            let e : d ≡ c = ground (arith, same) in
            subst (λ x. (check_explicit libs env x ≡ ok tt) × (validate libs x ≡ ok tt)) e
              (explicit, valid)
      ]

  -- A configuration that is loaded for production has DATABASE_URL and CURSOR_SIGNING_KEY set in the environment, a cursor key
  -- of 32 bytes that is not the one of development, and an exporter that does not use plain HTTP.
  pub load-production :
      (env : Env) (c : Config F)
      → load libs env ≡ ok c
      → text_eq c.app_env production ≡ true
      → ((u : Text) × (env database_url ≡ some u))
        × ((k : Text) × (env cursor_key ≡ some k))
        × HasOwnKey c
        × (c.exporter_insecure ≡ false)
        × (endpoint_uses_http libs c.exporter_endpoint ≡ false)
  load-production env c h prod =
      let (explicit, valid) = load-checked env c h in
      let a = validate-IsAccepted libs c valid in
      let (url, key) = explicit-there env c explicit prod in
      let named = named-in_production c prod in
      (
        is_set-there env database_url url,
        is_set-there env cursor_key key,
        key-HasOwnKey c a named,
        (exporter-secure c a named).0,
        (exporter-secure c a named).1,
      )
