-- ===== src/Telemetry/Endpoints.antt =====
-- The endpoints that config/config.go and pkg/telemetry/telemetry.go accept.
use go_clean_architecture.Prelude.{
  ◌≡◌, refl, Bool, true, false, not, ◌&&◌, ◌||◌, inl, inr, some, [], ◌++◌, arith, ltb,
  if◌then◌else◌, any, ok, Bool-cases, Option-cases,
}
use go_clean_architecture.Std.Text.{Text, trim_space, is_space, text_eq}
use go_clean_architecture.Config.{Libs, Url, is_empty, size}
use go_clean_architecture.Config.Endpoint.{
  contains, has_prefix, scheme_mark, http, https, is_malformed, is_bad_port, validate_url,
  validate_otlp_endpoint,
}
use go_clean_architecture.Config.Accepted.{both_ok, passed}
use go_clean_architecture.Telemetry.{slash, with_path, parse_endpoint, normalize_endpoint}

-- Of `url.Parse`: the path of a URL with a host is empty or starts with a slash.
pub record HasPaths {F : Type 0} (libs : Libs F) : Type 0 where
  pub rooted :
      (t : Text) (u : Url)
      → libs.parse_url t ≡ some u
      → is_empty u.host ≡ false
      → (is_empty u.path || has_prefix u.path slash) ≡ true

-- The path does not depend on the scheme.
schemed-path :
    (u : Url) (s : Text)
    → has_prefix (with_path u).path slash ≡ true
    → has_prefix (with_path (record u { scheme = s })).path slash ≡ true
schemed-path u s h = elim (Bool-cases (is_empty u.path || text_eq u.path slash)) [
  | inl bare ↦ rw bare (rw bare at h)
  | inr given ↦ rw given (rw given at h)
]

host-there : (u : Url) → is_malformed u ≡ false → is_empty u.host ≡ false
unfolding is_malformed
host-there u h = ground (arith, h)

-- An endpoint without a path gets one that starts with a slash.
path-rooted :
    (u : Url)
    → (is_empty u.path || has_prefix u.path slash) ≡ true
    → has_prefix (with_path u).path slash ≡ true
unfolding text_eq
path-rooted u h = elim (Bool-cases (is_empty u.path || text_eq u.path slash)) [
  | inl bare ↦ rw bare refl
  | inr given ↦ rw given (ground arith)
]

module _ {F : Type 0} (libs : Libs F) (paths : HasPaths libs) where
  -- A parsed endpoint that both packages accept.
  url-accepted :
      (t : Text) (u : Url) (b insecure : Bool)
      → libs.parse_url t ≡ some u
      → validate_url libs b insecure u ≡ ok tt
      → (is_malformed u ≡ false)
        × (is_bad_port u ≡ false)
        × (has_prefix (with_path u).path slash ≡ true)
  unfolding validate_url
  url-accepted t u b insecure parsed h =
      let (scheme, h1) = both_ok _ _ h in
      let (whole, h2) = both_ok _ _ h1 in
      let (port, agrees) = both_ok _ _ h2 in
      let formed = passed _ _ whole in
      let hosted : is_empty u.host ≡ false = host-there u formed in
      (formed, passed _ _ port, path-rooted u (paths.rooted t u parsed hosted))

  scheme-accepted :
      (u : Url) (insecure : Bool)
      → validate_url libs true insecure u ≡ ok tt
      → ((not (text_eq (libs.to_lower u.scheme) http)
            && not (text_eq (libs.to_lower u.scheme) https))
          ≡ false)
        × ((if text_eq (libs.to_lower u.scheme) http then not insecure else insecure) ≡ false)
  unfolding validate_url
  scheme-accepted u insecure h =
      let (scheme, h1) = both_ok _ _ h in
      let (whole, h2) = both_ok _ _ h1 in
      let (port, agrees) = both_ok _ _ h2 in (passed _ _ scheme, passed _ _ agrees)

  schemed-endpoint :
      (raw : Text) (u : Url) (insecure : Bool)
      → contains raw scheme_mark ≡ true
      → libs.parse_url raw ≡ some u
      → validate_url libs true insecure u ≡ ok tt
      → parse_endpoint libs raw insecure ≡ ok (record u { scheme = libs.to_lower u.scheme })
  unfolding parse_endpoint
  schemed-endpoint raw u insecure b parsed h =
      let (known, agrees) = scheme-accepted u insecure h in rw (b, parsed, known, agrees) refl

  bare-endpoint :
      (raw : Text) (u : Url) (insecure : Bool)
      → contains raw scheme_mark ≡ false
      → libs.parse_url (https ++ (scheme_mark ++ raw)) ≡ some u
      → parse_endpoint libs raw insecure ≡ ok (if insecure then record u { scheme = http } else u)
  unfolding parse_endpoint
  bare-endpoint raw u insecure b parsed = rw (b, parsed) refl

  -- The rest of `normalizeEndpoint`, on a URL with other letters in its scheme.
  endpoint-finished :
      (value : Text) (v : Url) (insecure : Bool)
      → ltb 2048 (size (trim_space value)) ≡ false
      → is_empty (trim_space value) ≡ false
      → any is_space (trim_space value) ≡ false
      → parse_endpoint libs (trim_space value) insecure ≡ ok v
      → (is_malformed v ≡ false)
        × (is_bad_port v ≡ false)
        × (has_prefix (with_path v).path slash ≡ true)
      → (t : Text) × (normalize_endpoint libs value insecure ≡ ok t)
  unfolding normalize_endpoint
  endpoint-finished value v insecure short there plain parsed (formed, port, rooted) =
      (libs.url_string (with_path v), rw (short, there, plain, parsed, formed, port, rooted) refl)

  bare-accepted :
      (u : Url) (insecure : Bool)
      → (is_malformed u ≡ false)
        × (is_bad_port u ≡ false)
        × (has_prefix (with_path u).path slash ≡ true)
      → let v = if insecure then record u { scheme = http } else u in
        (is_malformed v ≡ false)
        × (is_bad_port v ≡ false)
        × (has_prefix (with_path v).path slash ≡ true)
  unfolding is_malformed is_bad_port
  bare-accepted u true (formed, port, rooted) = (formed, port, schemed-path u http rooted)
  bare-accepted u false h = h

  pub endpoint-accepted :
      (value : Text) (insecure : Bool)
      → ltb 2048 (size (trim_space value)) ≡ false
      → validate_otlp_endpoint libs value insecure ≡ ok tt
      → (t : Text) × (normalize_endpoint libs value insecure ≡ ok t)
  unfolding validate_otlp_endpoint validate_url normalize_endpoint is_malformed is_bad_port
  endpoint-accepted value insecure short h =
      let raw = trim_space value in
      elim (Bool-cases (is_empty raw)) [
        | inl empty ↦ ([], rw (short, empty) refl)
        | inr there ↦ elim (Bool-cases (any is_space raw)) [
          | inl spaced ↦ absurd (ground (arith, h, there, spaced))
          | inr plain ↦ elim (Bool-cases (contains raw scheme_mark)) [
            | inl b ↦ elim (Option-cases (libs.parse_url raw)) [
              | inl e ↦ absurd (ground (arith, h, there, plain, b, e))
              | inr (u, e) ↦
                  let checked : validate_url libs true insecure u ≡ ok tt =
                    rw (validate_otlp_endpoint, there, plain, b, e) at h in
                  let (formed, port, rooted) = url-accepted raw u true insecure e checked in
                  endpoint-finished value (record u { scheme = libs.to_lower u.scheme }) insecure
                    short there plain (schemed-endpoint raw u insecure b e checked)
                    (formed, port, schemed-path u (libs.to_lower u.scheme) rooted)
            ]
            | inr b ↦ elim (Option-cases (libs.parse_url (https ++ (scheme_mark ++ raw)))) [
              | inl e ↦ absurd (ground (arith, h, there, plain, b, e))
              | inr (u, e) ↦
                  let checked : validate_url libs false insecure u ≡ ok tt =
                    rw (validate_otlp_endpoint, there, plain, b, e) at h in
                  endpoint-finished value (if insecure then record u { scheme = http } else u)
                    insecure short there plain (bare-endpoint raw u insecure b e)
                    (bare-accepted u insecure
                      (url-accepted (https ++ (scheme_mark ++ raw)) u false insecure e checked))
            ]
          ]
        ]
      ]
