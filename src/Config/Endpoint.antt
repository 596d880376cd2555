-- ===== src/Config/Endpoint.antt =====
-- The OTLP endpoint of config/config.go, and `Config.Validate`.
use go_clean_architecture.Prelude.{
  Bool, not, ◌&&◌, ◌||◌, [], ◌∷◌, ◌++◌, codes, length, take, any, if◌then◌else◌, Result, ok, err,
  ◌>>=◌, ◌>>◌, fail_if, of_option,
}
use go_clean_architecture.Std.Text.{Text, ascii, trim_space, text_eq, is_space}
use go_clean_architecture.Config.{
  Libs, Url, Config, Setting, exporter_endpoint, exporter_insecure, auth_digest, is_empty, is_port,
  in_production, validate_texts, validate_auth_digest, validate_cursor_key, validate_required,
  validate_sampler, validate_limits, validate_unused_limits,
}

-- `strings.HasPrefix` and `strings.Contains`, of a text of ASCII.
abbrev pub has_prefix : Text → Text → Bool
has_prefix t prefix = text_eq (take (length prefix) t) prefix

unfoldable pub contains : Text → Text → Bool
contains [] mark = is_empty mark
contains (r ∷ rs) mark = has_prefix (r ∷ rs) mark || contains rs mark

abbrev pub http : Text
http = ascii (codes "http")

abbrev pub https : Text
https = ascii (codes "https")

abbrev pub scheme_mark : Text
scheme_mark = ascii (codes "://")

-- The parts of a URL that an endpoint may not have, or must have.
unfoldable pub is_malformed : Url → Bool
is_malformed u =
    is_empty u.host
    || (is_empty u.hostname
        || (u.has_user
            || (u.force_query
                || (not (is_empty u.raw_query)
                    || (not (is_empty u.fragment) || not (is_empty u.opaque))))))

-- A port may be left out.
unfoldable pub is_bad_port : Url → Bool
unfolding is_port
is_bad_port u = not (is_empty u.port) && not (is_port u.port)

module _ {F : Type 0} (libs : Libs F) where
  -- The checks of a parsed endpoint.
  unfoldable pub validate_url : Bool → Bool → Url → Result Setting (Unit {0})
  unfolding is_malformed is_bad_port
  validate_url has_scheme insecure u = do
    let scheme = libs.to_lower u.scheme
    fail_if (not (text_eq scheme http) && not (text_eq scheme https)) exporter_endpoint
    fail_if (is_malformed u) exporter_endpoint
    fail_if (is_bad_port u) exporter_endpoint
    fail_if (has_scheme && (if text_eq scheme http then not insecure else insecure))
        exporter_endpoint

  -- `validateOTLPEndpoint`
  unfoldable pub validate_otlp_endpoint : Text → Bool → Result Setting (Unit {0})
  unfolding validate_url contains
  validate_otlp_endpoint value insecure =
      let raw = trim_space value in
      let has_scheme = contains raw scheme_mark in
      if is_empty raw then ok tt else if any is_space raw then err exporter_endpoint else do
        u ←
            of_option (libs.parse_url (if has_scheme then raw else https ++ (scheme_mark ++ raw)))
              exporter_endpoint
        validate_url has_scheme insecure u

  -- `endpointUsesHTTP`
  unfoldable pub endpoint_uses_http : Text → Bool
  endpoint_uses_http value = has_prefix (libs.to_lower (trim_space value)) (http ++ scheme_mark)

  -- What production asks of the exporter.
  unfoldable pub validate_exporter : Config F → Result Setting (Unit {0})
  unfolding validate_otlp_endpoint endpoint_uses_http
  validate_exporter c = do
    validate_otlp_endpoint c.exporter_endpoint c.exporter_insecure
    fail_if (in_production c && c.exporter_insecure) exporter_insecure
    fail_if (in_production c && endpoint_uses_http c.exporter_endpoint) exporter_endpoint

  -- `Config.Validate`
  unfoldable pub validate : Config F → Result Setting (Unit {0})
  unfolding validate_texts validate_auth_digest validate_cursor_key validate_required
      validate_sampler validate_exporter validate_limits validate_unused_limits
  validate c = do
    validate_texts c
    validate_auth_digest c
    validate_cursor_key libs c
    validate_required c
    validate_sampler libs c
    validate_exporter c
    fail_if (c.auth_enabled && is_empty c.auth_digest) auth_digest
    (if c.limit_enabled then validate_limits libs c else validate_unused_limits libs c)
