-- ===== src/Telemetry/Agreement.antt =====
-- The checks of config/config.go and of pkg/telemetry/telemetry.go side by side.
use go_clean_architecture.Prelude.{
  ◌≡◌, refl, Bool, true, false, not, ◌&&◌, ◌||◌, inl, inr, arith, ltb, any, ok, Bool-cases,
}
use go_clean_architecture.Std.Text.{
  Text, trim_space, to_bytes, encode_rune, valid_string, is_control, is_point, all-trim_space,
  any-trim_space, length-trim_space,
}
use go_clean_architecture.Config.{
  Libs, Config, is_empty, size, is_wild, validate_texts, validate_text, validate_sampler,
}
use go_clean_architecture.Config.Endpoint.{validate_otlp_endpoint, validate_exporter, validate}
use go_clean_architecture.Config.Accepted.{IsAccepted, both_ok, validate-IsAccepted}
use go_clean_architecture.Telemetry
use go_clean_architecture.Telemetry.{
  TelemetryConfig, TelemetryError, Normalized, default_service_name, slash, with_path, name_of,
  parse_endpoint, normalize_endpoint, normalize_config,
}
use go_clean_architecture.Telemetry.Endpoints.{HasPaths, endpoint-accepted}

-- The telemetry settings of a configuration, as internal/app/app.go takes them.
abbrev pub telemetry_config : {F : Type 0} → Config F → TelemetryConfig F
telemetry_config c = record {
  endpoint = c.exporter_endpoint;
  insecure = c.exporter_insecure;
  service_name = c.service_name;
  environment = c.app_env;
  sample_ratio = c.sampler_arg;
}

-- A text that passes.
abbrev pub is_clean : Text → Bool
is_clean t = valid_string t && not (any is_control t)

clean-text : (t : Text) → is_clean t ≡ true → (not (valid_string t) || any is_control t) ≡ false
clean-text t h = ground arith

trim_space-is_clean : (t : Text) → is_clean t ≡ true → is_clean (trim_space t) ≡ true
unfolding valid_string
trim_space-is_clean t h = ground (arith, all-trim_space is_point t, any-trim_space is_control t)

default-is_clean :
    (is_clean default_service_name ≡ true) × (ltb 128 (size default_service_name) ≡ false)
unfolding valid_string is_control to_bytes encode_rune
default-is_clean = (refl, refl)

module _ {F : Type 0} (libs : Libs F) (paths : HasPaths libs) (c : Config F)
    (a : IsAccepted libs c) where
  texts-is_clean :
      (is_clean c.app_env ≡ true)
      × (is_clean c.service_name ≡ true)
      × (ltb 128 (size c.service_name) ≡ false)
      × (ltb 2048 (size c.exporter_endpoint) ≡ false)
  unfolding validate_texts validate_text
  texts-is_clean = (
    ground (arith, a.texts),
    ground (arith, a.texts),
    ground (arith, a.texts),
    ground (arith, a.texts),
  )

  name-is_clean :
      (is_clean (name_of libs (telemetry_config c)) ≡ true)
      × (ltb 128 (size (name_of libs (telemetry_config c))) ≡ false)
  name-is_clean = elim (Bool-cases (is_empty (trim_space c.service_name))) [
    | inl empty ↦ rw empty default-is_clean
    | inr there ↦ rw there (
      trim_space-is_clean c.service_name texts-is_clean.1,
      ground (arith, length-trim_space c.service_name, texts-is_clean.2),
    )
  ]

  ratio-accepted :
      (is_wild libs c.sampler_arg
        || (libs.floats.less c.sampler_arg (libs.floats.of_nat 0)
            || libs.floats.less (libs.floats.of_nat 1) c.sampler_arg))
      ≡ false
  unfolding validate_sampler
  ratio-accepted = ground (arith, a.sampler)

  exporter-accepted : validate_otlp_endpoint libs c.exporter_endpoint c.exporter_insecure ≡ ok tt
  unfolding validate_exporter
  exporter-accepted = (both_ok _ _ a.exporter).0

  config-accepted :
      ltb 128 (size (trim_space c.app_env)) ≡ false
      → (n : Normalized F) × (normalize_config libs (telemetry_config c) ≡ ok n)
  unfolding normalize_config Telemetry.validate_text
  config-accepted short =
      let (name, name_short) = name-is_clean in
      let environment = trim_space-is_clean c.app_env texts-is_clean.0 in
      let endpoint_short : ltb 2048 (size (trim_space c.exporter_endpoint)) ≡ false =
        ground (arith, length-trim_space c.exporter_endpoint, texts-is_clean.3) in
      let (url, normal) =
        endpoint-accepted libs paths c.exporter_endpoint c.exporter_insecure endpoint_short
          exporter-accepted in
      let n : Normalized F = record {
        service_name = name_of libs (telemetry_config c);
        environment = trim_space c.app_env;
        sample_ratio = c.sampler_arg;
        endpoint_url = url;
      } in
      (
        n,
        rw (clean-text _ name, name_short, clean-text _ environment, short, ratio-accepted, normal)
            refl,
      )

-- Where `url.Parse` roots the path of a URL with a host, a configuration that `Config.Validate` accepts is also accepted by
-- the telemetry package, if its APP_ENV has at most 128 bytes without the spaces around it.
pub validate-normalize_config :
    {F : Type 0} (libs : Libs F) (c : Config F)
    → HasPaths libs
    → validate libs c ≡ ok tt
    → ltb 128 (size (trim_space c.app_env)) ≡ false
    → (n : Normalized F) × (normalize_config libs (telemetry_config c) ≡ ok n)
validate-normalize_config libs c paths h short =
    config-accepted libs paths c (validate-IsAccepted libs c h) short
