-- ===== src/Tests/Configured.antt =====
-- The environment of a deployment in production, and a library of URLs that knows one collector.
use go_clean_architecture.Prelude.{ℕ, pos, ◌≡◌, refl, true, false, none, some, [], codes, ok, arith}
use go_clean_architecture.Std.Text.{
  Text, ascii, to_bytes, encode_rune, trim_space, valid_string, is_control, is_space, text_eq,
}
use go_clean_architecture.Std.Hex
use go_clean_architecture.Item.HttpApi.{atoi}
use go_clean_architecture.Config.{
  Libs, Url, Config, app_env, database_url, cursor_key, exporter_endpoint, auth_enabled,
  auth_digest, limit_enabled, default_traces_sampler, production, validate_text, is_port,
  validate_texts, validate_auth_digest, validate_required, validate_cursor_key, validate_sampler,
  validate_limits, validate_unused_limits,
}
use go_clean_architecture.Config.Endpoint.{
  contains, is_malformed, is_bad_port, validate_url, validate_otlp_endpoint, endpoint_uses_http,
  validate_exporter, validate, https,
}
use go_clean_architecture.Config.Load.{
  Env, default_http_port, default_log_level, default_service_name, default_idle_ttl,
  value_or_default, parsed_or_default, validate_env, check_explicit, assemble, read, load,
}
use go_clean_architecture.Config.Production.{HasOwnKey, load-production}
use go_clean_architecture.Telemetry.{Normalized, normalize_config}
use go_clean_architecture.Telemetry.Endpoints.{HasPaths}
use go_clean_architecture.Telemetry.Agreement.{telemetry_config, validate-normalize_config}
use go_clean_architecture.Tests.Limits.{fl}

program : Unit {0}
unfolding to_bytes encode_rune trim_space valid_string is_control is_space text_eq Hex.decode atoi
    validate_text is_port validate_texts validate_auth_digest validate_required validate_cursor_key
    validate_sampler validate_limits validate_unused_limits contains is_malformed is_bad_port
    validate_url validate_otlp_endpoint endpoint_uses_http validate_exporter validate
    value_or_default parsed_or_default validate_env check_explicit assemble read load
program = tt

abbrev pub collector : Url
collector = record {
  scheme = https;
  host = ascii (codes "collector:4318");
  hostname = ascii (codes "collector");
  port = ascii (codes "4318");
  path = [];
  has_user = false;
  force_query = false;
  raw_query = [];
  fragment = [];
  opaque = [];
}

abbrev pub libs : Libs ℕ
libs = record {
  floats = fl;
  tenth = 0;
  to_lower = λ t. t;
  equal_fold = text_eq;
  parse_bool = λ t. some (text_eq t (ascii (codes "true")));
  parse_float = λ t. none;
  parse_duration = λ t. none;
  parse_url = λ t. some collector;
  url_string = λ u. u.host;
}

pub libs-HasPaths : HasPaths libs
libs-HasPaths = record { rooted = λ t u e h. ground arith }

abbrev pub own_key : Text
own_key = ascii (codes "a1a2a3a4a5a6a7a8a1a2a3a4a5a6a7a8a1a2a3a4a5a6a7a8a1a2a3a4a5a6a7a8")

abbrev pub own_url : Text
own_url = ascii (codes "postgres://db/app")

abbrev pub own_endpoint : Text
own_endpoint = ascii (codes "https://collector:4318")

abbrev pub env : Env
env app_env = some production
env database_url = some own_url
env cursor_key = some own_key
env exporter_endpoint = some own_endpoint
env auth_enabled = some (ascii (codes "true"))
env auth_digest = some own_key
env limit_enabled = some (ascii (codes "true"))
env _ = none

-- What is loaded.
abbrev pub config : Config ℕ
config = record {
  app_env = production;
  http_port = default_http_port;
  log_level = default_log_level;
  database_url = own_url;
  metrics_enabled = false;
  service_name = default_service_name;
  exporter_endpoint = own_endpoint;
  exporter_insecure = false;
  traces_sampler = default_traces_sampler;
  sampler_arg = 0;
  auth_enabled = true;
  auth_digest = own_key;
  limit_enabled = true;
  limit_rate = 10;
  limit_burst = pos 20;
  limit_clients = pos 10000;
  limit_idle_ttl = default_idle_ttl;
  cursor_key = own_key;
}

pub config-valid : validate libs config ≡ ok tt
unfolding program
config-valid = refl

load_production_env : load libs env ≡ ok config
unfolding program
load_production_env = refl

load-production_example :
    ((u : Text) × (env database_url ≡ some u))
    × ((k : Text) × (env cursor_key ≡ some k))
    × HasOwnKey libs config
    × (config.exporter_insecure ≡ false)
    × (endpoint_uses_http libs config.exporter_endpoint ≡ false)
unfolding program
load-production_example = load-production libs env config load_production_env refl

validate-normalize_config_example :
    (n : Normalized ℕ) × (normalize_config libs (telemetry_config config) ≡ ok n)
unfolding program
validate-normalize_config_example =
    validate-normalize_config libs config libs-HasPaths config-valid refl
