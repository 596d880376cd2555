-- ===== src/Config/Load.antt =====
-- `load` of config/config.go: the environment, the defaults, and what production may not leave out.
use go_clean_architecture.Prelude.{
  ℤ, pos, Bool, true, false, not, ◌&&◌, Option, none, some, List, [], ◌∷◌, codes, Result, ok, ◌>>=◌,
  ◌>>◌, fail_if, of_option,
}
use go_clean_architecture.Std.Text.{Text, ascii, to_bytes, trim_space, text_eq}
use go_clean_architecture.Item.HttpApi.{atoi}
use go_clean_architecture.Config.{
  Libs, Config, Setting, app_env, http_port, log_level, database_url, metrics_enabled, service_name,
  exporter_endpoint, exporter_insecure, traces_sampler, sampler_arg, auth_enabled, auth_digest,
  limit_enabled, limit_rate, limit_burst, limit_clients, limit_idle_ttl, cursor_key,
  development_cursor_key, default_traces_sampler, production, is_empty, validate_text,
}
use go_clean_architecture.Config.Endpoint.{validate}

-- `os.LookupEnv`, by the setting that a variable holds.
abbrev pub Env : Type 0
Env = Setting → Option Text

abbrev pub default_app_env : Text
default_app_env = ascii (codes "development")

abbrev pub default_http_port : Text
default_http_port = ascii (codes "8080")

abbrev pub default_log_level : Text
default_log_level = ascii (codes "info")

abbrev pub default_database_url : Text
default_database_url = ascii (codes "postgres://localhost:5432/app?sslmode=disable")

abbrev pub default_service_name : Text
default_service_name = ascii (codes "github.com/AJackTi/go-clean-architecture")

-- 10 minutes, in nanoseconds.
abbrev pub default_idle_ttl : ℤ
default_idle_ttl = pos 600_000_000_000

-- `valueOrDefault`
unfoldable pub value_or_default : Env → Setting → Text → Text
value_or_default env key fallback = elim (env key) [ none ↦ fallback | some value ↦ value ]

-- `boolValueOrDefault`, `floatValueOrDefault`, `intValueOrDefault` and `durationValueOrDefault`, by the parser.
unfoldable pub parsed_or_default :
    {A : Type 0} → (Text → Option A) → Env → Setting → A → Result Setting A
unfolding validate_text
parsed_or_default parse env key fallback = elim (env key) [
  | none ↦ ok fallback
  | some value ↦ do validate_text key value; of_option (parse (trim_space value)) key
]

-- `strconv.Atoi` of a text.
abbrev pub atoi_text : Text → Option ℤ
atoi_text value = atoi (to_bytes value)

-- The first loop of `load`.
unfoldable pub validate_env : Env → List Setting → Result Setting (Unit {0})
unfolding validate_text
validate_env env [] = ok tt
validate_env env (key ∷ keys) =
    let rest = validate_env env keys in
    elim (env key) [ none ↦ rest | some value ↦ do validate_text key value; rest ]

abbrev pub text_keys : List Setting
text_keys =
    app_env ∷ http_port ∷ log_level ∷ database_url ∷ service_name ∷ exporter_endpoint
    ∷ traces_sampler ∷ auth_digest ∷ limit_idle_ttl ∷ cursor_key ∷ []

abbrev pub is_set : Env → Setting → Bool
is_set env key = elim (env key) [ none ↦ false | some value ↦ true ]

abbrev pub trimmed : Env → Setting → Text → Text
trimmed env key fallback = trim_space (value_or_default env key fallback)

module _ {F : Type 0} (libs : Libs F) where
  -- The settings, with the numbers that have been parsed.
  unfoldable pub assemble : Env → Bool → Bool → F → Bool → Bool → F → ℤ → ℤ → ℤ → Config F
  unfolding value_or_default
  assemble env metrics insecure ratio auth limits rate burst clients ttl = record {
    app_env = trimmed env app_env default_app_env;
    http_port = trimmed env http_port default_http_port;
    log_level = trimmed env log_level default_log_level;
    database_url = trimmed env database_url default_database_url;
    metrics_enabled = metrics;
    service_name = trimmed env service_name default_service_name;
    exporter_endpoint = trimmed env exporter_endpoint [];
    exporter_insecure = insecure;
    traces_sampler = trimmed env traces_sampler default_traces_sampler;
    sampler_arg = ratio;
    auth_enabled = auth;
    auth_digest = libs.to_lower (trimmed env auth_digest []);
    limit_enabled = limits;
    limit_rate = rate;
    limit_burst = burst;
    limit_clients = clients;
    limit_idle_ttl = ttl;
    cursor_key = libs.to_lower (trimmed env cursor_key []);
  }

  -- The checks behind the assembly, but for `Validate`.
  unfoldable pub check_explicit : Env → Config F → Result Setting (Unit {0})
  check_explicit env c = do
    let in_production = text_eq c.app_env production
    fail_if (in_production && not (is_set env database_url)) database_url
    fail_if (in_production && not (is_set env cursor_key)) cursor_key
    fail_if (in_production && text_eq c.cursor_key development_cursor_key) cursor_key
    fail_if (is_set env cursor_key && is_empty c.cursor_key) cursor_key
    fail_if (is_set env service_name && is_empty c.service_name) service_name
    fail_if (is_set env traces_sampler && is_empty c.traces_sampler) traces_sampler

  -- The settings that are parsed, in the order of the source.
  unfoldable pub read : Env → Result Setting (Config F)
  unfolding assemble parsed_or_default
  read env = do
    metrics ← parsed_or_default libs.parse_bool env metrics_enabled false
    insecure ← parsed_or_default libs.parse_bool env exporter_insecure false
    ratio ← parsed_or_default libs.parse_float env sampler_arg libs.tenth
    auth ← parsed_or_default libs.parse_bool env auth_enabled false
    limits ← parsed_or_default libs.parse_bool env limit_enabled false
    rate ← parsed_or_default libs.parse_float env limit_rate (libs.floats.of_nat 10)
    burst ← parsed_or_default atoi_text env limit_burst (pos 20)
    clients ← parsed_or_default atoi_text env limit_clients (pos 10000)
    ttl ← parsed_or_default libs.parse_duration env limit_idle_ttl default_idle_ttl
    ok (assemble env metrics insecure ratio auth limits rate burst clients ttl)

  -- `load`, and `Load` and `NewConfig` on the process's environment.
  unfoldable pub load : Env → Result Setting (Config F)
  unfolding validate_env read check_explicit validate
  load env = do
    validate_env env text_keys
    c ← read env
    check_explicit env c
    validate libs c
    ok c
