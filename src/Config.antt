-- ===== src/Config.antt =====
-- config/config.go: the settings, what they are checked for, and how they are loaded. What the source takes of
-- strings, strconv, time and net/url is a record of functions, as is float64.
pub mod Endpoint
pub mod Load
pub mod Accepted
pub mod Production
use go_clean_architecture.Prelude.{
  ℕ, ℤ, pos, ltb_ℤ, Bool, true, false, not, ◌&&◌, ◌||◌, Option, none, some, List, [], ◌∷◌, ltb,
  ◌==◌, if◌then◌else◌, Bytes, codes, length, any, Result, ok, err, ◌>>=◌, ◌>>◌, fail_if,
}
use go_clean_architecture.Std.Text.{
  Text, ascii, to_bytes, trim_space, valid_string, is_control, text_eq,
}
use go_clean_architecture.Std.Hex
use go_clean_architecture.Item.HttpApi.{atoi}
use go_clean_architecture.RateLimit.{
  FloatOps, max_capacity, max_refill_rate, max_clients, max_idle_ttl,
}

-- What is read of a `url.URL`.
pub record Url : Type 0 where
  pub scheme : Text
  pub host : Text
  pub hostname : Text
  pub port : Text
  pub path : Text
  pub has_user : Bool
  pub force_query : Bool
  pub raw_query : Text
  pub fragment : Text
  pub opaque : Text

-- `strings.ToLower`, `strings.EqualFold`, `strconv.ParseBool`, `strconv.ParseFloat`, `time.ParseDuration`, `url.Parse`,
-- and the constant 0.1.
pub record Libs (F : Type 0) : Type 0 where
  pub floats : FloatOps F
  pub tenth : F
  pub to_lower : Text → Text
  pub equal_fold : Text → Text → Bool
  pub parse_bool : Text → Option Bool
  pub parse_float : Text → Option F
  pub parse_duration : Text → Option ℤ
  pub parse_url : Text → Option Url
  -- `(*URL).String`
  pub url_string : Url → Text

-- The setting that an error is about.
pub data Setting : Type 0 where
  app_env http_port log_level database_url : Setting
  metrics_enabled service_name exporter_endpoint exporter_insecure traces_sampler sampler_arg :
      Setting
  auth_enabled auth_digest : Setting
  limit_enabled limit_rate limit_burst limit_clients limit_idle_ttl : Setting
  cursor_key : Setting

pub record Config (F : Type 0) : Type 0 where
  pub app_env : Text
  pub http_port : Text
  pub log_level : Text
  pub database_url : Text
  pub metrics_enabled : Bool
  pub service_name : Text
  pub exporter_endpoint : Text
  pub exporter_insecure : Bool
  pub traces_sampler : Text
  pub sampler_arg : F
  pub auth_enabled : Bool
  pub auth_digest : Text
  pub limit_enabled : Bool
  pub limit_rate : F
  pub limit_burst : ℤ
  pub limit_clients : ℤ
  pub limit_idle_ttl : ℤ
  pub cursor_key : Text

abbrev pub max_service_name_bytes : ℕ
max_service_name_bytes = 128

abbrev pub max_sampler_bytes : ℕ
max_sampler_bytes = 64

abbrev pub max_endpoint_bytes : ℕ
max_endpoint_bytes = 2048

abbrev pub development_cursor_key : Text
development_cursor_key =
    ascii (codes "000102030405060708090a0b0c0d0e0f101112131415161718191a1b1c1d1e1f")

abbrev pub default_traces_sampler : Text
default_traces_sampler = ascii (codes "parentbased_traceidratio")

abbrev pub production : Text
production = ascii (codes "production")

abbrev pub is_empty : Text → Bool
is_empty t = length t == 0

-- `len(s)`, the bytes.
abbrev pub size : Text → ℕ
size t = length (to_bytes t)

-- `validateText`
unfoldable pub validate_text : Setting → Text → Result Setting (Unit {0})
validate_text name value = fail_if (not (valid_string value) || any is_control value) name

-- A number of a port.
unfoldable pub is_port : Text → Bool
is_port value = elim (atoi (to_bytes value)) [
  | none ↦ false
  | some n ↦ not (ltb_ℤ n (pos 1)) && not (ltb_ℤ (pos 65535) n)
]

abbrev pub in_production : {F : Type 0} → Config F → Bool
in_production c = text_eq (trim_space c.app_env) production

module _ {F : Type 0} where
  -- The text settings, and their sizes.
  unfoldable pub validate_texts : Config F → Result Setting (Unit {0})
  unfolding validate_text
  validate_texts c = do
    validate_text app_env c.app_env
    validate_text http_port c.http_port
    validate_text log_level c.log_level
    validate_text database_url c.database_url
    validate_text service_name c.service_name
    validate_text exporter_endpoint c.exporter_endpoint
    validate_text traces_sampler c.traces_sampler
    validate_text auth_digest c.auth_digest
    validate_text cursor_key c.cursor_key
    fail_if (ltb max_service_name_bytes (size c.service_name)) service_name
    fail_if (ltb max_sampler_bytes (size c.traces_sampler)) traces_sampler
    fail_if (ltb max_endpoint_bytes (size c.exporter_endpoint)) exporter_endpoint

  unfoldable pub validate_auth_digest : Config F → Result Setting (Unit {0})
  validate_auth_digest c =
      if is_empty c.auth_digest
      then ok tt
      else if not (size c.auth_digest == 64)
      then err auth_digest
      else elim (Hex.decode (to_bytes c.auth_digest)) [ none ↦ err auth_digest | some d ↦ ok tt ]

  -- `CursorSigningKeyBytes`
  unfoldable pub cursor_signing_key_bytes : Config F → Result Setting Bytes
  cursor_signing_key_bytes c =
      let value = trim_space c.cursor_key in
      if is_empty value then ok [] else elim (Hex.decode (to_bytes value)) [
        | none ↦ err cursor_key
        | some decoded ↦ if length decoded == 32 then ok decoded else err cursor_key
      ]

  -- The settings that must be there.
  unfoldable pub validate_required : Config F → Result Setting (Unit {0})
  unfolding is_port
  validate_required c = do
    fail_if (is_empty (trim_space c.database_url)) database_url
    fail_if (not (is_port (trim_space c.http_port))) http_port
    fail_if (is_empty (trim_space c.app_env)) app_env
    fail_if (is_empty (trim_space c.log_level)) log_level

module _ {F : Type 0} (libs : Libs F) where
  unfoldable pub validate_cursor_key : Config F → Result Setting (Unit {0})
  validate_cursor_key c =
      let key = trim_space c.cursor_key in
      if is_empty key
      then fail_if (in_production c) cursor_key
      else if not (size key == 64)
      then err cursor_key
      else elim (Hex.decode (to_bytes key)) [
        | none ↦ err cursor_key
        | some d ↦
            fail_if (in_production c && libs.equal_fold key development_cursor_key) cursor_key
      ]

  abbrev pub is_wild : F → Bool
  is_wild x = libs.floats.is_nan x || libs.floats.is_inf x

  unfoldable pub validate_sampler : Config F → Result Setting (Unit {0})
  validate_sampler c = do
    let sampler = trim_space c.traces_sampler
    fail_if (not (is_empty sampler) && not (text_eq sampler default_traces_sampler)) traces_sampler
    fail_if
        (is_wild c.sampler_arg
          || (libs.floats.less c.sampler_arg (libs.floats.of_nat 0)
              || libs.floats.less (libs.floats.of_nat 1) c.sampler_arg))
        sampler_arg

  -- The limits, when the limiter is enabled.
  unfoldable pub validate_limits : Config F → Result Setting (Unit {0})
  validate_limits c = do
    fail_if
        (is_wild c.limit_rate
          || (libs.floats.less_eq c.limit_rate (libs.floats.of_nat 0)
              || libs.floats.less (libs.floats.of_nat max_refill_rate) c.limit_rate))
        limit_rate
    fail_if (ltb_ℤ c.limit_burst (pos 1) || ltb_ℤ (pos max_capacity) c.limit_burst) limit_burst
    fail_if (ltb_ℤ c.limit_clients (pos 1) || ltb_ℤ (pos max_clients) c.limit_clients) limit_clients
    fail_if
        (ltb_ℤ c.limit_idle_ttl (pos 1_000_000_000) || ltb_ℤ (pos max_idle_ttl) c.limit_idle_ttl)
        limit_idle_ttl

  -- The limits, when it is not: zeros pass.
  unfoldable pub validate_unused_limits : Config F → Result Setting (Unit {0})
  validate_unused_limits c = do
    fail_if
        (is_wild c.limit_rate
          || (libs.floats.less c.limit_rate (libs.floats.of_nat 0)
              || libs.floats.less (libs.floats.of_nat max_refill_rate) c.limit_rate))
        limit_rate
    fail_if (ltb_ℤ c.limit_burst (pos 0) || ltb_ℤ (pos max_capacity) c.limit_burst) limit_burst
    fail_if (ltb_ℤ c.limit_clients (pos 0) || ltb_ℤ (pos max_clients) c.limit_clients) limit_clients
    fail_if (ltb_ℤ c.limit_idle_ttl (pos 0) || ltb_ℤ (pos max_idle_ttl) c.limit_idle_ttl)
        limit_idle_ttl
