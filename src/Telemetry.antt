-- ===== src/Telemetry.antt =====
-- pkg/telemetry/telemetry.go: the checks of the exporter's settings, and the life of a provider. The tracing SDK is a
-- record of functions.
pub mod Endpoints
pub mod Agreement
pub mod Shutdown
use go_clean_architecture.Prelude.{
  ℕ, Bool, true, false, not, ◌&&◌, ◌||◌, Option, none, some, List, [], ◌∷◌, ◌++◌, ltb, ◌==◌,
  if◌then◌else◌, codes, length, any, Result, ok, err, ◌>>=◌, ◌>>◌, fail_if, of_option, map_err,
}
use go_clean_architecture.Std.Text.{
  Text, ascii, trim_space, valid_string, is_control, is_space, text_eq,
}
use go_clean_architecture.Item.Errors.{Error}
use go_clean_architecture.Item.Context.{Context}
use go_clean_architecture.Config.{Libs, Url, is_empty, size, is_wild, max_endpoint_bytes}
use go_clean_architecture.Config.Endpoint.{
  has_prefix, contains, scheme_mark, http, https, is_malformed, is_bad_port,
}

pub record TelemetryConfig (F : Type 0) : Type 0 where
  pub endpoint : Text
  pub insecure : Bool
  pub service_name : Text
  pub environment : Text
  pub sample_ratio : F

-- `normalizedConfig`
pub record Normalized (F : Type 0) : Type 0 where
  pub service_name : Text
  pub environment : Text
  pub sample_ratio : F
  pub endpoint_url : Text

pub data TelemetryError : Type 0 where
  nil_context bad_service_name bad_environment bad_ratio bad_endpoint : TelemetryError
  nil_factory nil_exporter : TelemetryError
  -- an error of the SDK
  of_sdk : Error → TelemetryError

abbrev pub default_service_name : Text
default_service_name = ascii (codes "unknown_service")

abbrev pub default_trace_path : Text
default_trace_path = ascii (codes "/v1/traces")

abbrev pub max_service_name_bytes : ℕ
max_service_name_bytes = 128

abbrev pub max_environment_bytes : ℕ
max_environment_bytes = 128

-- `validateText`
unfoldable pub validate_text : TelemetryError → Text → Result TelemetryError (Unit {0})
validate_text e value = fail_if (not (valid_string value) || any is_control value) e

abbrev pub slash : Text
slash = ascii (codes "/")

-- The default path of an endpoint without one.
abbrev pub with_path : Url → Url
with_path u =
    if is_empty u.path || text_eq u.path slash then record u { path = default_trace_path } else u

module _ {F : Type 0} (libs : Libs F) where
  -- The URL of an endpoint, with or without a scheme.
  unfoldable pub parse_endpoint : Text → Bool → Result TelemetryError Url
  unfolding contains
  parse_endpoint raw insecure =
      if contains raw scheme_mark
      then (do
        u ← of_option (libs.parse_url raw) bad_endpoint
        let scheme = libs.to_lower u.scheme
        fail_if (not (text_eq scheme http) && not (text_eq scheme https)) bad_endpoint
        fail_if (if text_eq scheme http then not insecure else insecure) bad_endpoint
        ok (record u { scheme = scheme }))
      else (do
        u ← of_option (libs.parse_url (https ++ (scheme_mark ++ raw))) bad_endpoint
        ok (if insecure then record u { scheme = http } else u))

  -- `normalizeEndpoint`
  unfoldable pub normalize_endpoint : Text → Bool → Result TelemetryError Text
  unfolding parse_endpoint is_malformed is_bad_port
  normalize_endpoint value insecure =
      let raw = trim_space value in
      if ltb max_endpoint_bytes (size raw)
      then err bad_endpoint
      else if is_empty raw
      then ok []
      else if any is_space raw
      then err bad_endpoint
      else do
        u ← parse_endpoint raw insecure
        fail_if (is_malformed u) bad_endpoint
        fail_if (is_bad_port u) bad_endpoint
        fail_if (not (has_prefix (with_path u).path slash)) bad_endpoint
        ok (libs.url_string (with_path u))

  abbrev pub name_of : TelemetryConfig F → Text
  name_of c =
      let name = trim_space c.service_name in if is_empty name then default_service_name else name

  -- `normalizeConfig`
  unfoldable pub normalize_config : TelemetryConfig F → Result TelemetryError (Normalized F)
  unfolding validate_text normalize_endpoint
  normalize_config c = do
    validate_text bad_service_name (name_of c)
    fail_if (ltb max_service_name_bytes (size (name_of c))) bad_service_name
    let environment = trim_space c.environment
    validate_text bad_environment environment
    fail_if (ltb max_environment_bytes (size environment)) bad_environment
    fail_if
        (is_wild libs c.sample_ratio
          || (libs.floats.less c.sample_ratio (libs.floats.of_nat 0)
              || libs.floats.less (libs.floats.of_nat 1) c.sample_ratio))
        bad_ratio
    url ← normalize_endpoint c.endpoint c.insecure
    ok (record {
      service_name = name_of c;
      environment = environment;
      sample_ratio = c.sample_ratio;
      endpoint_url = url;
    })

  -- `Config.Validate`
  unfoldable pub validate : TelemetryConfig F → Result TelemetryError (Unit {0})
  unfolding normalize_config
  validate c = do _ ← normalize_config c; ok tt

-- What the SDK does: the resource of the attributes, and the exporter of a URL, which may be nil.
pub record Sdk : Type 0 where
  pub new_resource : List (Text × Text) → Option Error
  pub make_exporter : Option (Text → Result Error Bool)

-- `Provider`, without the SDK's own state: its resource, whether it exports, and the result of the one
-- shutdown, once it has run.
pub record Provider : Type 0 where
  pub resource : List (Text × Text)
  pub exporter_enabled : Bool
  pub shutdown_err : Option (Option Error)

abbrev pub attributes : {F : Type 0} → Normalized F → List (Text × Text)
attributes n =
    (ascii (codes "service.name"), n.service_name)
    ∷ (if is_empty n.environment
        then []
        else (ascii (codes "deployment.environment.name"), n.environment) ∷ [])

-- The exporter's part of `newProvider`.
unfoldable pub enable_exporter : Sdk → Text → Result TelemetryError Bool
enable_exporter sdk url = if is_empty url then ok false else elim sdk.make_exporter [
  | none ↦ err nil_factory
  | some make ↦ do there ← map_err of_sdk (make url); fail_if (not there) nil_exporter; ok true
]

-- `newProvider`, `New` and `NewProvider`; a nil context is `none`.
unfoldable pub new_provider :
    {F : Type 0}
    → Libs F
    → Sdk
    → Option Context
    → TelemetryConfig F
    → Result TelemetryError Provider
unfolding normalize_config enable_exporter
new_provider libs sdk none c = err nil_context
new_provider libs sdk (some ctx) c = do
  n ← normalize_config libs c
  elim (sdk.new_resource (attributes n)) [ none ↦ ok tt | some e ↦ err (of_sdk e) ]
  enabled ← enable_exporter sdk n.endpoint_url
  ok (record { resource = attributes n; exporter_enabled = enabled; shutdown_err = none })

-- `ExporterEnabled`
unfoldable pub exporter_enabled : Option Provider → Bool
exporter_enabled none = false
exporter_enabled (some p) = p.exporter_enabled

-- `ForceFlush`; `flush` is what the SDK's provider answers.
unfoldable pub force_flush :
    (Context → Option Error) → Option Context → Option Provider → Option TelemetryError
force_flush flush none p = some nil_context
force_flush flush (some ctx) none = none
force_flush flush (some ctx) (some p) = elim (flush ctx) [ none ↦ none | some e ↦ some (of_sdk e) ]

abbrev pub sdk_error : Option Error → Option TelemetryError
sdk_error none = none
sdk_error (some e) = some (of_sdk e)

-- `Shutdown`: the answer, and the provider after `shutdownOnce`. `stop` is what the SDK's provider answers.
unfoldable pub shutdown :
    (Context → Option Error)
    → Option Context
    → Option Provider
    → Option TelemetryError × Option Provider
shutdown stop ctx none = (none, none)
shutdown stop none (some p) = (some nil_context, some p)
shutdown stop (some ctx) (some p) = elim p.shutdown_err [
  | some e ↦ (sdk_error e, some p)
  | none ↦ (sdk_error (stop ctx), some (record p { shutdown_err = some (stop ctx) }))
]
