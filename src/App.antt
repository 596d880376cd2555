-- ===== src/App.antt =====
-- internal/app/app.go: the parts that are made of a configuration, and the life of a run. What a run makes of
-- other packages (the tracing SDK, the database pool, net/http) answers as a record says.
pub mod Startup
pub mod Lifecycle
pub mod Serving
use go_clean_architecture.Prelude.{
  ℕ, pos, Bool, true, false, not, ◌&&◌, Option, none, some, List, [], ◌∷◌, ◌++◌, ltb, if◌then◌else◌,
  Bytes, codes, length, Result, ok, err, ◌>>=◌, map_err,
}
use go_clean_architecture.Std.Text.{Text, ascii}
use go_clean_architecture.Item.Errors.{Error}
use go_clean_architecture.Item.Context.{Context, Clock}
use go_clean_architecture.Item.Cursor.{
  Sha256, SignedCursorCodec, with_cursor_purpose, new_signed_cursor_codec,
}
use go_clean_architecture.Auth.{AuthError, BearerSha256, new_bearer_sha256}
use go_clean_architecture.RateLimit
use go_clean_architecture.RateLimit.{ConfigError, Limiter, reject_new}
use go_clean_architecture.Config.{Libs, Config, Setting, cursor_signing_key_bytes}
use go_clean_architecture.Config.Endpoint.{validate}
use go_clean_architecture.Telemetry.{Sdk, Provider, TelemetryError, new_provider, shutdown}
use go_clean_architecture.Telemetry.Agreement.{telemetry_config}
use go_clean_architecture.HttpServer.{
  ServerOption, with_port, with_read_timeout, with_write_timeout, with_shutdown_timeout,
}

-- The errors of `RunContext`, by their message.
pub data AppError : Type 0 where
  nil_context nil_config : AppError
  bad_config bad_key : Setting → AppError
  bad_codec create_pool readiness serving http_shutdown : Error → AppError
  bad_telemetry telemetry_shutdown : TelemetryError → AppError
  bad_digest : AuthError → AppError
  bad_limiter : ConfigError → AppError
  join : AppError → AppError → AppError

-- A terminal error of the HTTP server: whether it is `http.ErrServerClosed`.
pub record Served : Type 0 where
  pub is_closed : Bool
  pub error : Error

-- What a run meets: of `wait`, `none` is the end of the context, `some` what `Notify` yields.
pub record World : Type 0 where
  pub sdk : Sdk
  pub stop_tracing : Context → Option Error
  pub shutdown_context : Context
  pub new_pool : Text → Option Error
  pub ping : Option Error
  pub wait : Option (Option Served)
  pub shutdown_server : Option Served

-- What a run does, in order.
pub data Event : Type 0 where
  tracing_made tracing_shut pool_made pool_closed server_started server_shut : Event

-- The purpose of the application's cursors.
abbrev pub app_purpose : Text
app_purpose = ascii (codes "items:list:created_at_desc_id_desc:v1")

-- The error of a step, if any, and what has been done.
abbrev pub Outcome : Type 0
Outcome = Option AppError × List Event

-- `NewCursorCodec` for a key that is there.
unfoldable pub codec_of_key : Sha256 → Clock → Bytes → Result AppError (Option SignedCursorCodec)
codec_of_key sha time_now key =
    if ltb 0 (length key)
    then (do
      codec ←
          map_err bad_codec
            (new_signed_cursor_codec sha time_now key (some (with_cursor_purpose app_purpose) ∷ []))
      ok (some codec))
    else ok none

module _ {F : Type 0} where
  unfoldable pub cursor_codec :
      Sha256 → Clock → Config F → Result AppError (Option SignedCursorCodec)
  unfolding codec_of_key
  cursor_codec sha time_now c = do
    key ← map_err bad_key (cursor_signing_key_bytes c)
    codec_of_key sha time_now key

  unfoldable pub authenticator : Config F → Result AppError (Option BearerSha256)
  authenticator c =
      if c.auth_enabled
      then (do verifier ← map_err bad_digest (new_bearer_sha256 c.auth_digest); ok (some verifier))
      else ok none

  abbrev pub limiter_config : Config F → RateLimit.Config F
  limiter_config c = record {
    capacity = c.limit_burst;
    refill_rate = c.limit_rate;
    max_clients = c.limit_clients;
    idle_ttl = c.limit_idle_ttl;
    overflow = reject_new;
  }

  unfoldable pub limiter : Libs F → Config F → Result AppError (Option (Limiter F))
  limiter libs c =
      if c.limit_enabled
      then (do
        made ← map_err bad_limiter (RateLimit.new libs.floats (limiter_config c))
        ok (some made))
      else ok none

-- The options of the HTTP server.
abbrev pub server_options : {F : Type 0} → Config F → List (Option ServerOption)
server_options c =
    some (with_port c.http_port)
    ∷ some (with_read_timeout (pos 10_000_000_000))
    ∷ some (with_write_timeout (pos 15_000_000_000))
    ∷ some (with_shutdown_timeout (pos 10_000_000_000))
    ∷ []

-- A terminal error that is not the normal one.
abbrev pub abnormal : (Error → AppError) → Option Served → Option AppError
abnormal kind none = none
abnormal kind (some s) = if s.is_closed then none else some (kind s.error)

-- What the `select` has seen of the server.
abbrev pub serve_error : Option (Option Served) → Option AppError
serve_error none = none
serve_error (some answer) = abnormal serving answer

-- From `server.Start` on.
unfoldable pub serve : World → Outcome
serve w = (
  elim (abnormal http_shutdown w.shutdown_server) [ some e ↦ some e | none ↦ serve_error w.wait ],
  server_started ∷ server_shut ∷ [],
)

module _ {F : Type 0} (libs : Libs F) where
  -- From `pool.Ping` on: the pool is there.
  unfoldable pub run_pooled : World → Config F → Outcome
  unfolding serve authenticator limiter
  run_pooled w c = elim w.ping [
    | some e ↦ (some (readiness e), [])
    | none ↦ elim (authenticator c) [
      | err e ↦ (some e, [])
      | ok auth ↦ elim (limiter libs c) [ err e ↦ (some e, []) | ok limit ↦ serve w ]
    ]
  ]

  -- From `pgxpool.New` on, with the deferred `pool.Close`.
  unfoldable pub run_traced : World → Config F → Outcome
  unfolding run_pooled
  run_traced w c = elim (w.new_pool c.database_url) [
    | some e ↦ (some (create_pool e), [])
    | none ↦
        let (answer, events) = run_pooled w c in
        (answer, pool_made ∷ (events ++ (pool_closed ∷ [])))
  ]

  -- The deferred shutdown of the tracing provider.
  unfoldable pub stop_tracing : World → Provider → Option AppError → Option AppError
  unfolding shutdown
  stop_tracing w p answer = elim ((shutdown w.stop_tracing (some w.shutdown_context) (some p)).0) [
    | none ↦ answer
    | some e ↦ elim answer [
      | none ↦ some (telemetry_shutdown e)
      | some first ↦ some (join first (telemetry_shutdown e))
    ]
  ]

  -- The checks before anything is made that is to be released.
  unfoldable pub prepare :
      Sha256
      → Clock
      → World
      → Context
      → Config F
      → Result AppError (Option SignedCursorCodec × Provider)
  unfolding validate cursor_codec new_provider
  prepare sha time_now w ctx c = do
    _ ← map_err bad_config (validate libs c)
    codec ← cursor_codec sha time_now c
    provider ← map_err bad_telemetry (new_provider libs w.sdk (some ctx) (telemetry_config c))
    ok (codec, provider)

  -- `RunContext`; a nil context or configuration is `none`.
  unfoldable pub run_context : Sha256 → Clock → World → Option Context → Option (Config F) → Outcome
  unfolding prepare run_traced stop_tracing
  run_context sha time_now w none c = (some nil_context, [])
  run_context sha time_now w (some ctx) none = (some nil_config, [])
  run_context sha time_now w (some ctx) (some c) = elim (prepare sha time_now w ctx c) [
    | err e ↦ (some e, [])
    | ok (codec, provider) ↦
        let (answer, events) = run_traced w c in
        (stop_tracing w provider answer, tracing_made ∷ (events ++ (tracing_shut ∷ [])))
  ]
