-- ===== src/Tests/Started.antt =====
-- A run of the application in which nothing fails, and one whose tracing does.
use go_clean_architecture.Prelude.{
  ℕ, ◌≡◌, ◌≢◌, ◌⊎◌, refl, inl, inr, true, false, Bool-cases, Option, none, some, [], ◌∷◌, ◌++◌,
  codes, ok,
}
use go_clean_architecture.Std.Text.{
  ascii, to_bytes, encode_rune, trim_space, valid_string, is_control, is_space, text_eq,
}
use go_clean_architecture.Item.Errors.{Error, sentinel, store_unavailable}
use go_clean_architecture.Item.Cursor.{SignedCursorCodec}
use go_clean_architecture.Auth.{BearerSha256}
use go_clean_architecture.RateLimit.{Limiter}
use go_clean_architecture.Config.{in_production, is_empty}
use go_clean_architecture.Telemetry.{Sdk, enable_exporter, shutdown}
use go_clean_architecture.App.{
  World, tracing_made, tracing_shut, pool_made, pool_closed, server_started, server_shut,
  cursor_codec, authenticator, limiter, run_context,
}
use go_clean_architecture.App.{server_options}
use go_clean_architecture.App.Serving.{new-listens}
use go_clean_architecture.HttpServer.{new, addr_of}
use go_clean_architecture.HttpServer.Bounds.{IsBounded}
use go_clean_architecture.App.Startup.{limiter_of, validate-starts}
use go_clean_architecture.App.Lifecycle.{IsTrace, IsQuiet, run_context-IsTrace, run_context-serves}
use go_clean_architecture.Tests.{sha, clock, ctx}
use go_clean_architecture.Tests.Configured.{libs, config, libs-HasPaths, config-valid}

program : Unit {0}
unfolding to_bytes encode_rune trim_space valid_string is_control is_space text_eq enable_exporter
    shutdown
program = tt

abbrev pub sdk : Sdk
sdk = record { new_resource = λ attrs. none; make_exporter = some (λ url. ok true) }

abbrev pub world : World
world = record {
  sdk = sdk;
  stop_tracing = λ m. none;
  shutdown_context = ctx;
  new_pool = λ url. none;
  ping = none;
  wait = none;
  shutdown_server = none;
}

abbrev pub failure : Error
failure = sentinel store_unavailable

world-IsQuiet : IsQuiet world config.database_url
unfolding enable_exporter
world-IsQuiet = record {
  resource = λ attrs. refl;
  exporter = λ url. elim (Bool-cases (is_empty url)) [
    | inl empty ↦ (false, rw empty refl)
    | inr there ↦ (true, rw there refl)
  ];
  stops = refl;
  pool = refl;
  ping = refl;
  ends = refl;
  closes = refl;
}

validate-starts_example :
    ((o : Option SignedCursorCodec) × (cursor_codec sha clock config ≡ ok o)
      × ((in_production config ≡ false) ⊎ (o ≢ none)))
    × ((v : Option BearerSha256) × (authenticator config ≡ ok v)
        × ((config.auth_enabled ≡ false) ⊎ (v ≢ none)))
    × ((l : Option (Limiter ℕ)) × (limiter libs config ≡ ok l)
        × ((config.limit_enabled ≡ false) ⊎ (l ≡ some (limiter_of config))))
validate-starts_example = validate-starts libs sha clock config config-valid

run_context-IsTrace_example :
    IsTrace (
      (run_context libs sha clock
        (record world { ping = some failure })
        (some ctx)
        (some config)).1)
run_context-IsTrace_example =
    run_context-IsTrace libs sha clock (record world { ping = some failure }) (some ctx)
      (some config)

run_context-serves_example : run_context libs sha clock world (some ctx) (some config) ≡ (
  none,
  tracing_made ∷ pool_made ∷ server_started ∷ server_shut ∷ pool_closed ∷ tracing_shut ∷ [],
)
unfolding program
run_context-serves_example =
    run_context-serves libs sha clock world ctx config libs-HasPaths config-valid refl world-IsQuiet

new-listens_example :
    (addr_of {H = ℕ} (some (new 0 (some 1) (server_options config)))
      ≡ ascii (codes ":") ++ trim_space config.http_port)
    × IsBounded {H = ℕ} (new 0 (some 1) (server_options config))
new-listens_example = new-listens libs config 0 (some 1) config-valid
