-- ===== src/App/Lifecycle.antt =====
-- The order in which a run makes and releases what it uses.
use go_clean_architecture.Prelude.{
  ◌≡◌, refl, Bool, false, inl, inr, Option, none, some, List, [], ◌∷◌, ◌++◌, ltb, ok, Option-cases,
  Result-cases,
}
use go_clean_architecture.Std.Text.{Text, trim_space}
use go_clean_architecture.Item.Context.{Context, Clock}
use go_clean_architecture.Item.Cursor.{Sha256}
use go_clean_architecture.Config.{Libs, Config, size}
use go_clean_architecture.Config.Endpoint.{validate}
use go_clean_architecture.Telemetry.{new_provider, enable_exporter, shutdown, attributes}
use go_clean_architecture.Telemetry.Endpoints.{HasPaths}
use go_clean_architecture.Telemetry.Agreement.{validate-normalize_config}
use go_clean_architecture.App.{
  World, Event, tracing_made, tracing_shut, pool_made, pool_closed, server_started, server_shut,
  authenticator, limiter, serve, run_pooled, run_traced, stop_tracing, prepare, run_context,
}
use go_clean_architecture.App.Startup.{validate-starts}

-- The traces of a server, of a pool and of a run: what is made last is released first.
pub data IsServerTrace : List Event → Type 0 where
  unserved : IsServerTrace []
  served : IsServerTrace (server_started ∷ server_shut ∷ [])

pub data IsPoolTrace : List Event → Type 0 where
  unpooled : IsPoolTrace []
  pooled :
      {events : List Event}
      → IsServerTrace events
      → IsPoolTrace (pool_made ∷ (events ++ (pool_closed ∷ [])))

pub data IsTrace : List Event → Type 0 where
  untraced : IsTrace []
  traced :
      {events : List Event}
      → IsPoolTrace events
      → IsTrace (tracing_made ∷ (events ++ (tracing_shut ∷ [])))

module _ {F : Type 0} (libs : Libs F) where
  run_pooled-IsServerTrace : (w : World) (c : Config F) → IsServerTrace ((run_pooled libs w c).1)
  unfolding run_pooled serve
  run_pooled-IsServerTrace w c = elim (Option-cases w.ping) [
    | inr (e, down) ↦ rw (run_pooled, down) unserved
    | inl up ↦ elim (Result-cases (authenticator c)) [
      | inr (e, bad) ↦ rw (run_pooled, up, bad) unserved
      | inl (v, made) ↦ elim (Result-cases (limiter libs c)) [
        | inr (e, bad) ↦ rw (run_pooled, up, made, bad) unserved
        | inl (l, limits) ↦ rw (run_pooled, up, made, limits) served
      ]
    ]
  ]

  run_traced-IsPoolTrace : (w : World) (c : Config F) → IsPoolTrace ((run_traced libs w c).1)
  unfolding run_traced
  run_traced-IsPoolTrace w c = elim (Option-cases (w.new_pool c.database_url)) [
    | inr (e, down) ↦ rw (run_traced, down) unpooled
    | inl up ↦ rw (run_traced, up) (pooled (run_pooled-IsServerTrace w c))
  ]

  -- On every path, with or without an error, a run releases the tracing provider, the pool and the server exactly
  -- once each if it has made them, in the reverse order, and the server only while the pool is there.
  pub run_context-IsTrace :
      (sha : Sha256) (time_now : Clock) (w : World) (ctx : Option Context) (c : Option (Config F))
      → IsTrace ((run_context libs sha time_now w ctx c).1)
  unfolding run_context
  run_context-IsTrace sha time_now w none c = untraced
  run_context-IsTrace sha time_now w (some ctx) none = untraced
  run_context-IsTrace sha time_now w (some ctx) (some c) =
      elim (Result-cases (prepare libs sha time_now w ctx c)) [
        | inr (e, bad) ↦ rw (run_context, bad) untraced
        | inl (parts, made) ↦ rw (run_context, made) (traced (run_traced-IsPoolTrace w c))
      ]

-- A world in which nothing fails, and which ends the run by its context.
pub record IsQuiet (w : World) (database_url : Text) : Type 0 where
  pub resource : (attrs : List (Text × Text)) → w.sdk.new_resource attrs ≡ none
  pub exporter : (url : Text) → (b : Bool) × (enable_exporter w.sdk url ≡ ok b)
  pub stops : w.stop_tracing w.shutdown_context ≡ none
  pub pool : w.new_pool database_url ≡ none
  pub ping : w.ping ≡ none
  pub ends : w.wait ≡ none
  pub closes : w.shutdown_server ≡ none

run_traced-quiet :
    {F : Type 0} (libs : Libs F) (sha : Sha256) (time_now : Clock) (w : World) (c : Config F)
    → validate libs c ≡ ok tt
    → IsQuiet w c.database_url
    → run_traced libs w c ≡ (none, pool_made ∷ server_started ∷ server_shut ∷ pool_closed ∷ [])
unfolding run_traced run_pooled serve
run_traced-quiet libs sha time_now w c h q =
    let (codec, (auth, verifier, _), (limit, limits, _)) = validate-starts libs sha time_now c h in
    let pooled : run_pooled libs w c ≡ (none, server_started ∷ server_shut ∷ []) =
      rw (run_pooled, q.ping, verifier, limits, q.closes, q.ends) refl in
    rw (run_traced, q.pool, pooled) refl

-- Where `url.Parse` roots paths and nothing outside fails, a run with an accepted configuration whose APP_ENV has at most 128
-- bytes starts its server, and ends without an error once its context does.
pub run_context-serves :
    {F : Type 0} (libs : Libs F) (sha : Sha256) (time_now : Clock) (w : World) (ctx : Context)
    (c : Config F)
    → HasPaths libs
    → validate libs c ≡ ok tt
    → ltb 128 (size (trim_space c.app_env)) ≡ false
    → IsQuiet w c.database_url
    → run_context libs sha time_now w (some ctx) (some c) ≡ (
      none,
      tracing_made ∷ pool_made ∷ server_started ∷ server_shut ∷ pool_closed ∷ tracing_shut ∷ [],
    )
unfolding run_context prepare new_provider stop_tracing shutdown
run_context-serves libs sha time_now w ctx c paths h short q =
    let (codec, made, _) = (validate-starts libs sha time_now c h).0 in
    let (n, normal) = validate-normalize_config libs c paths h short in
    let (b, enabled) = q.exporter n.endpoint_url in
    let ran = run_traced-quiet libs sha time_now w c h q in
    rw
      (
        run_context,
        h,
        made,
        normal,
        q.resource (attributes n),
        enabled,
        ran,
        stop_tracing,
        q.stops,
        ran,
      )
      refl
