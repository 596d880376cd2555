-- ===== src/Telemetry/Shutdown.antt =====
-- The one shutdown of a provider.
use go_clean_architecture.Prelude.{◌≡◌, refl, Option, some, inl, inr, Option-cases}
use go_clean_architecture.Item.Errors.{Error}
use go_clean_architecture.Item.Context.{Context}
use go_clean_architecture.Telemetry.{Provider, shutdown}

-- A second call of Shutdown answers what the first has answered, whatever the SDK would answer now, and changes
-- nothing.
shutdown-shutdown :
    (stop stop' : Context → Option Error) (ctx ctx' : Context) (p : Provider)
    → shutdown stop' (some ctx') ((shutdown stop (some ctx) (some p)).1)
      ≡ shutdown stop (some ctx) (some p)
unfolding shutdown
shutdown-shutdown stop stop' ctx ctx' p = elim (Option-cases p.shutdown_err) [
  | inl fresh ↦ rw fresh refl
  | inr (e, done) ↦ rw (done, done) refl
]
