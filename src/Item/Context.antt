-- ===== src/Item/Context.antt =====
-- `context.Context` and the clocks, as the item packages read them. What a request observes of the
-- world outside (its context's state, the time) depends on the moment of the observation.
use go_clean_architecture.Prelude.{ℕ, ◌≡◌, Option, none, some, Result, ok, err, codes}
use go_clean_architecture.Std.Time.{Time}
use go_clean_architecture.Std.Text.{Text}
use go_clean_architecture.Item.Errors.{Error, validation}

-- A context: `ctx.Err()` at each moment, and the value stored under `idempotencyScopeKey`.
pub record Context : Type 0 where
  pub error_at : ℕ → Option Error
  pub scope : Option Text

-- `func() time.Time`: the time at each moment.
abbrev pub Clock : Type 0
Clock = ℕ → Time

abbrev pub of_error : Option Error → Result Error (Unit {0})
of_error none = ok tt
of_error (some e) = err e

-- `contextError`; a nil context is `none`.
abbrev pub context_error : Option Context → ℕ → Result Error (Unit {0})
context_error none m = err (validation (codes "context") (codes "must not be nil"))
context_error (some ctx) m = of_error (ctx.error_at m)

-- A context that is never cancelled, such as `context.Background()`.
pub record IsLive (ctx : Context) : Type 0 where
  pub alive : (m : ℕ) → ctx.error_at m ≡ none
