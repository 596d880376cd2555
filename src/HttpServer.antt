-- ===== src/HttpServer.antt =====
-- pkg/httpserver/server.go and options.go: the settings and the life of a server. net/http and net are outside: a handler
-- is a value of any type, a listener is its address, durations are nanoseconds.
pub mod Bounds
use go_clean_architecture.Prelude.{
  ℕ, ℤ, pos, ltb_ℤ, Bool, true, false, not, Option, none, some, List, [], ◌∷◌, ◌++◌, if◌then◌else◌,
  codes,
}
use go_clean_architecture.Std.Text.{Text, ascii, to_bytes, trim_space}
use go_clean_architecture.Item.Errors.{Error}
use go_clean_architecture.Item.Context.{Context}
use go_clean_architecture.Item.HttpApi.{atoi}

abbrev pub default_read_timeout : ℤ
default_read_timeout = pos 10_000_000_000

abbrev pub default_write_timeout : ℤ
default_write_timeout = pos 15_000_000_000

abbrev pub default_idle_timeout : ℤ
default_idle_timeout = pos 60_000_000_000

abbrev pub default_shutdown_timeout : ℤ
default_shutdown_timeout = pos 10_000_000_000

abbrev pub default_max_header_bytes : ℕ
default_max_header_bytes = 1_048_576

abbrev pub default_addr : Text
default_addr = ascii (codes ":80")

-- `Server`, with the settings of its `http.Server`, and whether `startOnce` has run.
pub record Server (H : Type 0) : Type 0 where
  pub handler : H
  pub read_timeout : ℤ
  pub read_header_timeout : ℤ
  pub write_timeout : ℤ
  pub idle_timeout : ℤ
  pub max_header_bytes : ℕ
  pub addr : Text
  pub shutdown_timeout : ℤ
  pub listener : Option Text
  pub is_started : Bool

-- The options of options.go.
pub data ServerOption : Type 0 where
  with_listener : Option Text → ServerOption
  with_port : Text → ServerOption
  with_read_timeout with_write_timeout with_idle_timeout with_shutdown_timeout : ℤ → ServerOption

abbrev pub is_positive : ℤ → Bool
is_positive d = ltb_ℤ (pos 0) d

module _ {H : Type 0} where
  -- `Listener`, `Port`, `ReadTimeout`, `WriteTimeout`, `IdleTimeout` and `ShutdownTimeout`.
  unfoldable pub apply_option : ServerOption → Server H → Server H
  apply_option (with_listener none) s = s
  apply_option (with_listener (some l)) s = record s { listener = some l }
  apply_option (with_port port) s =
      let trimmed = trim_space port in
      elim (atoi (to_bytes trimmed)) [
        | none ↦ s
        | some n ↦ record s { addr = ascii (codes ":") ++ trimmed }
      ]
  apply_option (with_read_timeout d) s =
      if is_positive d then record s { read_timeout = d; read_header_timeout = d } else s
  apply_option (with_write_timeout d) s =
      if is_positive d then record s { write_timeout = d } else s
  apply_option (with_idle_timeout d) s = if is_positive d then record s { idle_timeout = d } else s
  apply_option (with_shutdown_timeout d) s =
      if is_positive d then record s { shutdown_timeout = d } else s

  -- The loop of `New`; a nil option is `none`.
  unfoldable pub apply_options : List (Option ServerOption) → Server H → Server H
  unfolding apply_option
  apply_options [] s = s
  apply_options (none ∷ opts) s = apply_options opts s
  apply_options (some o ∷ opts) s = apply_options opts (apply_option o s)

  -- `New`; without a handler there is the one that finds nothing.
  unfoldable pub new : H → Option H → List (Option ServerOption) → Server H
  unfolding apply_options
  new not_found handler opts = apply_options opts (record {
    handler = elim handler [ none ↦ not_found | some h ↦ h ];
    read_timeout = default_read_timeout;
    read_header_timeout = default_read_timeout;
    write_timeout = default_write_timeout;
    idle_timeout = default_idle_timeout;
    max_header_bytes = default_max_header_bytes;
    addr = default_addr;
    shutdown_timeout = default_shutdown_timeout;
    listener = none;
    is_started = false;
  })

  -- `Start`, and whether it begins to serve; a nil server is `none`.
  unfoldable pub start : Option (Server H) → Option (Server H) × Bool
  start none = (none, false)
  start (some s) =
      if s.is_started then (some s, false) else (some (record s { is_started = true }), true)

  -- `ShutdownContext`, by the answer of net/http; a nil context is `none`.
  unfoldable pub shutdown_context :
      Error → (Context → Option Error) → Option Context → Option (Server H) → Option Error
  shutdown_context no_context stop ctx none = none
  shutdown_context no_context stop none (some s) = some no_context
  shutdown_context no_context stop (some ctx) (some s) = stop ctx

  -- The timeout of `Shutdown`.
  unfoldable pub timeout_of : Server H → ℤ
  timeout_of s =
      if is_positive s.shutdown_timeout then s.shutdown_timeout else default_shutdown_timeout

  -- `Shutdown`; `with_timeout` is `context.WithTimeout` of the background.
  unfoldable pub shutdown :
      Error → (ℤ → Context) → (Context → Option Error) → Option (Server H) → Option Error
  unfolding shutdown_context timeout_of
  shutdown no_context with_timeout stop none = none
  shutdown no_context with_timeout stop (some s) =
      shutdown_context no_context stop (some (with_timeout (timeout_of s))) (some s)

  -- `Addr`
  unfoldable pub addr_of : Option (Server H) → Text
  addr_of none = []
  addr_of (some s) = elim s.listener [ none ↦ s.addr | some l ↦ l ]
