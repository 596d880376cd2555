-- ===== src/App/Serving.antt =====
-- The HTTP server that a run makes of a configuration.
use go_clean_architecture.Prelude.{
  ◌≡◌, refl, ◌++◌, arith, codes, Option, some, inl, inr, ok, Option-cases,
}
use go_clean_architecture.Std.Text.{ascii, to_bytes, trim_space}
use go_clean_architecture.Item.HttpApi.{atoi}
use go_clean_architecture.Config.{Libs, Config, is_port, validate_required}
use go_clean_architecture.Config.Endpoint.{validate}
use go_clean_architecture.Config.Accepted.{validate-IsAccepted}
use go_clean_architecture.HttpServer.{new, apply_options, apply_option, addr_of}
use go_clean_architecture.HttpServer.Bounds.{IsBounded, new-IsBounded}
use go_clean_architecture.App.{server_options}

-- The server of a configuration that `Validate` accepts listens at the port of the configuration, never at the default one for
-- want of a number, and has positive timeouts and the default bound on headers.
pub new-listens :
    {F H : Type 0} (libs : Libs F) (c : Config F) (not_found : H) (handler : Option H)
    → validate libs c ≡ ok tt
    → (addr_of (some (new not_found handler (server_options c)))
        ≡ ascii (codes ":") ++ trim_space c.http_port)
      × IsBounded (new not_found handler (server_options c))
unfolding new apply_options apply_option addr_of is_port validate_required
new-listens libs c not_found handler h =
    let a = validate-IsAccepted libs c h in
    (
      elim (Option-cases (atoi (to_bytes (trim_space c.http_port)))) [
        | inl e ↦ absurd (ground (arith, a.required, e))
        | inr (n, e) ↦ rw (apply_option, e) refl
      ],
      new-IsBounded not_found handler (server_options c),
    )
