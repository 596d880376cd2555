-- ===== src/HttpServer/Bounds.antt =====
-- No option makes a server wait without end.
use go_clean_architecture.Prelude.{
  ◌≡◌, refl, true, inl, inr, Option, none, some, List, [], ◌∷◌, Bool-cases, Option-cases,
}
use go_clean_architecture.Std.Text.{to_bytes, trim_space}
use go_clean_architecture.Item.HttpApi.{atoi}
use go_clean_architecture.HttpServer.{
  Server, ServerOption, with_listener, with_port, with_read_timeout, with_write_timeout,
  with_idle_timeout, with_shutdown_timeout, is_positive, apply_option, apply_options, new,
  default_max_header_bytes,
}

-- Every phase of a request has an end, and so has a shutdown.
abbrev pub IsBounded : {H : Type 0} → Server H → Type 0
IsBounded s =
    (is_positive s.read_timeout ≡ true)
    × (is_positive s.read_header_timeout ≡ true)
    × (is_positive s.write_timeout ≡ true)
    × (is_positive s.idle_timeout ≡ true)
    × (is_positive s.shutdown_timeout ≡ true)
    × (s.max_header_bytes ≡ default_max_header_bytes)

module _ {H : Type 0} where
  apply_option-IsBounded :
      (o : ServerOption) (s : Server H) → IsBounded s → IsBounded (apply_option o s)
  unfolding apply_option
  apply_option-IsBounded (with_listener none) s h = h
  apply_option-IsBounded (with_listener (some l)) s h = h
  apply_option-IsBounded (with_port port) s h =
      elim (Option-cases (atoi (to_bytes (trim_space port)))) [
        | inl e ↦ rw (apply_option, e) h
        | inr (n, e) ↦ rw (apply_option, e) h
      ]
  apply_option-IsBounded (with_read_timeout d) s h = elim (Bool-cases (is_positive d)) [
    | inl e ↦ rw (apply_option, e) (e, e, h.2, h.3, h.4, h.5)
    | inr e ↦ rw (apply_option, e) h
  ]
  apply_option-IsBounded (with_write_timeout d) s h = elim (Bool-cases (is_positive d)) [
    | inl e ↦ rw (apply_option, e) (h.0, h.1, e, h.3, h.4, h.5)
    | inr e ↦ rw (apply_option, e) h
  ]
  apply_option-IsBounded (with_idle_timeout d) s h = elim (Bool-cases (is_positive d)) [
    | inl e ↦ rw (apply_option, e) (h.0, h.1, h.2, e, h.4, h.5)
    | inr e ↦ rw (apply_option, e) h
  ]
  apply_option-IsBounded (with_shutdown_timeout d) s h = elim (Bool-cases (is_positive d)) [
    | inl e ↦ rw (apply_option, e) (h.0, h.1, h.2, h.3, e, h.5)
    | inr e ↦ rw (apply_option, e) h
  ]

  apply_options-IsBounded :
      (opts : List (Option ServerOption)) (s : Server H)
      → IsBounded s
      → IsBounded (apply_options opts s)
  unfolding apply_options
  apply_options-IsBounded [] s h = h
  apply_options-IsBounded (none ∷ opts) s h = apply_options-IsBounded opts s h
  apply_options-IsBounded (some o ∷ opts) s h =
      apply_options-IsBounded opts (apply_option o s) (apply_option-IsBounded o s h)

-- Whatever its options are, a new server has positive timeouts for the reading of headers and of requests, for writing,
-- for idle connections and for its shutdown, and the default bound on headers.
pub new-IsBounded :
    {H : Type 0} (not_found : H) (handler : Option H) (opts : List (Option ServerOption))
    → IsBounded (new not_found handler opts)
unfolding new
new-IsBounded not_found handler opts =
    apply_options-IsBounded opts _ (refl, refl, refl, refl, refl, refl)
