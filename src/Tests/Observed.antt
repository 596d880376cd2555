-- ===== src/Tests/Observed.antt =====
-- A request with an identifier of its own, and the event of it.
use go_clean_architecture.Prelude.{
  ◌≤◌, ◌≡◌, refl, pos, Option, none, some, [], ◌∷◌, arith, Bytes, codes, length, replicate,
}
use go_clean_architecture.Observability.{Request, Written, observability_middleware}
use go_clean_architecture.Observability.Laws.{IsClean, IsLeveled, observability_middleware_lem}

abbrev request : Request
request = record { method = codes "GET"; request_ids = codes "req-7" ∷ []; span = none }

abbrev next : Option Bytes → Written
next id = record { status = pos 503; size = pos 20; full_path = []; elapsed = 9 }

abbrev fresh : Bytes
fresh = replicate 36 b'a'

fresh-IsClean : IsClean fresh
fresh-IsClean = (omega arith, omega arith, refl)

observability_middleware_lem_example :
    let (header, written, event) = observability_middleware fresh next (some request) in
    IsClean header
    × (event.request_id ≡ header)
    × (written ≡ next (some header))
    × IsLeveled event
    × (1 ≤ event.status)
    × (1 ≤ length event.route)
observability_middleware_lem_example =
    observability_middleware_lem fresh next (some request) fresh-IsClean
