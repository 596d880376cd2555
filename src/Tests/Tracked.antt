-- ===== src/Tests/Tracked.antt =====
-- A request that completes twice.
use go_clean_architecture.Prelude.{
  pos, negsuc, ◌≤◌, ◌≡◌, refl, false, [], ◌∷◌, codes, length, ltb_ℤ,
}
use go_clean_architecture.Std.Text.{Text, ascii}
use go_clean_architecture.Metrics.Routes.{IsLabel}
use go_clean_architecture.Metrics.Tracking.{supported_methods, other_method, observe}
use go_clean_architecture.Metrics.Tracking.Open.{
  tracks, completes, run, idle, Counts, run-Counts, IsOneOf, classes, observe-bounded,
}

abbrev pub same : Text → Text
same t = t

abbrev pub get : Text
get = ascii (codes "GET")

abbrev pub items_route : Text
items_route = ascii (codes "/api/items")

run-Counts_example : Counts (
    run same
      (tracks get items_route ∷ tracks get items_route ∷ completes 0 ∷ completes 0 ∷ [])
      idle)
run-Counts_example =
    run-Counts same
      (tracks get items_route ∷ tracks get items_route ∷ completes 0 ∷ completes 0 ∷ []) idle
      (λ l. refl)

observe-bounded_example :
    let o = observe same get items_route (pos 404) (negsuc 3) in
    IsOneOf (other_method ∷ supported_methods) o.method
    × IsLabel o.route
    × IsOneOf classes o.class
    × (length o.code ≤ 7)
    × (ltb_ℤ o.duration (pos 0) ≡ false)
observe-bounded_example = observe-bounded same get items_route (pos 404) (negsuc 3)
