-- ===== src/Tests/Labels.antt =====
-- The labels of routes.
use go_clean_architecture.Prelude.{◌≡◌, refl, codes, bytes_eq}
use go_clean_architecture.Std.Text.{ascii, trim_space, to_bytes, valid_string}
use go_clean_architecture.Item.Idempotency.{one_of, is_alphanumeric}
use go_clean_architecture.Item.HttpApi.Creating.{trim_slashes}
use go_clean_architecture.Metrics.{
  unknown_route, split, join, valid_placeholder, valid_literal, looks_like_raw_segment,
  without_brace, normalize_segment, normalize_segments, label_of, normalize_path, normalize_route,
  has_empty_segment,
}
use go_clean_architecture.Metrics.Routes.{IsLabel, normalize_route-IsLabel}

program : Unit {0}
unfolding normalize_route normalize_path label_of normalize_segments normalize_segment without_brace
    looks_like_raw_segment valid_literal valid_placeholder split join has_empty_segment trim_slashes
    one_of is_alphanumeric trim_space to_bytes valid_string bytes_eq
program = tt

-- A placeholder in braces is written as the router writes it.
pattern_label : normalize_route (ascii (codes " /api/items/{id}/ ")) ≡ codes "/api/items/:id"
unfolding program
pattern_label = refl

raw_label : normalize_route (ascii (codes "/api/items/42")) ≡ unknown_route
unfolding program
raw_label = refl

query_label : normalize_route (ascii (codes "/api/items\r")) ≡ codes "/api/items"
unfolding program
query_label = refl

normalize_route-IsLabel_example : IsLabel (normalize_route (ascii (codes "/api/items/{id}")))
normalize_route-IsLabel_example = normalize_route-IsLabel (ascii (codes "/api/items/{id}"))
