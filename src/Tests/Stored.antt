-- ===== src/Tests/Stored.antt =====
-- The store over a database, run on a database of two tables.
use go_clean_architecture.Prelude.{
  arith, ◌≡◌, refl, pos, true, false, none, some, List, [], Option, Bytes, replicate, take, drop,
  Result, ok, err, ◌>>=◌,
}
use go_clean_architecture.Dict.{Entry, lookup, insert, values}
use go_clean_architecture.Item.Errors.{sentinel, not_found, conflict}
use go_clean_architecture.Item.Model.{Item}
use go_clean_architecture.Item.Ports.{CursorListParams}
use go_clean_architecture.Memory
use go_clean_architecture.Memory.{newer, sort_slice}
use go_clean_architecture.Postgres
use go_clean_architecture.Postgres.{DbError, Rows, Querier}
use go_clean_architecture.Postgres.Writes.{Stored, Transactions, create_idempotent}
use go_clean_architecture.Postgres.Commits.{Fate, create_idempotent-Fate}
use go_clean_architecture.Postgres.Refinement.{
  IsServed, rows_of, where_behind, utc_all, list-refines, list_after-refines,
}
use go_clean_architecture.Tests.{sha, uuids, ctx, live, item_of, newest, two_items}
use go_clean_architecture.Tests.Creates.{key}
use go_clean_architecture.Tests.Listing.{items-Distinct}

abbrev Tables : Type 0
Tables = List (Entry Item) × List (Entry Stored)

abbrev missing : DbError
missing = record { error = sentinel not_found; no_rows = true; unique_violation = false }

abbrev taken : DbError
taken = record { error = sentinel conflict; no_rows = false; unique_violation = true }

abbrev found {ℓ} : {A : Type ℓ} → Option A → Result DbError A
found none = err missing
found (some v) = ok v

abbrev inserted {ℓ} : {V : Type ℓ} → Bytes → V → List (Entry V) → Result DbError V × List (Entry V)
inserted k v m = elim (lookup k m) [ some _ ↦ (err taken, m) | none ↦ (ok v, insert k v m) ]

abbrev queries : Querier Tables
queries = record {
  insert_item = λ m v d. let (r, rows) = inserted v.id v d.0 in (r, (rows, d.1));
  select_item = λ m id d. found (lookup id d.0);
  select_page = λ m n o d. rows_of (take n (drop o (sort_slice newer (values d.0))));
  select_first = λ m n d. rows_of (take n (sort_slice newer (values d.0)));
  select_after = λ m t id n d.
      rows_of (
        take n (sort_slice newer (where_behind (record { created_at = t; id = id }) (values d.0))));
}

abbrev transactions : Transactions Tables Tables
transactions = record {
  begin = λ m d. ok d;
  queries = queries;
  lock = λ m k t. (ok true, t);
  cleanup = λ m t. (ok tt, t);
  select_key = λ m k t. found (lookup k t.1);
  insert_key = λ m k h id seconds t. (ok tt, (t.0, insert k (record { hash = h; id = id }) t.1));
  commit = λ m t d. (ok tt, t);
}

abbrev tables : Tables
tables = (two_items.items, [])

tables-IsServed : IsServed queries tables (values two_items.items)
tables-IsServed = record {
  page = λ m n o. refl;
  first = λ m n. refl;
  following = λ m p n stamp. refl;
}

list-refines_example :
    Postgres.list (some queries) (some ctx) 0 (record { limit = pos 1; offset = pos 1 }) tables
    ≡ (do
      values ←
          Memory.list uuids (some ctx) 0 (record { limit = pos 1; offset = pos 1 }) (some two_items)
      ok (utc_all values))
list-refines_example =
    list-refines queries tables two_items tables-IsServed uuids ctx 0 (pos 1) (pos 1) (λ a b. refl)
      live

abbrev params : CursorListParams
params = record {
  limit = pos 5;
  position = some (record { created_at = newest.created_at; id = newest.id });
}

list_after-refines_example :
    Postgres.list_after (some queries) (some ctx) 0 params tables
    ≡ (do values ← Memory.list_after (some ctx) 0 params (some two_items); ok (utc_all values))
list_after-refines_example =
    list_after-refines queries tables two_items tables-IsServed ctx 0 params.limit params.position
      live items-Distinct (refl, omega arith)

abbrev third : Item
third = item_of 3 62_700_000_000

create_idempotent-Fate_example :
    Fate transactions 0
      (sha.digest key)
      (replicate 64 b'1')
      third
      tables
      (create_idempotent sha (some transactions) (some ctx) 0 third key (replicate 64 b'1') tables)
create_idempotent-Fate_example =
    create_idempotent-Fate sha transactions (some ctx) 0 third key (replicate 64 b'1') tables
