-- ===== src/Postgres.antt =====
-- internal/item/postgres/store.go: the store over a database. What the driver pgx and the database do with the
-- queries is a parameter; a query's text is the operation that it names.
pub mod Writes
pub mod Commits
pub mod Refinement
use go_clean_architecture.Prelude.{
  ℕ, ℤ, pos, pos_part, ltb_ℤ, ◌+◌, ◌-◌, ◌*◌, ◌/◌, ◌%◌, ◌^◌, Bool, true, false, not, ◌||◌, Option,
  none, some, List, [], ◌∷◌, ◌==◌, if◌then◌else◌, Bytes, codes, length, take, Result, ok, err,
  ◌>>=◌, ◌>>◌, fail_if, map_err,
}
use go_clean_architecture.Std.Time.{Time, to_utc}
use go_clean_architecture.Item.Errors.{
  Error, sentinel, validation, join, wrap, is, conflict, not_found, store_unavailable,
  cursor_unavailable, cursor_state, invalid_input, canceled, deadline_exceeded,
}
use go_clean_architecture.Item.Context.{Context, context_error}
use go_clean_architecture.Item.Model.{Uuid, is_nil, Item, ListParams}
use go_clean_architecture.Item.Cursor.{CursorPosition, validate}
use go_clean_architecture.Item.Ports.{CursorListParams}
use go_clean_architecture.Memory.{check_limit, check_position}

-- An error of the driver: what `errors.Is` finds of the sentinels in it, whether it is `pgx.ErrNoRows`, and whether it is
-- a `pgconn.PgError` with the code 23505, a unique violation.
pub record DbError : Type 0 where
  pub error : Error
  pub no_rows : Bool
  pub unique_violation : Bool

-- What `rows` yields: the items that are scanned, or the scan's error, and `rows.Err()`.
pub record Rows : Type 0 where
  pub scanned : List (Result DbError Item)
  pub last_error : Option DbError

-- The queries of a `querier`, over the states `D` of the database. An operation takes the moment at which
-- it is called.
pub record Querier (D : Type 0) : Type 0 where
  pub insert_item : ℕ → Item → D → Result DbError Item × D
  pub select_item : ℕ → Uuid → D → Result DbError Item
  -- `listQuery` with its limit and offset
  pub select_page : ℕ → ℕ → ℕ → D → Result DbError Rows
  -- `cursorListFirstQuery` and `cursorListAfterQuery`
  pub select_first : ℕ → ℕ → D → Result DbError Rows
  pub select_after : ℕ → Time → Uuid → ℕ → D → Result DbError Rows

-- `translateError`; the name of the operation is text only.
unfoldable pub translate_error : DbError → Error
translate_error e =
    if e.no_rows
    then sentinel not_found
    else if e.unique_violation
    then wrap (join (sentinel conflict) e.error)
    else wrap e.error

-- `translateCursorError`
unfoldable pub translate_cursor_error : DbError → Error
unfolding translate_error
translate_cursor_error e =
    if is e.error canceled || is e.error deadline_exceeded
    then e.error
    else if is e.error invalid_input || is e.error cursor_state
    then e.error
    else wrap (join (sentinel cursor_unavailable) (translate_error e))

-- The item as it is handed out: its instant in UTC.
abbrev pub in_utc : Item → Item
in_utc value = record value { created_at = to_utc value.created_at }

-- The loop over the rows; `tr` translates errors.
unfoldable pub collect :
    (DbError → Error) → List (Result DbError Item) → Option DbError → Result Error (List Item)
collect tr [] none = ok []
collect tr [] (some e) = err (tr e)
collect tr (err e ∷ rest) last = err (tr e)
collect tr (ok value ∷ rest) last =
    let items = collect tr rest last in do values ← items; ok (in_utc value ∷ values)

-- What `Query` and the loop behind it return.
unfoldable pub read_rows : (DbError → Error) → Result DbError Rows → Result Error (List Item)
unfolding collect
read_rows tr (err e) = err (tr e)
read_rows tr (ok rows) = collect tr rows.scanned rows.last_error

module _ {D : Type 0} where
  -- `createWithQuerier`
  unfoldable pub create_with_querier : Querier D → ℕ → Item → D → Result DbError Item × D
  create_with_querier q m value d =
      let (answer, d') = q.insert_item m value d in ((do created ← answer; ok (in_utc created)), d')

  -- `getWithQuerier`
  unfoldable pub get_with_querier : Querier D → ℕ → Uuid → D → Result Error Item
  unfolding translate_error
  get_with_querier q m id d = do
    found ← map_err translate_error (q.select_item m id d)
    ok (in_utc found)

  -- `Create`; a nil store, or one without a pool, is `none`.
  unfoldable pub create : Option (Querier D) → Option Context → ℕ → Item → D → Result Error Item × D
  unfolding create_with_querier translate_error
  create store ctx m value d = elim (context_error ctx m) [
    | err e ↦ (err e, d)
    | ok _ ↦ elim store [
      | none ↦ (err (sentinel store_unavailable), d)
      | some q ↦
          let (answer, d') = create_with_querier q (m + 1) value d in
          (map_err translate_error answer, d')
    ]
  ]

  -- `Get`
  unfoldable pub get : Option (Querier D) → Option Context → ℕ → Uuid → D → Result Error Item
  unfolding get_with_querier
  get none ctx m id d = do context_error ctx m; err (sentinel store_unavailable)
  get (some q) ctx m id d = do
    context_error ctx m
    fail_if (is_nil id) (validation (codes "id") (codes "must not be nil"))
    get_with_querier q (m + 1) id d

  -- `List`
  unfoldable pub list :
      Option (Querier D) → Option Context → ℕ → ListParams → D → Result Error (List Item)
  unfolding read_rows translate_error
  list none ctx m params d = do context_error ctx m; err (sentinel store_unavailable)
  list (some q) ctx m params d = do
    context_error ctx m
    check_limit params.limit
    fail_if (ltb_ℤ params.offset (pos 0))
        (validation (codes "offset") (codes "must be zero or positive"))
    (if pos_part params.limit == 0
        then ok []
        else read_rows translate_error
            (q.select_page (m + 1) (pos_part params.limit) (pos_part params.offset) d))

  -- The query of `ListAfter`.
  unfoldable pub query_after : Querier D → ℕ → Option CursorPosition → ℕ → D → Result DbError Rows
  query_after q m none limit d = q.select_first m limit d
  query_after q m (some after) limit d = q.select_after m (to_utc after.created_at) after.id limit d

  -- `ListAfter`
  unfoldable pub list_after :
      Option (Querier D) → Option Context → ℕ → CursorListParams → D → Result Error (List Item)
  unfolding read_rows translate_cursor_error query_after
  list_after none ctx m params d = do context_error ctx m; err (sentinel cursor_unavailable)
  list_after (some q) ctx m params d = do
    context_error ctx m
    check_limit params.limit
    check_position params.position
    (if pos_part params.limit == 0
        then ok []
        else read_rows translate_cursor_error
            (query_after q (m + 1) params.position (pos_part params.limit) d))
