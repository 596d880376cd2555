-- ===== src/Postgres/Refinement.antt =====
-- The queries of internal/item/postgres/store.go against the memory store: what a database hands to `List` and `ListAfter`.
use go_clean_architecture.Prelude.{
  ℕ, ℤ, pos, negsuc, zero, suc, ◌+◌, ◌%◌, ◌≤◌, ◌≡◌, refl, ap, true, inl, inr, Option, none, some,
  List, [], ◌∷◌, arith, ltb, bytes_ltb_trans, take, drop, Result, ok, ◌>>=◌, if◌then◌else◌,
  Bool-cases, Result-cases,
}
use go_clean_architecture.Std.Time.{Time, before, equal, to_utc}
use go_clean_architecture.Dict.{values}
use go_clean_architecture.Item.Errors.{Error}
use go_clean_architecture.Item.Context.{Context, IsLive}
use go_clean_architecture.Item.Model.{Item, ListParams}
use go_clean_architecture.Item.Cursor.{CursorPosition}
use go_clean_architecture.Item.Ports.{UuidLib, CursorListParams}
use go_clean_architecture.Memory
use go_clean_architecture.Memory.{
  Memory, newer, insert_sorted, sort_slice, behind, start_index, start_of, check_position,
}
use go_clean_architecture.Memory.Order.{Above, IsSorted, Distinct, sort_slice-IsSorted}
use go_clean_architecture.Paging.Rows.{list_after_lem, start_index-canonical}
use go_clean_architecture.Paging.Offset.{TextOrders, memory_list}
use go_clean_architecture.Postgres
use go_clean_architecture.Postgres.{DbError, Rows, Querier, in_utc, collect, read_rows, query_after}

-- Rows without an error.
abbrev pub scanned_of : List Item → List (Result DbError Item)
scanned_of [] = []
scanned_of (v ∷ vs) = ok v ∷ scanned_of vs

abbrev pub rows_of : List Item → Result DbError Rows
rows_of vs = ok (record { scanned = scanned_of vs; last_error = none })

-- `WHERE (created_at, id) < ($1, $2)`
abbrev pub where_behind : CursorPosition → List Item → List Item
where_behind p [] = []
where_behind p (v ∷ vs) = if behind p v then v ∷ where_behind p vs else where_behind p vs

-- A time that a column of the type TIMESTAMPTZ tells exactly: whole microseconds, from the year 1 to 9999.
abbrev pub IsTimestamp : Time → Type 0
IsTimestamp t = (t.nsec % 1000 ≡ 0) × (t.sec ≤ 315_537_897_599)

abbrev pub IsTimestampAt : Option CursorPosition → Type 0
IsTimestampAt none = Unit {0}
IsTimestampAt (some p) = IsTimestamp p.created_at

-- What SQL says of the three queries, on the items that the database holds; of the comparison with a position, only where the
-- column tells the time of the position exactly.
pub record IsServed {D : Type 0} (q : Querier D) (d : D) (items : List Item) : Type 0 where
  pub page :
      (m limit offset : ℕ)
      → q.select_page m limit offset d ≡ rows_of (take limit (drop offset (sort_slice newer items)))
  pub first :
      (m limit : ℕ) → q.select_first m limit d ≡ rows_of (take limit (sort_slice newer items))
  pub following :
      (m : ℕ) (p : CursorPosition) (limit : ℕ)
      → IsTimestamp p.created_at
      → q.select_after m p.created_at p.id limit d
        ≡ rows_of (take limit (sort_slice newer (where_behind p items)))

abbrev pub utc_all : List Item → List Item
utc_all [] = []
utc_all (v ∷ vs) = in_utc v ∷ utc_all vs

read_rows-rows_of :
    (tr : DbError → Error) (vs : List Item) → read_rows tr (rows_of vs) ≡ ok (utc_all vs)
unfolding read_rows collect
read_rows-rows_of tr [] = refl
read_rows-rows_of tr (v ∷ vs) = ground (arith, read_rows-rows_of tr vs)

behind-newer :
    (p : CursorPosition) (a b : Item) → behind p a ≡ true → newer a b ≡ true → behind p b ≡ true
unfolding behind newer before equal
behind-newer p a b h k = ground (arith, bytes_ltb_trans b.id a.id p.id)

where_behind-insert_sorted :
    (p : CursorPosition) (x : Item) (ys : List Item)
    → where_behind p (insert_sorted newer x ys)
      ≡ (if behind p x then insert_sorted newer x (where_behind p ys) else where_behind p ys)
unfolding insert_sorted
where_behind-insert_sorted p x [] = refl
where_behind-insert_sorted p x (y ∷ ys) =
    ground (arith, behind-newer p x y, where_behind-insert_sorted p x ys)

-- The condition and the order of the query commute.
where_behind-sort_slice :
    (p : CursorPosition) (xs : List Item)
    → sort_slice newer (where_behind p xs) ≡ where_behind p (sort_slice newer xs)
unfolding sort_slice
where_behind-sort_slice p [] = refl
where_behind-sort_slice p (x ∷ xs) =
    ground
      (arith, where_behind-insert_sorted p x (sort_slice newer xs), where_behind-sort_slice p xs)

where_behind-Above :
    (p : CursorPosition) (a : Item) (xs : List Item)
    → behind p a ≡ true
    → Above a xs
    → where_behind p xs ≡ xs
where_behind-Above p a [] h k = refl
where_behind-Above p a (x ∷ xs) h k =
    rw (behind-newer p a x h k.0) (ap (◌∷◌ x) (where_behind-Above p a xs h k.1))

-- On sorted rows the condition is what the loop of the memory store skips to.
where_behind-drop :
    (p : CursorPosition) (xs : List Item)
    → IsSorted xs
    → where_behind p xs ≡ drop (start_index p xs) xs
unfolding start_index
where_behind-drop p [] s = refl
where_behind-drop p (x ∷ xs) s = elim (Bool-cases (behind p x)) [
  | inl e ↦ rw (e, where_behind-Above p x xs e s.0) refl
  | inr e ↦ rw e (where_behind-drop p xs s.1)
]

list_after-live :
    {D : Type 0} (q : Querier D) (ctx : Context) (m n : ℕ) (position : Option CursorPosition)
    (d : D)
    → IsLive ctx
    → suc n ≤ 101
    → check_position position ≡ ok tt
    → Postgres.list_after
        (some q)
        (some ctx)
        m
        (record { limit = pos (suc n); position = position })
        d
      ≡ read_rows Postgres.translate_cursor_error (query_after q (m + 1) position (suc n) d)
unfolding Postgres.list_after
list_after-live q ctx m n position d live h valid = ground (arith, live.alive m)

list-live :
    {D : Type 0} (q : Querier D) (ctx : Context) (m n o : ℕ) (d : D)
    → IsLive ctx
    → suc n ≤ 101
    → Postgres.list (some q) (some ctx) m (record { limit = pos (suc n); offset = pos o }) d
      ≡ read_rows Postgres.translate_error (q.select_page (m + 1) (suc n) o d)
unfolding Postgres.list
list-live q ctx m n o d live h = ground (arith, live.alive m)

module _ {D : Type 0} (q : Querier D) (d : D) (s : Memory)
    (served : IsServed q d (values s.items)) where
  -- The rows of `ListAfter`, whichever of its queries runs.
  query_after_lem :
      (m n : ℕ) (position : Option CursorPosition)
      → Distinct (values s.items)
      → IsTimestampAt position
      → let rows = sort_slice newer (values s.items) in
        query_after q m position n d ≡ rows_of (take n (drop (start_of position rows) rows))
  unfolding query_after start_of
  query_after_lem m n none distinct stamp = served.first m n
  query_after_lem m n (some p) distinct stamp =
      let at : CursorPosition = record { created_at = to_utc p.created_at; id = p.id } in
      let rows = sort_slice newer (values s.items) in
      rw
        (
          served.following m at n stamp,
          where_behind-sort_slice at (values s.items),
          where_behind-drop at rows (sort_slice-IsSorted (values s.items) distinct),
          start_index-canonical p rows,
        )
        refl

  list_after-bounded :
      (ctx : Context) (m n : ℕ) (position : Option CursorPosition)
      → IsLive ctx
      → Distinct (values s.items)
      → IsTimestampAt position
      → n ≤ 101
      → check_position position ≡ ok tt
      → let params : CursorListParams = record { limit = pos n; position = position } in
        let rows = sort_slice newer (values s.items) in
        Postgres.list_after (some q) (some ctx) m params d
        ≡ ok (utc_all (take n (drop (start_of position rows) rows)))
  unfolding Postgres.list_after
  list_after-bounded ctx m zero position live distinct stamp h valid = ground (arith, live.alive m)
  list_after-bounded ctx m (suc n) position live distinct stamp h valid =
      let rows = sort_slice newer (values s.items) in
      rw
        (
          list_after-live q ctx m n position d live h valid,
          query_after_lem (m + 1) (suc n) position distinct stamp,
        )
        (read_rows-rows_of Postgres.translate_cursor_error
          (take (suc n) (drop (start_of position rows) rows)))

  -- Where the queries answer as SQL says, the context is live, the ids are distinct, and the position, if any, is at a time
  -- of whole microseconds in the years 1 to 9999, `ListAfter` of the database answers, for every limit and such position, as
  -- the memory store with the same items, the instants in UTC.
  pub list_after-refines :
      (ctx : Context) (m : ℕ) (limit : ℤ) (position : Option CursorPosition)
      → IsLive ctx
      → Distinct (values s.items)
      → IsTimestampAt position
      → let params : CursorListParams = record { limit = limit; position = position } in
        Postgres.list_after (some q) (some ctx) m params d
        ≡ (do values ← Memory.list_after (some ctx) m params (some s); ok (utc_all values))
  unfolding Postgres.list_after Memory.list_after
  list_after-refines ctx m (negsuc n) position live distinct stamp = ground (arith, live.alive m)
  list_after-refines ctx m (pos n) position live distinct stamp = elim (Bool-cases (ltb 101 n)) [
    | inl large ↦ ground (arith, live.alive m)
    | inr small ↦ elim (Result-cases (check_position position)) [
      | inr (e, bad) ↦ ground (arith, live.alive m)
      | inl (_, valid) ↦
          rw
            (
              list_after-bounded ctx m n position live distinct stamp (ground arith) valid,
              list_after_lem ctx m n position s live (ground arith) valid,
            )
            refl
    ]
  ]

  list-bounded :
      (ctx : Context) (m n o : ℕ)
      → IsLive ctx
      → n ≤ 101
      → Postgres.list (some q) (some ctx) m (record { limit = pos n; offset = pos o }) d
        ≡ ok (utc_all (take n (drop o (sort_slice newer (values s.items)))))
  unfolding Postgres.list
  list-bounded ctx m zero o live h = ground (arith, live.alive m)
  list-bounded ctx m (suc n) o live h =
      rw (list-live q ctx m n o d live h, served.page (m + 1) (suc n) o)
        (read_rows-rows_of Postgres.translate_error
          (take (suc n) (drop o (sort_slice newer (values s.items)))))

  -- Where the queries answer as SQL says, the context is live and the text of ids orders as their bytes, `List` of the
  -- database answers, for every limit and offset, as the memory store with the same items, the instants in UTC.
  pub list-refines :
      (uuids : UuidLib) (ctx : Context) (m : ℕ) (limit offset : ℤ)
      → TextOrders uuids
      → IsLive ctx
      → let params : ListParams = record { limit = limit; offset = offset } in
        Postgres.list (some q) (some ctx) m params d
        ≡ (do values ← Memory.list uuids (some ctx) m params (some s); ok (utc_all values))
  unfolding Postgres.list Memory.list
  list-refines uuids ctx m (negsuc n) offset orders live = ground (arith, live.alive m)
  list-refines uuids ctx m (pos n) (negsuc o) orders live = ground (arith, live.alive m)
  list-refines uuids ctx m (pos n) (pos o) orders live = elim (Bool-cases (ltb 101 n)) [
    | inl large ↦ ground (arith, live.alive m)
    | inr small ↦
        rw
          (
            list-bounded ctx m n o live (ground arith),
            memory_list uuids ctx m n o s orders live (ground arith),
          )
          refl
  ]
