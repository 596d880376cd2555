-- ===== src/Memory.antt =====
-- internal/item/memory/store.go: the items behind a mutex. The state of a `Store` is a record; a nil
-- `*Store` is `none`. A nil map reads as an empty one, and every write first makes the map, so both are
-- the empty list here.
pub mod Idempotent
pub mod Order
pub mod Validity
pub mod Replay
pub mod Calls
use go_clean_architecture.Prelude.{
  ℕ, ℤ, pos, pos_part, ltb_ℤ, ◌+◌, ◌-◌, Bool, ◌&&◌, ◌||◌, Option, none, some, List, [], ◌∷◌, ltb,
  leb, ◌==◌, if◌then◌else◌, Bytes, codes, bytes_ltb, length, take, drop, Result, ok, err, ◌>>=◌,
  ◌>>◌, fail_if, map_err, suc,
}
use go_clean_architecture.Std.Time.{Time, before, after, equal}
use go_clean_architecture.Dict.{Entry, lookup, insert, values}
use go_clean_architecture.Item.Errors.{
  Error, sentinel, validation, join, wrap, conflict, not_found, store_unavailable,
  cursor_unavailable, cursor_state,
}
use go_clean_architecture.Item.Context.{Context, Clock, context_error}
use go_clean_architecture.Item.Model.{Uuid, is_nil, Item, ListParams}
use go_clean_architecture.Item.Cursor.{CursorPosition, validate}
use go_clean_architecture.Item.Ports.{UuidLib, CursorListParams}
use go_clean_architecture.Item.Idempotency.{max_idempotency_entries}

pub record IdempotencyEntry : Type 0 where
  pub fingerprint : Bytes
  pub item_id : Uuid
  pub expires_at : Time

-- `Store`, without its locks.
pub record Memory : Type 0 where
  pub items : List (Entry Item)
  pub idempotency : List (Entry IdempotencyEntry)
  pub inflight : List (Entry (Unit {0}))
  pub max_entries : ℤ
  pub clock : Option Clock

-- `WithClock` is the one `Option`.
pub data MemoryOption : Type 0 where
  with_clock : Option Clock → MemoryOption

unfoldable pub apply_options : Memory → List (Option MemoryOption) → Memory
apply_options s [] = s
apply_options s (none ∷ rest) = apply_options s rest
apply_options s (some (with_clock c) ∷ rest) = apply_options (record s { clock = c }) rest

-- `NewStore`
unfoldable pub new_store : List (Option MemoryOption) → Memory
unfolding apply_options
new_store = apply_options (record {
  items = [];
  idempotency = [];
  inflight = [];
  max_entries = pos max_idempotency_entries;
  clock = none;
})

-- `Create`, from the lock on.
unfoldable pub create_locked : Option Context → ℕ → Item → Memory → Result Error Item × Memory
create_locked ctx m value s = elim (context_error ctx m) [
  | err e ↦ (err e, s)
  | ok _ ↦ elim (lookup value.id s.items) [
    | some _ ↦ (err (wrap (sentinel conflict)), s)
    | none ↦ (ok value, record s { items = insert value.id value s.items })
  ]
]

-- `Create` of a store that is there.
unfoldable pub create_item : Option Context → ℕ → Item → Memory → Result Error Item × Memory
unfolding create_locked
create_item ctx m value s = elim (context_error ctx m) [
  | err e ↦ (err e, s)
  | ok _ ↦ create_locked ctx (m + 1) value s
]

-- `Create`
unfoldable pub create :
    Option Context → ℕ → Item → Option Memory → Result Error Item × Option Memory
unfolding create_item
create ctx m value none = ((do context_error ctx m; err (sentinel store_unavailable)), none)
create ctx m value (some s) = let (answer, s') = create_item ctx m value s in (answer, some s')

-- `getItem`
unfoldable pub get_item : Option Context → ℕ → Uuid → Memory → Result Error Item
get_item ctx m id s = do
  context_error ctx m
  context_error ctx (m + 1)
  elim (lookup id s.items) [ none ↦ err (sentinel not_found) | some value ↦ ok value ]

-- `Get`
unfoldable pub get : Option Context → ℕ → Uuid → Option Memory → Result Error Item
get ctx m id none = do context_error ctx m; err (sentinel store_unavailable)
get ctx m id (some s) = do
  context_error ctx m
  fail_if (is_nil id) (validation (codes "id") (codes "must not be nil"))
  context_error ctx (m + 1)
  elim (lookup id s.items) [ none ↦ err (wrap (sentinel not_found)) | some value ↦ ok value ]

-- `sort.Slice`: any sorting algorithm, here by insertion.
module _ {ℓ} {A : Type ℓ} (less : A → A → Bool) where
  unfoldable pub insert_sorted : A → List A → List A
  insert_sorted x [] = x ∷ []
  insert_sorted x (y ∷ ys) = if less x y then x ∷ y ∷ ys else y ∷ insert_sorted x ys

  unfoldable pub sort_slice : List A → List A
  unfolding insert_sorted
  sort_slice [] = []
  sort_slice (x ∷ xs) = insert_sorted x (sort_slice xs)

-- The order of `ListAfter`: newest first, and by the bytes of the id at one instant.
unfoldable pub newer : Item → Item → Bool
newer a b =
    if equal a.created_at b.created_at then bytes_ltb b.id a.id else after a.created_at b.created_at

-- The order of `List`: by the text of the id at one instant.
unfoldable pub newer_text : UuidLib → Item → Item → Bool
newer_text uuids a b =
    if equal a.created_at b.created_at
    then bytes_ltb (uuids.to_string b.id) (uuids.to_string a.id)
    else after a.created_at b.created_at

-- At most `limit` rows from `start` on, copied out.
unfoldable pub copy_page : List Item → ℕ → ℕ → List Item
copy_page rows limit start =
    let remaining = length rows - start in
    let count = if ltb remaining limit then remaining else limit in
    if (limit == 0) || leb (length rows) start then [] else take count (drop start rows)

abbrev pub check_limit : ℤ → Result Error (Unit {0})
check_limit limit =
    fail_if (ltb_ℤ limit (pos 0) || ltb_ℤ (pos 101) limit)
      (validation (codes "limit") (codes "is outside the supported range"))

-- `List`
unfoldable pub list :
    UuidLib → Option Context → ℕ → ListParams → Option Memory → Result Error (List Item)
unfolding sort_slice newer_text copy_page
list uuids ctx m params none = do context_error ctx m; err (sentinel store_unavailable)
list uuids ctx m params (some s) = do
  context_error ctx m
  check_limit params.limit
  fail_if (ltb_ℤ params.offset (pos 0))
      (validation (codes "offset") (codes "must be zero or positive"))
  let rows = sort_slice (newer_text uuids) (values s.items)
  context_error ctx (m + 1)
  ok (copy_page rows (pos_part params.limit) (pos_part params.offset))

-- The test of the loop of `ListAfter`: the value lies strictly behind the position.
unfoldable pub behind : CursorPosition → Item → Bool
behind position value =
    before value.created_at position.created_at
    || (equal value.created_at position.created_at && bytes_ltb value.id position.id)

-- The loop: the index of the first value behind the position, or the number of values.
unfoldable pub start_index : CursorPosition → List Item → ℕ
unfolding behind
start_index position [] = 0
start_index position (v ∷ vs) = if behind position v then 0 else suc (start_index position vs)

unfoldable pub start_of : Option CursorPosition → List Item → ℕ
unfolding start_index
start_of none rows = 0
start_of (some position) rows = start_index position rows

abbrev pub check_position : Option CursorPosition → Result Error (Unit {0})
check_position none = ok tt
check_position (some position) = map_err (join (sentinel cursor_state)) (validate position)

-- `ListAfter`
unfoldable pub list_after :
    Option Context → ℕ → CursorListParams → Option Memory → Result Error (List Item)
unfolding sort_slice newer start_of copy_page
list_after ctx m params none = do context_error ctx m; err (sentinel cursor_unavailable)
list_after ctx m params (some s) = do
  context_error ctx m
  check_limit params.limit
  check_position params.position
  let rows = sort_slice newer (values s.items)
  context_error ctx (m + 1)
  ok (copy_page rows (pos_part params.limit) (start_of params.position rows))
