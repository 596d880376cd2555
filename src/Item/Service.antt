-- ===== src/Item/Service.antt =====
-- internal/item/service.go: the service and its use cases `Create`, `Get` and `List`.
use go_clean_architecture.Prelude.{
  ℕ, pos, ◌+◌, Bool, true, false, not, ◌||◌, Option, none, some, List, [], ◌∷◌, ltb, ◌==◌,
  if◌then◌else◌, Bytes, codes, length, take, get_last?, Result, ok, err, ◌>>=◌, ◌>>◌, fail_if,
  of_option, map_err,
}
use go_clean_architecture.Std.Time.{Time, is_zero, to_utc}
use go_clean_architecture.Item.Errors.{
  Error, sentinel, validation, join, other, store_unavailable, id_generation, invalid_input,
  cursor_state,
}
use go_clean_architecture.Item.Context.{Context, Clock, context_error}
use go_clean_architecture.Item.Model.{
  Uuid, is_nil, Item, CreateInput, ListParams, Page, validate_create_input, normalize_list_params,
}
use go_clean_architecture.Item.Cursor.{position_for_item}
use go_clean_architecture.Item.Ports.{UuidLib, CursorCodec, Store}

-- `Service`; `generate_id` is the generator's answer at each moment.
pub record Service (S : Type 0) : Type 0 where
  pub store : Option (Store S)
  pub generate_id : ℕ → Result Error Uuid
  pub clock : Clock
  pub cursor_codec : Option CursorCodec

-- `Option`; a nil argument is `none`.
pub data ServiceOption : Type 0 where
  with_cursor_codec : Option CursorCodec → ServiceOption
  with_id_generator : Option (ℕ → Result Error Uuid) → ServiceOption
  with_clock : Option Clock → ServiceOption

module _ {S : Type 0} where
  unfoldable pub apply_option : Service S → ServiceOption → Service S
  apply_option service (with_cursor_codec none) = service
  apply_option service (with_cursor_codec (some codec)) = record service {
    cursor_codec = some codec;
  }
  apply_option service (with_id_generator none) = service
  apply_option service (with_id_generator (some generator)) = record service {
    generate_id = generator;
  }
  apply_option service (with_clock none) = service
  apply_option service (with_clock (some clock)) = record service { clock = clock }

  unfoldable pub apply_options : Service S → List (Option ServiceOption) → Service S
  unfolding apply_option
  apply_options service [] = service
  apply_options service (none ∷ rest) = apply_options service rest
  apply_options service (some o ∷ rest) = apply_options (apply_option service o) rest

  -- `NewService`; `new_random` is `uuid.NewRandom`.
  unfoldable pub new_service :
      (ℕ → Result Error Uuid) → Clock → Option (Store S) → List (Option ServiceOption) → Service S
  unfolding apply_options
  new_service new_random time_now store =
      apply_options
        (record { store = store; generate_id = new_random; clock = time_now; cursor_codec = none })

  -- A service that is there, with its store.
  unfoldable pub store_of : Option (Service S) → Option (Store S × Service S)
  store_of none = none
  store_of (some service) = elim service.store [ none ↦ none | some store ↦ some (store, service) ]

module _ {S : Type 0} (uuids : UuidLib) (time_now : Clock) where
  -- The creation time of `Create` and `CreateIdempotent`: a zero reading falls back on the wall clock.
  unfoldable pub creation_time : Service S → ℕ → Time
  creation_time service m =
      if is_zero (service.clock m) then to_utc (time_now m) else to_utc (service.clock m)

  -- The identity of a new item: a random RFC 4122 UUID of version 4.
  unfoldable pub new_id : Service S → ℕ → Result Error Uuid
  new_id service m = do
    id ← map_err (join (sentinel id_generation)) (service.generate_id m)
    fail_if (is_nil id || (not (uuids.version id == 4) || not (uuids.is_rfc4122 id))) (
        join (sentinel id_generation) (
          join (sentinel invalid_input) (other (codes "generated UUID must be RFC4122 version 4"))))
    ok id

  unfoldable pub new_item : Service S → ℕ → CreateInput → Result Error Item
  unfolding new_id creation_time
  new_item service m canonical = do
    id ← new_id service m
    ok (record {
      id = id;
      name = canonical.name;
      description = canonical.description;
      created_at = creation_time service m;
    })

  -- `Create` up to the call of the store.
  unfoldable pub prepare_create :
      Option (Service S) → Option Context → ℕ → CreateInput → Result Error (Store S × Item)
  unfolding store_of new_item
  prepare_create service ctx m input = do
    context_error ctx m
    canonical ← validate_create_input input
    (store, there) ← of_option (store_of service) (sentinel store_unavailable)
    value ← new_item there m canonical
    ok (store, value)

  -- `Create`
  unfoldable pub create :
      Option (Service S) → Option Context → ℕ → CreateInput → S → Result Error Item × S
  unfolding prepare_create
  create service ctx m input s = elim (prepare_create service ctx m input) [
    | err e ↦ (err e, s)
    | ok (store, value) ↦ store.create ctx (m + 1) value s
  ]

module _ {S : Type 0} where
  -- `Get`
  unfoldable pub get : Option (Service S) → Option Context → ℕ → Uuid → S → Result Error Item
  unfolding store_of
  get service ctx m id s = do
    context_error ctx m
    fail_if (is_nil id) (validation (codes "id") (codes "must not be nil"))
    (store, there) ← of_option (store_of service) (sentinel store_unavailable)
    store.get ctx (m + 1) id s

  -- The continuation that `List` offers beside the offset: only if there are more rows, a codec and a
  -- store that can follow it.
  unfoldable pub list_cursor_of : Store S → Service S → ℕ → Bool → Option Item → Result Error Bytes
  list_cursor_of store service m has_more none = ok []
  list_cursor_of store service m false (some last) = ok []
  list_cursor_of store service m true (some last) = elim service.cursor_codec [
    | none ↦ ok []
    | some codec ↦ elim store.list_after [
      | none ↦ ok []
      | some _ ↦ do
        position ← position_for_item last
        map_err (join (sentinel cursor_state)) (codec.encode_cursor m position)
    ]
  ]

  -- `List`
  unfoldable pub list : Option (Service S) → Option Context → ℕ → ListParams → S → Result Error Page
  unfolding store_of list_cursor_of
  list service ctx m params s = do
    context_error ctx m
    normalized ← normalize_list_params params
    (store, there) ← of_option (store_of service) (sentinel store_unavailable)
    rows ←
        store.list ctx (m + 1)
          (record { limit = pos (normalized.limit + 1); offset = pos normalized.offset }) s
    let has_more = ltb normalized.limit (length rows)
    let items = if has_more then take normalized.limit rows else rows
    next ← list_cursor_of store there (m + 2) has_more (get_last? items)
    ok (record {
      items = items;
      limit = normalized.limit;
      offset = normalized.offset;
      has_more = has_more;
      next_cursor = next;
    })
