-- ===== src/Item/IdempotentCreate.antt =====
-- `CreateIdempotent` of internal/item/idempotency.go: a create that a store performs at most once for a key.
use go_clean_architecture.Prelude.{
  ℕ, ◌+◌, Bool, Option, Bytes, Result, ok, err, ◌>>=◌, ◌>>◌, fail_if, of_option,
}
use go_clean_architecture.Item.Errors.{Error, sentinel, idempotency_unavailable, idempotency_state}
use go_clean_architecture.Item.Context.{Context, Clock, context_error}
use go_clean_architecture.Item.Model.{is_nil, Item, CreateInput, validate_create_input}
use go_clean_architecture.Item.Cursor.{Sha256}
use go_clean_architecture.Item.Idempotency.{
  Json, validate_idempotency_key, fingerprint_create_input, storage_idempotency_key,
}
use go_clean_architecture.Item.Ports.{UuidLib}
use go_clean_architecture.Item.Service.{Service, store_of, new_item}

-- What `CreateIdempotent` returns of the store's answer: an item with no identity is an error.
unfoldable pub checked_replay : Result Error (Item × Bool) → Result Error (Item × Bool)
checked_replay answer = do
  (created, replayed) ← answer
  fail_if (is_nil created.id) (sentinel idempotency_state)
  ok (created, replayed)

module _ {S : Type 0} (uuids : UuidLib) (time_now : Clock) where
  -- `CreateIdempotent` up to the call of the store: the operation, the item, the key and the fingerprint.
  unfoldable pub prepare_create_idempotent :
      Sha256
      → Json
      → Option (Service S)
      → Option Context
      → ℕ
      → CreateInput
      → Bytes
      → Result Error ((S → Result Error (Item × Bool) × S))
  unfolding store_of new_item
  prepare_create_idempotent sha json service ctx m input key = do
    context_error ctx m
    validate_idempotency_key key
    canonical ← validate_create_input input
    (store, there) ← of_option (store_of service) (sentinel idempotency_unavailable)
    create_once ← of_option store.create_idempotent (sentinel idempotency_unavailable)
    fingerprint ← fingerprint_create_input sha json canonical
    value ← new_item uuids time_now there m canonical
    ok (create_once ctx (m + 1) value (storage_idempotency_key sha json ctx key) fingerprint)

  -- `CreateIdempotent`
  unfoldable pub create_idempotent :
      Sha256
      → Json
      → Option (Service S)
      → Option Context
      → ℕ
      → CreateInput
      → Bytes
      → S
      → Result Error (Item × Bool) × S
  unfolding prepare_create_idempotent checked_replay
  create_idempotent sha json service ctx m input key s =
      elim (prepare_create_idempotent sha json service ctx m input key) [
        | err e ↦ (err e, s)
        | ok run ↦ let (answer, s') = run s in (checked_replay answer, s')
      ]
