-- ===== src/Postgres/Writes.antt =====
-- `CreateIdempotent` of internal/item/postgres/store.go: one transaction, from its begin to its commit.
use go_clean_architecture.Prelude.{
  ℕ, ◌+◌, ◌/◌, ◌%◌, Bool, true, false, not, ◌||◌, Option, none, some, ◌==◌, if◌then◌else◌, Bytes,
  bytes_eq, length, take, Result, ok, err, ◌>>◌, fail_if,
}
use go_clean_architecture.Std.Time.{be_value}
use go_clean_architecture.Std.Hex
use go_clean_architecture.Item.Errors.{
  Error, sentinel, join, wrap, is, conflict, not_found, canceled, deadline_exceeded,
  idempotency_conflict, idempotency_in_progress, idempotency_unavailable, idempotency_state,
}
use go_clean_architecture.Item.Context.{Context, context_error}
use go_clean_architecture.Item.Model.{Uuid, is_nil, Item}
use go_clean_architecture.Item.Cursor.{Sha256}
use go_clean_architecture.Item.Idempotency.{validate_idempotency_key, idempotency_record_retention}
use go_clean_architecture.Postgres.{
  DbError, Querier, translate_error, create_with_querier, get_with_querier,
}

-- The replay record that `idempotencyLookupQuery` finds.
pub record Stored : Type 0 where
  pub hash : Bytes
  pub id : Uuid

-- A transaction (`pgx.Tx`) over the states `T` of one, on a database with the states `D`. `Rollback` restores the
-- database, so a transaction that does not commit leaves no trace in it.
pub record Transactions (D T : Type 0) : Type 0 where
  pub begin : ℕ → D → Result DbError T
  pub queries : Querier T
  -- `pg_try_advisory_xact_lock`
  pub lock : ℕ → ℕ → T → Result DbError Bool × T
  pub cleanup : ℕ → T → Result DbError (Unit {0}) × T
  pub select_key : ℕ → Bytes → T → Result DbError Stored
  -- the key's hash, the request's hash, the item's id and the seconds of retention
  pub insert_key : ℕ → Bytes → Bytes → Uuid → ℕ → T → Result DbError (Unit {0}) × T
  pub commit : ℕ → T → D → Result DbError (Unit {0}) × D

-- `decodeDigest`
unfoldable pub decode_digest : Bytes → Option Bytes
decode_digest value =
    if length value == 64
    then elim (Hex.decode value) [
      | none ↦ none
      | some digest ↦ if length digest == 32 then some digest else none
    ]
    else none

-- `validateIdempotentRequest`, with the digest that the caller decodes again.
unfoldable pub validate_idempotent_request : Bytes → Bytes → Item → Result Error Bytes
unfolding decode_digest
validate_idempotent_request key fingerprint value = do
  validate_idempotency_key key
  fail_if (is_nil value.id) (sentinel idempotency_state)
  elim (decode_digest fingerprint) [
    | none ↦ err (sentinel idempotency_state)
    | some digest ↦ ok digest
  ]

-- `advisoryLockID`: 63 bits of the hash.
unfoldable pub advisory_lock_id : Bytes → ℕ
unfolding be_value
advisory_lock_id hash = be_value 0 (take 8 hash) % 9_223_372_036_854_775_808

-- `idempotencyUnavailable` of an error
unfoldable pub unavailable : Error → Error
unavailable e =
    if is e canceled || is e deadline_exceeded
    then e
    else if is e idempotency_conflict || is e conflict
    then e
    else wrap (join (sentinel idempotency_unavailable) e)

-- A driver's error while the transaction writes: a conflict is passed on.
unfoldable pub write_error : DbError → Error
unfolding translate_error unavailable
write_error e =
    if is (translate_error e) conflict then translate_error e else unavailable (translate_error e)

-- A replay that cannot be read.
unfoldable pub replay_error : Error → Error
unfolding unavailable
replay_error e = if is e not_found then sentinel idempotency_state else unavailable e

module _ {D T : Type 0} (tx : Transactions D T) where
  -- The commit, and what is answered when it succeeds.
  unfoldable pub commit_with : ℕ → Item × Bool → T → D → Result Error (Item × Bool) × D
  unfolding unavailable
  commit_with m answer t d =
      let (r, d') = tx.commit m t d in
      (elim r [ err e ↦ err (unavailable e.error) | ok _ ↦ ok answer ], d')

  -- A key with a record is answered from it.
  unfoldable pub replay : ℕ → Bytes → Stored → T → D → Result Error (Item × Bool) × D
  unfolding commit_with replay_error
  replay m request_hash stored t d =
      if not (length stored.hash == 32)
      then (err (sentinel idempotency_state), d)
      else if not (bytes_eq stored.hash request_hash)
      then (err (sentinel idempotency_conflict), d)
      else elim (get_with_querier tx.queries m stored.id t) [
        | err e ↦ (err (replay_error e), d)
        | ok value ↦ commit_with (m + 1) (value, true) t d
      ]

  -- The record of the item that has been inserted.
  unfoldable pub record_key : ℕ → Bytes → Bytes → Item → T → D → Result Error (Item × Bool) × D
  unfolding commit_with write_error
  record_key m key_hash request_hash created t d =
      let (r, t') =
        tx.insert_key m key_hash request_hash created.id
          (idempotency_record_retention / 1_000_000_000) t in
      elim r [ err e ↦ (err (write_error e), d) | ok _ ↦ commit_with (m + 1) (created, false) t' d ]

  -- A new key: the item is inserted, then its record.
  unfoldable pub insert_new : ℕ → Bytes → Bytes → Item → T → D → Result Error (Item × Bool) × D
  unfolding record_key write_error
  insert_new m key_hash request_hash value t d =
      let (r, t') = create_with_querier tx.queries m value t in
      elim r [
        | err e ↦ (err (write_error e), d)
        | ok created ↦ record_key (m + 1) key_hash request_hash created t' d
      ]

  unfoldable pub look_up : ℕ → Bytes → Bytes → Item → T → D → Result Error (Item × Bool) × D
  unfolding replay insert_new unavailable
  look_up m key_hash request_hash value t d = elim (tx.select_key m key_hash t) [
    | ok stored ↦ replay (m + 1) request_hash stored t d
    | err e ↦
        if e.no_rows
        then insert_new (m + 1) key_hash request_hash value t d
        else (err (unavailable e.error), d)
  ]

  -- The transaction behind its begin: the lock, the cleanup, the lookup.
  unfoldable pub transact : ℕ → Bytes → Bytes → Item → T → D → Result Error (Item × Bool) × D
  unfolding look_up advisory_lock_id unavailable
  transact m key_hash request_hash value t d =
      let (locked, t') = tx.lock m (advisory_lock_id key_hash) t in
      elim locked [
        | err e ↦ (err (unavailable e.error), d)
        | ok false ↦ (err (sentinel idempotency_in_progress), d)
        | ok true ↦
            let (cleaned, t'') = tx.cleanup (m + 1) t' in
            elim cleaned [
              | err e ↦ (err (unavailable e.error), d)
              | ok _ ↦ look_up (m + 2) key_hash request_hash value t'' d
            ]
      ]

-- `CreateIdempotent`; a store that is not there, or cannot begin a transaction, is `none`.
unfoldable pub create_idempotent :
    {D T : Type 0}
    → Sha256
    → Option (Transactions D T)
    → Option Context
    → ℕ
    → Item
    → Bytes
    → Bytes
    → D
    → Result Error (Item × Bool) × D
unfolding validate_idempotent_request transact unavailable
create_idempotent sha store ctx m value key fingerprint d =
    elim (do context_error ctx m; validate_idempotent_request key fingerprint value) [
      | err e ↦ (err e, d)
      | ok request_hash ↦ elim store [
        | none ↦ (err (sentinel idempotency_unavailable), d)
        | some tx ↦ elim (tx.begin (m + 1) d) [
          | err e ↦ (err (unavailable e.error), d)
          | ok t ↦ transact tx (m + 2) (sha.digest key) request_hash value t d
        ]
      ]
    ]
