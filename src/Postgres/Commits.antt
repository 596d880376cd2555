-- ===== src/Postgres/Commits.antt =====
-- How a call of `CreateIdempotent` ends.
use go_clean_architecture.Prelude.{
  ℕ, ◌+◌, ◌/◌, ◌≡◌, Bool, true, false, ◌==◌, inl, inr, Option, some, Bytes, bytes_eq, bytes_eq→eq,
  length, arith, Result, ok, err, ◌>>◌, Bool-cases, Option-cases, Result-cases, Answer-cases,
}
use go_clean_architecture.Item.Errors.{Error}
use go_clean_architecture.Item.Context.{Context, context_error}
use go_clean_architecture.Item.Model.{Item}
use go_clean_architecture.Item.Cursor.{Sha256}
use go_clean_architecture.Item.Idempotency.{idempotency_record_retention}
use go_clean_architecture.Postgres.{DbError, in_utc, create_with_querier, get_with_querier}
use go_clean_architecture.Postgres.Writes.{
  Stored, Transactions, decode_digest, validate_idempotent_request, advisory_lock_id, unavailable,
  commit_with, replay, record_key, insert_new, look_up, transact, create_idempotent,
}

module _ {D T : Type 0} (tx : Transactions D T) where
  -- A transaction that was begun on the database, holds the lock of the key and has cleaned up.
  pub data IsLocked (m : ℕ) (key_hash : Bytes) (d : D) : T → Type 0 where
    locked :
        {t t' t'' : T}
        → tx.begin (m + 1) d ≡ ok t
        → tx.lock (m + 2) (advisory_lock_id key_hash) t ≡ (ok true, t')
        → tx.cleanup (m + 2 + 1) t' ≡ (ok tt, t'')
        → IsLocked m key_hash d t''

  -- The ends of a call: an error that leaves the database as it was, an error of the commit, a replay of the record that
  -- has the same request, or a new item with a new record.
  pub data Fate (m : ℕ) (key_hash fingerprint : Bytes) (value : Item) (d : D)
      : Result Error (Item × Bool) × D → Type 0 where
    failed : (e : Error) → Fate m key_hash fingerprint value d (err e, d)
    refused :
        {n : ℕ} {t : T} {e : DbError} {d' : D}
        → tx.commit n t d ≡ (err e, d')
        → Fate m key_hash fingerprint value d (err (unavailable e.error), d')
    replayed :
        {t : T} {stored : Stored} {found : Item} {d' : D}
        → IsLocked m key_hash d t
        → tx.select_key (m + 2 + 2) key_hash t ≡ ok stored
        → decode_digest fingerprint ≡ some stored.hash
        → tx.queries.select_item (m + 2 + 2 + 1) stored.id t ≡ ok found
        → tx.commit (m + 2 + 2 + 1 + 1) t d ≡ (ok tt, d')
        → Fate m key_hash fingerprint value d (ok (in_utc found, true), d')
    created :
        {t t' t'' : T} {missing : DbError} {request_hash : Bytes} {inserted : Item} {d' : D}
        → IsLocked m key_hash d t
        → tx.select_key (m + 2 + 2) key_hash t ≡ err missing
        → missing.no_rows ≡ true
        → decode_digest fingerprint ≡ some request_hash
        → tx.queries.insert_item (m + 2 + 2 + 1) value t ≡ (ok inserted, t')
        → tx.insert_key
            (m + 2 + 2 + 1 + 1)
            key_hash
            request_hash
            inserted.id
            (idempotency_record_retention / 1_000_000_000)
            t'
          ≡ (ok tt, t'')
        → tx.commit (m + 2 + 2 + 1 + 1 + 1) t'' d ≡ (ok tt, d')
        → Fate m key_hash fingerprint value d (ok (in_utc inserted, false), d')

  module _ (m : ℕ) (key_hash fingerprint request_hash : Bytes) (value : Item) (d : D)
      (request : decode_digest fingerprint ≡ some request_hash) where
    replay-Fate :
        (stored : Stored) (t : T)
        → IsLocked m key_hash d t
        → tx.select_key (m + 2 + 2) key_hash t ≡ ok stored
        → Fate m key_hash fingerprint value d (replay tx (m + 2 + 2 + 1) request_hash stored t d)
    unfolding replay commit_with get_with_querier
    replay-Fate stored t held found = elim (Bool-cases (length stored.hash == 32)) [
      | inr short ↦ rw (replay, short) (failed _)
      | inl full ↦ elim (Bool-cases (bytes_eq stored.hash request_hash)) [
        | inr other ↦ rw (replay, full, other) (failed _)
        | inl same ↦ elim (Result-cases (tx.queries.select_item (m + 2 + 2 + 1) stored.id t)) [
          | inr (e, bad) ↦ rw (replay, full, same, get_with_querier, bad) (failed _)
          | inl (v, read) ↦ elim (Answer-cases (tx.commit (m + 2 + 2 + 1 + 1) t d)) [
            | inr (e, d', bad) ↦
                rw (replay, full, same, get_with_querier, read, commit_with, bad) (refused bad)
            | inl (_, d', done) ↦
                rw (replay, full, same, get_with_querier, read, commit_with, done)
                  (replayed held found (rw (bytes_eq→eq stored.hash request_hash same) request) read
                    done)
          ]
        ]
      ]
    ]

    record_key-Fate :
        (missing : DbError) (v : Item) (t t' : T)
        → IsLocked m key_hash d t
        → tx.select_key (m + 2 + 2) key_hash t ≡ err missing
        → missing.no_rows ≡ true
        → tx.queries.insert_item (m + 2 + 2 + 1) value t ≡ (ok v, t')
        → Fate m key_hash fingerprint value d
            (record_key tx (m + 2 + 2 + 1 + 1) key_hash request_hash (in_utc v) t' d)
    unfolding record_key commit_with
    record_key-Fate missing v t t' held lookup fresh inserted =
        elim (Answer-cases (
          tx.insert_key (m + 2 + 2 + 1 + 1) key_hash request_hash v.id
            (idempotency_record_retention / 1_000_000_000) t')) [
              | inr (e, t'', bad) ↦ rw (record_key, bad) (failed _)
              | inl (_, t'', recorded) ↦
                  elim (Answer-cases (tx.commit (m + 2 + 2 + 1 + 1 + 1) t'' d)) [
                    | inr (e, d', bad) ↦
                        rw (record_key, recorded, recorded, commit_with, bad) (refused bad)
                    | inl (_, d', done) ↦
                        rw (record_key, recorded, recorded, commit_with, done)
                          (created held lookup fresh request inserted recorded done)
                  ]
            ]

    insert_new-Fate :
        (missing : DbError) (t : T)
        → IsLocked m key_hash d t
        → tx.select_key (m + 2 + 2) key_hash t ≡ err missing
        → missing.no_rows ≡ true
        → Fate m key_hash fingerprint value d
            (insert_new tx (m + 2 + 2 + 1) key_hash request_hash value t d)
    unfolding insert_new create_with_querier
    insert_new-Fate missing t held lookup fresh =
        elim (Answer-cases (tx.queries.insert_item (m + 2 + 2 + 1) value t)) [
          | inr (e, t', bad) ↦ rw (insert_new, create_with_querier, bad) (failed _)
          | inl (v, t', inserted) ↦
              rw (insert_new, create_with_querier, inserted, create_with_querier, inserted)
                (record_key-Fate missing v t t' held lookup fresh inserted)
        ]

    look_up-Fate :
        (t : T)
        → IsLocked m key_hash d t
        → Fate m key_hash fingerprint value d
            (look_up tx (m + 2 + 2) key_hash request_hash value t d)
    unfolding look_up
    look_up-Fate t held = elim (Result-cases (tx.select_key (m + 2 + 2) key_hash t)) [
      | inl (stored, found) ↦ rw (look_up, found) (replay-Fate stored t held found)
      | inr (e, missing) ↦ elim (Bool-cases e.no_rows) [
        | inl fresh ↦ rw (look_up, missing, fresh) (insert_new-Fate e t held missing fresh)
        | inr bad ↦ rw (look_up, missing, bad) (failed _)
      ]
    ]

    transact-Fate :
        (t : T)
        → tx.begin (m + 1) d ≡ ok t
        → Fate m key_hash fingerprint value d (transact tx (m + 2) key_hash request_hash value t d)
    unfolding transact
    transact-Fate t begun = elim (Answer-cases (tx.lock (m + 2) (advisory_lock_id key_hash) t)) [
      | inr (e, t', bad) ↦ rw (transact, bad) (failed _)
      | inl (false, t', busy) ↦ rw (transact, busy) (failed _)
      | inl (true, t', got) ↦ elim (Answer-cases (tx.cleanup (m + 2 + 1) t')) [
        | inr (e, t'', bad) ↦ rw (transact, got, got, bad) (failed _)
        | inl (_, t'', clean) ↦
            rw (transact, got, got, clean, got, clean) (look_up-Fate t'' (locked begun got clean))
      ]
    ]

validate-decode :
    (key fingerprint request_hash : Bytes) (value : Item)
    → validate_idempotent_request key fingerprint value ≡ ok request_hash
    → decode_digest fingerprint ≡ some request_hash
unfolding validate_idempotent_request
validate-decode key fingerprint request_hash value h =
    elim (Option-cases (decode_digest fingerprint)) [
      | inl bad ↦ absurd (ground arith)
      | inr (digest, good) ↦ ground arith
    ]

-- A call of a store that can begin transactions ends in one of four ways: an error, the database as it was; the error of
-- a refused commit; under the lock of the key, the committed replay of a record that has the hash of the request; or,
-- under the lock of a key without a record, the committed insertion of the item and of its record.
pub create_idempotent-Fate :
    {D T : Type 0} (sha : Sha256) (tx : Transactions D T) (ctx : Option Context) (m : ℕ)
    (value : Item) (key fingerprint : Bytes) (d : D)
    → Fate tx m
        (sha.digest key)
        fingerprint
        value
        d
        (create_idempotent sha (some tx) ctx m value key fingerprint d)
unfolding create_idempotent
create_idempotent-Fate sha tx ctx m value key fingerprint d =
    elim (Result-cases
      (do context_error ctx m; validate_idempotent_request key fingerprint value)) [
        | inr (e, bad) ↦ rw (create_idempotent, bad) (failed e)
        | inl (rh, valid) ↦ elim (Result-cases (tx.begin (m + 1) d)) [
          | inr (e, bad) ↦ rw (create_idempotent, valid, bad) (failed _)
          | inl (t, begun) ↦
              rw (create_idempotent, valid, begun)
                (transact-Fate tx m (sha.digest key) fingerprint rh value d
                  (elim (Result-cases (context_error ctx m)) [
                    | inl (_, live) ↦ validate-decode key fingerprint rh value (ground arith)
                    | inr (e, bad) ↦ absurd (ground arith)
                  ])
                  t begun)
        ]
      ]
