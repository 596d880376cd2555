-- ===== src/Memory/Idempotent.antt =====
-- internal/item/memory/idempotency.go: the idempotent create, in the three sections that it runs under
-- its locks. Between the sections other calls may run.
use go_clean_architecture.Prelude.{
  ℕ, pos, pos_part, ltb_ℤ, ◌+◌, Bool, true, false, not, ◌||◌, Option, none, some, leb, ◌==◌,
  if◌then◌else◌, Bytes, bytes_eq, length, Result, ok, err, ◌>>=◌, ◌>>◌, fail_if,
}
use go_clean_architecture.Std.Time.{Time, is_zero, to_utc, before, add}
use go_clean_architecture.Std.Hex
use go_clean_architecture.Dict.{lookup, insert, erase, drop_if}
use go_clean_architecture.Item.Errors.{
  Error, sentinel, is, canceled, deadline_exceeded, idempotency_conflict, idempotency_in_progress,
  idempotency_unavailable, idempotency_state,
}
use go_clean_architecture.Item.Context.{Context, Clock, context_error}
use go_clean_architecture.Item.Model.{is_nil, Item}
use go_clean_architecture.Item.Cursor.{Sha256}
use go_clean_architecture.Item.Idempotency.{
  validate_idempotency_key, idempotency_record_retention, max_idempotency_entries,
}
use go_clean_architecture.Memory.{Memory, IdempotencyEntry, create_item, get_item}

-- `maxIdempotencyEntries`
unfoldable pub entry_bound : Memory → ℕ
entry_bound s =
    if ltb_ℤ (pos 0) s.max_entries then pos_part s.max_entries else max_idempotency_entries

-- `decodeDigest`
unfoldable pub decode_digest : Bytes → Option Bytes
decode_digest value =
    if length value == 64
    then elim (Hex.decode value) [
      | none ↦ none
      | some digest ↦ if length digest == 32 then some digest else none
    ]
    else none

-- `validateRequest`, which returns the digest that the caller decodes again.
unfoldable pub validate_request : Bytes → Bytes → Item → Result Error Bytes
unfolding decode_digest
validate_request key fingerprint value = do
  validate_idempotency_key key
  fail_if (is_nil value.id) (sentinel idempotency_state)
  elim (decode_digest fingerprint) [
    | none ↦ err (sentinel idempotency_state)
    | some digest ↦ ok digest
  ]

-- `cleanupIdempotencyLocked`
unfoldable pub cleanup : Time → Memory → Memory
cleanup now s = record s {
  idempotency = drop_if (λ e. not (before now e.expires_at)) s.idempotency;
}

-- What the first section decides: an earlier response is replayed, or the key is reserved.
pub data Decision : Type 0 where
  replay : Item → Decision
  reserved : Decision

-- A replay whose item cannot be read.
unfoldable pub replay_error : Error → Error
replay_error e = if is e canceled || is e deadline_exceeded then e else sentinel idempotency_state

unfoldable pub reserve_new : Bytes → Memory → Result Error Decision × Memory
unfolding entry_bound
reserve_new key_hash s = elim (lookup key_hash s.inflight) [
  | some _ ↦ (err (sentinel idempotency_in_progress), s)
  | none ↦
      if leb (entry_bound s) (length s.idempotency + length s.inflight)
      then (err (sentinel idempotency_unavailable), s)
      else (ok reserved, record s { inflight = insert key_hash tt s.inflight })
]

unfoldable pub answer_existing :
    Option Context → ℕ → Bytes → IdempotencyEntry → Memory → Result Error Decision
unfolding replay_error
answer_existing ctx m request_hash existing s =
    if bytes_eq existing.fingerprint request_hash
    then elim (get_item ctx m existing.item_id s) [
      | ok value ↦ ok (replay value)
      | err e ↦ err (replay_error e)
    ]
    else err (sentinel idempotency_conflict)

-- The first section: expired records go, a known key is answered, a new one reserved.
unfoldable pub reserve :
    Option Context → ℕ → Time → Bytes → Bytes → Memory → Result Error Decision × Memory
unfolding cleanup reserve_new answer_existing
reserve ctx m now key_hash request_hash s = elim (lookup key_hash (cleanup now s).idempotency) [
  | some existing ↦ (answer_existing ctx m request_hash existing (cleanup now s), cleanup now s)
  | none ↦ reserve_new key_hash (cleanup now s)
]

-- `clearInFlight`
unfoldable pub clear_in_flight : Bytes → Memory → Memory
clear_in_flight key_hash s = record s { inflight = erase key_hash s.inflight }

-- The last section: the reservation becomes a record.
unfoldable pub commit : Time → Bytes → Bytes → Item → Memory → Memory
commit now key_hash request_hash created s = record s {
  inflight = erase key_hash s.inflight;
  idempotency =
      insert key_hash
        (record {
          fingerprint = request_hash;
          item_id = created.id;
          expires_at = add now idempotency_record_retention;
        })
        s.idempotency;
}

module _ (sha : Sha256) (time_now : Clock) where
  -- `now`
  unfoldable pub now : Memory → ℕ → Time
  now s m = elim s.clock [
    | none ↦ to_utc (time_now m)
    | some clock ↦ if is_zero (clock m) then to_utc (time_now m) else to_utc (clock m)
  ]

  -- The end of a call that has reserved its key and got the answer of `Create`.
  unfoldable pub conclude :
      Option Context
      → ℕ
      → Bytes
      → Bytes
      → Result Error Item
      → Memory
      → Result Error (Item × Bool) × Memory
  unfolding now clear_in_flight commit
  conclude ctx m key_hash request_hash (err e) s = (err e, clear_in_flight key_hash s)
  conclude ctx m key_hash request_hash (ok created) s =
      if is_nil created.id
      then (err (sentinel idempotency_state), clear_in_flight key_hash s)
      else (
        (do context_error ctx (m + 1); ok (created, false)),
        commit (now s m) key_hash request_hash created s,
      )

  -- The second section is `Create`; it is reached only when the key has been reserved.
  unfoldable pub run_decision :
      Option Context
      → ℕ
      → Item
      → Bytes
      → Bytes
      → Result Error Decision × Memory
      → Result Error (Item × Bool) × Memory
  unfolding conclude
  run_decision ctx m value key_hash request_hash (err e, s) = (err e, s)
  run_decision ctx m value key_hash request_hash (ok (replay found), s) = (ok (found, true), s)
  run_decision ctx m value key_hash request_hash (ok reserved, s) =
      let (answer, s') = create_item ctx m value s in
      conclude ctx (m + 2) key_hash request_hash answer s'

  -- `CreateIdempotent`, when no other call runs between its sections.
  unfoldable pub create_idempotent :
      Option Context
      → ℕ
      → Item
      → Bytes
      → Bytes
      → Option Memory
      → Result Error (Item × Bool) × Option Memory
  unfolding validate_request reserve run_decision now
  create_idempotent ctx m value key fingerprint none = (
    (do
      context_error ctx m
      digest ← validate_request key fingerprint value
      err (sentinel idempotency_unavailable)),
    none,
  )
  create_idempotent ctx m value key fingerprint (some s) =
      elim (do context_error ctx m; validate_request key fingerprint value) [
        | err e ↦ (err e, some s)
        | ok request_hash ↦
            let key_hash = sha.digest key in
            let (answer, s') =
              run_decision ctx (m + 4) value key_hash request_hash
                (reserve ctx (m + 2) (now s (m + 1)) key_hash request_hash s) in
            (answer, some s')
      ]
