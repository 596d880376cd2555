-- ===== src/Tests/Creates.antt =====
-- Creates in the store of two items.
use go_clean_architecture.Prelude.{
  ◌+◌, ◌<◌, ◌≡◌, refl, if◌then◌else◌, true, false, none, some, [], ◌∷◌, arith, Bytes, codes, length,
  replicate, bytes_eq, ok, err,
}
use go_clean_architecture.Std.Time.{is_zero, signed, before, add}
use go_clean_architecture.Std.Hex
use go_clean_architecture.Dict.{entry, lookup, insert, erase, drop_if}
use go_clean_architecture.Item.Errors.{sentinel, idempotency_conflict}
use go_clean_architecture.Item.Idempotency.{
  idempotency_record_retention, validate_idempotency_key, check_characters, is_token_character,
}
use go_clean_architecture.Item.Model.{Item}
use go_clean_architecture.Memory.{Memory, create_item}
use go_clean_architecture.Memory.Idempotent.{
  entry_bound, decode_digest, validate_request, cleanup, commit, now, create_idempotent,
}
use go_clean_architecture.Memory.Validity.{
  IsValid, create_item-IsCreated, Kept, IsCreated, commit-IsValid,
}
use go_clean_architecture.Memory.Replay.{
  Records, create_idempotent-Records, create_idempotent-create_idempotent,
}
use go_clean_architecture.Tests.{sha, ctx, live, clock, noon, item_of, older, two_items}

program : Unit {0}
unfolding lookup insert erase drop_if bytes_eq entry_bound cleanup validate_request
    validate_idempotency_key check_characters is_token_character decode_digest Hex.decode now commit
    is_zero before signed add
program = tt

pub two_items-IsValid : IsValid two_items
unfolding program
two_items-IsValid = record {
  items_map = (refl, (refl, tt));
  records_map = tt;
  recorded = λ k e h. absurd (ground arith);
  apart = λ k e h. refl;
  bounded = omega arith;
}

abbrev value : Item
value = item_of 3 62_700_000_000

abbrev pub key : Bytes
key = codes "key-1"

-- The digest in hexadecimal, and its bytes.
abbrev fingerprint : Bytes
fingerprint = replicate 64 b'1'

abbrev pub request_hash : Bytes
request_hash = replicate 32 17

value_request : validate_request key fingerprint value ≡ ok request_hash
unfolding program
value_request = refl

older_request : validate_request key fingerprint older ≡ ok request_hash
unfolding program
older_request = refl

create_item-IsCreated_example :
    IsValid (create_item (some ctx) 0 value two_items).1
    × Kept two_items (create_item (some ctx) 0 value two_items).1
    × IsCreated value two_items (create_item (some ctx) 0 value two_items)
create_item-IsCreated_example = create_item-IsCreated (some ctx) 0 value two_items two_items-IsValid

-- The store while a call with the key creates the older item.
abbrev pub creating : Memory
creating = record two_items { inflight = entry (sha.digest key) tt ∷ [] }

creating-IsValid : IsValid creating
unfolding program
creating-IsValid = record {
  items_map = (refl, (refl, tt));
  records_map = tt;
  recorded = λ k e h. absurd (ground arith);
  apart = λ k e h. absurd (ground arith);
  bounded = omega arith;
}

key_held : lookup (sha.digest key) creating.inflight ≡ some tt
unfolding program
key_held = refl

older_stored : lookup older.id creating.items ≡ some older
unfolding program
older_stored = refl

-- The store when the key has been recorded with the older item.
abbrev pub done : Memory
done = commit noon (sha.digest key) request_hash older creating

pub done-IsValid : IsValid done
done-IsValid =
    commit-IsValid noon (sha.digest key) request_hash older creating key_held older_stored
      creating-IsValid

done-Records : Records done (sha.digest key) request_hash older (now sha clock done 1)
unfolding program
done-Records = record {
  e = record {
    fingerprint = request_hash;
    item_id = older.id;
    expires_at = add noon idempotency_record_retention;
  };
  found = refl;
  fingerprint = refl;
  item = refl;
  alive = refl;
}

create_idempotent-Records_example :
    create_idempotent sha clock (some ctx) 0 value key fingerprint (some done) ≡ (
      if bytes_eq request_hash request_hash
          then ok (older, true)
          else err (sentinel idempotency_conflict),
      some (cleanup (now sha clock done 1) done),
    )
create_idempotent-Records_example =
    create_idempotent-Records sha clock ctx live 0 done value older key fingerprint request_hash
      request_hash done-IsValid value_request done-Records

no_record :
    lookup (sha.digest key) (cleanup (now sha clock two_items 1) two_items).idempotency ≡ none
unfolding program
no_record = refl

no_call : lookup (sha.digest key) two_items.inflight ≡ none
unfolding program
no_call = refl

room :
    length (cleanup (now sha clock two_items 1) two_items).idempotency + length two_items.inflight
    < entry_bound two_items
unfolding program
room = omega arith

new_id : lookup value.id two_items.items ≡ none
unfolding program
new_id = refl

soon :
    before
      (now sha clock two_items 9)
      (add (now sha clock two_items 6) idempotency_record_retention)
    ≡ true
unfolding program
soon = refl

create_idempotent-create_idempotent_example :
    (t : Memory) × (create_idempotent sha clock (some ctx) 0 value key fingerprint (some two_items)
      ≡ (ok (value, false), some t))
    × (create_idempotent sha clock (some ctx) 8 older key fingerprint (some t)
        ≡ (ok (value, true), some (cleanup (now sha clock two_items 9) t)))
create_idempotent-create_idempotent_example =
    create_idempotent-create_idempotent sha clock ctx live 0 8 two_items value older key fingerprint
      request_hash two_items-IsValid value_request older_request no_record no_call room new_id soon
