-- ===== src/Tests.antt =====
-- The theorems at concrete inputs: a store of two items, a codec without expiry, and stand-ins for
-- SHA-256 and the UUID library.
mod Listing
mod Tokens
mod Creates
mod Bearer
mod Requests
mod Concurrent
mod Limits
mod Secured
mod Stored
mod Observed
mod Labels
mod Configured
mod Started
mod Tracked
mod Bootstrapped
use go_clean_architecture.Prelude.{
  ℕ, pos, ◌%◌, Option, none, some, [], ◌∷◌, refl, Bytes, codes, length, replicate, ok, true, arith,
}
use go_clean_architecture.Std.Time.{Time, zero_time}
use go_clean_architecture.Std.Text.{ascii}
use go_clean_architecture.Dict.{entry}
use go_clean_architecture.Item.Context.{Context, Clock, IsLive}
use go_clean_architecture.Item.Model.{Uuid, Item}
use go_clean_architecture.Item.Cursor.{Sha256, SignedCursorCodec, cursor_purpose}
use go_clean_architecture.Item.Cursor.Fields.{replicate-IsByteList}
use go_clean_architecture.Item.Ports.{UuidLib, signed}
use go_clean_architecture.Item.Service.{Service}
use go_clean_architecture.Memory.{Memory}
use go_clean_architecture.Paging.{memory_store}

-- A checksum in place of SHA-256 and of the MAC.
abbrev pub sum : Bytes → Bytes
sum bs = length bs % 256 ∷ replicate 31 0

abbrev pub sha : Sha256
sha = record {
  digest = sum;
  hmac = λ key bs. sum bs;
  digest_length = λ bs. refl;
  hmac_length = λ key bs. refl;
  digest_bytes = λ bs. (omega arith, replicate-IsByteList 31);
  hmac_bytes = λ key bs. (omega arith, replicate-IsByteList 31);
}

abbrev pub uuids : UuidLib
uuids = record { version = λ id. 4; is_rfc4122 = λ id. true; to_string = λ id. id }

abbrev pub ctx : Context
ctx = record { error_at = λ m. none; scope = none }

abbrev pub live : IsLive ctx
live = record { alive = λ m. refl }

abbrev pub noon : Time
noon = record { sec = 63_000_000_000; nsec = 5; utc = true }

abbrev pub clock : Clock
clock m = noon

abbrev pub id_of : ℕ → Uuid
id_of n = n ∷ replicate 15 1

abbrev pub item_of : ℕ → ℕ → Item
item_of n sec = record {
  id = id_of n;
  name = ascii (codes "pen");
  description = [];
  created_at = record { sec = sec; nsec = 0; utc = true };
}

abbrev pub older : Item
older = item_of 1 62_000_000_000

abbrev pub newest : Item
newest = item_of 2 62_500_000_000

abbrev pub two_items : Memory
two_items = record {
  items = entry older.id older ∷ entry newest.id newest ∷ [];
  idempotency = [];
  inflight = [];
  max_entries = pos 3;
  clock = none;
}

abbrev pub codec : SignedCursorCodec
codec = record { key = replicate 32 0; ttl = pos 0; clock = some clock; purpose = cursor_purpose }

abbrev pub service : Service (Option Memory)
service = record {
  store = some (memory_store uuids sha clock);
  generate_id = λ m. ok (id_of 3);
  clock = clock;
  cursor_codec = some (signed sha clock codec);
}
