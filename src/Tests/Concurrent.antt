-- ===== src/Tests/Concurrent.antt =====
-- Two idempotent creates with one key at the same time.
use go_clean_architecture.Prelude.{ℕ, ◌≡◌, refl, false, none, some, bytes_eq, Bytes, ◌==◌}
use go_clean_architecture.Std.Time.{before, signed, add}
use go_clean_architecture.Dict.{lookup, insert, erase, drop_if}
use go_clean_architecture.Item.Model.{Item}
use go_clean_architecture.Memory.{IdempotencyEntry, create_item}
use go_clean_architecture.Memory.Idempotent.{
  cleanup, reserve, reserve_new, entry_bound, commit, conclude,
}
use go_clean_architecture.Memory.Calls.{
  System, Reach, Step, here, next, finished, begin_call, create_call, conclude_call, begun, holding,
  idle,
}
use go_clean_architecture.Memory.Calls.Safety.{IsSafe, start-IsSafe, Reach-IsSafe}
use go_clean_architecture.Memory.Calls.Progress.{
  holding-finished, StaysRecorded, Step-StaysRecorded,
}
use go_clean_architecture.Tests.{sha, clock, ctx, noon, item_of, older, two_items}
use go_clean_architecture.Tests.Creates.{two_items-IsValid, done, done-IsValid, key, request_hash}

program : Unit {0}
unfolding lookup insert erase drop_if bytes_eq cleanup reserve reserve_new entry_bound begin_call
    begun commit before signed add
program = tt

abbrev first : System
first = record { store = two_items; phase = λ i. idle }

abbrev value : Item
value = item_of 3 62_700_000_000

abbrev second : System
second = begin_call (some ctx) 0 noon (sha.digest key) request_hash value 0 first

begins : Reach sha clock first second
begins = next here (Step.begin (some ctx) 0 noon (sha.digest key) request_hash value 0 refl)

value_held : second.phase 0 ≡ holding (sha.digest key) request_hash value
unfolding program
value_held = refl

Reach-IsSafe_example : IsSafe second
Reach-IsSafe_example =
    Reach-IsSafe sha clock (start-IsSafe sha clock two_items two_items-IsValid) begins

abbrev created : System
created = create_call (some ctx) 2 (sha.digest key) request_hash value 0 second

abbrev concluded : System
concluded =
    conclude_call sha clock none 4 (sha.digest key) request_hash
      (create_item (some ctx) 2 value second.store).0 0 created

holding-finished_example :
    Step sha clock second created
    × Step sha clock created concluded
    × (concluded.phase 0
        ≡ finished (
            (conclude sha clock none 4
              (sha.digest key)
              request_hash
              (create_item (some ctx) 2 value second.store).0
              created.store).0))
    × (lookup (sha.digest key) concluded.store.inflight ≡ none)
    × ((l : Bytes)
        → bytes_eq (sha.digest key) l ≡ false
        → lookup l concluded.store.inflight ≡ lookup l second.store.inflight)
    × ((j : ℕ) → (0 == j) ≡ false → concluded.phase j ≡ second.phase j)
holding-finished_example =
    holding-finished sha clock (some ctx) none 2 4 (sha.digest key) request_hash value 0 second
      value_held

abbrev entry_of_done : IdempotencyEntry
entry_of_done = record {
  fingerprint = request_hash;
  item_id = older.id;
  expires_at = add noon 86_400_000_000_000;
}

done_recorded : lookup (sha.digest key) done.idempotency ≡ some entry_of_done
unfolding program
done_recorded = refl

abbrev later : System
later = record { store = done; phase = λ i. idle }

Step-StaysRecorded_example :
    StaysRecorded sha clock
      (sha.digest key)
      entry_of_done
      (some noon)
      (begin_call (some ctx) 0 noon (sha.digest key) request_hash value 0 later)
Step-StaysRecorded_example =
    Step-StaysRecorded sha clock {s = later} (sha.digest key) entry_of_done
      (start-IsSafe sha clock done done-IsValid)
      (Step.begin (some ctx) 0 noon (sha.digest key) request_hash value 0 refl) done_recorded
