-- ===== src/Memory/Validity.antt =====
-- The invariant of the memory store, and that every section of its calls keeps it.
use go_clean_architecture.Prelude.{
  ℕ, ◌+◌, ◌≤◌, ◌<◌, ◌≡◌, ◌≢◌, refl, Bool, not, ◌⊎◌, inl, inr, Option, none, some, arith, leb, Bytes,
  bytes_eq, bytes_eq→eq, length, Result, ok, err, Bool-cases, Option-cases, Result-cases,
}
use go_clean_architecture.Std.Time.{Time, before, add}
use go_clean_architecture.Dict.{lookup, insert}
use go_clean_architecture.Dict.Laws.{
  IsMap, lookup-insert, lookup-insert_self, lookup-erase, insert-IsMap, drop_if-IsMap,
  lookup-drop_if-some, length-insert-le, length-erase-le, length-erase-some, length-drop_if-le,
}
use go_clean_architecture.Item.Errors.{
  Error, sentinel, wrap, conflict, idempotency_in_progress, idempotency_unavailable,
}
use go_clean_architecture.Item.Context.{Context, context_error}
use go_clean_architecture.Item.Model.{Item}
use go_clean_architecture.Item.Idempotency.{idempotency_record_retention}
use go_clean_architecture.Memory.{Memory, IdempotencyEntry, create_item, get_item}
use go_clean_architecture.Memory.Idempotent.{
  entry_bound, cleanup, Decision, reserved, reserve_new, answer_existing, reserve, clear_in_flight,
  commit,
}

pub record IsValid (s : Memory) : Type 0 where
  -- an id, and a key, has one entry
  pub items_map : IsMap s.items
  pub records_map : IsMap s.idempotency
  -- a replay record names an item that is there
  pub recorded :
      (k : Bytes) (e : IdempotencyEntry)
      → lookup k s.idempotency ≡ some e
      → (v : Item) × (lookup e.item_id s.items ≡ some v)
  -- a key is reserved or recorded, not both
  pub apart :
      (k : Bytes) (e : IdempotencyEntry)
      → lookup k s.idempotency ≡ some e
      → lookup k s.inflight ≡ none
  -- completed and reserved keys together stay within the bound
  pub bounded : length s.idempotency + length s.inflight ≤ entry_bound s

-- Items are never changed or removed.
abbrev pub Kept : Memory → Memory → Type 0
Kept s t = (id : Bytes) (v : Item) → lookup id s.items ≡ some v → lookup id t.items ≡ some v

insert_item-Kept :
    (value : Item) (s : Memory)
    → lookup value.id s.items ≡ none
    → Kept s (record s { items = insert value.id value s.items })
insert_item-Kept value s absent id v h = elim (Bool-cases (bytes_eq value.id id)) [
  | inl e ↦ absurd (ground (arith, bytes_eq→eq value.id id e))
  | inr e ↦ rw (lookup-insert value.id id value s.items, e) h
]

pub insert_item-IsValid :
    (value : Item) (s : Memory)
    → lookup value.id s.items ≡ none
    → IsValid s
    → IsValid (record s { items = insert value.id value s.items })
unfolding entry_bound
insert_item-IsValid value s absent h = record {
  items_map = insert-IsMap value.id value s.items h.items_map;
  records_map = h.records_map;
  recorded = λ k e at.
      let (v, there) = h.recorded k e at in (v, insert_item-Kept value s absent e.item_id v there);
  apart = h.apart;
  bounded = h.bounded;
}

-- `Create` on each of its branches: the store stays as it was, or a new id is entered.
pub create_item-cases :
    (ctx : Option Context) (m : ℕ) (value : Item) (s : Memory)
    → ((e : Error) × (create_item ctx m value s ≡ (err e, s)))
      ⊎ ((lookup value.id s.items ≡ none)
          × (create_item ctx m value s
              ≡ (ok value, record s { items = insert value.id value s.items })))
unfolding create_item
create_item-cases ctx m value s = elim (Result-cases (context_error ctx m)) [
  | inr (e, first) ↦ inl (e, ground arith)
  | inl (_, first) ↦ elim (Result-cases (context_error ctx (m + 1))) [
    | inr (e, second) ↦ inl (e, ground arith)
    | inl (_, second) ↦ elim (Option-cases (lookup value.id s.items)) [
      | inl absent ↦ inr (absent, ground arith)
      | inr (v, there) ↦ inl (wrap (sentinel conflict), ground arith)
    ]
  ]
]

-- `Create` keeps the invariant of the memory store, whatever it answers.
pub create_item-IsValid :
    (ctx : Option Context) (m : ℕ) (value : Item) (s : Memory)
    → IsValid s
    → IsValid (create_item ctx m value s).1
create_item-IsValid ctx m value s h = elim (create_item-cases ctx m value s) [
  | inl (e, same) ↦ rw same h
  | inr (absent, new) ↦ rw new (insert_item-IsValid value s absent h)
]

pub create_item-Kept :
    (ctx : Option Context) (m : ℕ) (value : Item) (s : Memory)
    → Kept s (create_item ctx m value s).1
create_item-Kept ctx m value s id v at = elim (create_item-cases ctx m value s) [
  | inl (e, same) ↦ rw same at
  | inr (absent, new) ↦ rw new (insert_item-Kept value s absent id v at)
]

-- What `Create` answers, and the store behind it.
abbrev pub IsCreated : Item → Memory → Result Error Item × Memory → Type 0
IsCreated value s (err e, t) = t ≡ s
IsCreated value s (ok v, t) =
    (v ≡ value) × (lookup value.id s.items ≡ none) × (lookup value.id t.items ≡ some value)

-- `Create` keeps the invariant of the memory store and every stored item as it is, whatever it answers. With an error the
-- store does not change; without one the item's id was not there, the item is there afterwards, and it is the answer.
pub create_item-IsCreated :
    (ctx : Option Context) (m : ℕ) (value : Item) (s : Memory)
    → IsValid s
    → IsValid (create_item ctx m value s).1
      × Kept s (create_item ctx m value s).1
      × IsCreated value s (create_item ctx m value s)
create_item-IsCreated ctx m value s h = (
  create_item-IsValid ctx m value s h,
  create_item-Kept ctx m value s,
  elim (create_item-cases ctx m value s) [
    | inl (e, same) ↦ rw same refl
    | inr (absent, new) ↦ rw new (refl, absent, lookup-insert_self value.id value s.items)
  ],
)

pub cleanup-IsValid : (now : Time) (s : Memory) → IsValid s → IsValid (cleanup now s)
unfolding cleanup entry_bound
cleanup-IsValid now s h =
    let expired : IdempotencyEntry → Bool = λ e. not (before now e.expires_at) in
    record {
      items_map = h.items_map;
      records_map = drop_if-IsMap expired s.idempotency h.records_map;
      recorded = λ k e at.
          h.recorded k e (lookup-drop_if-some expired k s.idempotency e h.records_map at).0;
      apart =
          λ k e at. h.apart k e (lookup-drop_if-some expired k s.idempotency e h.records_map at).0;
      bounded = omega (arith, length-drop_if-le expired s.idempotency, h.bounded);
    }

-- What reserving does to a store, on each branch.
pub reserve_new-cases :
    (k : Bytes) (s : Memory)
    → ((e : Error) × (reserve_new k s ≡ (err e, s)))
      ⊎ ((lookup k s.inflight ≡ none)
          × (length s.idempotency + length s.inflight < entry_bound s)
          × (reserve_new k s ≡ (ok reserved, record s { inflight = insert k tt s.inflight })))
unfolding reserve_new
reserve_new-cases k s = elim (Option-cases (lookup k s.inflight)) [
  | inr (v, taken) ↦ inl (sentinel idempotency_in_progress, rw (taken, reserve_new) refl)
  | inl free ↦ elim (Bool-cases (leb (entry_bound s) (length s.idempotency + length s.inflight))) [
    | inl full ↦ inl (sentinel idempotency_unavailable, rw (free, full, reserve_new) refl)
    | inr room ↦ inr (free, ground arith, rw (free, room, reserve_new) refl)
  ]
]

pub insert_inflight-IsValid :
    (k : Bytes) (s : Memory)
    → lookup k s.idempotency ≡ none
    → lookup k s.inflight ≡ none
    → length s.idempotency + length s.inflight < entry_bound s
    → IsValid s
    → IsValid (record s { inflight = insert k tt s.inflight })
unfolding entry_bound
insert_inflight-IsValid k s unrecorded free room h = record {
  items_map = h.items_map;
  records_map = h.records_map;
  recorded = h.recorded;
  apart = λ j e at. elim (Bool-cases (bytes_eq k j)) [
    | inl same ↦ absurd (ground (arith, bytes_eq→eq k j same))
    | inr other ↦ rw (lookup-insert k j tt s.inflight, other) (h.apart j e at)
  ];
  bounded = omega (arith, length-insert-le k tt s.inflight, room);
}

pub clear_in_flight-IsValid : (k : Bytes) (s : Memory) → IsValid s → IsValid (clear_in_flight k s)
unfolding clear_in_flight entry_bound
clear_in_flight-IsValid k s h = record {
  items_map = h.items_map;
  records_map = h.records_map;
  recorded = h.recorded;
  apart = λ j e at. ground (arith, lookup-erase k j s.inflight, h.apart j e at);
  bounded = omega (arith, length-erase-le k s.inflight, h.bounded);
}

-- The last section keeps the invariant when the key is reserved and its item is stored.
pub commit-IsValid :
    (now : Time) (k rh : Bytes) (created : Item) (s : Memory)
    → lookup k s.inflight ≡ some tt
    → lookup created.id s.items ≡ some created
    → IsValid s
    → IsValid (commit now k rh created s)
unfolding commit entry_bound
commit-IsValid now k rh created s held stored h =
    let record_of : IdempotencyEntry = record {
      fingerprint = rh;
      item_id = created.id;
      expires_at = add now idempotency_record_retention;
    } in
    record {
      items_map = h.items_map;
      records_map = insert-IsMap k record_of s.idempotency h.records_map;
      recorded = λ j e at. elim (Bool-cases (bytes_eq k j)) [
        | inl same ↦ (created, ground (arith, lookup-insert k j record_of s.idempotency))
        | inr other ↦ h.recorded j e (ground (arith, lookup-insert k j record_of s.idempotency))
      ];
      apart = λ j e at. elim (Bool-cases (bytes_eq k j)) [
        | inl same ↦ rw (lookup-erase k j s.inflight, same) refl
        | inr other ↦
            rw (lookup-erase k j s.inflight, other)
              (h.apart j e (ground (arith, lookup-insert k j record_of s.idempotency)))
      ];
      bounded = omega (
        arith,
        length-insert-le k record_of s.idempotency,
        length-erase-some k s.inflight tt held,
        h.bounded,
      );
    }

answer_existing-ne :
    (ctx : Option Context) (m : ℕ) (rh : Bytes) (e : IdempotencyEntry) (s : Memory)
    → answer_existing ctx m rh e s ≢ ok reserved
unfolding answer_existing
answer_existing-ne ctx m rh e s = elim (Result-cases (get_item ctx m e.item_id s)) [
  | inl (v, found) ↦ λ p. ground arith
  | inr (x, failed) ↦ λ p. ground arith
]

-- The first section, on each of its branches: it answers for the key without a reservation, or reserves a
-- key that is neither recorded nor in flight.
pub reserve-cases :
    (ctx : Option Context) (m : ℕ) (now : Time) (k rh : Bytes) (s : Memory)
    → ((r : Result Error Decision) × (r ≢ ok reserved)
        × (reserve ctx m now k rh s ≡ (r, cleanup now s)))
      ⊎ ((lookup k (cleanup now s).idempotency ≡ none)
          × (lookup k (cleanup now s).inflight ≡ none)
          × (reserve ctx m now k rh s ≡ (
            ok reserved,
            record s {
              idempotency = (cleanup now s).idempotency;
              inflight = insert k tt s.inflight;
            },
          )))
unfolding reserve
reserve-cases ctx m now k rh s = elim (Option-cases (lookup k (cleanup now s).idempotency)) [
  | inr (e, known) ↦ inl (
    answer_existing ctx m rh e (cleanup now s),
    answer_existing-ne ctx m rh e (cleanup now s),
    rw (known, reserve) refl,
  )
  | inl unknown ↦ elim (reserve_new-cases k (cleanup now s)) [
    | inl (x, same) ↦ inl (err x, (λ p. cc), rw (unknown, reserve) same)
    | inr (free, room, new) ↦ inr (unknown, free, rw (unknown, reserve) new)
  ]
]

-- The first section of the idempotent create keeps the invariant, whatever it answers.
pub reserve-IsValid :
    (ctx : Option Context) (m : ℕ) (now : Time) (k rh : Bytes) (s : Memory)
    → IsValid s
    → IsValid (reserve ctx m now k rh s).1
unfolding reserve
reserve-IsValid ctx m now k rh s h =
    let c = cleanup-IsValid now s h in
    elim (Option-cases (lookup k (cleanup now s).idempotency)) [
      | inr (e, known) ↦ rw (known, reserve) c
      | inl unknown ↦ elim (reserve_new-cases k (cleanup now s)) [
        | inl (x, same) ↦ rw (unknown, reserve, same) c
        | inr (free, room, new) ↦
            rw (unknown, reserve, new)
              (insert_inflight-IsValid k (cleanup now s) unknown free room c)
      ]
    ]
