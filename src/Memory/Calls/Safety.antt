-- ===== src/Memory/Calls/Safety.antt =====
-- What holds in every state that concurrent idempotent creates can reach.
use go_clean_architecture.Prelude.{
  ℕ, ◌+◌, ◌≡◌, ◌≢◌, refl, Bool, false, ◌⊎◌, inl, inr, Option, none, some, arith, Bytes, bytes_eq,
  bytes_eq→eq, Result, ok, err, ◌==◌, Bool-cases, ◌>>◌,
}
use go_clean_architecture.Std.Time.{Time}
use go_clean_architecture.Dict.{lookup, insert, erase}
use go_clean_architecture.Dict.Laws.{lookup-insert, lookup-insert_self, lookup-erase}
use go_clean_architecture.Item.Errors.{Error, sentinel, idempotency_state}
use go_clean_architecture.Item.Context.{Context, Clock, context_error}
use go_clean_architecture.Item.Model.{Item, is_nil}
use go_clean_architecture.Item.Cursor.{Sha256}
use go_clean_architecture.Memory.{Memory, create_item}
use go_clean_architecture.Memory.Idempotent.{
  Decision, replay, reserved, cleanup, clear_in_flight, commit, conclude, now,
}
use go_clean_architecture.Memory.Validity.{
  IsValid, Kept, create_item-cases, create_item-IsValid, create_item-Kept, reserve-cases,
  reserve-IsValid, clear_in_flight-IsValid, commit-IsValid,
}
use go_clean_architecture.Memory.Calls.{
  Phase, idle, holding, concluding, finished, System, set_phase, begun, begin_call, create_call,
  conclude_call, Step, Reach, here, next,
}

-- The key that a call has reserved.
abbrev pub key_of : Phase → Option Bytes
key_of idle = none
key_of (holding k rh value) = some k
key_of (concluding k rh answer) = some k
key_of (finished answer) = none

-- The item that a call has created and not yet recorded.
abbrev pub item_of : Phase → Option Item
item_of idle = none
item_of (holding k rh value) = none
item_of (concluding k rh (ok value)) = some value
item_of (concluding k rh (err e)) = none
item_of (finished answer) = none

pub record IsSafe (s : System) : Type 0 where
  pub valid : IsValid s.store
  -- a reserved key is marked in flight
  pub held : (i : ℕ) (k : Bytes) → key_of (s.phase i) ≡ some k → lookup k s.store.inflight ≡ some tt
  -- no two calls have reserved one key
  pub alone :
      (i j : ℕ) (k : Bytes) → key_of (s.phase i) ≡ some k → key_of (s.phase j) ≡ some k → i ≡ j
  -- a created item is there
  pub stored :
      (i : ℕ) (v : Item) → item_of (s.phase i) ≡ some v → lookup v.id s.store.items ≡ some v

-- One call moves to a phase in which it has reserved nothing that it had not before, and the store keeps its
-- items and its marks for the keys of the others.
retire :
    (s : System) (t : Memory) (i : ℕ) (p : Phase)
    → IsSafe s
    → IsValid t
    → Kept s.store t
    → key_of p ≡ none
    → item_of p ≡ none
    → ((j : ℕ) (k : Bytes)
        → (i == j) ≡ false
        → key_of (s.phase j) ≡ some k
        → lookup k t.inflight ≡ some tt)
    → IsSafe (record { store = t; phase = set_phase s.phase i p })
retire s t i p h v kept no_key no_item marks = record {
  valid = v;
  held = λ j k e. elim (Bool-cases (i == j)) [
    | inl same ↦ absurd (ground arith)
    | inr other ↦ marks j k other (ground arith)
  ];
  alone = λ j l k e f. h.alone j l k (ground arith) (ground arith);
  stored = λ j w e. kept w.id w (h.stored j w (ground arith));
}

-- One call moves to a phase with the key it had, and the store keeps its items and its marks.
advance :
    (s : System) (t : Memory) (i : ℕ) (p : Phase)
    → IsSafe s
    → IsValid t
    → Kept s.store t
    → t.inflight ≡ s.store.inflight
    → key_of p ≡ key_of (s.phase i)
    → ((v : Item) → item_of p ≡ some v → lookup v.id t.items ≡ some v)
    → IsSafe (record { store = t; phase = set_phase s.phase i p })
advance s t i p h v kept same keyed item = record {
  valid = v;
  held = λ j k e. elim (Bool-cases (i == j)) [
    | inl mine ↦ ground (arith, h.held i k)
    | inr other ↦ ground (arith, h.held j k)
  ];
  alone = λ j l k e f. ground (arith, h.alone j l k, h.alone i l k, h.alone j i k);
  stored = λ j w e. elim (Bool-cases (i == j)) [
    | inl mine ↦ item w (ground arith)
    | inr other ↦ kept w.id w (h.stored j w (ground arith))
  ];
}

begun-key_of :
    (k rh : Bytes) (value : Item) (r : Result Error Decision)
    → r ≢ ok reserved
    → (key_of (begun k rh value r) ≡ none) × (item_of (begun k rh value r) ≡ none)
unfolding begun
begun-key_of k rh value (err e) h = (refl, refl)
begun-key_of k rh value (ok (replay v)) h = (refl, refl)
begun-key_of k rh value (ok reserved) h = absurd (h refl)

cleanup-Kept : (t : Time) (s : Memory) → Kept s (cleanup t s)
unfolding cleanup
cleanup-Kept t s id v h = h

-- A call reserves a key that is not in flight.
claim :
    (s : System) (t : Memory) (i : ℕ) (k rh : Bytes) (value : Item)
    → IsSafe s
    → IsValid t
    → Kept s.store t
    → lookup k s.store.inflight ≡ none
    → t.inflight ≡ insert k tt s.store.inflight
    → IsSafe (record { store = t; phase = set_phase s.phase i (holding k rh value) })
claim s t i k rh value h v kept free marked = record {
  valid = v;
  held = λ j l e. elim (Bool-cases (i == j)) [
    | inl mine ↦ ground (arith, lookup-insert_self k tt s.store.inflight)
    | inr other ↦ ground (arith, lookup-insert k l tt s.store.inflight, h.held j l)
  ];
  alone = λ j l x e f. ground (arith, h.alone j l x, h.held j x, h.held l x);
  stored = λ j w e. kept w.id w (h.stored j w (ground arith));
}

begin_call-IsSafe :
    (ctx : Option Context) (m : ℕ) (t : Time) (k rh : Bytes) (value : Item) (i : ℕ) (s : System)
    → IsSafe s
    → IsSafe (begin_call ctx m t k rh value i s)
unfolding begin_call cleanup begun
begin_call-IsSafe ctx m t k rh value i s h =
    let valid = reserve-IsValid ctx m t k rh s.store h.valid in
    elim (reserve-cases ctx m t k rh s.store) [
      | inl (r, unreserved, e) ↦
          let (no_key, no_item) = begun-key_of k rh value r unreserved in
          rw e (
            retire s (cleanup t s.store) i (begun k rh value r) h (rw e at valid)
              (cleanup-Kept t s.store) no_key no_item (λ j l other f. h.held j l f))
      | inr (unknown, free, e) ↦
          rw e (claim s _ i k rh value h (rw e at valid) (λ id v f. f) free refl)
    ]

create_call-IsSafe :
    (ctx : Option Context) (m : ℕ) (k rh : Bytes) (value : Item) (i : ℕ) (s : System)
    → s.phase i ≡ holding k rh value
    → IsSafe s
    → IsSafe (create_call ctx m k rh value i s)
unfolding create_call
create_call-IsSafe ctx m k rh value i s at h =
    let valid = create_item-IsValid ctx m value s.store h.valid in
    let kept = create_item-Kept ctx m value s.store in
    elim (create_item-cases ctx m value s.store) [
      | inl (e, same) ↦ rw same (
          advance s s.store i (concluding k rh (err e)) h h.valid (λ id v f. f) refl (ground arith)
            (λ v f. absurd (ground arith)))
      | inr (absent, new) ↦ rw new (
          advance s _ i (concluding k rh (ok value)) h (rw new at valid) (rw new at kept) refl
            (ground arith) (λ v f. ground (arith, lookup-insert_self value.id value s.store.items)))
    ]

-- The other keys keep their marks when one is erased.
marks_of_others :
    (s : System) (i : ℕ) (k : Bytes)
    → IsSafe s
    → key_of (s.phase i) ≡ some k
    → (j : ℕ) (l : Bytes) → (i == j) ≡ false
    → key_of (s.phase j) ≡ some l
    → lookup l (erase k s.store.inflight) ≡ some tt
marks_of_others s i k h at j l other f = elim (Bool-cases (bytes_eq k l)) [
  | inl same ↦ absurd (ground (arith, bytes_eq→eq k l same, h.alone i j k))
  | inr apart ↦ rw (lookup-erase k l s.store.inflight, apart) (h.held j l f)
]

module _ (sha : Sha256) (time_now : Clock) where
  -- The last section gives the key up, or turns it into a record.
  pub conclude-cases :
      (ctx : Option Context) (m : ℕ) (k rh : Bytes) (answer : Result Error Item) (s : Memory)
      → ((r : Result Error (Item × Bool)) × (conclude sha time_now ctx m k rh answer s
            ≡ (r, clear_in_flight k s)))
        ⊎ ((v : Item) × (r : Result Error (Item × Bool)) × (answer ≡ ok v)
            × (conclude sha time_now ctx m k rh answer s
                ≡ (r, commit (now sha time_now s m) k rh v s)))
  unfolding conclude
  conclude-cases ctx m k rh (err e) s = inl (_, refl)
  conclude-cases ctx m k rh (ok v) s = elim (Bool-cases (is_nil v.id)) [
    | inl bad ↦ inl (err (sentinel idempotency_state), rw (bad, conclude) refl)
    | inr good ↦
        inr (v, (do context_error ctx (m + 1); ok (v, false)), refl, rw (good, conclude) refl)
  ]

  conclude_call-IsSafe :
      (ctx : Option Context) (m : ℕ) (k rh : Bytes) (answer : Result Error Item) (i : ℕ)
      (s : System)
      → s.phase i ≡ concluding k rh answer
      → IsSafe s
      → IsSafe (conclude_call sha time_now ctx m k rh answer i s)
  unfolding conclude_call clear_in_flight commit
  conclude_call-IsSafe ctx m k rh answer i s at h =
      let keyed : key_of (s.phase i) ≡ some k = ground arith in
      elim (conclude-cases ctx m k rh answer s.store) [
        | inl (r, e) ↦ rw e (
            retire s (clear_in_flight k s.store) i (finished r) h
              (clear_in_flight-IsValid k s.store h.valid) (λ id v f. f) refl refl
              (marks_of_others s i k h keyed))
        | inr (v, r, same, e) ↦ rw e (
            retire s (commit (now sha time_now s.store m) k rh v s.store) i (finished r) h
              (commit-IsValid (now sha time_now s.store m) k rh v s.store (h.held i k keyed)
                (h.stored i v (ground arith)) h.valid)
              (λ id w f. f) refl refl (marks_of_others s i k h keyed))
      ]

  plain-IsSafe :
      (ctx : Option Context) (m : ℕ) (value : Item) (s : System)
      → IsSafe s
      → IsSafe (record s { store = (create_item ctx m value s.store).1 })
  plain-IsSafe ctx m value s h =
      let kept = create_item-Kept ctx m value s.store in
      record {
        valid = create_item-IsValid ctx m value s.store h.valid;
        held = λ i k e. elim (create_item-cases ctx m value s.store) [
          | inl (x, same) ↦ rw same (h.held i k e)
          | inr (absent, new) ↦ rw new (h.held i k e)
        ];
        alone = h.alone;
        stored = λ i v e. kept v.id v (h.stored i v e);
      }

  -- Every step of the system keeps the invariant.
  pub Step-IsSafe : {s t : System} → Step sha time_now s t → IsSafe s → IsSafe t
  Step-IsSafe {s} (Step.begin ctx m t k rh value i at) h =
      begin_call-IsSafe ctx m t k rh value i s h
  Step-IsSafe {s} (Step.refuse e i at) h =
      retire s s.store i (finished (err e)) h h.valid (λ id v f. f) refl refl
        (λ j k other f. h.held j k f)
  Step-IsSafe {s} (Step.create ctx m k rh value i at) h =
      create_call-IsSafe ctx m k rh value i s at h
  Step-IsSafe {s} (Step.conclude ctx m k rh answer i at) h =
      conclude_call-IsSafe ctx m k rh answer i s at h
  Step-IsSafe {s} (Step.plain ctx m value) h = plain-IsSafe ctx m value s h

  -- From a safe state, whatever calls run and however their sections interleave: the store stays
  -- valid, every reserved key is in flight, no two calls have reserved one key, and an item that a call has
  -- created and not yet recorded is stored.
  pub Reach-IsSafe : {s t : System} → IsSafe s → Reach sha time_now s t → IsSafe t
  Reach-IsSafe h here = h
  Reach-IsSafe h (next r st) = Step-IsSafe st (Reach-IsSafe h r)

  -- A system that has made no call yet.
  pub start-IsSafe : (s : Memory) → IsValid s → IsSafe (record { store = s; phase = λ i. idle })
  start-IsSafe s h = record {
    valid = h;
    held = λ i k e. cc;
    alone = λ i j k e f. cc;
    stored = λ i v e. cc;
  }
