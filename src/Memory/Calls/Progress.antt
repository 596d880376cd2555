-- ===== src/Memory/Calls/Progress.antt =====
-- Concurrent idempotent creates come to an end, give their keys up, and leave records alone.
use go_clean_architecture.Prelude.{
  ℕ, ◌≡◌, refl, ap, ◌∙◌, Bool, true, false, not, ◌⊎◌, inl, inr, Option, none, some, arith, Bytes,
  bytes_eq, bytes_eq→eq, bytes_eq_refl, Result, ◌==◌, Bool-cases,
}
use go_clean_architecture.Std.Time.{Time, before}
use go_clean_architecture.Dict.{lookup, erase, drop_if}
use go_clean_architecture.Dict.Laws.{lookup-insert, lookup-erase, lookup-drop_if}
use go_clean_architecture.Item.Errors.{Error}
use go_clean_architecture.Item.Context.{Context, Clock}
use go_clean_architecture.Item.Model.{Item}
use go_clean_architecture.Item.Cursor.{Sha256}
use go_clean_architecture.Memory.{Memory, IdempotencyEntry, create_item}
use go_clean_architecture.Memory.Idempotent.{cleanup, clear_in_flight, commit, conclude}
use go_clean_architecture.Memory.Validity.{create_item-cases, reserve-cases}
use go_clean_architecture.Memory.Calls.{
  holding, concluding, finished, System, begin_call, create_call, conclude_call, Step,
}
use go_clean_architecture.Memory.Calls.Safety.{IsSafe, conclude-cases}

==_refl : (i : ℕ) → (i == i) ≡ true
==_refl i = ground arith

create_item-inflight :
    (ctx : Option Context) (m : ℕ) (value : Item) (s : Memory)
    → (create_item ctx m value s).1.inflight ≡ s.inflight
create_item-inflight ctx m value s = elim (create_item-cases ctx m value s) [
  | inl (e, same) ↦ rw same refl
  | inr (absent, new) ↦ rw new refl
]

module _ (sha : Sha256) (time_now : Clock) where
  conclude_call-frees :
      (ctx : Option Context) (m : ℕ) (k rh : Bytes) (answer : Result Error Item) (i : ℕ)
      (s : System)
      → lookup k (conclude_call sha time_now ctx m k rh answer i s).store.inflight ≡ none
  unfolding conclude_call clear_in_flight commit
  conclude_call-frees ctx m k rh answer i s =
      let gone : lookup k (erase k s.store.inflight) ≡ none =
        rw (lookup-erase k k s.store.inflight, bytes_eq_refl k) refl in
      elim (conclude-cases sha time_now ctx m k rh answer s.store) [
        | inl (r, e) ↦ rw e gone
        | inr (v, r, same, e) ↦ rw e gone
      ]

  conclude_call-inflight :
      (ctx : Option Context) (m : ℕ) (k rh : Bytes) (answer : Result Error Item) (i : ℕ)
      (s : System) (l : Bytes)
      → bytes_eq k l ≡ false
      → lookup l (conclude_call sha time_now ctx m k rh answer i s).store.inflight
        ≡ lookup l s.store.inflight
  unfolding conclude_call clear_in_flight commit
  conclude_call-inflight ctx m k rh answer i s l other =
      let kept : lookup l (erase k s.store.inflight) ≡ lookup l s.store.inflight =
        lookup-erase k l s.store.inflight ∙ rw other refl in
      elim (conclude-cases sha time_now ctx m k rh answer s.store) [
        | inl (r, e) ↦ rw e kept
        | inr (v, r, same, e) ↦ rw e kept
      ]

  -- A call that has reserved a key runs to its end by two steps of its own, in any contexts and at any moments and so
  -- whatever `Create` answers. Its key is then no longer in flight, every other key is as it was, and so is every
  -- other call.
  pub holding-finished :
      (ctx ctx' : Option Context) (m m' : ℕ) (k rh : Bytes) (value : Item) (i : ℕ) (s : System)
      → s.phase i ≡ holding k rh value
      → let u = create_call ctx m k rh value i s in
        let answer = (create_item ctx m value s.store).0 in
        let t = conclude_call sha time_now ctx' m' k rh answer i u in
        Step sha time_now s u
        × Step sha time_now u t
        × (t.phase i ≡ finished ((conclude sha time_now ctx' m' k rh answer u.store).0))
        × (lookup k t.store.inflight ≡ none)
        × ((l : Bytes)
            → bytes_eq k l ≡ false
            → lookup l t.store.inflight ≡ lookup l s.store.inflight)
        × ((j : ℕ) → (i == j) ≡ false → t.phase j ≡ s.phase j)
  unfolding create_call conclude_call
  holding-finished ctx ctx' m m' k rh value i s at =
      let u = create_call ctx m k rh value i s in
      let answer = (create_item ctx m value s.store).0 in
      let there : u.phase i ≡ concluding k rh answer = rw (==_refl i) refl in
      (
        Step.create ctx m k rh value i at,
        Step.conclude ctx' m' k rh answer i there,
        rw (==_refl i) refl,
        conclude_call-frees ctx' m' k rh answer i u,
        λ l other.
            conclude_call-inflight ctx' m' k rh answer i u l other
            ∙ ap (lookup l) (create_item-inflight ctx m value s.store),
        λ j other. rw other refl,
      )

  -- The time that a step reads to drop expired records.
  abbrev pub time_of : {s t : System} → Step sha time_now s t → Option Time
  time_of (Step.begin ctx m t k rh value i at) = some t
  time_of (Step.refuse e i at) = none
  time_of (Step.create ctx m k rh value i at) = none
  time_of (Step.conclude ctx m k rh answer i at) = none
  time_of (Step.plain ctx m value) = none

  -- A record after a step: as it was, or gone, which it is only if it has expired at the time that the step reads.
  abbrev pub StaysRecorded : Bytes → IdempotencyEntry → Option Time → System → Type 0
  StaysRecorded k e read t =
      (lookup k t.store.idempotency ≡ some e)
      ⊎ ((now : Time) × (read ≡ some now)
          × (before now e.expires_at ≡ false)
          × (lookup k t.store.idempotency ≡ none))

  begin_call-StaysRecorded :
      (ctx : Option Context) (m : ℕ) (t : Time) (k' rh : Bytes) (value : Item) (i : ℕ) (s : System)
      (k : Bytes) (e : IdempotencyEntry)
      → IsSafe s
      → lookup k s.store.idempotency ≡ some e
      → StaysRecorded k e (some t) (begin_call ctx m t k' rh value i s)
  unfolding begin_call cleanup
  begin_call-StaysRecorded ctx m t k' rh value i s k e h found =
      let expired : IdempotencyEntry → Bool = λ x. not (before t x.expires_at) in
      let after = lookup-drop_if expired k s.store.idempotency e h.valid.records_map found in
      let goal : (lookup k (drop_if expired s.store.idempotency) ≡ some e)
          ⊎ ((now : Time) × (some t ≡ some now)
              × (before now e.expires_at ≡ false)
              × (lookup k (drop_if expired s.store.idempotency) ≡ none)) =
        elim (Bool-cases (before t e.expires_at)) [
          | inl fresh ↦ inl (rw (after, fresh) refl)
          | inr late ↦ inr (t, refl, late, rw (after, late) refl)
        ] in
      elim (reserve-cases ctx m t k' rh s.store) [
        | inl (r, unreserved, same) ↦ rw same goal
        | inr (unknown, free, same) ↦ rw same goal
      ]

  conclude_call-StaysRecorded :
      (ctx : Option Context) (m : ℕ) (k' rh : Bytes) (answer : Result Error Item) (i : ℕ)
      (s : System) (k : Bytes) (e : IdempotencyEntry)
      → IsSafe s
      → s.phase i ≡ concluding k' rh answer
      → lookup k s.store.idempotency ≡ some e
      → lookup k (conclude_call sha time_now ctx m k' rh answer i s).store.idempotency ≡ some e
  unfolding conclude_call clear_in_flight commit
  conclude_call-StaysRecorded ctx m k' rh answer i s k e h at found =
      let marked = h.held i k' (ground arith) in
      elim (conclude-cases sha time_now ctx m k' rh answer s.store) [
        | inl (r, same) ↦ rw same found
        | inr (v, r, ans, same) ↦ elim (Bool-cases (bytes_eq k' k)) [
          | inl one ↦ absurd (ground (arith, bytes_eq→eq k' k one, h.valid.apart k e found))
          | inr two ↦ rw (same, lookup-insert k' k _ s.store.idempotency, two) found
        ]
      ]

  -- In a safe state no step of any call overwrites a record: it stays as it is, or the step is a first section that has
  -- read a time at which the record has expired, and drops it.
  pub Step-StaysRecorded :
      {s t : System} (k : Bytes) (e : IdempotencyEntry)
      → IsSafe s
      → (step : Step sha time_now s t) → lookup k s.store.idempotency ≡ some e
      → StaysRecorded k e (time_of step) t
  unfolding create_call
  Step-StaysRecorded {s} k e h (Step.begin ctx m t k' rh value i at) found =
      begin_call-StaysRecorded ctx m t k' rh value i s k e h found
  Step-StaysRecorded k e h (Step.refuse x i at) found = inl found
  Step-StaysRecorded {s} k e h (Step.create ctx m k' rh value i at) found =
      elim (create_item-cases ctx m value s.store) [
        | inl (x, same) ↦ inl (rw same found)
        | inr (absent, new) ↦ inl (rw new found)
      ]
  Step-StaysRecorded {s} k e h (Step.conclude ctx m k' rh answer i at) found =
      inl (conclude_call-StaysRecorded ctx m k' rh answer i s k e h at found)
  Step-StaysRecorded {s} k e h (Step.plain ctx m value) found =
      elim (create_item-cases ctx m value s.store) [
        | inl (x, same) ↦ inl (rw same found)
        | inr (absent, new) ↦ inl (rw new found)
      ]
