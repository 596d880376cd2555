-- ===== src/Memory/Replay.antt =====
-- The idempotent create, when the calls with one key come one after another.
use go_clean_architecture.Prelude.{
  ℕ, ◌+◌, ◌<◌, ◌≡◌, refl, ◌∙◌, true, false, not, inl, inr, none, some, arith, if◌then◌else◌, Bytes,
  bytes_eq, bytes_eq_refl, length, ok, err, Bool-cases, Result-cases,
}
use go_clean_architecture.Std.Time.{Time, before, add}
use go_clean_architecture.Dict.{lookup, insert}
use go_clean_architecture.Dict.Laws.{lookup-insert_self, lookup-drop_if}
use go_clean_architecture.Item.Errors.{sentinel, idempotency_conflict}
use go_clean_architecture.Item.Context.{Context, Clock, IsLive}
use go_clean_architecture.Item.Model.{Item, is_nil}
use go_clean_architecture.Item.Cursor.{Sha256}
use go_clean_architecture.Item.Idempotency.{idempotency_record_retention, validate_idempotency_key}
use go_clean_architecture.Memory.{Memory, IdempotencyEntry, create_item, get_item}
use go_clean_architecture.Memory.Idempotent.{
  validate_request, cleanup, replay, reserved, answer_existing, reserve, reserve_new, conclude,
  commit, now, run_decision, create_idempotent, entry_bound,
}
use go_clean_architecture.Memory.Validity.{
  IsValid, commit-IsValid, cleanup-IsValid, insert_item-IsValid, insert_inflight-IsValid,
}

-- A key whose record names the item and has not expired at an instant.
pub record Records (s : Memory) (k rh : Bytes) (v : Item) (t : Time) : Type 0 where
  pub e : IdempotencyEntry
  pub found : lookup k s.idempotency ≡ some e
  pub fingerprint : e.fingerprint ≡ rh
  pub item : lookup e.item_id s.items ≡ some v
  pub alive : before t e.expires_at ≡ true

module _ (sha : Sha256) (time_now : Clock) (ctx : Context) (live : IsLive ctx) where
  lookup-cleanup :
      (s : Memory) (k rh : Bytes) (v : Item) (t : Time)
      → IsValid s
      → (r : Records s k rh v t) → lookup k (cleanup t s).idempotency ≡ some r.e
  unfolding cleanup
  lookup-cleanup s k rh v t h r = ground (
    arith,
    lookup-drop_if (λ (e : IdempotencyEntry). not (before t e.expires_at)) k s.idempotency r.e
        h.records_map r.found,
    r.alive,
  )

  -- A recorded key answers with its item, for every call with the same request; with another request it is
  -- a conflict. In neither case does the store change but for the expired records.
  pub reserve-Records :
      (m : ℕ) (s : Memory) (k rh rh' : Bytes) (v : Item) (t : Time)
      → IsValid s
      → Records s k rh v t
      → reserve (some ctx) m t k rh' s ≡ (
        if bytes_eq rh rh' then ok (replay v) else err (sentinel idempotency_conflict),
        cleanup t s,
      )
  unfolding reserve answer_existing get_item cleanup
  reserve-Records m s k rh rh' v t h r =
      rw (lookup-cleanup s k rh v t h r, reserve)
        (ground (arith, r.fingerprint, r.item, live.alive m, live.alive (m + 1)))

  -- In a valid store, while a key is recorded, a valid call with that key replays the recorded item if its request is the
  -- same, and is a conflict if not; nothing is created: the store only loses its expired records.
  pub create_idempotent-Records :
      (m : ℕ) (s : Memory) (value v : Item) (key fingerprint rh rh' : Bytes)
      → IsValid s
      → validate_request key fingerprint value ≡ ok rh'
      → Records s (sha.digest key) rh v (now sha time_now s (m + 1))
      → create_idempotent sha time_now (some ctx) m value key fingerprint (some s) ≡ (
        if bytes_eq rh rh' then ok (v, true) else err (sentinel idempotency_conflict),
        some (cleanup (now sha time_now s (m + 1)) s),
      )
  unfolding create_idempotent
  create_idempotent-Records m s value v key fingerprint rh rh' h request r =
      rw
        (
          create_idempotent,
          live.alive m,
          request,
          reserve-Records (m + 2) s (sha.digest key) rh rh' v (now sha time_now s (m + 1)) h r,
        )
        (elim (Bool-cases (bytes_eq rh rh')) [
          | inl same ↦ rw (same, run_decision) refl
          | inr other ↦ rw (other, run_decision) refl
        ])

  -- The store that a call leaves behind which has created its item.
  abbrev pub after_create : ℕ → Item → Bytes → Bytes → Memory → Memory
  after_create m value kh rh s =
      let t = cleanup (now sha time_now s (m + 1)) s in
      commit (now sha time_now s (m + 4 + 2)) kh rh value
        (record t { inflight = insert kh tt t.inflight; items = insert value.id value t.items })

  conclude-create_item :
      (m : ℕ) (kh rh : Bytes) (value : Item) (s : Memory)
      → is_nil value.id ≡ false
      → lookup value.id s.items ≡ none
      → run_decision sha time_now (some ctx) m value kh rh (ok reserved, s) ≡ (
        ok (value, false),
        commit
            (now sha time_now s (m + 2))
            kh
            rh
            value
            (record s { items = insert value.id value s.items }),
      )
  unfolding run_decision create_item conclude now
  conclude-create_item m kh rh value s named absent =
      ground (arith, live.alive m, live.alive (m + 1), live.alive (m + 2 + 1))

  reserve-new :
      (m : ℕ) (s : Memory) (t : Time) (k rh : Bytes)
      → lookup k (cleanup t s).idempotency ≡ none
      → lookup k s.inflight ≡ none
      → length (cleanup t s).idempotency + length s.inflight < entry_bound s
      → reserve (some ctx) m t k rh s ≡ (
        ok reserved,
        record s { idempotency = (cleanup t s).idempotency; inflight = insert k tt s.inflight },
      )
  unfolding reserve reserve_new entry_bound
  reserve-new m s t k rh unknown free room =
      rw (unknown, reserve) (rw (free, reserve_new) (ground arith))

  validate_request-named :
      (key fingerprint rh : Bytes) (value : Item)
      → validate_request key fingerprint value ≡ ok rh
      → is_nil value.id ≡ false
  unfolding validate_request
  validate_request-named key fingerprint rh value h =
      elim (Result-cases (validate_idempotency_key key)) [
        | inl (_, fine) ↦ ground arith
        | inr (e, bad) ↦ absurd (ground arith)
      ]

  -- A valid call with a key that is neither recorded nor in flight creates its item, if there is room for the
  -- key and the id is new, and records it.
  pub create_idempotent-new :
      (m : ℕ) (s : Memory) (value : Item) (key fingerprint rh : Bytes)
      → validate_request key fingerprint value ≡ ok rh
      → lookup (sha.digest key) (cleanup (now sha time_now s (m + 1)) s).idempotency ≡ none
      → lookup (sha.digest key) s.inflight ≡ none
      → length (cleanup (now sha time_now s (m + 1)) s).idempotency + length s.inflight
        < entry_bound s
      → lookup value.id s.items ≡ none
      → create_idempotent sha time_now (some ctx) m value key fingerprint (some s)
        ≡ (ok (value, false), some (after_create m value (sha.digest key) rh s))
  unfolding create_idempotent cleanup now
  create_idempotent-new m s value key fingerprint rh request unknown free room absent =
      let kh = sha.digest key in
      let t = now sha time_now s (m + 1) in
      let named = validate_request-named key fingerprint rh value request in
      rw (create_idempotent, live.alive m, request, reserve-new (m + 2) s t kh rh unknown free room)
        (rw
          (conclude-create_item (m + 4) kh rh value
            (record s {
              idempotency = (cleanup t s).idempotency;
              inflight = insert kh tt s.inflight;
            })
            named absent)
          refl)

  after_create-IsValid :
      (m : ℕ) (s : Memory) (value : Item) (kh rh : Bytes)
      → IsValid s
      → lookup kh (cleanup (now sha time_now s (m + 1)) s).idempotency ≡ none
      → lookup kh s.inflight ≡ none
      → length (cleanup (now sha time_now s (m + 1)) s).idempotency + length s.inflight
        < entry_bound s
      → lookup value.id s.items ≡ none
      → IsValid (after_create m value kh rh s)
  unfolding cleanup entry_bound
  after_create-IsValid m s value kh rh h unknown free room absent =
      let t = cleanup (now sha time_now s (m + 1)) s in
      let u : Memory = record t { inflight = insert kh tt t.inflight } in
      let w : Memory = record u { items = insert value.id value u.items } in
      commit-IsValid (now sha time_now s (m + 4 + 2)) kh rh value w
        (lookup-insert_self kh tt t.inflight) (lookup-insert_self value.id value u.items)
        (insert_item-IsValid value u absent (
          insert_inflight-IsValid kh t unknown free room
            (cleanup-IsValid (now sha time_now s (m + 1)) s h)))

  -- In a valid store, a valid call whose key is neither recorded nor in flight creates its item, if there is room
  -- for the key and the id is new; a retry with the same key and request, before the record expires,
  -- then replays that item, whatever item the retry has prepared, and the store loses no more than
  -- expired records.
  pub create_idempotent-create_idempotent :
      (m n : ℕ) (s : Memory) (value value' : Item) (key fingerprint rh : Bytes)
      → IsValid s
      → validate_request key fingerprint value ≡ ok rh
      → validate_request key fingerprint value' ≡ ok rh
      → lookup (sha.digest key) (cleanup (now sha time_now s (m + 1)) s).idempotency ≡ none
      → lookup (sha.digest key) s.inflight ≡ none
      → length (cleanup (now sha time_now s (m + 1)) s).idempotency + length s.inflight
        < entry_bound s
      → lookup value.id s.items ≡ none
      → before
          (now sha time_now s (n + 1))
          (add (now sha time_now s (m + 4 + 2)) idempotency_record_retention)
        ≡ true
      → (t : Memory) × (create_idempotent sha time_now (some ctx) m value key fingerprint (some s)
          ≡ (ok (value, false), some t))
        × (create_idempotent sha time_now (some ctx) n value' key fingerprint (some t)
            ≡ (ok (value, true), some (cleanup (now sha time_now s (n + 1)) t)))
  unfolding commit cleanup now
  create_idempotent-create_idempotent m n s value value' key fingerprint rh h request request'
        unknown free room absent soon =
      let kh = sha.digest key in
      let t = after_create m value kh rh s in
      (
        t,
        create_idempotent-new m s value key fingerprint rh request unknown free room absent,
        create_idempotent-Records n t value' value key fingerprint rh rh
              (after_create-IsValid m s value kh rh h unknown free room absent) request'
              (record {
                e = record {
                  fingerprint = rh;
                  item_id = value.id;
                  expires_at = add (now sha time_now s (m + 4 + 2)) idempotency_record_retention;
                };
                found = lookup-insert_self kh _ _;
                fingerprint = refl;
                item = lookup-insert_self value.id value s.items;
                alive = soon;
              })
            ∙ rw (bytes_eq_refl rh) refl,
      )
