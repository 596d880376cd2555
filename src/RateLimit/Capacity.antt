-- ===== src/RateLimit/Capacity.antt =====
-- When a limiter has no slot for a new key.
use go_clean_architecture.Prelude.{
  ℕ, ℤ, pos, suc, ltb_ℤ, ◌≤◌, ◌≡◌, refl, ◌∙◌, ap, Bool, true, false, not, ◌&&◌, inl, inr, none,
  List, [], ◌∷◌, arith, leb, some, if◌then◌else◌, length, Bool-cases, Bytes,
}
use go_clean_architecture.Std.Time.{Time}
use go_clean_architecture.Std.Text.{Text, to_bytes}
use go_clean_architecture.Dict.{Entry, entry, lookup, drop_if}
use go_clean_architecture.Dict.Laws.{length-drop_if-le}
use go_clean_architecture.RateLimit.{
  FloatOps, OverflowPolicy, reject_new, evict_oldest, unknown_policy, DenyReason, reason_allowed,
  rate_limited, at_capacity, invalid_key, invalid_cost, unavailable, Bucket, Limiter, is_expired,
  cleanup_locked, on_full, make_room,
}
use go_clean_architecture.RateLimit.Allow.{decide, serve, admit, allow_n, fresh}
use go_clean_architecture.RateLimit.Decisions.{IsServed, allow_n-allow_locked, allow_locked-new}

abbrev pub is_at_capacity : DenyReason → Bool
is_at_capacity reason_allowed = false
is_at_capacity rate_limited = false
is_at_capacity at_capacity = true
is_at_capacity invalid_key = false
is_at_capacity invalid_cost = false
is_at_capacity unavailable = false

abbrev pub rejects : OverflowPolicy → Bool
rejects reject_new = true
rejects evict_oldest = false
rejects (unknown_policy n) = false

module _ {F : Type 0} where
  -- The buckets that have not expired.
  abbrev pub alive : ℤ → Time → List (Entry (Bucket F)) → ℕ
  alive ttl now [] = 0
  alive ttl now (entry k b ∷ m) =
      let rest = alive ttl now m in if is_expired ttl now b then rest else suc rest

  length-drop_if-alive :
      (ttl : ℤ) (now : Time) (m : List (Entry (Bucket F)))
      → length (drop_if (is_expired ttl now) m) ≡ alive ttl now m
  unfolding drop_if
  length-drop_if-alive ttl now [] = refl
  length-drop_if-alive ttl now (entry k b ∷ m) = ground (arith, length-drop_if-alive ttl now m)

  alive-forever :
      (ttl : ℤ) (now : Time) (m : List (Entry (Bucket F)))
      → ltb_ℤ (pos 0) ttl ≡ false
      → alive ttl now m ≡ length m
  unfolding is_expired
  alive-forever ttl now [] h = refl
  alive-forever ttl now (entry k b ∷ m) h = rw h (ap suc (alive-forever ttl now m h))

  cleanup_locked-alive :
      (now : Time) (l : Limiter F)
      → (length (cleanup_locked now l).buckets ≡ alive l.idle_ttl now l.buckets)
        × ((cleanup_locked now l).max_clients ≡ l.max_clients)
        × (length (cleanup_locked now l).buckets ≤ length l.buckets)
  unfolding cleanup_locked
  cleanup_locked-alive now l = elim (Bool-cases (ltb_ℤ (pos 0) l.idle_ttl)) [
    | inl e ↦ rw e (
      length-drop_if-alive l.idle_ttl now l.buckets,
      refl,
      length-drop_if-le (is_expired l.idle_ttl now) l.buckets,
    )
    | inr e ↦
        let forever = alive-forever l.idle_ttl now l.buckets e in
        rw e (ground (arith, forever), refl, omega arith)
  ]

  on_full-rejects : (p : OverflowPolicy) (l : Limiter F) → (on_full p l).0 ≡ not (rejects p)
  unfolding on_full
  on_full-rejects reject_new l = refl
  on_full-rejects evict_oldest l = refl
  on_full-rejects (unknown_policy n) l = refl

  make_room-alive :
      (now : Time) (l : Limiter F)
      → (make_room now l).0
        ≡ not (rejects l.overflow && leb l.max_clients (alive l.idle_ttl now l.buckets))
  unfolding make_room
  make_room-alive now l =
      let (count, same, fewer) = cleanup_locked-alive now l in
      elim (Bool-cases (leb l.max_clients (length l.buckets))) [
        | inr room ↦ rw room (ground (arith, count, fewer))
        | inl taken ↦ elim (Bool-cases (leb l.max_clients (alive l.idle_ttl now l.buckets))) [
          | inl full ↦
              rw (taken, same, count, full)
                (on_full-rejects l.overflow (cleanup_locked now l) ∙ ground arith)
          | inr free ↦ rw (taken, same, count, free) (ground arith)
        ]
      ]

module _ {F : Type 0} (fl : FloatOps F) where
  serve-reason :
      (now : Time) (key : Bytes) (cost : ℕ) (b : Bucket F) (l : Limiter F)
      → is_at_capacity ((serve fl now key cost b l).0.reason) ≡ false
  unfolding serve decide
  serve-reason now key cost b l = ground arith

  -- A call with a valid key that has no bucket, and a cost from one to the capacity, is refused for want of a slot exactly when
  -- the limiter rejects new keys and the number of its buckets that have not expired has reached its bound.
  pub allow_n-is_at_capacity :
      (now : Time) (key : Text) (cost : ℕ) (l : Limiter F)
      → IsServed l key cost
      → lookup (to_bytes key) l.buckets ≡ none
      → is_at_capacity ((allow_n fl now key (pos cost) (some l)).0.reason)
        ≡ (rejects l.overflow && leb l.max_clients (alive l.idle_ttl now l.buckets))
  unfolding admit
  allow_n-is_at_capacity now key cost l h absent =
      let room = make_room-alive now l in
      rw
        (
          allow_n-allow_locked fl now key cost l h,
          allow_locked-new fl now (to_bytes key) cost l absent,
        )
        (elim (Bool-cases ((make_room now l).0)) [
          | inl free ↦
              rw (admit, free)
                (serve-reason now (to_bytes key) cost (fresh fl now (make_room now l).1)
                    (make_room now l).1
                  ∙ ground (arith, room, free))
          | inr full ↦ rw (admit, full) (ground (arith, room, full))
        ])
