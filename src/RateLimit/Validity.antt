-- ===== src/RateLimit/Validity.antt =====
-- The invariant of a limiter, and that a call keeps it.
use go_clean_architecture.Prelude.{
  ℕ, ℤ, pos, pos_part, ltb_ℤ, ◌≤◌, ◌<◌, ◌≡◌, ◌≢◌, refl, ap, true, false, inl, inr, some, List, [],
  arith, leb, ◌||◌, Bytes, bytes_eq, length, Bool-cases, Option-cases,
}
use go_clean_architecture.Std.Time.{Time}
use go_clean_architecture.Std.Text.{Text, to_bytes}
use go_clean_architecture.Dict.{Entry, lookup, insert, erase}
use go_clean_architecture.Dict.Laws.{
  IsMap, lookup-insert, lookup-erase, insert-IsMap, erase-IsMap, drop_if-IsMap, lookup-drop_if-some,
  length-insert-le, length-insert_old, length-erase-le, length-drop_if-le,
}
use go_clean_architecture.RateLimit.{
  FloatOps, OverflowPolicy, reject_new, evict_oldest, unknown_policy, Bucket, Limiter, is_expired,
  cleanup_locked, evict_oldest_locked, on_full, make_room, drop_expired, valid_key,
}
use go_clean_architecture.RateLimit.Allow.{
  refill, spend, decide, effective, serve, fresh, admit, allow_locked, allow_n,
}
use go_clean_architecture.RateLimit.Eviction.{evict_oldest_locked-IsOldest}

-- What IEEE 754 says of the operations at the numbers that a limiter meets; a comparison with NaN is false.
pub record IsIeee {F : Type 0} (fl : FloatOps F) : Type 0 where
  pub less_irrefl : (a : F) → fl.less a a ≡ false
  pub nat_nonneg : (n : ℕ) → fl.less_eq (fl.of_nat 0) (fl.of_nat n) ≡ true
  pub nat_bounded : (n : ℕ) → fl.less (fl.of_nat n) (fl.of_nat 0) ≡ false
  pub minus_bounded :
      (a b c : F)
      → fl.less c a ≡ false
      → fl.less_eq (fl.of_nat 0) b ≡ true
      → fl.less c (fl.minus a b) ≡ false

-- No bucket holds more than a number.
abbrev pub IsFilled : {F : Type 0} → FloatOps F → ℕ → List (Entry (Bucket F)) → Type 0
IsFilled {F} fl n m =
    (k : Bytes) (b : Bucket F) → lookup k m ≡ some b → fl.less (fl.of_nat n) b.tokens ≡ false

module _ {F : Type 0} (fl : FloatOps F) where
  pub record IsValid (l : Limiter F) : Type 0 where
    -- a key has one bucket
    pub map : IsMap l.buckets
    pub positive : 0 < l.max_clients
    pub bounded : length l.buckets ≤ l.max_clients
    -- a bucket never holds more than the capacity
    pub filled : IsFilled fl l.capacity l.buckets

  erase-IsValid :
      (k : Bytes) (l : Limiter F) → IsValid l → IsValid (record l { buckets = erase k l.buckets })
  erase-IsValid k l h = record {
    map = erase-IsMap k l.buckets h.map;
    positive = h.positive;
    bounded = omega (arith, length-erase-le k l.buckets, h.bounded);
    filled = λ j b e. h.filled j b (ground (arith, lookup-erase k j l.buckets));
  }

  pub cleanup_locked-IsValid :
      (now : Time) (l : Limiter F) → IsValid l → IsValid (cleanup_locked now l)
  unfolding cleanup_locked
  cleanup_locked-IsValid now l h = elim (Bool-cases (ltb_ℤ (pos 0) l.idle_ttl)) [
    | inr never ↦ rw never h
    | inl some_time ↦
        let expired = is_expired l.idle_ttl now in
        rw some_time (record {
          map = drop_if-IsMap expired l.buckets h.map;
          positive = h.positive;
          bounded = omega (arith, length-drop_if-le expired l.buckets, h.bounded);
          filled = λ j b e. h.filled j b (lookup-drop_if-some expired j l.buckets b h.map e).0;
        })
  ]

  drop_expired-IsValid :
      (now : Time) (k : Bytes) (l : Limiter F) → IsValid l → IsValid (drop_expired now k l)
  unfolding drop_expired
  drop_expired-IsValid now k l h = elim (Option-cases (lookup k l.buckets)) [
    | inl absent ↦ rw (absent, drop_expired) h
    | inr (b, there) ↦ elim (Bool-cases (is_expired l.idle_ttl now b)) [
      | inl late ↦ rw (there, late, drop_expired) (erase-IsValid k l h)
      | inr alive ↦ rw (there, alive, drop_expired) h
    ]
  ]

  -- A limiter in which there is room for one more bucket.
  abbrev pub HasRoom : Limiter F → Type 0
  HasRoom l = length l.buckets < l.max_clients

  evict-HasRoom :
      (l : Limiter F)
      → IsValid l
      → l.max_clients ≤ length l.buckets
      → IsValid (evict_oldest_locked l) × HasRoom (evict_oldest_locked l)
  evict-HasRoom l h full =
      let some_there : l.buckets ≢ [] =
        λ f. absurd (omega (arith, ap (λ (m : List (Entry (Bucket F))). length m) f, h.positive)) in
      let (k, b, i, e, shorter) = evict_oldest_locked-IsOldest l h.map some_there in
      let shorter' = rw e at shorter in
      rw e (erase-IsValid k l h, omega (arith, shorter', h.bounded))

  by_policy :
      (policy : OverflowPolicy) (l : Limiter F)
      → IsValid l
      → l.max_clients ≤ length l.buckets
      → IsValid (on_full policy l).1 × ((on_full policy l).0 ≡ true → HasRoom (on_full policy l).1)
  unfolding on_full
  by_policy reject_new l h full = (h, λ e. cc)
  by_policy evict_oldest l h full = let (v, r) = evict-HasRoom l h full in (v, λ e. r)
  by_policy (unknown_policy n) l h full = let (v, r) = evict-HasRoom l h full in (v, λ e. r)

  -- Room that has been made is there.
  make_room-HasRoom :
      (now : Time) (l : Limiter F)
      → IsValid l
      → IsValid (make_room now l).1 × ((make_room now l).0 ≡ true → HasRoom (make_room now l).1)
  unfolding make_room
  make_room-HasRoom now l h =
      let c = cleanup_locked-IsValid now l h in
      elim (Bool-cases (leb l.max_clients (length l.buckets))) [
        | inr room ↦ rw room (h, λ e. ground arith)
        | inl full ↦
            elim (Bool-cases
              (leb (cleanup_locked now l).max_clients (length (cleanup_locked now l).buckets))) [
                | inr room ↦ rw (full, room) (c, λ e. ground arith)
                | inl still ↦
                    rw (full, still) (by_policy l.overflow (cleanup_locked now l) c (ground arith))
              ]
      ]

  module _ (ieee : IsIeee fl) where
    refill_filled :
        (now : Time) (capacity : ℕ) (rate : F) (b : Bucket F)
        → fl.less (fl.of_nat capacity) b.tokens ≡ false
        → fl.less (fl.of_nat capacity) (refill fl now capacity rate b).tokens ≡ false
    unfolding refill
    refill_filled now capacity rate b h = ground (arith, ieee.less_irrefl (fl.of_nat capacity))

    decide_filled :
        (t : Time) (cost capacity : ℕ) (rate : F) (b : Bucket F)
        → fl.less (fl.of_nat capacity) b.tokens ≡ false
        → fl.less (fl.of_nat capacity) (decide fl t cost capacity rate b).1.tokens ≡ false
    unfolding decide spend
    decide_filled t cost capacity rate b h = ground (
      arith,
      ieee.minus_bounded b.tokens (fl.of_nat cost) (fl.of_nat capacity),
      ieee.nat_nonneg cost,
      ieee.nat_bounded capacity,
    )

    insert-IsValid :
        (k : Bytes) (b : Bucket F) (l : Limiter F)
        → IsValid l
        → length (insert k b l.buckets) ≤ l.max_clients
        → fl.less (fl.of_nat l.capacity) b.tokens ≡ false
        → IsValid (record l { buckets = insert k b l.buckets })
    insert-IsValid k b l h fits full = record {
      map = insert-IsMap k b l.buckets h.map;
      positive = h.positive;
      bounded = fits;
      filled = λ j x e. elim (Bool-cases (bytes_eq k j)) [
        | inl same ↦ ground (arith, lookup-insert k j b l.buckets)
        | inr other ↦ h.filled j x (ground (arith, lookup-insert k j b l.buckets))
      ];
    }

    serve-IsValid :
        (now : Time) (k : Bytes) (cost : ℕ) (b : Bucket F) (l : Limiter F)
        → IsValid l
        → ((x : Bucket F) → length (insert k x l.buckets) ≤ l.max_clients)
        → fl.less (fl.of_nat l.capacity) b.tokens ≡ false
        → IsValid (serve fl now k cost b l).1
    unfolding serve
    serve-IsValid now k cost b l h fits full = insert-IsValid k _ l h (fits _) (
        decide_filled (effective fl now b) cost l.capacity l.refill_rate
          (refill fl now l.capacity l.refill_rate b)
          (refill_filled now l.capacity l.refill_rate b full))

    admit-IsValid :
        (now : Time) (k : Bytes) (cost : ℕ) (l : Limiter F)
        → IsValid l
        → IsValid (admit fl now k cost l).1
    unfolding admit
    admit-IsValid now k cost l h =
        let (v, room) = make_room-HasRoom now l h in
        elim (Bool-cases (make_room now l).0) [
          | inr refused ↦ rw refused v
          | inl free ↦
              let l' = (make_room now l).1 in
              let more = room free in
              rw free (
                serve-IsValid now k cost (fresh fl now l') l' v
                  (λ x. omega (arith, length-insert-le k x l'.buckets, more))
                  (ieee.less_irrefl (fl.of_nat l'.capacity)))
        ]

    allow_locked-IsValid :
        (now : Time) (k : Bytes) (cost : ℕ) (l : Limiter F)
        → IsValid l
        → IsValid (allow_locked fl now k cost l).1
    unfolding allow_locked
    allow_locked-IsValid now k cost l h =
        let v = drop_expired-IsValid now k l h in
        let l' = drop_expired now k l in
        elim (Option-cases (lookup k l'.buckets)) [
          | inl absent ↦ rw (absent, allow_locked) (admit-IsValid now k cost l' v)
          | inr (b, there) ↦
              rw (there, allow_locked)
                (serve-IsValid now k cost b l' v
                  (λ x. omega (arith, length-insert_old k x b l'.buckets there, v.bounded))
                  (v.filled k b there))
        ]

    -- A call keeps the invariant, whatever key, cost and time it comes with and whatever it answers: there are no more
    -- buckets than the bound on clients, one for a key, and no bucket holds more tokens than the capacity.
    pub allow_n-IsValid :
        (now : Time) (key : Text) (cost : ℤ) (l : Limiter F)
        → IsValid l
        → (l' : Limiter F) × ((allow_n fl now key cost (some l)).1 ≡ some l') × IsValid l'
    unfolding allow_n
    allow_n-IsValid now key cost l h = elim (Bool-cases (valid_key key)) [
      | inr bad ↦ (l, rw bad refl, h)
      | inl good ↦ elim (Bool-cases (ltb_ℤ cost (pos 1) || ltb_ℤ (pos l.capacity) cost)) [
        | inl out ↦ (l, rw (good, out) refl, h)
        | inr fine ↦ (
          (allow_locked fl now (to_bytes key) (pos_part cost) l).1,
          rw (good, fine) refl,
          allow_locked-IsValid now (to_bytes key) (pos_part cost) l h,
        )
      ]
    ]
