-- ===== src/RateLimit/Decisions.antt =====
-- What a limiter answers, and what a call leaves alone.
use go_clean_architecture.Prelude.{
  ℕ, pos, ltb_ℤ, ◌≤◌, ◌<◌, ◌≡◌, refl, ◌∙◌, true, false, none, some, [], arith, ◌||◌, if◌then◌else◌,
  Bytes, bytes_eq, ok, Bool-cases, inl, inr,
}
use go_clean_architecture.Std.Time.{Time, before, sub}
use go_clean_architecture.Std.Text.{Text, to_bytes}
use go_clean_architecture.Dict.{lookup, insert}
use go_clean_architecture.Dict.Laws.{lookup-insert, lookup-insert_self}
use go_clean_architecture.RateLimit.{
  FloatOps, Config, Bucket, Limiter, Decision, is_expired, drop_expired, valid_key, new, validate,
}
use go_clean_architecture.RateLimit.Allow.{
  whole_tokens, refill, spend, decide, effective, serve, admit, allow_locked, allow_n,
}
use go_clean_architecture.RateLimit.Validity.{IsValid}

-- A key and a cost that a limiter serves.
pub record IsServed {F : Type 0} (l : Limiter F) (key : Text) (cost : ℕ) : Type 0 where
  pub key_valid : valid_key key ≡ true
  pub cost_positive : 0 < cost
  pub cost_bounded : cost ≤ l.capacity

before_irrefl : (t : Time) → before t t ≡ false
unfolding before
before_irrefl t = ground arith

before_asym : (t u : Time) → before t u ≡ true → before u t ≡ false
unfolding before
before_asym t u h = ground arith

module _ {F : Type 0} (fl : FloatOps F) where
  pub allow_n-allow_locked :
      (now : Time) (key : Text) (cost : ℕ) (l : Limiter F)
      → IsServed l key cost
      → allow_n fl now key (pos cost) (some l) ≡ (
        (allow_locked fl now (to_bytes key) cost l).0,
        some (allow_locked fl now (to_bytes key) cost l).1,
      )
  unfolding allow_n
  allow_n-allow_locked now key cost l h =
      let in_range : (ltb_ℤ (pos cost) (pos 1) || ltb_ℤ (pos l.capacity) (pos cost)) ≡ false =
        ground (arith, h.cost_positive, h.cost_bounded) in
      rw (h.key_valid, in_range) refl

  drop_expired-alive :
      (now : Time) (k : Bytes) (l : Limiter F) (b : Bucket F)
      → lookup k l.buckets ≡ some b
      → is_expired l.idle_ttl now b ≡ false
      → drop_expired now k l ≡ l
  unfolding drop_expired
  drop_expired-alive now k l b found alive = rw (found, alive, drop_expired) refl

  drop_expired-none :
      (now : Time) (k : Bytes) (l : Limiter F)
      → lookup k l.buckets ≡ none
      → drop_expired now k l ≡ l
  unfolding drop_expired
  drop_expired-none now k l absent = rw (absent, drop_expired) refl

  allow_locked-known :
      (now : Time) (k : Bytes) (cost : ℕ) (l : Limiter F) (b : Bucket F)
      → lookup k l.buckets ≡ some b
      → is_expired l.idle_ttl now b ≡ false
      → allow_locked fl now k cost l ≡ serve fl now k cost b l
  unfolding allow_locked
  allow_locked-known now k cost l b found alive =
      let kept = drop_expired-alive now k l b found alive in
      rw (kept, found, allow_locked) (rw kept refl)

  pub allow_locked-new :
      (now : Time) (k : Bytes) (cost : ℕ) (l : Limiter F)
      → lookup k l.buckets ≡ none
      → allow_locked fl now k cost l ≡ admit fl now k cost l
  unfolding allow_locked
  allow_locked-new now k cost l absent =
      let kept = drop_expired-none now k l absent in rw (kept, absent, allow_locked) (rw kept refl)

  -- The tokens that a bucket has at a time: those it had, with what has flowed in since its last refill if the time is
  -- behind it, and at most the capacity.
  abbrev pub available : Time → Limiter F → Bucket F → F
  available now l b =
      let sum = fl.plus b.tokens (fl.times (fl.seconds (sub now b.last_refill)) l.refill_rate) in
      if before b.last_refill now
      then (if fl.less (fl.of_nat l.capacity) sum then fl.of_nat l.capacity else sum)
      else b.tokens

  -- What a cost leaves of the tokens, never less than nothing.
  abbrev pub rest_of : F → ℕ → F
  rest_of tokens cost =
      if fl.less (fl.minus tokens (fl.of_nat cost)) (fl.of_nat 0)
      then fl.of_nat 0
      else fl.minus tokens (fl.of_nat cost)

  refill-available :
      (now : Time) (l : Limiter F) (b : Bucket F)
      → (refill fl now l.capacity l.refill_rate b).tokens ≡ available now l b
  unfolding refill effective
  refill-available now l b = elim (Bool-cases (before now b.last_refill)) [
    | inl back ↦
        let same = before_irrefl b.last_refill in
        let behind = before_asym now b.last_refill back in rw (back, same, behind) refl
    | inr forth ↦ rw forth refl
  ]

  -- A call with a valid key, whose bucket is there and has not expired, and a cost from one to the capacity is allowed exactly
  -- when the tokens that the bucket has at the time cover the cost. The bucket keeps these tokens, less the cost and not below zero if the call is allowed, and no
  -- other bucket changes.
  pub allow_n-lookup :
      (now : Time) (key : Text) (cost : ℕ) (l : Limiter F) (b : Bucket F)
      → IsServed l key cost
      → lookup (to_bytes key) l.buckets ≡ some b
      → is_expired l.idle_ttl now b ≡ false
      → let tokens = available now l b in
        let allowed = fl.less_eq (fl.of_nat cost) tokens in
        (d : Decision) × (l' : Limiter F) × (b' : Bucket F) × (allow_n fl now key
            (pos cost)
            (some l)
          ≡ (d, some l'))
        × (d.allowed ≡ allowed)
        × (lookup (to_bytes key) l'.buckets ≡ some b')
        × (b'.tokens ≡ (if allowed then rest_of tokens cost else tokens))
        × ((j : Bytes)
            → bytes_eq (to_bytes key) j ≡ false
            → lookup j l'.buckets ≡ lookup j l.buckets)
  unfolding serve decide spend
  allow_n-lookup now key cost l b h found alive =
      let k = to_bytes key in
      let r = refill fl now l.capacity l.refill_rate b in
      let full = refill-available now l b in
      let d = (decide fl (effective fl now b) cost l.capacity l.refill_rate r).0 in
      let b' = (decide fl (effective fl now b) cost l.capacity l.refill_rate r).1 in
      (
        d,
        record l { buckets = insert k b' l.buckets },
        b',
        allow_n-allow_locked now key cost l h
            ∙ rw (allow_locked-known now (to_bytes key) cost l b found alive) refl,
        ground (arith, full),
        lookup-insert_self k b' l.buckets,
        ground (arith, full),
        λ j other. lookup-insert k j b' l.buckets ∙ rw other refl,
      )

  whole_tokens-le : (tokens : F) (capacity : ℕ) → whole_tokens fl tokens capacity ≤ capacity
  unfolding whole_tokens
  whole_tokens-le tokens capacity = ground arith

  -- A configuration that is accepted makes an empty and valid limiter, with a capacity from 1 to 100000 and a bound of
  -- at most 1000000 clients.
  new-eq-ok :
      (c : Config F) (l : Limiter F)
      → new fl c ≡ ok l
      → IsValid fl l
        × (0 < l.capacity)
        × (l.capacity ≤ 100_000)
        × (l.max_clients ≤ 1_000_000)
        × (l.buckets ≡ [])
  unfolding new validate lookup
  new-eq-ok c l h =
      let empty : l.buckets ≡ [] = ground arith in
      let positive : 0 < l.max_clients = ground arith in
      (
        record {
          map = rw empty tt;
          positive = positive;
          bounded = rw empty (omega (arith, positive));
          filled = λ k b e. absurd (ground (arith, empty));
        },
        ground arith,
        ground arith,
        ground arith,
        empty,
      )
