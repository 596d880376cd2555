-- ===== src/RateLimit/Allow.antt =====
-- `AllowN` of pkg/ratelimit/ratelimit.go, from the refill of a bucket to the call.
use go_clean_architecture.Prelude.{
  ℕ, ℤ, pos, pos_part, ltb_ℤ, true, false, not, ◌||◌, Option, none, some, if◌then◌else◌, Bytes,
}
use go_clean_architecture.Std.Time.{Time, before, after, add, sub}
use go_clean_architecture.Std.Text.{Text, to_bytes}
use go_clean_architecture.Dict.{lookup, insert}
use go_clean_architecture.RateLimit.{
  FloatOps, max_retry_duration, reason_allowed, rate_limited, at_capacity, invalid_key,
  invalid_cost, unavailable, Decision, denied, valid_key, Bucket, Limiter, make_room, drop_expired,
}

module _ {F : Type 0} (fl : FloatOps F) where
  -- `wholeTokens`
  unfoldable pub whole_tokens : F → ℕ → ℕ
  whole_tokens tokens capacity =
      let value = fl.floor (fl.plus tokens fl.epsilon) in
      if fl.less_eq tokens (fl.of_nat 0)
      then 0
      else if ltb_ℤ value (pos 0)
      then 0
      else if ltb_ℤ (pos capacity) value
      then capacity
      else pos_part value

  -- `durationForTokens`
  unfoldable pub duration_for_tokens : F → F → ℕ
  duration_for_tokens tokens refill_rate =
      let nanos = fl.times (fl.over tokens refill_rate) (fl.of_nat 1_000_000_000) in
      if fl.less_eq tokens (fl.of_nat 0)
      then 0
      else if fl.is_inf nanos || fl.less_eq (fl.of_nat max_retry_duration) nanos
      then max_retry_duration
      else fl.ceil nanos

  -- `resetAt`
  unfoldable pub reset_at : Time → F → ℕ → F → Time
  unfolding duration_for_tokens
  reset_at now tokens capacity refill_rate =
      add now (duration_for_tokens (fl.minus (fl.of_nat capacity) tokens) refill_rate)

  -- The bucket at the effective time: a clock that runs backwards changes nothing.
  unfoldable pub effective : Time → Bucket F → Time
  effective now b = if before now b.last_refill then b.last_refill else now

  unfoldable pub refill : Time → ℕ → F → Bucket F → Bucket F
  unfolding effective
  refill now capacity rate b =
      let t = effective now b in
      let sum = fl.plus b.tokens (fl.times (fl.seconds (sub t b.last_refill)) rate) in
      record {
        tokens =
            if after t b.last_refill
            then (if fl.less (fl.of_nat capacity) sum then fl.of_nat capacity else sum)
            else b.tokens;
        last_refill = if after t b.last_refill then t else b.last_refill;
        last_seen = if after t b.last_seen then t else b.last_seen;
      }

  -- What is left of the tokens when the cost is taken.
  unfoldable pub spend : ℕ → F → F
  spend cost tokens =
      let left = fl.minus tokens (fl.of_nat cost) in
      if fl.less left (fl.of_nat 0) then fl.of_nat 0 else left

  -- The decision on a bucket that has been refilled for the time, and the bucket.
  unfoldable pub decide : Time → ℕ → ℕ → F → Bucket F → Decision × Bucket F
  unfolding whole_tokens reset_at duration_for_tokens spend
  decide t cost capacity rate b =
      if fl.less_eq (fl.of_nat cost) b.tokens
      then (
        record {
          allowed = true;
          remaining = whole_tokens (spend cost b.tokens) capacity;
          retry_after = 0;
          reset = reset_at t (spend cost b.tokens) capacity rate;
          reason = reason_allowed;
        },
        record b { tokens = spend cost b.tokens },
      )
      else (
        record {
          allowed = false;
          remaining = whole_tokens b.tokens capacity;
          retry_after = duration_for_tokens (fl.minus (fl.of_nat cost) b.tokens) rate;
          reset = reset_at t b.tokens capacity rate;
          reason = rate_limited;
        },
        b,
      )

  -- A call on a bucket.
  unfoldable pub serve : Time → Bytes → ℕ → Bucket F → Limiter F → Decision × Limiter F
  unfolding refill decide effective
  serve now key cost b l =
      let (d, b') =
        decide (effective now b) cost l.capacity l.refill_rate
          (refill now l.capacity l.refill_rate b) in
      (d, record l { buckets = insert key b' l.buckets })

  -- A full bucket.
  abbrev pub fresh : Time → Limiter F → Bucket F
  fresh now l = record { tokens = fl.of_nat l.capacity; last_refill = now; last_seen = now }

  -- A call with a key that has no bucket.
  unfoldable pub admit : Time → Bytes → ℕ → Limiter F → Decision × Limiter F
  unfolding make_room serve
  admit now key cost l =
      let (free, l') = make_room now l in
      if free then serve now key cost (fresh now l') l' else (denied at_capacity, l')

  -- A call that holds the lock.
  unfoldable pub allow_locked : Time → Bytes → ℕ → Limiter F → Decision × Limiter F
  unfolding drop_expired admit serve
  allow_locked now key cost l = elim (lookup key (drop_expired now key l).buckets) [
    | none ↦ admit now key cost (drop_expired now key l)
    | some b ↦ serve now key cost b (drop_expired now key l)
  ]

  -- `AllowN`; a nil limiter is `none`.
  unfoldable pub allow_n : Time → Text → ℤ → Option (Limiter F) → Decision × Option (Limiter F)
  unfolding valid_key allow_locked
  allow_n now key cost none = (denied unavailable, none)
  allow_n now key cost (some l) =
      if not (valid_key key)
      then (denied invalid_key, some l)
      else if ltb_ℤ cost (pos 1) || ltb_ℤ (pos l.capacity) cost
      then (denied invalid_cost, some l)
      else (let (d, l') = allow_locked now (to_bytes key) (pos_part cost) l in (d, some l'))

  -- `Allow`
  unfoldable pub allow : Time → Text → Option (Limiter F) → Decision × Option (Limiter F)
  unfolding allow_n
  allow now key = allow_n now key (pos 1)
