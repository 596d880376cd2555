-- ===== src/RateLimit.antt =====
-- pkg/ratelimit/ratelimit.go: the token buckets of a limiter. A float64 is a value of a type `F` with the
-- operations that the source uses; a call takes the time that the limiter's clock has read.
pub mod Allow
pub mod Eviction
pub mod Validity
pub mod Decisions
pub mod Capacity
use go_clean_architecture.Prelude.{
  ℕ, ℤ, pos, pos_part, ltb_ℤ, ◌+◌, ◌-◌, Bool, true, false, not, ◌&&◌, ◌||◌, Option, none, some,
  List, [], ◌∷◌, ltb, leb, ◌==◌, if◌then◌else◌, Bytes, bytes_ltb, length, any, Result, ok, err,
  ◌>>=◌, ◌>>◌, fail_if,
}
use go_clean_architecture.Std.Time.{Time, zero_time, before, after, equal, add, sub}
use go_clean_architecture.Std.Text.{Text, to_bytes, valid_string, is_control, is_space}
use go_clean_architecture.Dict.{Entry, entry, lookup, insert, erase, drop_if}

-- `float64`.
pub record FloatOps (F : Type 0) : Type 0 where
  -- `float64(n)`
  pub of_nat : ℕ → F
  -- 1e-9
  pub epsilon : F
  pub plus : F → F → F
  pub minus : F → F → F
  pub times : F → F → F
  pub over : F → F → F
  pub less : F → F → Bool
  pub less_eq : F → F → Bool
  pub is_nan : F → Bool
  pub is_inf : F → Bool
  -- `int(math.Floor(x))`
  pub floor : F → ℤ
  -- `time.Duration(math.Ceil(x))` for `0 < x`
  pub ceil : F → ℕ
  -- `Duration.Seconds`
  pub seconds : ℕ → F

abbrev pub max_key_bytes : ℕ
max_key_bytes = 256

abbrev pub max_capacity : ℕ
max_capacity = 100_000

abbrev pub max_refill_rate : ℕ
max_refill_rate = 100_000

abbrev pub max_clients : ℕ
max_clients = 1_000_000

-- 24 hours, in nanoseconds.
abbrev pub max_idle_ttl : ℕ
max_idle_ttl = 86_400_000_000_000

abbrev pub max_retry_duration : ℕ
max_retry_duration = 9_223_372_036_854_775_807

-- `OverflowPolicy`
pub data OverflowPolicy : Type 0 where
  reject_new evict_oldest : OverflowPolicy
  -- a number that names no policy
  unknown_policy : ℕ → OverflowPolicy

-- `DenyReason`
pub data DenyReason : Type 0 where
  reason_allowed rate_limited at_capacity invalid_key invalid_cost unavailable : DenyReason

-- The messages of `Config.Validate`, by the field they are about.
pub data ConfigError : Type 0 where
  bad_capacity bad_refill_rate bad_max_clients bad_idle_ttl bad_overflow : ConfigError

pub record Decision : Type 0 where
  pub allowed : Bool
  pub remaining : ℕ
  pub retry_after : ℕ
  pub reset : Time
  pub reason : DenyReason

-- A decision without a bucket.
abbrev pub denied : DenyReason → Decision
denied reason = record {
  allowed = false;
  remaining = 0;
  retry_after = 0;
  reset = zero_time;
  reason = reason;
}

-- `validKey`
unfoldable pub valid_key : Text → Bool
valid_key key =
    if (length (to_bytes key) == 0)
      || (ltb max_key_bytes (length (to_bytes key)) || not (valid_string key))
    then false
    else not (any (λ r. is_control r || is_space r) key)

-- `Config`
pub record Config (F : Type 0) : Type 0 where
  pub capacity : ℤ
  pub refill_rate : F
  pub max_clients : ℤ
  pub idle_ttl : ℤ
  pub overflow : OverflowPolicy

-- `bucket`
pub record Bucket (F : Type 0) : Type 0 where
  pub tokens : F
  pub last_refill : Time
  pub last_seen : Time

-- `Limiter`, without its lock and clock.
pub record Limiter (F : Type 0) : Type 0 where
  pub capacity : ℕ
  pub refill_rate : F
  pub max_clients : ℕ
  pub idle_ttl : ℤ
  pub overflow : OverflowPolicy
  pub buckets : List (Entry (Bucket F))

abbrev is_known : OverflowPolicy → Bool
is_known reject_new = true
is_known evict_oldest = true
is_known (unknown_policy n) = false

module _ {F : Type 0} where
  -- `isExpired`
  unfoldable pub is_expired : ℤ → Time → Bucket F → Bool
  is_expired ttl now b = ltb_ℤ (pos 0) ttl && not (before now (add b.last_seen (pos_part ttl)))

  -- `cleanupLocked`
  unfoldable pub cleanup_locked : Time → Limiter F → Limiter F
  unfolding is_expired
  cleanup_locked now l =
      if ltb_ℤ (pos 0) l.idle_ttl
      then record l { buckets = drop_if (is_expired l.idle_ttl now) l.buckets }
      else l

  -- `Cleanup`: the number of buckets removed, and the limiter; a nil limiter is `none`.
  unfoldable pub cleanup : Time → Option (Limiter F) → ℕ × Option (Limiter F)
  unfolding cleanup_locked
  cleanup now none = (0, none)
  cleanup now (some l) =
      if ltb_ℤ (pos 0) l.idle_ttl
      then (length l.buckets - length (cleanup_locked now l).buckets, some (cleanup_locked now l))
      else (0, some l)

  -- `Len`
  unfoldable pub len : Time → Option (Limiter F) → ℕ × Option (Limiter F)
  unfolding cleanup_locked
  len now none = (0, none)
  len now (some l) = (length (cleanup_locked now l).buckets, some (cleanup_locked now l))

  -- The test of the loop of `evictOldestLocked`: the bucket of `j` goes before the one of `k`.
  unfoldable pub goes_before : Bytes → Bucket F → Bytes → Bucket F → Bool
  goes_before j b k o =
      before b.last_seen o.last_seen || (equal b.last_seen o.last_seen && bytes_ltb j k)

  -- The loop, behind its first round.
  unfoldable pub oldest_from : Bytes → Bucket F → List (Entry (Bucket F)) → Bytes
  unfolding goes_before
  oldest_from k o [] = k
  oldest_from k o (entry j b ∷ m) =
      oldest_from (if goes_before j b k o then j else k) (if goes_before j b k o then b else o) m

  -- `evictOldestLocked`
  unfoldable pub evict_oldest_locked : Limiter F → Limiter F
  unfolding oldest_from
  evict_oldest_locked l = elim l.buckets [
    | [] ↦ l
    | entry k o ∷ m ↦ record l { buckets = erase (oldest_from k o m) l.buckets }
  ]

  -- What the policy does when all slots are taken.
  unfoldable pub on_full : OverflowPolicy → Limiter F → Bool × Limiter F
  unfolding evict_oldest_locked
  on_full reject_new l = (false, l)
  on_full evict_oldest l = (true, evict_oldest_locked l)
  on_full (unknown_policy n) l = (true, evict_oldest_locked l)

  -- The slot for a new key: whether there is one, and the limiter after the scans.
  unfoldable pub make_room : Time → Limiter F → Bool × Limiter F
  unfolding cleanup_locked on_full
  make_room now l =
      if leb l.max_clients (length l.buckets)
      then (if leb (cleanup_locked now l).max_clients (length (cleanup_locked now l).buckets)
          then on_full l.overflow (cleanup_locked now l)
          else (true, cleanup_locked now l))
      else (true, l)

  -- An expired bucket of the key is removed.
  unfoldable pub drop_expired : Time → Bytes → Limiter F → Limiter F
  unfolding is_expired
  drop_expired now key l = elim (lookup key l.buckets) [
    | none ↦ l
    | some b ↦ if is_expired l.idle_ttl now b then record l { buckets = erase key l.buckets } else l
  ]

module _ {F : Type 0} (fl : FloatOps F) where
  -- `Config.Validate`
  unfoldable pub validate : Config F → Result ConfigError (Unit {0})
  validate c = do
    fail_if (not (ltb_ℤ (pos 0) c.capacity)) bad_capacity
    fail_if (ltb_ℤ (pos max_capacity) c.capacity) bad_capacity
    fail_if
        (fl.is_nan c.refill_rate
          || (fl.is_inf c.refill_rate || fl.less_eq c.refill_rate (fl.of_nat 0)))
        bad_refill_rate
    fail_if (fl.less (fl.of_nat max_refill_rate) c.refill_rate) bad_refill_rate
    fail_if (not (ltb_ℤ (pos 0) c.max_clients)) bad_max_clients
    fail_if (ltb_ℤ (pos max_clients) c.max_clients) bad_max_clients
    fail_if (ltb_ℤ c.idle_ttl (pos 0)) bad_idle_ttl
    fail_if (ltb_ℤ (pos max_idle_ttl) c.idle_ttl) bad_idle_ttl
    fail_if (not (is_known c.overflow)) bad_overflow

  -- `New`, `NewLimiter`
  unfoldable pub new : Config F → Result ConfigError (Limiter F)
  unfolding validate
  new c = do
    validate c
    ok (record {
      capacity = pos_part c.capacity;
      refill_rate = c.refill_rate;
      max_clients = pos_part c.max_clients;
      idle_ttl = c.idle_ttl;
      overflow = c.overflow;
      buckets = [];
    })
