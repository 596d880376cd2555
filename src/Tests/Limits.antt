-- ===== src/Tests/Limits.antt =====
-- A limiter of two clients, with whole numbers for floats.
use go_clean_architecture.Prelude.{
  none, ◌&&◌, ℕ, pos, ◌+◌, ◌-◌, ◌*◌, ◌/◌, ◌≤◌, ◌≡◌, ◌≢◌, refl, false, true, some, [], ◌∷◌, arith,
  ltb, leb, if◌then◌else◌, Bytes, codes, bytes_eq, length,
}
use go_clean_architecture.Std.Time.{signed, before, equal, add}
use go_clean_architecture.Std.Text.{ascii, to_bytes, valid_string, is_control, is_space}
use go_clean_architecture.Dict.{entry, lookup, erase, drop_if}
use go_clean_architecture.Dict.Laws.{IsMap}
use go_clean_architecture.RateLimit.{
  FloatOps, reject_new, Bucket, Limiter, Decision, valid_key, is_expired, cleanup_locked,
  evict_oldest_locked, validate, new,
}
use go_clean_architecture.RateLimit.Allow.{allow_n}
use go_clean_architecture.RateLimit.Eviction.{IsOldest, evict_oldest_locked-IsOldest}
use go_clean_architecture.RateLimit.Validity.{IsIeee, IsValid, allow_n-IsValid}
use go_clean_architecture.RateLimit.Decisions.{IsServed, available, rest_of, allow_n-lookup}
use go_clean_architecture.RateLimit.Capacity.{
  is_at_capacity, rejects, alive, allow_n-is_at_capacity,
}
use go_clean_architecture.Tests.{noon}

program : Unit {0}
unfolding to_bytes valid_string is_control is_space valid_key is_expired cleanup_locked lookup
    bytes_eq before signed equal add drop_if validate new
program = tt

abbrev pub fl : FloatOps ℕ
fl = record {
  of_nat = λ n. n;
  epsilon = 0;
  plus = ◌+◌;
  minus = ◌-◌;
  times = ◌*◌;
  over = ◌/◌;
  less = ltb;
  less_eq = leb;
  is_nan = λ n. false;
  is_inf = λ n. false;
  floor = pos;
  ceil = λ n. n;
  seconds = λ n. n / 1_000_000_000;
}

fl-IsIeee : IsIeee fl
fl-IsIeee = record {
  less_irrefl = λ a. ground arith;
  nat_nonneg = λ n. ground arith;
  nat_bounded = λ n. ground arith;
  minus_bounded = λ a b c h k. ground arith;
}

abbrev pub bucket : ℕ → ℕ → Bucket ℕ
bucket tokens sec = record {
  tokens = tokens;
  last_refill = record { sec = sec; nsec = 0; utc = true };
  last_seen = record { sec = sec; nsec = 0; utc = true };
}

abbrev pub limiter : Limiter ℕ
limiter = record {
  capacity = 5;
  refill_rate = 1;
  max_clients = 2;
  idle_ttl = pos 0;
  overflow = reject_new;
  buckets =
      entry (codes "a") (bucket 5 62_999_999_999)
      ∷ entry (codes "b") (bucket 0 62_999_999_990)
      ∷ [];
}

limiter-IsMap : IsMap limiter.buckets
unfolding program
limiter-IsMap = (refl, (refl, tt))

limiter-IsValid : IsValid fl limiter
unfolding program
limiter-IsValid = record {
  map = limiter-IsMap;
  positive = omega arith;
  bounded = omega arith;
  filled = λ k b e. ground arith;
}

allow_n-IsValid_example :
    (l : Limiter ℕ) × ((allow_n fl noon (ascii (codes "c")) (pos 1) (some limiter)).1 ≡ some l)
    × IsValid fl l
allow_n-IsValid_example =
    allow_n-IsValid fl fl-IsIeee noon (ascii (codes "c")) (pos 1) limiter limiter-IsValid

a-IsServed : IsServed limiter (ascii (codes "a")) 2
unfolding program
a-IsServed = record { key_valid = refl; cost_positive = omega arith; cost_bounded = omega arith }

a_found : lookup (to_bytes (ascii (codes "a"))) limiter.buckets ≡ some (bucket 5 62_999_999_999)
unfolding program
a_found = refl

a_alive : is_expired limiter.idle_ttl noon (bucket 5 62_999_999_999) ≡ false
unfolding program
a_alive = refl

allow_n-lookup_example :
    let tokens = available fl noon limiter (bucket 5 62_999_999_999) in
    (d : Decision) × (l : Limiter ℕ) × (b : Bucket ℕ) × (allow_n fl noon
        (ascii (codes "a"))
        (pos 2)
        (some limiter)
      ≡ (d, some l))
    × (d.allowed ≡ leb 2 tokens)
    × (lookup (to_bytes (ascii (codes "a"))) l.buckets ≡ some b)
    × (b.tokens ≡ (if leb 2 tokens then rest_of fl tokens 2 else tokens))
    × ((j : Bytes)
        → bytes_eq (to_bytes (ascii (codes "a"))) j ≡ false
        → lookup j l.buckets ≡ lookup j limiter.buckets)
allow_n-lookup_example =
    allow_n-lookup fl noon (ascii (codes "a")) 2 limiter (bucket 5 62_999_999_999) a-IsServed
      a_found a_alive

some_buckets : limiter.buckets ≢ []
some_buckets e = cc e

evict_oldest_locked-IsOldest_example :
    (k : Bytes) × (b : Bucket ℕ) × IsOldest k b limiter.buckets
    × (evict_oldest_locked limiter ≡ record limiter { buckets = erase k limiter.buckets })
    × (length (evict_oldest_locked limiter).buckets + 1 ≤ length limiter.buckets)
evict_oldest_locked-IsOldest_example =
    evict_oldest_locked-IsOldest limiter limiter-IsMap some_buckets

c-IsServed : IsServed limiter (ascii (codes "c")) 2
unfolding program
c-IsServed = record { key_valid = refl; cost_positive = omega arith; cost_bounded = omega arith }

c_absent : lookup (to_bytes (ascii (codes "c"))) limiter.buckets ≡ none
unfolding program
c_absent = refl

allow_n-is_at_capacity_example :
    is_at_capacity ((allow_n fl noon (ascii (codes "c")) (pos 2) (some limiter)).0.reason) ≡ (
      rejects limiter.overflow
      && leb limiter.max_clients (alive limiter.idle_ttl noon limiter.buckets))
allow_n-is_at_capacity_example =
    allow_n-is_at_capacity fl noon (ascii (codes "c")) 2 limiter c-IsServed c_absent
