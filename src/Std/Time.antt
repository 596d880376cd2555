-- ===== src/Std/Time.antt =====
-- `time.Time` as the sources use it: wall-clock instants without a monotonic reading.
-- `sec` is the bit pattern of the int64 count of seconds since January 1 of year 1, `nsec` the
-- nanoseconds, `utc` whether the location is UTC. The zero value is the zero instant.
use go_clean_architecture.Prelude.{
  ℕ, ◌+◌, ◌-◌, ◌*◌, ◌/◌, ◌%◌, ◌^◌, min, ◌≡◌, refl, Bool, true, ◌&&◌, ◌||◌, Option, none, some, [],
  ◌∷◌, ◌++◌, arith, ltb, ◌==◌, if◌then◌else◌, Bytes, bytes_eq, length, take, drop, zero, suc, ◌<◌,
}

pub record Time : Type 0 where
  pub sec : ℕ
  pub nsec : ℕ
  pub utc : Bool

abbrev pub second : ℕ
second = 1_000_000_000

abbrev pub word : ℕ
word = 18_446_744_073_709_551_616

abbrev pub half_word : ℕ
half_word = 9_223_372_036_854_775_808

abbrev pub zero_time : Time
zero_time = record { sec = 0; nsec = 0; utc = true }

unfoldable pub is_zero : Time → Bool
is_zero t = (t.sec == 0) && (t.nsec == 0)

-- The signed order of the seconds, moved into the natural numbers.
unfoldable pub signed : ℕ → ℕ
signed s = (s + half_word) % word

unfoldable pub before : Time → Time → Bool
before t u =
    ltb (signed t.sec) (signed u.sec) || ((signed t.sec == signed u.sec) && ltb t.nsec u.nsec)

abbrev pub after : Time → Time → Bool
after t u = before u t

unfoldable pub equal : Time → Time → Bool
equal t u = (signed t.sec == signed u.sec) && (t.nsec == u.nsec)

-- `t.UTC().Round(0)`: the same instant, in UTC and with no monotonic reading.
abbrev pub to_utc : Time → Time
to_utc t = record { sec = t.sec; nsec = t.nsec; utc = true }

-- `t.Add(d)` for `0 ≤ d`; the int64 sum of seconds saturates.
unfoldable pub add : Time → ℕ → Time
unfolding signed
add t d = record {
  sec =
      let seconds = d / second + (t.nsec + d % second) / second in
      if ltb (signed t.sec + seconds) word then (t.sec + seconds) % word else half_word - 1;
  nsec = (t.nsec + d % second) % second;
  utc = t.utc;
}

-- `t.Sub(u)` for `u` not after `t`, in nanoseconds; it saturates at the largest Duration.
unfoldable pub sub : Time → Time → ℕ
unfolding signed
sub t u = min (half_word - 1) (signed t.sec * second + t.nsec - (signed u.sec * second + u.nsec))

-- Seconds between January 1 of year 1 and of 1970.
abbrev pub unix_epoch : ℕ
unix_epoch = 62_135_596_800

-- `t.Unix()`, as a bit pattern.
abbrev pub unix_seconds : Time → ℕ
unix_seconds t = (t.sec + (word - unix_epoch)) % word

-- `time.Unix(s, n).UTC()` for `0 ≤ n`: whole seconds among the nanoseconds are carried.
unfoldable pub unix : ℕ → ℕ → Time
unix s n = record { sec = (s + n / second + unix_epoch) % word; nsec = n % second; utc = true }

-- The `n` bytes of a number, most significant first.
unfoldable pub be_bytes : ℕ → ℕ → Bytes
be_bytes zero v = []
be_bytes (suc n) v = (v / 256 ^ n) % 256 ∷ be_bytes n v

unfoldable pub be_value : ℕ → Bytes → ℕ
be_value acc [] = acc
be_value acc (b ∷ bs) = be_value (acc * 256 + b) bs

-- `t.MarshalBinary()` of an instant in UTC: version 1, seconds, nanoseconds, offset -1.
unfoldable pub marshal_binary : Time → Bytes
unfolding be_bytes
marshal_binary t = 1 ∷ be_bytes 8 t.sec ++ (be_bytes 4 t.nsec ++ (255 ∷ 255 ∷ []))

-- `t.UnmarshalBinary(data)` for 15 bytes: version 2 wants a sixteenth. The nanoseconds are kept in
-- thirty bits, and only the offset -1 stands for UTC.
unfoldable pub unmarshal_binary : Bytes → Option Time
unfolding be_value bytes_eq
unmarshal_binary bs =
    if bytes_eq (take 1 bs) (1 ∷ []) && (length bs == 15)
    then some (record {
      sec = be_value 0 (take 8 (drop 1 bs));
      nsec = be_value 0 (take 4 (drop 9 bs)) % 1_073_741_824;
      utc = bytes_eq (drop 13 bs) (255 ∷ 255 ∷ []);
    })
    else none

be_value-be_bytes-word : (v : ℕ) → v < word → be_value 0 (be_bytes 8 v) ≡ v
unfolding be_value be_bytes
be_value-be_bytes-word v h = omega arith

be_value-be_bytes-half_word : (v : ℕ) → v < 4_294_967_296 → be_value 0 (be_bytes 4 v) ≡ v
unfolding be_value be_bytes
be_value-be_bytes-half_word v h = omega arith

-- An instant that Go can hold: the seconds are a word, the nanoseconds less than a second.
pub record IsNormal (t : Time) : Type 0 where
  pub sec_word : t.sec < word
  pub nsec_second : t.nsec < second

pub length-marshal_binary : (t : Time) → length (marshal_binary t) ≡ 15
unfolding marshal_binary
length-marshal_binary t = refl

-- What is marshalled is unmarshalled, in UTC.
pub unmarshal_binary-marshal_binary :
    (t : Time) → IsNormal t → unmarshal_binary (marshal_binary t) ≡ some (to_utc t)
unfolding unmarshal_binary marshal_binary be_value be_bytes
unmarshal_binary-marshal_binary t h =
    ground (arith, be_value-be_bytes-word t.sec, be_value-be_bytes-half_word t.nsec)
