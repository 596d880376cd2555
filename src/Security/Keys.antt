-- ===== src/Security/Keys.antt =====
-- The keys that the middleware gives to the limiter.
use go_clean_architecture.Prelude.{
  ℕ, ◌*◌, ◌/◌, ◌%◌, ◌≤◌, ◌<◌, ◌≡◌, refl, Bool, true, false, ◌&&◌, ◌||◌, [], ◌∷◌, ◌++◌, arith, ltb,
  Bytes, codes, length, length-append, all, any,
}
use go_clean_architecture.Std.Text.{
  Text, ascii, to_bytes, encode_rune, valid_string, is_control, is_space,
}
use go_clean_architecture.Std.Hex
use go_clean_architecture.Std.Hex.{digit}
use go_clean_architecture.Std.Base64.{IsByteList}
use go_clean_architecture.Item.Cursor.{Sha256}
use go_clean_architecture.RateLimit.{valid_key}
use go_clean_architecture.Security.{principal_rate_key}

-- A character that a limiter's key may hold.
abbrev is_plain : ℕ → Bool
is_plain c = ltb 32 c && ltb c 127

digit_plain : (v : ℕ) → v < 16 → is_plain (digit v) ≡ true
unfolding digit
digit_plain v h = ground arith

encode_plain : (bs : Bytes) → IsByteList bs → all is_plain (Hex.encode bs) ≡ true
unfolding Hex.encode
encode_plain [] h = refl
encode_plain (b ∷ bs) h = ground (
  arith,
  digit_plain (b / 16) (omega (arith, h.0)),
  digit_plain (b % 16) (omega arith),
  encode_plain bs h.1,
)

length-encode : (bs : Bytes) → length (Hex.encode bs) ≡ 2 * length bs
unfolding Hex.encode
length-encode [] = refl
length-encode (b ∷ bs) = omega (arith, length-encode bs)

to_bytes-ascii : (bs : Bytes) → all is_plain bs ≡ true → to_bytes (ascii bs) ≡ bs
unfolding to_bytes encode_rune
to_bytes-ascii [] h = refl
to_bytes-ascii (b ∷ bs) h = ground (arith, to_bytes-ascii bs)

valid_string-ascii : (bs : Bytes) → valid_string (ascii bs) ≡ true
unfolding valid_string
valid_string-ascii [] = refl
valid_string-ascii (b ∷ bs) = valid_string-ascii bs

any-ascii :
    (bs : Bytes) → all is_plain bs ≡ true → any (λ r. is_control r || is_space r) (ascii bs) ≡ false
unfolding is_control is_space
any-ascii [] h = refl
any-ascii (b ∷ bs) h = ground (arith, any-ascii bs)

valid_key-ascii :
    (bs : Bytes)
    → all is_plain bs ≡ true
    → 0 < length bs
    → length bs ≤ 256
    → valid_key (ascii bs) ≡ true
unfolding valid_key
valid_key-ascii bs plain some_bytes short =
    rw (to_bytes-ascii bs plain, valid_string-ascii bs, any-ascii bs plain) (ground arith)

-- The limiter accepts the key of every principal, whatever its subject.
pub valid_key-principal_rate_key :
    (sha : Sha256) (subject : Text) → valid_key (ascii (principal_rate_key sha subject)) ≡ true
unfolding principal_rate_key
valid_key-principal_rate_key sha subject =
    let d = sha.digest (to_bytes subject) in
    valid_key-ascii (codes "principal:" ++ Hex.encode d)
      (encode_plain d (sha.digest_bytes (to_bytes subject))) (omega arith)
      (omega (
        arith,
        length-append (codes "principal:") (Hex.encode d),
        length-encode d,
        sha.digest_length (to_bytes subject),
      ))
