-- ===== src/Std/Base64.antt =====
-- `base64.RawURLEncoding`: the URL alphabet with no padding.
use go_clean_architecture.Prelude.{
  ℕ, ◌+◌, ◌-◌, ◌*◌, ◌/◌, ◌%◌, ◌<◌, ◌≡◌, refl, ◌&&◌, ◌||◌, Option, none, some, [], ◌∷◌, ltb, leb,
  ◌==◌, if◌then◌else◌, Bytes, arith, length,
}

unfoldable pub letter : ℕ → ℕ
letter i =
    if ltb i 26
    then i + b'A'
    else if ltb i 52
    then i - 26 + b'a'
    else if ltb i 62
    then i - 52 + b'0'
    else if i == 62
    then b'-'
    else b'_'

unfoldable pub letter_value : ℕ → Option ℕ
letter_value c =
    if leb b'A' c && leb c b'Z'
    then some (c - b'A')
    else if leb b'a' c && leb c b'z'
    then some (c - b'a' + 26)
    else if leb b'0' c && leb c b'9'
    then some (c - b'0' + 52)
    else if c == b'-'
    then some 62
    else if c == b'_'
    then some 63
    else none

-- `EncodeToString`: four letters for three bytes, and two or three letters for what is left.
unfoldable pub encode : Bytes → Bytes
encode [] = []
encode (a ∷ []) = letter (a / 4) ∷ letter (a % 4 * 16) ∷ []
encode (a ∷ b ∷ []) = letter (a / 4) ∷ letter (a % 4 * 16 + b / 16) ∷ letter (b % 16 * 4) ∷ []
encode (a ∷ b ∷ c ∷ rest) =
    letter (a / 4)
    ∷ letter (a % 4 * 16 + b / 16)
    ∷ letter (b % 16 * 4 + c / 64)
    ∷ letter (c % 64)
    ∷ encode rest

-- The decoder passes over line ends, wherever they stand.
unfoldable pub strip_newlines : Bytes → Bytes
strip_newlines [] = []
strip_newlines (c ∷ cs) =
    let rest = strip_newlines cs in if (c == 10) || (c == 13) then rest else c ∷ rest

infixl 5 ◌>>=◌
abbrev ◌>>=◌ : {A B : Type 0} → Option A → (A → Option B) → Option B
none >>= f = none
some a >>= f = f a

-- One letter alone is an error; the unused bits of the last letter are not looked at.
unfoldable pub decode_groups : Bytes → Option Bytes
decode_groups [] = some []
decode_groups (p ∷ []) = none
decode_groups (p ∷ q ∷ []) = do a ← letter_value p; b ← letter_value q; some ((a * 4 + b / 16) ∷ [])
decode_groups (p ∷ q ∷ r ∷ []) = do
  a ← letter_value p
  b ← letter_value q
  c ← letter_value r
  some ((a * 4 + b / 16) ∷ (b % 16 * 16 + c / 4) ∷ [])
decode_groups (p ∷ q ∷ r ∷ s ∷ rest) = do
  a ← letter_value p
  b ← letter_value q
  c ← letter_value r
  d ← letter_value s
  bs ← decode_groups rest
  some ((a * 4 + b / 16) ∷ (b % 16 * 16 + c / 4) ∷ (c % 4 * 64 + d) ∷ bs)

-- `DecodeString`
unfoldable pub decode : Bytes → Option Bytes
unfolding strip_newlines decode_groups
decode cs = decode_groups (strip_newlines cs)

-- Every element is a byte.
abbrev pub IsByteList : Bytes → Type 0
IsByteList [] = Unit {0}
IsByteList (b ∷ bs) = (b < 256) × IsByteList bs

letter_value-letter : (i : ℕ) → i < 64 → letter_value (letter i) ≡ some i
unfolding letter_value letter
letter_value-letter i h = ground arith

letter_visible : (i : ℕ) → i < 64 → 13 < letter i
unfolding letter
letter_visible i h = ground arith

strip_newlines_visible :
    (c : ℕ) (cs : Bytes) → 13 < c → strip_newlines (c ∷ cs) ≡ c ∷ strip_newlines cs
unfolding strip_newlines
strip_newlines_visible c cs h = ground arith

encode_visible : (bs : Bytes) → IsByteList bs → strip_newlines (encode bs) ≡ encode bs
unfolding encode strip_newlines
encode_visible [] h = refl
encode_visible (a ∷ []) h = ground (arith, letter_visible (a / 4), letter_visible (a % 4 * 16))
encode_visible (a ∷ b ∷ []) h = ground (
  arith,
  letter_visible (a / 4),
  letter_visible (a % 4 * 16 + b / 16),
  letter_visible (b % 16 * 4),
)
encode_visible (a ∷ b ∷ c ∷ rest) h = ground (
  arith,
  letter_visible (a / 4),
  letter_visible (a % 4 * 16 + b / 16),
  letter_visible (b % 16 * 4 + c / 64),
  letter_visible (c % 64),
  encode_visible rest h.1.1.1,
)

decode_groups-encode : (bs : Bytes) → IsByteList bs → decode_groups (encode bs) ≡ some bs
unfolding encode decode_groups
decode_groups-encode [] h = refl
decode_groups-encode (a ∷ []) h =
    ground (arith, letter_value-letter (a / 4), letter_value-letter (a % 4 * 16))
decode_groups-encode (a ∷ b ∷ []) h = ground (
  arith,
  letter_value-letter (a / 4),
  letter_value-letter (a % 4 * 16 + b / 16),
  letter_value-letter (b % 16 * 4),
)
decode_groups-encode (a ∷ b ∷ c ∷ rest) h = ground (
  arith,
  letter_value-letter (a / 4),
  letter_value-letter (a % 4 * 16 + b / 16),
  letter_value-letter (b % 16 * 4 + c / 64),
  letter_value-letter (c % 64),
  decode_groups-encode rest h.1.1.1,
)

-- What is encoded is decoded.
pub decode-encode : (bs : Bytes) → IsByteList bs → decode (encode bs) ≡ some bs
unfolding decode
decode-encode bs h = rw (encode_visible bs h) (decode_groups-encode bs h)

-- Three bytes take four letters.
pub length-encode : (bs : Bytes) → length (encode bs) ≡ (length bs * 4 + 2) / 3
unfolding encode
length-encode [] = refl
length-encode (a ∷ []) = refl
length-encode (a ∷ b ∷ []) = refl
length-encode (a ∷ b ∷ c ∷ rest) = omega (arith, length-encode rest)
