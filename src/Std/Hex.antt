-- ===== src/Std/Hex.antt =====
-- `encoding/hex`: two digits for a byte.
use go_clean_architecture.Prelude.{
  ℕ, ◌+◌, ◌-◌, ◌*◌, ◌/◌, ◌%◌, ◌&&◌, Option, none, some, [], ◌∷◌, ltb, leb, if◌then◌else◌, Bytes,
}

-- `hex.EncodeToString`, lower case.
unfoldable pub digit : ℕ → ℕ
digit v = if ltb v 10 then v + b'0' else v - 10 + b'a'

unfoldable pub encode : Bytes → Bytes
unfolding digit
encode [] = []
encode (b ∷ bs) = digit (b / 16) ∷ digit (b % 16) ∷ encode bs

-- The value of a digit, of either case.
unfoldable pub digit_value : ℕ → Option ℕ
digit_value c =
    if leb b'0' c && leb c b'9'
    then some (c - b'0')
    else if leb b'a' c && leb c b'f'
    then some (c - b'a' + 10)
    else if leb b'A' c && leb c b'F'
    then some (c - b'A' + 10)
    else none

infixl 5 ◌>>=◌
abbrev ◌>>=◌ : {A B : Type 0} → Option A → (A → Option B) → Option B
none >>= f = none
some a >>= f = f a

-- `hex.DecodeString`: an odd length and a character that is no digit are errors.
unfoldable pub decode : Bytes → Option Bytes
unfolding digit_value
decode [] = some []
decode (h ∷ []) = none
decode (h ∷ l ∷ rest) = do
  a ← digit_value h
  b ← digit_value l
  bs ← decode rest
  some ((a * 16 + b) ∷ bs)
