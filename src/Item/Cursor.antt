-- ===== src/Item/Cursor.antt =====
-- internal/item/cursor.go: keyset positions, and the codec that carries them as signed tokens.
pub mod Fields
pub mod RoundTrip
pub mod Authentic
pub mod Issue
use go_clean_architecture.Prelude.{
  ℕ, ℤ, pos, pos_part, ltb_ℤ, ◌+◌, ◌≡◌, Bool, true, false, not, ◌&&◌, ◌||◌, Option, none, some,
  List, [], ◌∷◌, ◌++◌, ltb, ◌==◌, if◌then◌else◌, Bytes, codes, bytes_eq, length, take, drop,
  replicate, any, Result, ok, err, ◌>>=◌, ◌>>◌, fail_if, of_option, map_err,
}
use go_clean_architecture.Std.Time.{
  Time, zero_time, is_zero, before, after, equal, to_utc, add, unix, unix_seconds, marshal_binary,
  unmarshal_binary,
}
use go_clean_architecture.Std.Text.{Text, ascii, to_bytes, valid_string, is_control}
use go_clean_architecture.Std.Base64
use go_clean_architecture.Item.Errors.{
  Error, sentinel, cursor, join, wrap, other, invalid_cursor, cursor_unavailable, cursor_state,
}
use go_clean_architecture.Item.Context.{Clock}
use go_clean_architecture.Item.Model.{Uuid, is_nil, Item}

-- Durations are in nanoseconds.
abbrev pub day : ℕ
day = 86_400_000_000_000

abbrev pub default_cursor_ttl : ℤ
default_cursor_ttl = pos 86_400_000_000_000

abbrev pub max_cursor_ttl : ℤ
max_cursor_ttl = pos 2_592_000_000_000_000

abbrev pub min_cursor_signing_key_bytes : ℕ
min_cursor_signing_key_bytes = 32

abbrev pub max_cursor_bytes : ℕ
max_cursor_bytes = 512

abbrev pub cursor_version : ℕ
cursor_version = 1

abbrev pub cursor_prefix : Bytes
cursor_prefix = codes "v1_"

abbrev pub cursor_time_bytes : ℕ
cursor_time_bytes = 15

abbrev pub cursor_payload_bytes : ℕ
cursor_payload_bytes = 47

abbrev pub cursor_wire_bytes : ℕ
cursor_wire_bytes = 79

abbrev pub cursor_purpose : Text
cursor_purpose = ascii (codes "item-list-cursor/v1")

-- SHA-256 and HMAC-SHA256 of the standard library: functions into strings of 32 bytes.
pub record Sha256 : Type 0 where
  pub digest : Bytes → Bytes
  pub hmac : Bytes → Bytes → Bytes
  pub digest_length : (bs : Bytes) → length (digest bs) ≡ 32
  pub hmac_length : (key bs : Bytes) → length (hmac key bs) ≡ 32
  pub digest_bytes : (bs : Bytes) → Base64.IsByteList (digest bs)
  pub hmac_bytes : (key bs : Bytes) → Base64.IsByteList (hmac key bs)

pub record CursorPosition : Type 0 where
  pub created_at : Time
  pub id : Uuid

abbrev pub invalid : Bytes → Error
invalid reason = cursor reason

-- `CursorPosition.Validate`
unfoldable pub validate : CursorPosition → Result Error (Unit {0})
validate position = do
  fail_if (is_nil position.id) (invalid (codes "position id is required"))
  fail_if (is_zero position.created_at) (invalid (codes "position time is required"))
  let canonical = to_utc position.created_at
  fail_if (not (equal (unix (unix_seconds canonical) canonical.nsec) canonical))
      (invalid (codes "position time is out of range"))

-- `CursorPositionForItem`
unfoldable pub position_for_item : Item → Result Error CursorPosition
position_for_item value = do
  let position : CursorPosition = record { created_at = value.created_at; id = value.id }
  map_err (join (sentinel cursor_state)) (validate position)
  ok position

pub record SignedCursorCodec : Type 0 where
  pub key : Bytes
  pub ttl : ℤ
  pub clock : Option Clock
  pub purpose : Text

-- `CursorCodecOption`
pub data CursorCodecOption : Type 0 where
  with_cursor_ttl : ℤ → CursorCodecOption
  with_cursor_clock : Option Clock → CursorCodecOption
  with_cursor_purpose : Text → CursorCodecOption

-- `validateCursorCodecConfig`
unfoldable pub validate_cursor_codec_config : SignedCursorCodec → Result Error (Unit {0})
validate_cursor_codec_config codec = do
  fail_if (ltb_ℤ codec.ttl (pos 0) || ltb_ℤ max_cursor_ttl codec.ttl)
      (wrap (sentinel invalid_cursor))
  elim codec.clock [ none ↦ err (wrap (sentinel invalid_cursor)) | some c ↦ ok tt ]
  let size = length (to_bytes codec.purpose)
  fail_if
      ((size == 0)
        || (ltb 128 size || (not (valid_string codec.purpose) || any is_control codec.purpose)))
      (wrap (sentinel invalid_cursor))

-- `putTime`: the 15 bytes of the field.
unfoldable pub put_time : Time → Result Error Bytes
put_time value =
    let encoded = marshal_binary (to_utc value) in
    if length encoded == cursor_time_bytes
    then ok encoded
    else err (other (codes "unexpected cursor time encoding size"))

-- `readTime`: only the canonical encoding is read.
unfoldable pub read_time : Bytes → Option Time
read_time source = elim (unmarshal_binary source) [
  | none ↦ none
  | some value ↦
      if bytes_eq (marshal_binary (to_utc value)) source then some (to_utc value) else none
]

-- `readOptionalTime`: fifteen zero bytes are the zero time.
unfoldable pub read_optional_time : Bytes → Option Time
unfolding read_time
read_optional_time source =
    if bytes_eq source (replicate cursor_time_bytes 0) then some zero_time else read_time source

-- `time_now` is `time.Now`.
module _ (sha : Sha256) (time_now : Clock) where
  unfoldable pub apply_option : SignedCursorCodec → CursorCodecOption → SignedCursorCodec
  apply_option codec (with_cursor_ttl ttl) = record codec { ttl = ttl }
  apply_option codec (with_cursor_clock none) = record codec { clock = some time_now }
  apply_option codec (with_cursor_clock (some clock)) = record codec { clock = some clock }
  apply_option codec (with_cursor_purpose purpose) = record codec { purpose = purpose }

  -- The loop over the options; a nil option is passed over.
  unfoldable pub apply_options :
      SignedCursorCodec → List (Option CursorCodecOption) → SignedCursorCodec
  unfolding apply_option
  apply_options codec [] = codec
  apply_options codec (none ∷ rest) = apply_options codec rest
  apply_options codec (some o ∷ rest) = apply_options (apply_option codec o) rest

  -- `NewSignedCursorCodec`
  unfoldable pub new_signed_cursor_codec :
      Bytes → List (Option CursorCodecOption) → Result Error SignedCursorCodec
  unfolding apply_options validate_cursor_codec_config
  new_signed_cursor_codec secret options = do
    fail_if (ltb (length secret) min_cursor_signing_key_bytes) (wrap (sentinel invalid_cursor))
    let initial : SignedCursorCodec = record {
      key = replicate 32 0;
      ttl = default_cursor_ttl;
      clock = some time_now;
      purpose = cursor_purpose;
    }
    let codec = apply_options initial options
    validate_cursor_codec_config codec
    ok (record codec { key = sha.digest secret })

  -- `currentTime`
  unfoldable pub current_time : SignedCursorCodec → ℕ → Time
  current_time codec m = elim codec.clock [
    | none ↦ to_utc (time_now m)
    | some clock ↦ to_utc (clock m)
  ]

  -- `mac`: over the purpose, a zero byte and the payload.
  unfoldable pub mac : SignedCursorCodec → Bytes → Bytes
  mac codec payload = sha.hmac codec.key (to_bytes codec.purpose ++ (0 ∷ payload))

  -- The expiry field of `Encode`; it stays zero for a codec without expiry.
  unfoldable pub expiry_field : SignedCursorCodec → Time → CursorPosition → Result Error Bytes
  expiry_field codec now position =
      if ltb_ℤ (pos 0) codec.ttl
      then (do
        let expires = add now (pos_part codec.ttl)
        fail_if (not (after expires now))
            (join (sentinel cursor_unavailable) (other (codes "cursor expiry overflow")))
        fail_if (not (after expires position.created_at))
            (join (sentinel cursor_state) (other (codes "cursor expiry precedes position")))
        map_err (join (sentinel cursor_unavailable)) (put_time expires))
      else ok (replicate cursor_time_bytes 0)

  -- The wire format: the payload and its MAC, behind the prefix in base64.
  abbrev pub token_of : SignedCursorCodec → Bytes → Bytes
  token_of codec payload = cursor_prefix ++ Base64.encode (payload ++ mac codec payload)

  -- `Encode`; a nil codec is `none`.
  unfoldable pub encode : Option SignedCursorCodec → ℕ → CursorPosition → Result Error Bytes
  encode none m position = err (sentinel cursor_unavailable)
  encode (some codec) m position = do
    validate position
    let now = current_time codec m
    fail_if (is_zero now)
        (join (sentinel cursor_unavailable) (other (codes "cursor clock returned zero time")))
    created ← map_err (join (sentinel cursor_state)) (put_time position.created_at)
    expires ← expiry_field codec now position
    let payload = cursor_version ∷ created ++ (expires ++ position.id)
    let token = token_of codec payload
    fail_if (ltb max_cursor_bytes (length token))
        (join (sentinel cursor_unavailable) (other (codes "encoded cursor exceeds size bound")))
    ok token

  -- The end of `Decode`: a token that carries an expiry is good before that instant only.
  unfoldable pub check_expiry : SignedCursorCodec → ℕ → Time → Result Error (Unit {0})
  check_expiry codec m expires = if is_zero expires then ok tt else do
    let now = current_time codec m
    fail_if (is_zero now)
        (join (sentinel cursor_unavailable) (other (codes "cursor clock returned zero time")))
    fail_if (not (before now expires)) (invalid (codes "expired token"))

  -- The part of `Decode` behind the MAC.
  unfoldable pub read_payload : SignedCursorCodec → ℕ → Bytes → Result Error CursorPosition
  read_payload codec m payload = do
    fail_if (not (bytes_eq (take 1 payload) (cursor_version ∷ [])))
        (invalid (codes "unsupported version"))
    created ←
        of_option (read_time (take 15 (drop 1 payload))) (invalid (codes "invalid position time"))
    expires ←
        of_option (read_optional_time (take 15 (drop 16 payload)))
          (invalid (codes "invalid expiry time"))
    let position : CursorPosition = record { created_at = created; id = drop 31 payload }
    validate position
    check_expiry codec m expires
    ok position

  -- The part of `Decode` behind the base64 decoding.
  unfoldable pub read_wire : SignedCursorCodec → ℕ → Bytes → Bytes → Result Error CursorPosition
  read_wire codec m encoded wire = do
    fail_if (not (length wire == cursor_wire_bytes)) (invalid (codes "malformed token"))
    fail_if (not (bytes_eq (Base64.encode wire) encoded)) (invalid (codes "non-canonical token"))
    let payload = take cursor_payload_bytes wire
    fail_if (not (bytes_eq (drop cursor_payload_bytes wire) (mac codec payload)))
        (invalid (codes "authentication failed"))
    read_payload codec m payload

  -- `Decode`; a nil codec is `none`.
  unfoldable pub decode : Option SignedCursorCodec → ℕ → Bytes → Result Error CursorPosition
  decode none m token = err (sentinel cursor_unavailable)
  decode (some codec) m token = do
    fail_if
        (bytes_eq token []
          || (ltb max_cursor_bytes (length token) || not (bytes_eq (take 3 token) cursor_prefix)))
        (invalid (codes "malformed token"))
    let encoded = drop 3 token
    fail_if (bytes_eq encoded []) (invalid (codes "malformed token"))
    wire ← of_option (Base64.decode encoded) (invalid (codes "malformed token"))
    read_wire codec m encoded wire
