-- ===== src/Item/Cursor/RoundTrip.antt =====
-- What `Encode` issues `Decode` reads back.
use go_clean_architecture.Prelude.{
  ℕ, pos, pos_part, ltb_ℤ, ◌≡◌, refl, inl, inr, some, ◌∷◌, ◌++◌, arith, Bytes, bytes_eq,
  bytes_eq_refl, length, length-append, take-append, drop-append, drop-append-append, replicate, ok,
  ◌>>◌, Bool-cases, if◌then◌else◌, Result-cases, bytes_eq-nil,
}
use go_clean_architecture.Std.Time.{
  Time, IsNormal, zero_time, to_utc, add, marshal_binary, is_zero, length-marshal_binary,
}
use go_clean_architecture.Std.Base64
use go_clean_architecture.Std.Base64.{IsByteList}
use go_clean_architecture.Item.Context.{Clock}
use go_clean_architecture.Item.Cursor.{
  Sha256, CursorPosition, SignedCursorCodec, validate, read_optional_time, current_time,
  expiry_field, token_of, mac, encode, decode, read_wire, read_payload, check_expiry,
  cursor_version,
}
use go_clean_architecture.Item.Cursor.Fields.{
  append-IsByteList, replicate-IsByteList, marshal_binary-IsByteList, put_time_lem,
  read_time-marshal_binary, read_optional_time-marshal_binary, add-IsNormal,
}

-- The position that a token carries: the instant is read back in UTC.
abbrev pub canonical : CursorPosition → CursorPosition
canonical p = record p { created_at = to_utc p.created_at }

-- A position as Go can hold it: a normal instant and the 16 bytes of an id.
pub record IsStorable (p : CursorPosition) : Type 0 where
  pub instant : IsNormal p.created_at
  pub id_length : length p.id ≡ 16
  pub id_bytes : IsByteList p.id

-- Validation does not look at the location of the instant.
pub validate-canonical : (p : CursorPosition) → validate (canonical p) ≡ validate p
unfolding validate is_zero
validate-canonical p = refl

module _ (sha : Sha256) (time_now : Clock) where
  -- The expiry that a token issued at `m` carries; the zero time if the codec has no expiry.
  unfoldable pub expiry : SignedCursorCodec → ℕ → Time
  expiry codec m =
      if ltb_ℤ (pos 0) codec.ttl
      then to_utc (add (current_time sha time_now codec m) (pos_part codec.ttl))
      else zero_time

  -- The expiry as its field holds it.
  abbrev pub expiry_bytes : SignedCursorCodec → ℕ → Bytes
  expiry_bytes codec m =
      if ltb_ℤ (pos 0) codec.ttl
      then marshal_binary (to_utc (add (current_time sha time_now codec m) (pos_part codec.ttl)))
      else replicate 15 0

  abbrev pub payload_of : SignedCursorCodec → ℕ → CursorPosition → Bytes
  payload_of codec m p =
      cursor_version ∷ marshal_binary (to_utc p.created_at) ++ (expiry_bytes codec m ++ p.id)

  expiry_field-eq-ok :
      (codec : SignedCursorCodec) (m : ℕ) (p : CursorPosition) (bs : Bytes)
      → expiry_field sha time_now codec (current_time sha time_now codec m) p ≡ ok bs
      → bs ≡ expiry_bytes codec m
  unfolding expiry_field
  expiry_field-eq-ok codec m p bs h =
      ground (arith, put_time_lem (add (current_time sha time_now codec m) (pos_part codec.ttl)))

  -- A token that is issued is the wire form of a valid position.
  pub encode-eq-ok :
      (codec : SignedCursorCodec) (m : ℕ) (p : CursorPosition) {token : Bytes}
      → encode sha time_now (some codec) m p ≡ ok token
      → (validate p ≡ ok tt) × (token ≡ token_of sha time_now codec (payload_of codec m p))
  unfolding encode
  encode-eq-ok codec m p {token} h =
      elim (Result-cases (expiry_field sha time_now codec (current_time sha time_now codec m) p)) [
        | inl (bs, e) ↦ ground (arith, put_time_lem p.created_at, expiry_field-eq-ok codec m p bs e)
        | inr (x, e) ↦ ground (arith, put_time_lem p.created_at)
      ]

  length-expiry_bytes : (codec : SignedCursorCodec) (m : ℕ) → length (expiry_bytes codec m) ≡ 15
  length-expiry_bytes codec m = ground (
    arith,
    length-marshal_binary (to_utc (add (current_time sha time_now codec m) (pos_part codec.ttl))),
  )

  expiry_bytes-IsByteList : (codec : SignedCursorCodec) (m : ℕ) → IsByteList (expiry_bytes codec m)
  expiry_bytes-IsByteList codec m = elim (Bool-cases (ltb_ℤ (pos 0) codec.ttl)) [
    | inl e ↦ rw e (marshal_binary-IsByteList _)
    | inr e ↦ rw e (replicate-IsByteList 15)
  ]

  read_optional_time-expiry_bytes :
      (codec : SignedCursorCodec) (m : ℕ)
      → read_optional_time (expiry_bytes codec m) ≡ some (expiry codec m)
  unfolding expiry read_optional_time bytes_eq
  read_optional_time-expiry_bytes codec m = elim (Bool-cases (ltb_ℤ (pos 0) codec.ttl)) [
    | inl e ↦ rw e (
        read_optional_time-marshal_binary
          (add (current_time sha time_now codec m) (pos_part codec.ttl))
          (add-IsNormal (current_time sha time_now codec m) (pos_part codec.ttl)))
    | inr e ↦ rw e refl
  ]

  length-mac :
      (codec : SignedCursorCodec) (payload : Bytes) → length (mac sha time_now codec payload) ≡ 32
  unfolding mac
  length-mac codec payload = sha.hmac_length _ _

  mac-IsByteList :
      (codec : SignedCursorCodec) (payload : Bytes) → IsByteList (mac sha time_now codec payload)
  unfolding mac
  mac-IsByteList codec payload = sha.hmac_bytes _ _

  read_wire-mac :
      (codec : SignedCursorCodec) (m : ℕ) (payload : Bytes)
      → length payload ≡ 47
      → let wire = payload ++ mac sha time_now codec payload in
        read_wire sha time_now codec m (Base64.encode wire) wire
        ≡ read_payload sha time_now codec m payload
  unfolding read_wire
  read_wire-mac codec m payload h =
      let tag = mac sha time_now codec payload in
      rw (take-append 47 payload tag h, drop-append 47 payload tag h, bytes_eq_refl tag)
        (rw
          (
            bytes_eq_refl (Base64.encode (payload ++ tag)),
            length-append payload tag,
            h,
            length-mac codec payload,
          )
          refl)

  -- A token of the right shape passes every check up to the payload's.
  pub decode-token_of :
      (codec : SignedCursorCodec) (m : ℕ) (payload : Bytes)
      → length payload ≡ 47
      → IsByteList payload
      → decode sha time_now (some codec) m (token_of sha time_now codec payload)
        ≡ read_payload sha time_now codec m payload
  unfolding decode bytes_eq
  decode-token_of codec m payload h k =
      let wire = payload ++ mac sha time_now codec payload in
      let size : length wire ≡ 79 =
        omega (
          arith,
          length-append payload (mac sha time_now codec payload),
          length-mac codec payload,
        ) in
      let letters : length (Base64.encode wire) ≡ 106 = omega (arith, Base64.length-encode wire) in
      let bytes =
        append-IsByteList payload (mac sha time_now codec payload) k
          (mac-IsByteList codec payload) in
      rw (letters, bytes_eq-nil (Base64.encode wire) letters, Base64.decode-encode wire bytes)
        (read_wire-mac codec m payload h)

  pub length-payload_of :
      (codec : SignedCursorCodec) (m : ℕ) (p : CursorPosition)
      → IsStorable p
      → length (payload_of codec m p) ≡ 47
  length-payload_of codec m p s = omega (
    arith,
    length-append (marshal_binary (to_utc p.created_at)) (expiry_bytes codec m ++ p.id),
    length-append (expiry_bytes codec m) p.id,
    length-marshal_binary (to_utc p.created_at),
    length-expiry_bytes codec m,
    s.id_length,
  )

  payload_of-IsByteList :
      (codec : SignedCursorCodec) (m : ℕ) (p : CursorPosition)
      → IsStorable p
      → IsByteList (payload_of codec m p)
  payload_of-IsByteList codec m p s = (
    omega arith,
    append-IsByteList (marshal_binary (to_utc p.created_at)) _ (marshal_binary-IsByteList _) (
        append-IsByteList (expiry_bytes codec m) p.id (expiry_bytes-IsByteList codec m) s.id_bytes),
  )

  read_payload-payload_of :
      (codec : SignedCursorCodec) (m n : ℕ) (p : CursorPosition)
      → IsStorable p
      → validate p ≡ ok tt
      → read_payload sha time_now codec n (payload_of codec m p)
        ≡ (check_expiry sha time_now codec n (expiry codec m) >> ok (canonical p))
  unfolding read_payload bytes_eq
  read_payload-payload_of codec m n p s v =
      let created = marshal_binary (to_utc p.created_at) in
      let expires = expiry_bytes codec m in
      let c = length-marshal_binary (to_utc p.created_at) in
      let e = length-expiry_bytes codec m in
      rw
        (
          take-append 15 created (expires ++ p.id) c,
          drop-append 15 created (expires ++ p.id) c,
          take-append 15 expires p.id e,
          drop-append-append 15 15 created expires p.id c e,
          read_time-marshal_binary p.created_at s.instant,
          read_optional_time-expiry_bytes codec m,
          validate-canonical p,
          v,
        )
        refl

  -- A token that `Encode` issued at moment `m`, for a position that Go can hold, decodes at every later or
  -- earlier moment `n`, by the same codec, to the position it was issued for (its instant in UTC),
  -- unless the token's expiry refuses it; no other check fails.
  pub decode-encode :
      (codec : SignedCursorCodec) (m n : ℕ) (p : CursorPosition) (token : Bytes)
      → IsStorable p
      → encode sha time_now (some codec) m p ≡ ok token
      → decode sha time_now (some codec) n token
        ≡ (check_expiry sha time_now codec n (expiry codec m) >> ok (canonical p))
  decode-encode codec m n p token s h =
      let (v, e) = encode-eq-ok codec m p {token = token} h in
      rw
        (
          e,
          decode-token_of codec n (payload_of codec m p) (length-payload_of codec m p s)
              (payload_of-IsByteList codec m p s),
        )
        (read_payload-payload_of codec m n p s v)
