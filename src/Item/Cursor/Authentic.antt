-- ===== src/Item/Cursor/Authentic.antt =====
-- What `Decode` accepts: exactly the wire forms that carry the codec's own MAC.
use go_clean_architecture.Prelude.{
  ℕ, ◌≡◌, refl, sym, ◌∙◌, true, false, inl, inr, some, arith, Bytes, bytes_eq, bytes_eq→eq, length,
  length-take, take, drop, take-append-drop, ok, err, Option-cases,
}
use go_clean_architecture.Std.Time.{Time, is_zero}
use go_clean_architecture.Std.Base64
use go_clean_architecture.Item.Context.{Clock}
use go_clean_architecture.Item.Errors.{Error, is, invalid_cursor}
use go_clean_architecture.Item.Cursor.{
  Sha256, CursorPosition, SignedCursorCodec, validate, current_time, token_of, mac, decode,
  read_wire, read_payload, read_time, read_optional_time, check_expiry, cursor_prefix,
}

module _ (sha : Sha256) (time_now : Clock) (codec : SignedCursorCodec) (m : ℕ) where
  read_wire-tests :
      (encoded wire : Bytes) (p : CursorPosition)
      → read_wire sha time_now codec m encoded wire ≡ ok p
      → (length wire ≡ 79)
        × (bytes_eq (Base64.encode wire) encoded ≡ true)
        × (bytes_eq (drop 47 wire) (mac sha time_now codec (take 47 wire)) ≡ true)
        × (read_payload sha time_now codec m (take 47 wire) ≡ ok p)
  unfolding read_wire
  read_wire-tests encoded wire p h = (ground arith, ground arith, ground arith, ground arith)

  decode-tests :
      (token : Bytes) (p : CursorPosition)
      → decode sha time_now (some codec) m token ≡ ok p
      → bytes_eq (take 3 token) cursor_prefix ≡ true
  unfolding decode
  decode-tests token p h = ground arith

  decode-read_wire :
      (token : Bytes) (p : CursorPosition)
      → decode sha time_now (some codec) m token ≡ ok p
      → (wire : Bytes) × (read_wire sha time_now codec m (drop 3 token) wire ≡ ok p)
  unfolding decode
  decode-read_wire token p h = elim (Option-cases (Base64.decode (drop 3 token))) [
    | inl e ↦ absurd (ground arith)
    | inr (wire, e) ↦ (wire, ground arith)
  ]

  -- A token that is accepted is the wire form of a payload of 47 bytes, in canonical base64 and under
  -- the codec's own MAC, and the position returned is the one that this payload carries.
  pub decode-eq-ok :
      (token : Bytes) (p : CursorPosition)
      → decode sha time_now (some codec) m token ≡ ok p
      → (payload : Bytes) × (length payload ≡ 47)
        × (token ≡ token_of sha time_now codec payload)
        × (read_payload sha time_now codec m payload ≡ ok p)
  decode-eq-ok token p h =
      let (wire, r) = decode-read_wire token p h in
      let (size, letters, tag, rest) = read_wire-tests (drop 3 token) wire p r in
      (
        take 47 wire,
        omega (arith, length-take 47 wire),
        sym (take-append-drop 3 token)
            ∙ rw
                (
                  bytes_eq→eq _ _ (decode-tests token p h),
                  ← bytes_eq→eq _ _ letters,
                  ← bytes_eq→eq _ _ tag,
                  take-append-drop 47 wire,
                )
                refl,
        rest,
      )

  validate-eq-err :
      (p : CursorPosition) (e : Error) → validate p ≡ err e → is e invalid_cursor ≡ true
  unfolding validate is
  validate-eq-err p e h = ground arith

  check_expiry-eq-err :
      (t : Time) (e : Error)
      → is_zero (current_time sha time_now codec m) ≡ false
      → check_expiry sha time_now codec m t ≡ err e
      → is e invalid_cursor ≡ true
  unfolding check_expiry is
  check_expiry-eq-err t e running h = ground arith

  read_payload-eq-err :
      (payload : Bytes) (e : Error)
      → is_zero (current_time sha time_now codec m) ≡ false
      → read_payload sha time_now codec m payload ≡ err e
      → is e invalid_cursor ≡ true
  unfolding read_payload is
  read_payload-eq-err payload e running h =
      elim (Option-cases (read_time (take 15 (drop 1 payload)))) [
        | inl no_time ↦ ground arith
        | inr (created, at) ↦ elim (Option-cases (read_optional_time (take 15 (drop 16 payload)))) [
          | inl no_time ↦ ground arith
          | inr (expires, until) ↦ ground (
            arith,
            validate-eq-err (record { created_at = created; id = drop 31 payload }) e,
            check_expiry-eq-err expires e running,
          )
        ]
      ]

  read_wire-eq-err :
      (encoded wire : Bytes) (e : Error)
      → is_zero (current_time sha time_now codec m) ≡ false
      → read_wire sha time_now codec m encoded wire ≡ err e
      → is e invalid_cursor ≡ true
  unfolding read_wire is
  read_wire-eq-err encoded wire e running h =
      ground (arith, read_payload-eq-err (take 47 wire) e running)

  -- Every refusal of a codec whose clock runs is an ErrInvalidCursor: malformed, forged, invalid and
  -- expired tokens cannot be told apart by the sentinel.
  pub decode-eq-err :
      (token : Bytes) (e : Error)
      → is_zero (current_time sha time_now codec m) ≡ false
      → decode sha time_now (some codec) m token ≡ err e
      → is e invalid_cursor ≡ true
  unfolding decode is
  decode-eq-err token e running h = elim (Option-cases (Base64.decode (drop 3 token))) [
    | inl no_wire ↦ ground arith
    | inr (wire, found) ↦ ground (arith, read_wire-eq-err (drop 3 token) wire e running)
  ]
