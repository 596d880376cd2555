-- ===== src/Item/Cursor/Issue.antt =====
-- When `Encode` issues a token.
use go_clean_architecture.Prelude.{
  ℕ, pos, ◌≡◌, refl, false, some, ◌++◌, arith, Bytes, length, length-append, ok,
}
use go_clean_architecture.Std.Time.{is_zero}
use go_clean_architecture.Std.Base64
use go_clean_architecture.Item.Context.{Clock}
use go_clean_architecture.Item.Cursor.{
  Sha256, CursorPosition, SignedCursorCodec, validate, current_time, expiry_field, token_of, mac,
  encode, check_expiry,
}
use go_clean_architecture.Item.Cursor.Fields.{put_time_lem}
use go_clean_architecture.Item.Cursor.RoundTrip.{
  IsStorable, expiry, expiry_bytes, payload_of, length-payload_of,
}

module _ (sha : Sha256) (time_now : Clock) (codec : SignedCursorCodec) where
  -- Every token has 109 bytes.
  pub length-token_of :
      (payload : Bytes) → length payload ≡ 47 → length (token_of sha time_now codec payload) ≡ 109
  unfolding mac
  length-token_of payload h = omega (
    arith,
    Base64.length-encode (payload ++ mac sha time_now codec payload),
    length-append payload (mac sha time_now codec payload),
    sha.hmac_length,
  )

  -- A valid position that Go can hold gets its token whenever the clock is not zero and the expiry can be written.
  pub encode-token_of :
      (m : ℕ) (p : CursorPosition)
      → IsStorable p
      → validate p ≡ ok tt
      → is_zero (current_time sha time_now codec m) ≡ false
      → expiry_field sha time_now codec (current_time sha time_now codec m) p
        ≡ ok (expiry_bytes sha time_now codec m)
      → encode sha time_now (some codec) m p
        ≡ ok (token_of sha time_now codec (payload_of sha time_now codec m p))
  unfolding encode
  encode-token_of m p s v running field = ground (
    arith,
    put_time_lem p.created_at,
    length-token_of (payload_of sha time_now codec m p)
        (length-payload_of sha time_now codec m p s),
  )

  -- Without an expiry the field can always be written, and no token expires.
  pub expiry_field_none :
      (m : ℕ) (p : CursorPosition)
      → codec.ttl ≡ pos 0
      → expiry_field sha time_now codec (current_time sha time_now codec m) p
        ≡ ok (expiry_bytes sha time_now codec m)
  unfolding expiry_field
  expiry_field_none m p h = rw h refl

  pub check_expiry_none :
      (m n : ℕ)
      → codec.ttl ≡ pos 0
      → check_expiry sha time_now codec n (expiry sha time_now codec m) ≡ ok tt
  unfolding check_expiry expiry is_zero
  check_expiry_none m n h = rw h refl
