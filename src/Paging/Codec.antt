-- ===== src/Paging/Codec.antt =====
-- The built-in codec without expiry keeps the contract of paging.
use go_clean_architecture.Prelude.{ℕ, pos, ◌≡◌, refl, false, arith}
use go_clean_architecture.Std.Time.{is_zero}
use go_clean_architecture.Item.Context.{Clock}
use go_clean_architecture.Item.Cursor.{Sha256, SignedCursorCodec, current_time, token_of}
use go_clean_architecture.Item.Cursor.RoundTrip.{decode-encode, payload_of, length-payload_of}
use go_clean_architecture.Item.Cursor.Issue.{
  length-token_of, encode-token_of, expiry_field_none, check_expiry_none,
}
use go_clean_architecture.Item.Ports.{signed}
use go_clean_architecture.Memory.Order.{position_of}
use go_clean_architecture.Paging.{IsFaithful}

-- A codec without expiry, whose clock is never zero, issues for every pageable item a token of 1 to 512 bytes
-- that reads back at every moment as the position of the item, its instant in UTC.
pub signed-IsFaithful :
    (sha : Sha256) (time_now : Clock) (codec : SignedCursorCodec)
    → codec.ttl ≡ pos 0
    → ((m : ℕ) → is_zero (current_time sha time_now codec m) ≡ false)
    → IsFaithful (signed sha time_now codec)
signed-IsFaithful sha time_now codec forever running m v good =
    let p = position_of v in
    let payload = payload_of sha time_now codec m p in
    let size =
      length-token_of sha time_now codec payload
        (length-payload_of sha time_now codec m p good.storable) in
    let issued =
      encode-token_of sha time_now codec m p good.storable good.valid (running m)
        (expiry_field_none sha time_now codec m p forever) in
    (
      token_of sha time_now codec payload,
      issued,
      record {
        nonempty = omega (arith, size);
        bounded = omega (arith, size);
        reads = λ n.
            rw
              (
                decode-encode sha time_now codec m n p (token_of sha time_now codec payload)
                    good.storable issued,
                check_expiry_none sha time_now codec m n forever,
              )
              refl;
      },
    )
