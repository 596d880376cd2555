-- ===== src/Tests/Tokens.antt =====
-- Tokens of the codec without expiry.
use go_clean_architecture.Prelude.{
  ◌≡◌, refl, true, false, some, [], ◌∷◌, arith, Bytes, codes, length, bytes_eq, ok, err, ◌>>◌,
}
use go_clean_architecture.Std.Time.{is_zero, signed, before, equal, unix}
use go_clean_architecture.Item.Errors.{is, invalid_cursor}
use go_clean_architecture.Item.Cursor.{
  CursorPosition, invalid, validate, current_time, token_of, put_time, expiry_field, encode, decode,
  read_payload, check_expiry,
}
use go_clean_architecture.Item.Cursor.RoundTrip.{
  IsStorable, canonical, expiry, payload_of, expiry_bytes, decode-encode,
}
use go_clean_architecture.Item.Cursor.Authentic.{decode-eq-ok, decode-eq-err}
use go_clean_architecture.Item.Cursor.Issue.{encode-token_of}
use go_clean_architecture.Tests.{sha, clock, noon, codec, id_of}

program : Unit {0}
unfolding validate is_zero signed before equal unix current_time expiry_field put_time bytes_eq
program = tt

abbrev position : CursorPosition
position = record { created_at = noon; id = id_of 1 }

position-IsStorable : IsStorable position
unfolding program
position-IsStorable = record {
  instant = record { sec_word = omega arith; nsec_second = omega arith };
  id_length = refl;
  id_bytes = ground arith;
}

position_validate : validate position ≡ ok tt
unfolding program
position_validate = refl

running : is_zero (current_time sha clock codec 0) ≡ false
unfolding program
running = refl

no_expiry :
    expiry_field sha clock codec (current_time sha clock codec 0) position
    ≡ ok (expiry_bytes sha clock codec 0)
unfolding program
no_expiry = refl

abbrev token : Bytes
token = token_of sha clock codec (payload_of sha clock codec 0 position)

encode_position : encode sha clock (some codec) 0 position ≡ ok token
encode_position =
    encode-token_of sha clock codec 0 position position-IsStorable position_validate running
      no_expiry

decode-encode_example :
    decode sha clock (some codec) 7 token
    ≡ (check_expiry sha clock codec 7 (expiry sha clock codec 0) >> ok (canonical position))
decode-encode_example =
    decode-encode sha clock codec 0 7 position token position-IsStorable encode_position

token_read : decode sha clock (some codec) 7 token ≡ ok position
unfolding check_expiry expiry is_zero
token_read = decode-encode sha clock codec 0 7 position token position-IsStorable encode_position

decode-eq-ok_example :
    (payload : Bytes) × (length payload ≡ 47)
    × (token ≡ token_of sha clock codec payload)
    × (read_payload sha clock codec 7 payload ≡ ok position)
decode-eq-ok_example = decode-eq-ok sha clock codec 7 token position token_read

bad_token : decode sha clock (some codec) 0 (b'x' ∷ []) ≡ err (invalid (codes "malformed token"))
unfolding decode bytes_eq
bad_token = refl

decode-eq-err_example : is (invalid (codes "malformed token")) invalid_cursor ≡ true
decode-eq-err_example =
    decode-eq-err sha clock codec 0 (b'x' ∷ []) (invalid (codes "malformed token")) running
      bad_token
