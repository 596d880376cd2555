-- ===== src/Tests/Bearer.antt =====
-- A bearer token is authenticated.
use go_clean_architecture.Prelude.{
  ◌≡◌, refl, false, none, some, List, [], ◌∷◌, Bytes, codes, bytes_eq, ok,
}
use go_clean_architecture.Std.Text.{
  Text, ascii, to_bytes, text_eq, trim_space, valid_string, is_control,
}
use go_clean_architecture.Item.Idempotency.{one_of}
use go_clean_architecture.Auth.{
  Principal, validate, validate_scopes, validate_principal_text, index_byte, bearer_characters,
  valid_bearer_token, lower, parse_credentials, parse_bearer_header, authorization_values, Request,
  parse_bearer_token, BearerSha256, AuthContext, authenticate,
}
use go_clean_architecture.Auth.Laws.{authenticate-eq-ok}
use go_clean_architecture.Tests.{sha}

program : Unit {0}
unfolding to_bytes text_eq trim_space valid_string is_control one_of validate validate_scopes
    validate_principal_text index_byte bearer_characters valid_bearer_token lower parse_credentials
    parse_bearer_header authorization_values parse_bearer_token authenticate bytes_eq
program = tt

abbrev reader : Principal
reader = record { subject = ascii (codes "reader"); scopes = ascii (codes "items:read") ∷ [] }

abbrev verifier : BearerSha256
verifier = record { digest = sha.digest (codes "abc"); principal = reader }

abbrev lasting : AuthContext
lasting = record { ended_at = λ m. false; principal = none }

abbrev values : List Text
values = ascii (codes "bearer abc") ∷ []

abbrev request : Request
request = record { header = (codes "authorization", values) ∷ [] }

authenticated : authenticate sha (some verifier) (some lasting) 0 (some request) ≡ ok reader
unfolding program
authenticated = refl

authenticate-eq-ok_example :
    (token : Bytes) × (parse_bearer_token (some request) ≡ ok token)
    × (sha.digest token ≡ verifier.digest)
    × (lasting.ended_at 0 ≡ false)
    × (lasting.ended_at 1 ≡ false)
    × (lasting.ended_at 2 ≡ false)
    × (reader ≡ verifier.principal)
authenticate-eq-ok_example = authenticate-eq-ok sha verifier lasting 0 request reader authenticated

parsed : parse_bearer_header values ≡ ok (codes "abc")
unfolding program
parsed = refl

accepted : validate reader ≡ ok tt
unfolding program
accepted = refl
