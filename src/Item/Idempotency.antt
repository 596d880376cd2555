-- ===== src/Item/Idempotency.antt =====
-- internal/item/idempotency.go: keys, scopes and fingerprints of idempotent creates.
use go_clean_architecture.Prelude.{
  ℕ, Bool, false, not, ◌&&◌, ◌||◌, Option, none, some, [], ◌∷◌, ◌++◌, ltb, leb, ◌==◌, if◌then◌else◌,
  Bytes, codes, bytes_eq, length, any, Result, ok, err, ◌>>=◌, ◌>>◌, fail_if,
}
use go_clean_architecture.Std.Text.{Text, ascii, to_bytes, valid_string, is_control}
use go_clean_architecture.Std.Hex
use go_clean_architecture.Item.Errors.{Error, validation}
use go_clean_architecture.Item.Context.{Context}
use go_clean_architecture.Item.Model.{CreateInput, validate_create_input}
use go_clean_architecture.Item.Cursor.{Sha256}

abbrev pub max_idempotency_key_bytes : ℕ
max_idempotency_key_bytes = 255

-- 24 hours, in nanoseconds.
abbrev pub idempotency_record_retention : ℕ
idempotency_record_retention = 86_400_000_000_000

abbrev pub max_idempotency_entries : ℕ
max_idempotency_entries = 10_000

abbrev pub default_idempotency_scope : Text
default_idempotency_scope = ascii (codes "items:create")

-- `strings.ContainsRune` over an ASCII set.
unfoldable pub one_of : Bytes → ℕ → Bool
one_of [] c = false
one_of (b ∷ bs) c = (c == b) || one_of bs c

-- A letter or a digit.
unfoldable pub is_alphanumeric : ℕ → Bool
is_alphanumeric c =
    (leb b'a' c && leb c b'z') || ((leb b'A' c && leb c b'Z') || (leb b'0' c && leb c b'9'))

abbrev pub token_marks : Bytes
token_marks = codes "!#$%&'*+-.^_`|~"

-- The test of the loop: a character of an HTTP token.
unfoldable pub is_token_character : ℕ → Bool
unfolding one_of is_alphanumeric
is_token_character c = is_alphanumeric c || one_of token_marks c

-- The loop of `ValidateIdempotencyKey`.
unfoldable pub check_characters : Bytes → Result Error (Unit {0})
unfolding is_token_character
check_characters [] = ok tt
check_characters (c ∷ cs) =
    let rest = check_characters cs in
    if is_token_character c
    then rest
    else err (validation (codes "idempotency_key") (codes "must be an HTTP token"))

-- `ValidateIdempotencyKey`
unfoldable pub validate_idempotency_key : Bytes → Result Error (Unit {0})
unfolding check_characters bytes_eq
validate_idempotency_key key = do
  fail_if (bytes_eq key [] || ltb max_idempotency_key_bytes (length key))
      (validation (codes "idempotency_key") (codes "must contain 1-255 ASCII token bytes"))
  check_characters key

-- `json.Marshal` of the two anonymous structs, of two string fields each.
pub record Json : Type 0 where
  pub marshal_input : Text → Text → Bytes
  pub marshal_scope : Text → Bytes → Bytes

-- `WithIdempotencyScope`
unfoldable pub with_idempotency_scope : Option Context → Text → Option Context
with_idempotency_scope none scope = none
with_idempotency_scope (some ctx) scope =
    let size = length (to_bytes scope) in
    if (size == 0) || (ltb 512 size || (not (valid_string scope) || any is_control scope))
    then some (record ctx { scope = some default_idempotency_scope })
    else some (record ctx { scope = some scope })

-- `IdempotencyScopeFromContext`
unfoldable pub idempotency_scope_from_context : Option Context → Text
idempotency_scope_from_context none = default_idempotency_scope
idempotency_scope_from_context (some ctx) = elim ctx.scope [
  | none ↦ default_idempotency_scope
  | some scope ↦ if length (to_bytes scope) == 0 then default_idempotency_scope else scope
]

module _ (sha : Sha256) (json : Json) where
  -- `FingerprintCreateInput`; `json.Marshal` of two strings does not fail.
  unfoldable pub fingerprint_create_input : CreateInput → Result Error Bytes
  fingerprint_create_input input = do
    canonical ← validate_create_input input
    ok (Hex.encode (sha.digest (json.marshal_input canonical.name canonical.description)))

  -- `storageIdempotencyKey`
  unfoldable pub storage_idempotency_key : Option Context → Bytes → Bytes
  storage_idempotency_key ctx key =
      let scope = idempotency_scope_from_context ctx in
      codes "v1_"
      ++ Hex.encode (
          sha.digest
            (codes "go-clean-architecture/idempotency/v1:" ++ json.marshal_scope scope key))
