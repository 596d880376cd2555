-- ===== src/Item/HttpApi.antt =====
-- internal/item/httpapi/handler.go: what the handlers read of a request, and what they answer.
pub mod Handlers
pub mod Laws
pub mod Creating
pub mod Created
use go_clean_architecture.Prelude.{
  ℕ, ℤ, pos, negsuc, pos_part, neg_part, ltb_ℤ, ◌+◌, ◌-◌, ◌*◌, zero, suc, Bool, true, false, ◌&&◌,
  ◌||◌, Option, none, some, List, [], ◌∷◌, ◌++◌, ltb, leb, ◌==◌, if◌then◌else◌, Bytes, codes,
  bytes_eq, length, Result, ok, err, ◌>>=◌, ◌>>◌, fail_if, of_option,
}
use go_clean_architecture.Dict.{Entry, lookup}
use go_clean_architecture.Item.Errors.{
  Error, is, sentinel, validation, other, invalid_input, not_found, conflict, invalid_cursor,
  cursor_unavailable, cursor_state, idempotency_conflict, idempotency_in_progress,
  idempotency_unavailable, idempotency_state,
}
use go_clean_architecture.Item.Context.{Context}
use go_clean_architecture.Item.Model.{
  Uuid, is_nil, Item, ListParams, Page, default_page_size, max_page_size,
}
use go_clean_architecture.Item.Cursor.{max_cursor_bytes}
use go_clean_architecture.Item.Idempotency.{validate_idempotency_key}
use go_clean_architecture.Item.Ports.{CursorRequest, CursorPage}

-- A request: what `url.ParseQuery` makes of its query (`none` for an error), what `uuid.Parse` makes of its
-- trimmed `id` parameter, and the values of the header `Idempotency-Key` under all its spellings.
pub record Request : Type 0 where
  pub query : Option (List (Entry (List Bytes)))
  pub id : Option Uuid
  pub idempotency_keys : List Bytes
  pub ctx : Option Context

-- The value of a string of digits.
unfoldable pub digits_value : ℕ → Bytes → Option ℕ
digits_value acc [] = some acc
digits_value acc (c ∷ cs) =
    let rest = digits_value (acc * 10 + (c - b'0')) cs in
    if leb b'0' c && leb c b'9' then rest else none

unfoldable pub unsigned_value : Bytes → Option ℕ
unfolding digits_value
unsigned_value [] = none
unsigned_value (c ∷ cs) = digits_value 0 (c ∷ cs)

-- The range of an `int` of 64 bits.
abbrev pub in_range : Bool → Option ℕ → Option ℤ
in_range negative none = none
in_range false (some n) = if ltb n 9_223_372_036_854_775_808 then some (pos n) else none
in_range true (some zero) = some (pos 0)
in_range true (some (suc n)) = if ltb n 9_223_372_036_854_775_808 then some (negsuc n) else none

-- `strconv.Atoi`
unfoldable pub atoi : Bytes → Option ℤ
unfolding unsigned_value
atoi [] = none
atoi (c ∷ cs) =
    if c == b'-'
    then in_range true (unsigned_value cs)
    else if c == b'+'
    then in_range false (unsigned_value cs)
    else in_range false (unsigned_value (c ∷ cs))

unfoldable pub query_entry : List Bytes → ℤ → Option ℤ
query_entry [] fallback = none
query_entry (e ∷ f ∷ rest) fallback = none
query_entry (e ∷ []) fallback = if length e == 0 then some fallback else atoi e

-- `parseQueryInt`
unfoldable pub parse_query_int : List (Entry (List Bytes)) → Bytes → ℤ → Option ℤ
unfolding query_entry
parse_query_int values key fallback = elim (lookup key values) [
  | none ↦ some fallback
  | some entries ↦ query_entry entries fallback
]

-- `listRequest`
pub data ListRequest : Type 0 where
  offset_request : ListParams → ListRequest
  cursor_request : CursorRequest → ListRequest

abbrev pub invalid_pagination : Error
invalid_pagination = other (codes "invalid pagination")

unfoldable pub single_cursor : ℤ → List Bytes → Result Error ListRequest
single_cursor limit [] = err invalid_pagination
single_cursor limit (t ∷ u ∷ rest) = err invalid_pagination
single_cursor limit (t ∷ []) =
    if (length t == 0) || ltb max_cursor_bytes (length t)
    then err invalid_pagination
    else ok (cursor_request (record { limit = limit; cursor = t }))

-- The end of `parseListRequest`: a cursor excludes an offset.
unfoldable pub choose_paging :
    Option (List Bytes) → Option (List Bytes) → ℤ → ℤ → Result Error ListRequest
unfolding single_cursor
choose_paging offsets none limit offset =
    ok (offset_request (record { limit = limit; offset = offset }))
choose_paging none (some cursors) limit offset = single_cursor limit cursors
choose_paging (some _) (some cursors) limit offset = err invalid_pagination

-- `parseListRequest`; a missing request is `none`.
unfoldable pub parse_list_request : Option Request → Result Error ListRequest
unfolding parse_query_int choose_paging
parse_list_request none = err invalid_pagination
parse_list_request (some request) = do
  values ← of_option request.query invalid_pagination
  given ←
      of_option (parse_query_int values (codes "limit") (pos default_page_size)) invalid_pagination
  let limit = if pos_part given + neg_part given == 0 then pos default_page_size else given
  fail_if (ltb_ℤ limit (pos 0) || ltb_ℤ (pos max_page_size) limit) invalid_pagination
  offset ← of_option (parse_query_int values (codes "offset") (pos 0)) invalid_pagination
  fail_if (ltb_ℤ offset (pos 0)) invalid_pagination
  choose_paging (lookup (codes "offset") values) (lookup (codes "cursor") values) limit offset

-- `parseIdempotencyKey`: the key, if the header is there.
unfoldable pub parse_idempotency_key : Option Request → Result Error (Option Bytes)
parse_idempotency_key none = ok none
parse_idempotency_key (some request) = elim request.idempotency_keys [
  | [] ↦ ok none
  | key ∷ others ↦ elim others [
    | [] ↦ do validate_idempotency_key key; ok (some key)
    | _ ∷ _ ↦ err (validation (codes "idempotency_key") (codes "must contain exactly one value"))
  ]
]

-- What is written as JSON.
pub data Body : Type 0 where
  -- a code and a message
  failure : Bytes → Bytes → Body
  data_of : Item → Body
  -- items, limit, offset, whether there are more, and the continuation
  listing : List Item → ℕ → Option ℕ → Bool → Bytes → Body

pub record Response : Type 0 where
  pub status : ℕ
  pub headers : List (Bytes × Bytes)
  pub body : Body

-- `writeError`
abbrev pub write_error : ℕ → Bytes → Bytes → Response
write_error status code message = record {
  status = status;
  headers = [];
  body = failure code message;
}

abbrev pub internal_error : Response
internal_error = write_error 500 (codes "internal_error") (codes "internal server error")

-- `writeServiceError`
unfoldable pub write_service_error : Error → Response
write_service_error e =
    if is e cursor_unavailable || is e cursor_state
    then write_error 503 (codes "cursor_unavailable")
        (codes "cursor pagination is temporarily unavailable")
    else if is e invalid_cursor
    then write_error 400 (codes "invalid_cursor") (codes "invalid pagination cursor")
    else if is e idempotency_conflict
    then write_error 409 (codes "idempotency_conflict")
        (codes "idempotency key was used with a different request")
    else if is e idempotency_in_progress
    then record (write_error 409 (codes "idempotency_in_progress")
        (codes "idempotency request is still in progress")) {
          headers = (codes "Retry-After", codes "1") ∷ [];
        }
    else if is e idempotency_unavailable || is e idempotency_state
    then write_error 503 (codes "idempotency_unavailable")
        (codes "idempotent create is temporarily unavailable")
    else if is e invalid_input
    then write_error 422 (codes "validation_error") (codes "invalid item")
    else if is e not_found
    then write_error 404 (codes "not_found") (codes "item not found")
    else if is e conflict
    then write_error 409 (codes "conflict") (codes "item already exists")
    else internal_error
