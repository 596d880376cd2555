-- ===== src/Item/HttpApi/Creating.antt =====
-- The handler `Create` of internal/item/httpapi/handler.go and the options of options.go.
use go_clean_architecture.Prelude.{
  ℕ, ℤ, pos, pos_part, ltb_ℤ, ◌+◌, ◌-◌, ◌/◌, ◌%◌, Bool, true, false, ◌&&◌, ◌||◌, Option, none, some,
  List, [], ◌∷◌, ◌++◌, ltb, ◌==◌, if◌then◌else◌, Bytes, codes, length, Result, ok, err, ◌>>◌,
  fail_if,
}
use go_clean_architecture.Item.Errors.{Error, sentinel, idempotency_unavailable, other}
use go_clean_architecture.Item.Context.{Context}
use go_clean_architecture.Item.Model.{Uuid, is_nil, Item, CreateInput}
use go_clean_architecture.Item.Idempotency.{is_alphanumeric, one_of}
use go_clean_architecture.Item.Ports.{UuidLib}
use go_clean_architecture.Item.HttpApi.{
  Request, parse_idempotency_key, data_of, Response, write_error, internal_error,
  write_service_error,
}

abbrev pub default_max_body_bytes : ℕ
default_max_body_bytes = 1_048_576

-- What one call of `json.Decoder.Decode` finds: a value (`none` for null), the end of the body, or an error.
pub data Decoded : Type 0 where
  value : Option CreateInput → Decoded
  end_of_body : Decoded
  malformed : Decoded

-- A body: its declared length, and what the first two calls of the strict decoder find behind a reader of
-- at most a number of bytes.
pub record RequestBody : Type 0 where
  pub content_length : ℤ
  pub decodes : ℕ → Decoded × Decoded

abbrev pub bad_body : Error
bad_body = other (codes "request body")

-- `decodeStrictJSON`: one value and nothing behind it.
unfoldable pub decode_strict_json : Option RequestBody → ℤ → Result Error (Option CreateInput)
decode_strict_json none max_bytes = err bad_body
decode_strict_json (some body) max_bytes = do
  let limit = if ltb_ℤ (pos 0) max_bytes then pos_part max_bytes else default_max_body_bytes
  fail_if (ltb_ℤ (pos limit) body.content_length) bad_body
  elim (body.decodes limit).0 [
    | end_of_body ↦ err bad_body
    | malformed ↦ err bad_body
    | value v ↦ elim (body.decodes limit).1 [ end_of_body ↦ ok v | _ ↦ err bad_body ]
  ]

-- `Service` as this handler uses it, with the optional `IdempotentCreator`.
pub record Creator (S : Type 0) : Type 0 where
  pub create : Option Context → ℕ → CreateInput → S → Result Error Item × S
  pub create_idempotent :
      Option (Option Context → ℕ → CreateInput → Bytes → S → Result Error (Item × Bool) × S)

-- `Handler`
pub record Handler (S : Type 0) : Type 0 where
  pub service : Option (Creator S)
  pub max_body_bytes : ℤ

-- `WithMaxBodyBytes` is the one `Option`.
pub data HandlerOption : Type 0 where
  with_max_body_bytes : ℤ → HandlerOption

-- `url.PathEscape`, of the standard library: the bytes of a path segment that stay as they are.
unfoldable pub stays : ℕ → Bool
unfolding is_alphanumeric one_of
stays c = is_alphanumeric c || one_of (codes "-_.~$&+:=@") c

unfoldable pub hex_digit : ℕ → ℕ
hex_digit v = if ltb v 10 then v + b'0' else v - 10 + b'A'

unfoldable pub path_escape : Bytes → Bytes
unfolding stays hex_digit
path_escape [] = []
path_escape (c ∷ cs) =
    if stays c
    then c ∷ path_escape cs
    else b'%' ∷ hex_digit (c / 16) ∷ hex_digit (c % 16) ∷ path_escape cs

-- `strings.TrimRight(path, "/")`
unfoldable pub trim_slashes : Bytes → Bytes
trim_slashes [] = []
trim_slashes (c ∷ cs) =
    let rest = trim_slashes cs in if (c == b'/') && (length rest == 0) then [] else c ∷ rest

-- `resourceLocation`
unfoldable pub resource_location : UuidLib → Bytes → Uuid → Bytes
unfolding trim_slashes path_escape
resource_location uuids path id =
    trim_slashes (if length path == 0 then codes "/items" else path)
    ++ (b'/' ∷ path_escape (uuids.to_string id))

abbrev pub key_header : Option Bytes → List (Bytes × Bytes)
key_header none = []
key_header (some key) = (codes "Idempotency-Key", key) ∷ []

abbrev pub replay_header : Bool → List (Bytes × Bytes)
replay_header true = (codes "Idempotency-Replayed", codes "true") ∷ []
replay_header false = []

-- The end of `Create`.
unfoldable pub written_created :
    UuidLib → Bytes → Option Bytes → Result Response (Item × Bool) → Response
written_created uuids path key (err response) = response
written_created uuids path key (ok (created, replayed)) =
    if is_nil created.id then internal_error else record {
      status = if replayed then 200 else 201;
      headers =
          key_header key
          ++ ((codes "Location", resource_location uuids path created.id) ∷ replay_header replayed);
      body = data_of created;
    }

module _ {S : Type 0} where
  unfoldable pub apply_options : Handler S → List (Option HandlerOption) → Handler S
  apply_options h [] = h
  apply_options h (none ∷ rest) = apply_options h rest
  apply_options h (some (with_max_body_bytes limit) ∷ rest) =
      apply_options
        (record h { max_body_bytes = if ltb_ℤ (pos 0) limit then limit else h.max_body_bytes }) rest

  -- `New`
  unfoldable pub new : Option (Creator S) → List (Option HandlerOption) → Handler S
  unfolding apply_options
  new service options =
      let h =
        apply_options (record { service = service; max_body_bytes = pos default_max_body_bytes })
          options in
      if ltb_ℤ (pos 0) h.max_body_bytes
      then h
      else record h { max_body_bytes = pos default_max_body_bytes }

  -- The call of the service: the item, and whether it is a replay.
  unfoldable pub call_service :
      Option (Creator S)
      → Option Bytes
      → Option Context
      → ℕ
      → CreateInput
      → S
      → (Result Response (Item × Bool)) × S
  call_service none none ctx m input s = (err internal_error, s)
  call_service none (some key) ctx m input s =
      (err (write_service_error (sentinel idempotency_unavailable)), s)
  call_service (some service) none ctx m input s =
      let (answer, s') = service.create ctx m input s in
      (elim answer [ err e ↦ err (write_service_error e) | ok created ↦ ok (created, false) ], s')
  call_service (some service) (some key) ctx m input s = elim service.create_idempotent [
    | none ↦ (err (write_service_error (sentinel idempotency_unavailable)), s)
    | some create_idempotent ↦
        let (answer, s') = create_idempotent ctx m input key s in
        (elim answer [ err e ↦ err (write_service_error e) | ok created ↦ ok created ], s')
  ]

  -- What `Create` reads of a request: the key, if any, and the input.
  unfoldable pub read_create :
      Handler S → Request → Option RequestBody → Result Response (Option Bytes × CreateInput)
  unfolding parse_idempotency_key decode_strict_json
  read_create h request body = elim (parse_idempotency_key (some request)) [
    | err e ↦ err (write_error 400 (codes "bad_request") (codes "invalid idempotency key"))
    | ok key ↦ elim (decode_strict_json body h.max_body_bytes) [
      | err e ↦ err (write_error 400 (codes "bad_request") (codes "invalid request body"))
      | ok none ↦ err (write_error 400 (codes "bad_request") (codes "invalid request body"))
      | ok (some input) ↦ ok (key, input)
    ]
  ]

  -- `Create`; `path` is the path of the request's URL.
  unfoldable pub create :
      UuidLib → Handler S → ℕ → Bytes → Request → Option RequestBody → S → Response × S
  unfolding read_create call_service written_created
  create uuids h m path request body s = elim (read_create h request body) [
    | err response ↦ (response, s)
    | ok (key, input) ↦
        let (answer, s') = call_service h.service key request.ctx m input s in
        (written_created uuids path key answer, s')
  ]
