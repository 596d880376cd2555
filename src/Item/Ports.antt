-- ===== src/Item/Ports.antt =====
-- What the item service is built over: the `Store` of internal/item/service.go with its optional
-- capabilities, the `CursorCodec` of cursor.go, and the methods of `uuid.UUID`. An operation of a store
-- takes the moment from which it observes its context; those that write return the store's new state.
use go_clean_architecture.Prelude.{ℕ, ℤ, Bool, Option, some, List, Bytes, Result}
use go_clean_architecture.Item.Errors.{Error}
use go_clean_architecture.Item.Context.{Context, Clock}
use go_clean_architecture.Item.Model.{Uuid, Item, ListParams}
use go_clean_architecture.Item.Cursor.{CursorPosition, Sha256, SignedCursorCodec, encode, decode}

-- The methods of `uuid.UUID` that the sources call, of the package github.com/google/uuid.
pub record UuidLib : Type 0 where
  pub version : Uuid → ℕ
  pub is_rfc4122 : Uuid → Bool
  pub to_string : Uuid → Bytes

-- `CursorListParams`
pub record CursorListParams : Type 0 where
  pub limit : ℤ
  pub position : Option CursorPosition

-- `CursorRequest`
pub record CursorRequest : Type 0 where
  pub limit : ℤ
  pub cursor : Bytes

-- `CursorPage`
pub record CursorPage : Type 0 where
  pub items : List Item
  pub limit : ℕ
  pub has_more : Bool
  pub next_cursor : Bytes

-- `CursorCodec`
pub record CursorCodec : Type 0 where
  pub encode_cursor : ℕ → CursorPosition → Result Error Bytes
  pub decode_cursor : ℕ → Bytes → Result Error CursorPosition

-- The built-in codec behind the interface.
abbrev pub signed : Sha256 → Clock → SignedCursorCodec → CursorCodec
signed sha time_now codec = record {
  encode_cursor = encode sha time_now (some codec);
  decode_cursor = decode sha time_now (some codec);
}

-- `Store`, over the states `S` of one, with its optional capabilities `CursorStore` and
-- `IdempotentCreateStore`.
pub record Store (S : Type 0) : Type 0 where
  pub create : Option Context → ℕ → Item → S → Result Error Item × S
  pub get : Option Context → ℕ → Uuid → S → Result Error Item
  pub list : Option Context → ℕ → ListParams → S → Result Error (List Item)
  pub list_after : Option (Option Context → ℕ → CursorListParams → S → Result Error (List Item))
  pub create_idempotent :
      Option (Option Context → ℕ → Item → Bytes → Bytes → S → Result Error (Item × Bool) × S)
