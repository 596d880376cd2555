-- ===== src/Paging.antt =====
-- The item service over the memory store: what a client sees who follows the cursors.
pub mod Rows
pub mod Codec
pub mod Offset
pub mod Page
pub mod Traverse
use go_clean_architecture.Prelude.{
  ℕ, ℤ, pos, ◌≤◌, ◌<◌, ◌≡◌, Bool, true, false, Option, none, some, List, ◌∷◌, Bytes, length, Result,
  ok, zero, suc, err, [], ◌++◌, ◌>>=◌, ◌+◌,
}
use go_clean_architecture.Item.Errors.{Error, other}
use go_clean_architecture.Item.Context.{Context, Clock}
use go_clean_architecture.Item.Model.{Item}
use go_clean_architecture.Item.Cursor.{CursorPosition, Sha256, validate}
use go_clean_architecture.Item.Cursor.RoundTrip.{canonical, IsStorable}
use go_clean_architecture.Item.Ports.{UuidLib, Store, CursorCodec, CursorRequest}
use go_clean_architecture.Item.Service.{Service}
use go_clean_architecture.Item.CursorList.{list_cursor}
use go_clean_architecture.Memory
use go_clean_architecture.Memory.{Memory}
use go_clean_architecture.Memory.Idempotent
use go_clean_architecture.Memory.Order.{position_of}

-- The memory store behind the interface.
abbrev pub memory_store : UuidLib → Sha256 → Clock → Store (Option Memory)
memory_store uuids sha time_now = record {
  create = Memory.create;
  get = Memory.get;
  list = Memory.list uuids;
  list_after = some Memory.list_after;
  create_idempotent = some (Memory.Idempotent.create_idempotent sha time_now);
}

-- An item whose position can be carried by a cursor.
pub record IsPageable (v : Item) : Type 0 where
  pub valid : validate (position_of v) ≡ ok tt
  pub storable : IsStorable (position_of v)

abbrev pub AllPageable : List Item → Type 0
AllPageable [] = Unit {0}
AllPageable (v ∷ vs) = IsPageable v × AllPageable vs

-- A token that reads back, at every moment, as the position of the item.
pub record Carries (codec : CursorCodec) (v : Item) (token : Bytes) : Type 0 where
  pub nonempty : 0 < length token
  pub bounded : length token ≤ 512
  pub reads : (m : ℕ) → codec.decode_cursor m token ≡ ok (canonical (position_of v))

-- What a codec has to keep of its contract for paging to work: it issues such tokens.
abbrev pub IsFaithful : CursorCodec → Type 0
IsFaithful codec =
    (m : ℕ) (v : Item)
    → IsPageable v
    → (token : Bytes) × (codec.encode_cursor m (position_of v) ≡ ok token) × Carries codec v token

-- A client that follows the cursors from a token on, at most for the given number of pages, and
-- returns the rows of all its pages.
unfoldable pub follow :
    {S : Type 0} → Service S → Option Context → ℕ → ℕ → ℤ → Bytes → S → Result Error (List Item)
follow service ctx m zero limit cursor s = err (other [])
follow service ctx m (suc fuel) limit cursor s = do
  page ← list_cursor (some service) ctx m (record { limit = limit; cursor = cursor }) s
  elim page.has_more [
    | true ↦ do
      rest ← follow service ctx (m + 5) fuel limit page.next_cursor s
      ok (page.items ++ rest)
    | false ↦ ok page.items
  ]
