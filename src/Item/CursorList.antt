-- ===== src/Item/CursorList.antt =====
-- `ListCursor` of internal/item/cursor.go: one keyset page through the service's store.
use go_clean_architecture.Prelude.{
  ℕ, ℤ, pos, pos_part, neg_part, ltb_ℤ, ◌+◌, Bool, true, false, ◌||◌, Option, none, some, List, [],
  ◌∷◌, ltb, ◌==◌, if◌then◌else◌, Bytes, codes, length, take, get_last?, Result, ok, ◌>>=◌, ◌>>◌,
  fail_if, of_option, map_err,
}
use go_clean_architecture.Item.Errors.{
  Error, sentinel, validation, cursor, join, wrap, cursor_unavailable, cursor_state,
}
use go_clean_architecture.Item.Context.{Context, context_error}
use go_clean_architecture.Item.Model.{Item, default_page_size, max_page_size}
use go_clean_architecture.Item.Cursor.{
  CursorPosition, validate, position_for_item, max_cursor_bytes,
}
use go_clean_architecture.Item.Ports.{CursorRequest, CursorPage, CursorCodec}
use go_clean_architecture.Item.Service.{Service, store_of}

-- The limit of `ListCursor`, and the codec it needs.
unfoldable pub cursor_limit : ℤ → Result Error ℕ
cursor_limit l = do
  let limit = if pos_part l + neg_part l == 0 then pos default_page_size else l
  fail_if (ltb_ℤ limit (pos 0) || ltb_ℤ (pos max_page_size) limit)
      (validation (codes "limit") (codes "must be between 0 and 100"))
  ok (pos_part limit)

-- The position that a request continues from; an empty cursor asks for the first page.
unfoldable pub decode_request : CursorCodec → ℕ → Bytes → Result Error (Option CursorPosition)
decode_request codec m [] = ok none
decode_request codec m (c ∷ cs) = do
  fail_if (ltb max_cursor_bytes (length (c ∷ cs))) (cursor (codes "token exceeds size bound"))
  position ← codec.decode_cursor m (c ∷ cs)
  map_err (join (sentinel cursor_state)) (validate position)
  ok (some position)

-- The continuation token of a page with more rows behind it.
unfoldable pub encode_next : CursorCodec → ℕ → Bool → Option Item → Result Error Bytes
encode_next codec m has_more none = ok []
encode_next codec m false (some last) = ok []
encode_next codec m true (some last) = do
  position ← position_for_item last
  map_err (join (sentinel cursor_state)) (codec.encode_cursor m position)

-- The page that `ListCursor` makes of the rows of the store.
unfoldable pub cursor_page :
    CursorCodec → Option Context → ℕ → ℕ → List Item → Result Error CursorPage
unfolding encode_next
cursor_page codec ctx m limit rows = do
  context_error ctx m
  fail_if (ltb (limit + 1) (length rows)) (wrap (sentinel cursor_state))
  let has_more = ltb limit (length rows)
  let items = if has_more then take limit rows else rows
  next ← encode_next codec (m + 1) has_more (get_last? items)
  context_error ctx (m + 2)
  ok (record { items = items; limit = limit; has_more = has_more; next_cursor = next })

-- `ListCursor`
unfoldable pub list_cursor :
    {S : Type 0}
    → Option (Service S)
    → Option Context
    → ℕ
    → CursorRequest
    → S
    → Result Error CursorPage
unfolding store_of cursor_limit decode_request cursor_page
list_cursor service ctx m request s = do
  context_error ctx m
  limit ← cursor_limit request.limit
  (store, there) ← of_option (store_of service) (sentinel cursor_unavailable)
  codec ← of_option there.cursor_codec (sentinel cursor_unavailable)
  position ← decode_request codec m request.cursor
  list_after ← of_option store.list_after (sentinel cursor_unavailable)
  rows ← list_after ctx (m + 1) (record { limit = pos (limit + 1); position = position }) s
  cursor_page codec ctx (m + 2) limit rows
