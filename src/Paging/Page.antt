-- ===== src/Paging/Page.antt =====
-- One page of `ListCursor` over the memory store.
use go_clean_architecture.Prelude.{
  ℕ, ◌+◌, ◌≤◌, ◌<◌, ◌≡◌, refl, sym, true, false, Option, none, some, List, [], ◌∷◌, ◌++◌, arith,
  ltb, Bytes, length, take, drop, get_last?, length-take, take-take, take_of_length-le, ok,
}
use mathlib.Core.List.{append_assoc}
use go_clean_architecture.Item.Context.{Context, IsLive}
use go_clean_architecture.Item.Model.{Item}
use go_clean_architecture.Item.Cursor.{CursorPosition, position_for_item}
use go_clean_architecture.Item.Cursor.RoundTrip.{canonical, validate-canonical}
use go_clean_architecture.Item.Ports.{CursorCodec, CursorPage}
use go_clean_architecture.Item.CursorList.{decode_request, encode_next, cursor_page}
use go_clean_architecture.Memory.{check_position, start_of}
use go_clean_architecture.Memory.Order.{IsSorted, position_of}
use go_clean_architecture.Paging.{IsPageable, Carries}
use go_clean_architecture.Paging.Rows.{start_of-canonical}

-- The first page starts at the newest row; a token that carries an item continues behind it.
pub record Continues (codec : CursorCodec) (rows : List Item) (cursor : Bytes) (zs : List Item)
    : Type 0 where
  pub before : List Item
  pub split : rows ≡ before ++ zs
  pub position : Option CursorPosition
  pub decoded : (m : ℕ) → decode_request codec m cursor ≡ ok position
  pub checked : check_position position ≡ ok tt
  pub start : drop (start_of position rows) rows ≡ zs

pub Continues-nil : (codec : CursorCodec) (rows : List Item) → Continues codec rows [] rows
unfolding decode_request start_of
Continues-nil codec rows = record {
  before = [];
  split = refl;
  position = none;
  decoded = λ m. refl;
  checked = refl;
  start = refl;
}

decode_request-Carries :
    (codec : CursorCodec) (v : Item) (token : Bytes) (m : ℕ)
    → IsPageable v
    → Carries codec v token
    → decode_request codec m token ≡ ok (some (canonical (position_of v)))
unfolding decode_request
decode_request-Carries codec v [] m g c = absurd (omega (arith, c.nonempty))
decode_request-Carries codec v (x ∷ xs) m g c =
    ground (arith, c.bounded, c.reads m, validate-canonical (position_of v), g.valid)

pub Continues-token :
    (codec : CursorCodec) (ys : List Item) (v : Item) (zs : List Item) (token : Bytes)
    → IsSorted (ys ++ v ∷ zs)
    → IsPageable v
    → Carries codec v token
    → Continues codec (ys ++ v ∷ zs) token zs
Continues-token codec ys v zs token s g c = record {
  before = ys ++ v ∷ [];
  split = sym (append_assoc ys (v ∷ []) zs);
  position = some (canonical (position_of v));
  decoded = λ m. decode_request-Carries codec v token m g c;
  checked = rw (validate-canonical (position_of v), g.valid) refl;
  start = start_of-canonical ys v zs s;
}

-- The page made of the rows behind a cursor: the first `limit` of them, whether there are more, and the
-- token for the last row.
abbrev pub IsPage : CursorCodec → ℕ → List Item → CursorPage → Type 0
IsPage codec limit zs page =
    (page.items ≡ take limit zs) × (page.limit ≡ limit) × (page.has_more ≡ ltb limit (length zs))

encode_next-false :
    (codec : CursorCodec) (m : ℕ) (o : Option Item) → encode_next codec m false o ≡ ok []
unfolding encode_next
encode_next-false codec m none = refl
encode_next-false codec m (some v) = refl

pub encode_next-true :
    (codec : CursorCodec) (m : ℕ) (v : Item) (token : Bytes)
    → IsPageable v
    → codec.encode_cursor m (position_of v) ≡ ok token
    → encode_next codec m true (some v) ≡ ok token
unfolding encode_next position_for_item
encode_next-true codec m v token g e = rw (g.valid, e) refl

module _ (codec : CursorCodec) (ctx : Context) (live : IsLive ctx) where
  pub cursor_page_last :
      (m n : ℕ) (zs : List Item)
      → length zs ≤ n
      → cursor_page codec (some ctx) m n (take (n + 1) zs)
        ≡ ok (record { items = zs; limit = n; has_more = false; next_cursor = [] })
  unfolding cursor_page
  cursor_page_last m n zs h =
      rw (take_of_length-le (n + 1) zs (omega arith), live.alive m)
        (ground (arith, live.alive (m + 2), encode_next-false codec (m + 1) (get_last? zs)))

  pub cursor_page_more :
      (m n : ℕ) (zs : List Item) (a : Item) (token : Bytes)
      → n < length zs
      → get_last? (take n zs) ≡ some a
      → encode_next codec (m + 1) true (some a) ≡ ok token
      → cursor_page codec (some ctx) m n (take (n + 1) zs)
        ≡ ok (record { items = take n zs; limit = n; has_more = true; next_cursor = token })
  unfolding cursor_page
  cursor_page_more m n zs a token h last e =
      let size : length (take (n + 1) zs) ≡ n + 1 = omega (arith, length-take (n + 1) zs) in
      let more : ltb n (n + 1) ≡ true = ground arith in
      rw (live.alive m, size, more, take-take n (n + 1) zs (omega arith), last)
        (ground (arith, live.alive (m + 2)))
