-- ===== src/Paging/Offset.antt =====
-- `List`, the paging by offset, over the memory store.
use go_clean_architecture.Prelude.{
  ℕ, pos, ◌+◌, ◌≤◌, ◌<◌, ◌≡◌, refl, sym, true, false, Option, none, some, List, [], ◌∷◌, arith, ltb,
  Bytes, bytes_ltb, length, take, drop, get_last?, length-take, length-drop, take-take,
  take-append-drop, take_of_length-le, ok,
}
use mathlib.Core.Path.{subst}
use go_clean_architecture.Dict.{values}
use go_clean_architecture.Item.Context.{Context, IsLive, Clock}
use go_clean_architecture.Item.Model.{Uuid, Item, normalize_list_params}
use go_clean_architecture.Item.Cursor.{Sha256, position_for_item}
use go_clean_architecture.Item.Ports.{UuidLib, CursorCodec, Store}
use go_clean_architecture.Item.Service
use go_clean_architecture.Item.Service.{Service, store_of, list_cursor_of}
use go_clean_architecture.Memory
use go_clean_architecture.Memory.{Memory, newer, newer_text, sort_slice, insert_sorted, copy_page}
use go_clean_architecture.Memory.Order.{IsSorted}
use go_clean_architecture.Paging.{memory_store, AllPageable, IsFaithful}
use go_clean_architecture.Paging.Page.{Continues, Continues-token}
use go_clean_architecture.Paging.Traverse.{last_row, AllPageable-append}
use go_clean_architecture.Paging.Rows.{copy_page_lem}

-- The text of a UUID orders as its bytes do: lower-case hexadecimal with dashes at fixed places.
abbrev pub TextOrders : UuidLib → Type 0
TextOrders uuids = (a b : Uuid) → bytes_ltb (uuids.to_string a) (uuids.to_string b) ≡ bytes_ltb a b

newer_text-newer :
    (uuids : UuidLib) → TextOrders uuids → (a b : Item) → newer_text uuids a b ≡ newer a b
unfolding newer_text newer
newer_text-newer uuids h a b = rw (h b.id a.id) refl

insert_sorted-newer_text :
    (uuids : UuidLib)
    → TextOrders uuids
    → (x : Item) (xs : List Item) → insert_sorted (newer_text uuids) x xs ≡ insert_sorted newer x xs
unfolding insert_sorted
insert_sorted-newer_text uuids h x [] = refl
insert_sorted-newer_text uuids h x (y ∷ ys) =
    rw (newer_text-newer uuids h x y, insert_sorted-newer_text uuids h x ys) refl

-- Both orders sort alike.
pub sort_slice-newer_text :
    (uuids : UuidLib)
    → TextOrders uuids
    → (xs : List Item) → sort_slice (newer_text uuids) xs ≡ sort_slice newer xs
unfolding sort_slice
sort_slice-newer_text uuids h [] = refl
sort_slice-newer_text uuids h (x ∷ xs) =
    rw (sort_slice-newer_text uuids h xs, insert_sorted-newer_text uuids h x (sort_slice newer xs))
      refl

normalize_pos :
    (n o : ℕ)
    → 0 < n
    → n ≤ 100
    → normalize_list_params (record { limit = pos n; offset = pos o })
      ≡ ok (record { limit = n; offset = o })
unfolding normalize_list_params
normalize_pos n o h k = ground arith

-- The rows of the memory store for an offset page.
pub memory_list :
    (uuids : UuidLib) (ctx : Context) (m n o : ℕ) (s : Memory)
    → TextOrders uuids
    → IsLive ctx
    → n ≤ 101
    → Memory.list uuids (some ctx) m (record { limit = pos n; offset = pos o }) (some s)
      ≡ ok (take n (drop o (sort_slice newer (values s.items))))
unfolding Memory.list
memory_list uuids ctx m n o s orders live h =
    let rows = sort_slice newer (values s.items) in
    rw (sort_slice-newer_text uuids orders (values s.items))
      (ground (arith, live.alive m, live.alive (m + 1), copy_page_lem rows n o))

list_cursor_of-false :
    (store : Store (Option Memory)) (service : Service (Option Memory)) (m : ℕ) (o : Option Item)
    → list_cursor_of store service m false o ≡ ok []
unfolding list_cursor_of
list_cursor_of-false store service m none = refl
list_cursor_of-false store service m (some v) = refl

module _ (uuids : UuidLib) (sha : Sha256) (time_now : Clock) (codec : CursorCodec)
    (faithful : IsFaithful codec) (orders : TextOrders uuids) (service : Service (Option Memory))
    (has_store : service.store ≡ some (memory_store uuids sha time_now))
    (has_codec : service.cursor_codec ≡ some codec) (ctx : Context) (live : IsLive ctx) (s : Memory)
    (n : ℕ) (n_positive : 0 < n) (n_bounded : n ≤ 100) where
  abbrev rows : List Item
  rows = sort_slice newer (values s.items)

  -- An offset page, with a limit from 1 to 100, whose window reaches the last row holds the rows from the offset
  -- on, says that there are no more, and has no continuation; the text of a UUID orders as its bytes do.
  pub list_last :
      (m o : ℕ)
      → length rows ≤ o + n
      → Service.list (some service) (some ctx) m (record { limit = pos n; offset = pos o }) (some s)
        ≡ ok (record {
          items = drop o rows;
          limit = n;
          offset = o;
          has_more = false;
          next_cursor = [];
        })
  unfolding Service.list store_of
  list_last m o h =
      let zs = drop o rows in
      let short : length zs ≤ n = omega (arith, length-drop o rows) in
      rw
        (
          live.alive m,
          normalize_pos n o n_positive n_bounded,
          has_store,
          memory_list uuids ctx (m + 1) (n + 1) o s orders live (omega arith),
          take_of_length-le (n + 1) zs (omega arith),
        )
        (ground (
          arith,
          list_cursor_of-false (memory_store uuids sha time_now) service (m + 2) (get_last? zs),
        ))

  -- An offset page, with a limit from 1 to 100, that has more rows behind it holds the rows of its window and ends in
  -- a token that continues with exactly the rows behind; it needs a faithful codec, sorted and pageable rows, and
  -- a text of UUIDs that orders as their bytes do.
  pub list_more :
      (m o : ℕ)
      → IsSorted rows
      → AllPageable rows
      → o + n < length rows
      → (token : Bytes) × (Service.list
            (some service)
            (some ctx)
            m
            (record { limit = pos n; offset = pos o })
            (some s)
          ≡ ok (record {
            items = take n (drop o rows);
            limit = n;
            offset = o;
            has_more = true;
            next_cursor = token;
          }))
        × Continues codec rows token (drop n (drop o rows))
  unfolding Service.list store_of list_cursor_of position_for_item
  list_more m o sorted pageable h =
      let zs = drop o rows in
      let long : n < length zs = omega (arith, length-drop o rows) in
      let (ys, a, split, last) =
        last_row rows (take o rows) zs n n_positive long (sym (take-append-drop o rows)) in
      let good = AllPageable-append ys a (drop n zs) (subst AllPageable split pageable) in
      let (token, issued, carries) = faithful (m + 2) a good in
      let size : length (take (n + 1) zs) ≡ n + 1 = omega (arith, length-take (n + 1) zs) in
      let more : ltb n (n + 1) ≡ true = ground arith in
      (
        token,
        rw
            (
              live.alive m,
              normalize_pos n o n_positive n_bounded,
              has_store,
              memory_list uuids ctx (m + 1) (n + 1) o s orders live (omega arith),
              size,
              more,
              take-take n (n + 1) zs (omega arith),
              last,
              has_codec,
              good.valid,
              issued,
            )
            refl,
        subst (λ r. Continues codec r token (drop n zs)) (sym split)
            (Continues-token codec ys a (drop n zs) token (subst IsSorted split sorted) good
              carries),
      )
