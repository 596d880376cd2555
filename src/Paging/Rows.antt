-- ===== src/Paging/Rows.antt =====
-- The rows that the memory store hands to a page.
use go_clean_architecture.Prelude.{
  ℕ, pos, zero, suc, ◌+◌, ◌-◌, ◌≤◌, ◌<◌, ◌≡◌, refl, ap, Option, some, List, [], ◌∷◌, ◌++◌, arith,
  length, take, drop, get_last?, length-drop, take_of_length-le, drop_of_length-le, ok,
}
use go_clean_architecture.Std.Time.{before, equal}
use go_clean_architecture.Dict.{values}
use go_clean_architecture.Item.Context.{Context, IsLive}
use go_clean_architecture.Item.Model.{Item}
use go_clean_architecture.Item.Cursor.{CursorPosition}
use go_clean_architecture.Item.Cursor.RoundTrip.{canonical}
use go_clean_architecture.Memory.{
  Memory, newer, sort_slice, copy_page, check_position, behind, start_index, start_of, list_after,
}
use go_clean_architecture.Memory.Order.{IsSorted, position_of, start_index-position_of}

-- The copy loop takes the rows from `start` on, up to the limit.
pub copy_page_lem :
    (rows : List Item) (limit start : ℕ) → copy_page rows limit start ≡ take limit (drop start rows)
unfolding copy_page
copy_page_lem rows zero start = refl
copy_page_lem rows (suc n) start = ground (
  arith,
  length-drop start rows,
  drop_of_length-le start rows,
  take_of_length-le (length rows - start) (drop start rows),
  take_of_length-le (suc n) (drop start rows),
)

-- Time zones do not count: a decoded position starts where the item's own would.
pub start_index-canonical :
    (p : CursorPosition) (rows : List Item) → start_index (canonical p) rows ≡ start_index p rows
unfolding start_index behind before equal
start_index-canonical p [] = refl
start_index-canonical p (x ∷ xs) = ground (arith, start_index-canonical p xs)

drop-suc : (ys : List Item) (a : Item) (zs : List Item) → drop (length ys + 1) (ys ++ a ∷ zs) ≡ zs
drop-suc [] a zs = refl
drop-suc (y ∷ ys) a zs = ground (arith, drop-suc ys a zs)

-- A cursor on an item of the sorted rows continues with the rows behind it.
pub start_of-canonical :
    (ys : List Item) (a : Item) (zs : List Item)
    → IsSorted (ys ++ a ∷ zs)
    → drop (start_of (some (canonical (position_of a))) (ys ++ a ∷ zs)) (ys ++ a ∷ zs) ≡ zs
unfolding start_of
start_of-canonical ys a zs s =
    rw
      (
        start_index-canonical (position_of a) (ys ++ a ∷ zs),
        start_index-position_of ys a zs s,
        drop-suc ys a zs,
      )
      refl

-- `ListAfter` returns the rows behind the position, up to the limit.
pub list_after_lem :
    (ctx : Context) (m n : ℕ) (position : Option CursorPosition) (s : Memory)
    → IsLive ctx
    → n ≤ 101
    → check_position position ≡ ok tt
    → let rows = sort_slice newer (values s.items) in
      list_after (some ctx) m (record { limit = pos n; position = position }) (some s)
      ≡ ok (take n (drop (start_of position rows) rows))
unfolding list_after
list_after_lem ctx m n position s live h valid =
    let rows = sort_slice newer (values s.items) in
    ground (arith, live.alive m, live.alive (m + 1), copy_page_lem rows n (start_of position rows))

-- The last row of a full page splits the rows.
pub last-split :
    (n : ℕ) (zs : List Item)
    → n < length zs
    → (pre : List Item) × (a : Item) × (zs ≡ pre ++ a ∷ drop (suc n) zs)
      × (get_last? (take (suc n) zs) ≡ some a)
last-split n [] h = elim h [ ]
last-split zero (z ∷ zs) h = ([], z, refl, refl)
last-split (suc n) (z ∷ []) h = absurd (omega arith)
last-split (suc n) (z ∷ w ∷ zs) h =
    let (pre, a, split, last) = last-split n (w ∷ zs) (omega arith) in
    (z ∷ pre, a, ap (◌∷◌ z) split, last)
