-- ===== src/Tests/Listing.antt =====
-- The pages of the store of two items.
use go_clean_architecture.Prelude.{
  ℕ, pos, ◌≡◌, refl, true, false, some, List, [], ◌∷◌, arith, Bytes, length, take, drop, ok,
  bytes_eq,
}
use go_clean_architecture.Std.Time.{is_zero, signed, before, equal, unix}
use go_clean_architecture.Dict.{values}
use go_clean_architecture.Item.Model.{Item}
use go_clean_architecture.Item.Cursor.{validate, current_time}
use go_clean_architecture.Item.Ports
use go_clean_architecture.Item.Service
use go_clean_architecture.Memory.{newer, sort_slice, insert_sorted}
use go_clean_architecture.Memory.Order.{Distinct, IsSorted, sort_slice-IsSorted}
use go_clean_architecture.Paging.{IsPageable, AllPageable, IsFaithful, follow}
use go_clean_architecture.Paging.Codec.{signed-IsFaithful}
use go_clean_architecture.Paging.Page.{Continues}
use go_clean_architecture.Paging.Traverse.{follow-rows}
use go_clean_architecture.Paging.Offset.{list_more}
use go_clean_architecture.Tests.{
  sha, uuids, ctx, live, clock, older, newest, two_items, codec, service,
}

program : Unit {0}
unfolding newer sort_slice insert_sorted values bytes_eq before equal signed is_zero unix validate
    current_time
program = tt

abbrev newest_first : List Item
newest_first = newest ∷ older ∷ []

older-IsPageable : IsPageable older
unfolding program
older-IsPageable = record {
  valid = refl;
  storable = record {
    instant = record { sec_word = omega arith; nsec_second = omega arith };
    id_length = refl;
    id_bytes = ground arith;
  };
}

newest-IsPageable : IsPageable newest
unfolding program
newest-IsPageable = record {
  valid = refl;
  storable = record {
    instant = record { sec_word = omega arith; nsec_second = omega arith };
    id_length = refl;
    id_bytes = ground arith;
  };
}

running : (m : ℕ) → is_zero (current_time sha clock codec m) ≡ false
unfolding program
running m = refl

signed-IsFaithful_example : IsFaithful (Ports.signed sha clock codec)
signed-IsFaithful_example = signed-IsFaithful sha clock codec refl running

pub items-Distinct : Distinct (values two_items.items)
unfolding program
items-Distinct = ((refl, tt), (tt, tt))

rows-IsSorted : IsSorted (sort_slice newer (values two_items.items))
rows-IsSorted = sort_slice-IsSorted (values two_items.items) items-Distinct

rows-AllPageable : AllPageable (sort_slice newer (values two_items.items))
unfolding program
rows-AllPageable = (newest-IsPageable, (older-IsPageable, tt))

rows-size : length (sort_slice newer (values two_items.items)) ≡ 2
unfolding program
rows-size = refl

follow-rows_example :
    (follow service (some ctx) 0 3 (pos 1) [] (some two_items)
      ≡ ok (sort_slice newer (values two_items.items)))
    × IsSorted (sort_slice newer (values two_items.items))
follow-rows_example =
    follow-rows uuids sha clock (Ports.signed sha clock codec)
      (signed-IsFaithful sha clock codec refl running) service refl refl ctx live two_items 1
      (omega arith) (omega arith) 0 3 items-Distinct rows-AllPageable (omega (arith, rows-size))

list_more_example :
    (token : Bytes) × (Service.list
        (some service)
        (some ctx)
        0
        (record { limit = pos 1; offset = pos 0 })
        (some two_items)
      ≡ ok (record {
        items = take 1 (drop 0 (sort_slice newer (values two_items.items)));
        limit = 1;
        offset = 0;
        has_more = true;
        next_cursor = token;
      }))
    × Continues
        (Ports.signed sha clock codec)
        (sort_slice newer (values two_items.items))
        token
        (drop 1 (drop 0 (sort_slice newer (values two_items.items))))
list_more_example =
    list_more uuids sha clock (Ports.signed sha clock codec)
      (signed-IsFaithful sha clock codec refl running) (λ a b. refl) service refl refl ctx live
      two_items 1 (omega arith) (omega arith) 0 0 rows-IsSorted rows-AllPageable
      (omega (arith, rows-size))
