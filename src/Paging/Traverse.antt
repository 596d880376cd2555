-- ===== src/Paging/Traverse.antt =====
-- Following the cursors visits every row exactly once, in order.
use mathlib.Core.List.{append_assoc}
use go_clean_architecture.Prelude.{
  ℕ, pos, zero, suc, ◌+◌, ◌≤◌, ◌<◌, ◌≡◌, refl, ap, sym, ◌∙◌, true, inl, inr, Option, some, List, [],
  ◌∷◌, ◌++◌, arith, ltb, Bytes, length, take, drop, get_last?, length-drop, take-append-drop, ok,
  Bool-cases, ltb→lt,
}
use mathlib.Core.Path.{subst}
use go_clean_architecture.Dict.{values}
use go_clean_architecture.Item.Context.{Context, IsLive, Clock}
use go_clean_architecture.Item.Model.{Item}
use go_clean_architecture.Item.Cursor.{Sha256}
use go_clean_architecture.Item.Ports.{UuidLib, CursorCodec}
use go_clean_architecture.Item.Service.{Service, store_of}
use go_clean_architecture.Item.CursorList.{cursor_limit, cursor_page, list_cursor}
use go_clean_architecture.Memory.{Memory, newer, sort_slice}
use go_clean_architecture.Memory.Order.{IsSorted, Distinct, sort_slice-IsSorted}
use go_clean_architecture.Paging.{memory_store, IsPageable, AllPageable, IsFaithful, follow}
use go_clean_architecture.Paging.Rows.{list_after_lem, last-split}
use go_clean_architecture.Paging.Page.{
  Continues, Continues-nil, Continues-token, encode_next-true, cursor_page_last, cursor_page_more,
}

cursor_limit_pos : (n : ℕ) → 0 < n → n ≤ 100 → cursor_limit (pos n) ≡ ok n
unfolding cursor_limit
cursor_limit_pos n h k = ground arith

pub AllPageable-append :
    (ys : List Item) (v : Item) (zs : List Item) → AllPageable (ys ++ v ∷ zs) → IsPageable v
AllPageable-append [] v zs h = h.0
AllPageable-append (y ∷ ys) v zs h = AllPageable-append ys v zs h.1

-- The last row of a page that has more behind it, and where it stands among all rows.
pub last_row :
    (rows before zs : List Item) (n : ℕ)
    → 0 < n
    → n < length zs
    → rows ≡ before ++ zs
    → (ys : List Item) × (a : Item) × (rows ≡ ys ++ a ∷ drop n zs)
      × (get_last? (take n zs) ≡ some a)
last_row rows before zs zero h k e = elim h [ ]
last_row rows before zs (suc n) h k e =
    let (pre, a, split, last) = last-split n zs (omega arith) in
    (
      before ++ pre,
      a,
      e ∙ ap (◌++◌ before) split ∙ sym (append_assoc before pre (a ∷ drop (suc n) zs)),
      last,
    )

module _ (uuids : UuidLib) (sha : Sha256) (time_now : Clock) (codec : CursorCodec)
    (faithful : IsFaithful codec) (service : Service (Option Memory))
    (has_store : service.store ≡ some (memory_store uuids sha time_now))
    (has_codec : service.cursor_codec ≡ some codec) (ctx : Context) (live : IsLive ctx) (s : Memory)
    (n : ℕ) (n_positive : 0 < n) (n_bounded : n ≤ 100) where
  abbrev rows : List Item
  rows = sort_slice newer (values s.items)

  -- A request with a cursor that continues with `zs` gets the page of `zs`.
  list_cursor-cursor_page :
      (m : ℕ) (cursor : Bytes) (zs : List Item)
      → Continues codec rows cursor zs
      → list_cursor (some service) (some ctx) m (record { limit = pos n; cursor = cursor }) (some s)
        ≡ cursor_page codec (some ctx) (m + 2) n (take (n + 1) zs)
  unfolding list_cursor store_of
  list_cursor-cursor_page m cursor zs c =
      rw
        (
          live.alive m,
          cursor_limit_pos n n_positive n_bounded,
          has_store,
          has_codec,
          c.decoded m,
          list_after_lem ctx (m + 1) (n + 1) c.position s live (omega arith) c.checked,
          c.start,
        )
        refl

  -- What the token of a page with more rows behind it continues with.
  next_token :
      (m : ℕ) (cursor : Bytes) (zs : List Item)
      → IsSorted rows
      → AllPageable rows
      → Continues codec rows cursor zs
      → n < length zs
      → (token : Bytes) × (cursor_page codec (some ctx) (m + 2) n (take (n + 1) zs)
          ≡ ok (record { items = take n zs; limit = n; has_more = true; next_cursor = token }))
        × Continues codec rows token (drop n zs)
  next_token m cursor zs sorted pageable c h =
      let (ys, a, split, last) = last_row rows c.before zs n n_positive h c.split in
      let good = AllPageable-append ys a (drop n zs) (subst AllPageable split pageable) in
      let (token, issued, carries) = faithful (m + 2 + 1) a good in
      (
        token,
        cursor_page_more codec ctx live (m + 2) n zs a token h last
            (encode_next-true codec (m + 2 + 1) a token good issued),
        subst (λ r. Continues codec r token (drop n zs)) (sym split)
            (Continues-token codec ys a (drop n zs) token (subst IsSorted split sorted) good
              carries),
      )

  follow_from :
      (fuel m : ℕ) (cursor : Bytes) (zs : List Item)
      → IsSorted rows
      → AllPageable rows
      → Continues codec rows cursor zs
      → length zs < fuel
      → follow service (some ctx) m fuel (pos n) cursor (some s) ≡ ok zs
  unfolding follow
  follow_from zero m cursor zs sorted pageable c h = elim h [ ]
  follow_from (suc fuel) m cursor zs sorted pageable c h = elim (Bool-cases (ltb n (length zs))) [
    | inl more ↦
        let (token, page, next) =
          next_token m cursor zs sorted pageable c (ltb→lt n (length zs) more) in
        rw
          (
            list_cursor-cursor_page m cursor zs c,
            page,
            follow_from fuel (m + 5) token (drop n zs) sorted pageable next
                (omega (arith, length-drop n zs, ltb→lt n (length zs) more)),
            take-append-drop n zs,
          )
          refl
    | inr last ↦
        rw
          (
            list_cursor-cursor_page m cursor zs c,
            cursor_page_last codec ctx live (m + 2) n zs (ground arith),
          )
          refl
  ]

  -- A client that starts with the first page and follows the cursors, with a limit from 1 to 100, gets
  -- the rows of the memory store strictly newest first, each exactly once, when it asks for more pages
  -- than there are rows; it needs a faithful codec, a live context, and items with different ids whose positions
  -- are valid.
  pub follow-rows :
      (m fuel : ℕ)
      → Distinct (values s.items)
      → AllPageable rows
      → length rows < fuel
      → (follow service (some ctx) m fuel (pos n) [] (some s) ≡ ok rows) × IsSorted rows
  follow-rows m fuel distinct pageable h =
      let sorted = sort_slice-IsSorted (values s.items) distinct in
      (follow_from fuel m [] rows sorted pageable (Continues-nil codec rows) h, sorted)
