-- ===== src/Item/HttpApi/Laws.antt =====
-- What the HTTP adapter hands to the service, and what it shows of an error.
use go_clean_architecture.Prelude.{
  ℕ, ℤ, pos, negsuc, pos_part, neg_part, ltb_ℤ, zero, suc, ◌+◌, ◌||◌, ◌==◌, if◌then◌else◌, ◌≤◌, ◌<◌,
  ◌≡◌, ◌≢◌, refl, false, inl, inr, Option, none, some, List, [], ◌∷◌, arith, Bytes, codes, length,
  ok, Option-cases, Result-cases,
}
use go_clean_architecture.Dict.{lookup}
use go_clean_architecture.Item.Errors.{
  Error, Sentinel, is, invalid_input, not_found, conflict, invalid_cursor, cursor_unavailable,
  cursor_state, idempotency_conflict, idempotency_in_progress, idempotency_unavailable,
  idempotency_state,
}
use go_clean_architecture.Item.Model.{
  Uuid, is_nil, Item, NormalParams, normalize_list_params, default_page_size,
}
use go_clean_architecture.Item.CursorList.{cursor_limit}
use go_clean_architecture.Item.HttpApi.{
  Request, ListRequest, offset_request, cursor_request, single_cursor, choose_paging,
  parse_query_int, parse_list_request, write_service_error, data_of,
}
use go_clean_architecture.Item.HttpApi.Handlers.{Reader, get, get_by_id, written_item}

-- The service takes the request's numbers as they are: a limit from 1 to 100 with an offset, or with a token of
-- 1 to 512 bytes.
abbrev pub IsServiceable : ListRequest → Type 0
IsServiceable (offset_request p) =
    (n : NormalParams) × (normalize_list_params p ≡ ok n)
    × (p.limit ≡ pos n.limit)
    × (p.offset ≡ pos n.offset)
    × (0 < n.limit)
    × (n.limit ≤ 100)
IsServiceable (cursor_request c) =
    (n : ℕ) × (cursor_limit c.limit ≡ ok n)
    × (c.limit ≡ pos n)
    × (0 < n)
    × (n ≤ 100)
    × (0 < length c.cursor)
    × (length c.cursor ≤ 512)

normalize-offset_request :
    (l o : ℕ)
    → 0 < l
    → l ≤ 100
    → normalize_list_params (record { limit = pos l; offset = pos o })
      ≡ ok (record { limit = l; offset = o })
unfolding normalize_list_params
normalize-offset_request l o h k = ground arith

cursor_limit-pos : (l : ℕ) → 0 < l → l ≤ 100 → cursor_limit (pos l) ≡ ok l
unfolding cursor_limit
cursor_limit-pos l h k = ground arith

single_cursor-IsServiceable :
    (l : ℕ) (cursors : List Bytes) (r : ListRequest)
    → 0 < l
    → l ≤ 100
    → single_cursor (pos l) cursors ≡ ok r
    → IsServiceable r
unfolding single_cursor
single_cursor-IsServiceable l [] r h k e = absurd (ground arith)
single_cursor-IsServiceable l (t ∷ u ∷ rest) r h k e = absurd (ground arith)
single_cursor-IsServiceable l (t ∷ []) (offset_request p) h k e = absurd (ground arith)
single_cursor-IsServiceable l (t ∷ []) (cursor_request c) h k e =
    (l, ground (arith, cursor_limit-pos l h k), ground arith, h, k, ground arith, ground arith)

choose_paging-IsServiceable :
    (l o : ℕ) (offsets cursors : Option (List Bytes)) (r : ListRequest)
    → 0 < l
    → l ≤ 100
    → choose_paging offsets cursors (pos l) (pos o) ≡ ok r
    → IsServiceable r
unfolding choose_paging
choose_paging-IsServiceable l o offsets none (offset_request p) h k e = (
  record { limit = l; offset = o },
  ground (arith, normalize-offset_request l o h k),
  ground arith,
  ground arith,
  h,
  k,
)
choose_paging-IsServiceable l o offsets none (cursor_request c) h k e = absurd (ground arith)
choose_paging-IsServiceable l o none (some cursors) r h k e =
    single_cursor-IsServiceable l cursors r h k e
choose_paging-IsServiceable l o (some _) (some cursors) r h k e = absurd (ground arith)

-- The limit that a request asks for, with the default for zero.
abbrev limit_of : ℤ → ℤ
limit_of given = if pos_part given + neg_part given == 0 then pos default_page_size else given

limit_of-pos :
    (given : ℤ)
    → (ltb_ℤ (limit_of given) (pos 0) || ltb_ℤ (pos 100) (limit_of given)) ≡ false
    → (l : ℕ) × (limit_of given ≡ pos l) × (0 < l) × (l ≤ 100)
limit_of-pos (pos zero) h = (20, refl, omega arith, omega arith)
limit_of-pos (pos (suc n)) h = (suc n, ground arith, omega arith, ground arith)
limit_of-pos (negsuc n) h = absurd (ground arith)

offset-pos : (offset : ℤ) → ltb_ℤ offset (pos 0) ≡ false → (o : ℕ) × (offset ≡ pos o)
offset-pos (pos n) h = (n, refl)
offset-pos (negsuc n) h = absurd (ground arith)

-- Every list request that the adapter accepts is one that the service takes as it is: its limit is from 1 to
-- 100, and it has either an offset that is not negative or a token of 1 to 512 bytes.
pub parse_list_request-IsServiceable :
    (request : Request) (r : ListRequest)
    → parse_list_request (some request) ≡ ok r
    → IsServiceable r
unfolding parse_list_request
parse_list_request-IsServiceable request r h = elim (Option-cases request.query) [
  | inl bad ↦ absurd (ground arith)
  | inr (values, at) ↦ elim (Option-cases (parse_query_int values (codes "limit") (pos 20))) [
    | inl bad ↦ absurd (ground arith)
    | inr (given, l) ↦ elim (Option-cases (parse_query_int values (codes "offset") (pos 0))) [
      | inl bad ↦ absurd (ground arith)
      | inr (offset, o) ↦
          let (n, size, positive, bounded) = limit_of-pos given (ground arith) in
          let (m, from) = offset-pos offset (ground arith) in
          choose_paging-IsServiceable n m (lookup (codes "offset") values)
            (lookup (codes "cursor") values) r positive bounded (ground arith)
    ]
  ]
]

-- The response shows of an error which of the sentinels it wraps and nothing else: two errors that agree on
-- the sentinels are answered alike.
write_service_error-is :
    (e e' : Error)
    → ((s : Sentinel) → is e s ≡ is e' s)
    → write_service_error e ≡ write_service_error e'
unfolding write_service_error
write_service_error-is e e' h =
    rw
      (
        h cursor_unavailable,
        h cursor_state,
        h invalid_cursor,
        h idempotency_conflict,
        h idempotency_in_progress,
        h idempotency_unavailable,
        h idempotency_state,
        h invalid_input,
        h not_found,
        h conflict,
      )
      refl

write_service_error-ne : (e : Error) → (write_service_error e).status ≢ 200
unfolding write_service_error
write_service_error-ne e h = ground arith

-- `Get` answers 200 only with the item that the service has found under the id of the request, which is not nil.
get-eq-ok :
    {S : Type 0} (service : Reader S) (m : ℕ) (request : Request) (s : S)
    → (get (some service) m request s).status ≡ 200
    → (id : Uuid) × (v : Item) × (request.id ≡ some id)
      × (is_nil id ≡ false)
      × (service.get request.ctx m id s ≡ ok v)
      × (get (some service) m request s ≡ record { status = 200; headers = []; body = data_of v })
unfolding get get_by_id written_item
get-eq-ok service m request s h = elim (Option-cases request.id) [
  | inl none_given ↦ absurd (ground arith)
  | inr (id, given) ↦ elim (Result-cases (service.get request.ctx m id s)) [
    | inr (e, failed) ↦ absurd (ground (arith, write_service_error-ne e))
    | inl (v, found) ↦ (id, v, given, ground arith, found, ground arith)
  ]
]
