-- ===== src/Item/Errors.antt =====
-- internal/item/errors.go, with the sentinels of cursor.go and idempotency.go and the two context
-- errors. An `error` is a tree of what it wraps; `is` is `errors.Is`.
use go_clean_architecture.Prelude.{
  ℕ, Bool, false, ◌||◌, Option, none, some, ◌++◌, if◌then◌else◌, Bytes, codes, ◌==◌, bytes_eq, [],
}

pub data Sentinel : Type 0 where
  invalid_input not_found conflict store_unavailable id_generation : Sentinel
  invalid_cursor cursor_unavailable cursor_state : Sentinel
  idempotency_conflict idempotency_in_progress idempotency_unavailable idempotency_state : Sentinel
  canceled deadline_exceeded : Sentinel

pub data Error : Type 0 where
  -- one of the package's or the context's error values
  sentinel : Sentinel → Error
  -- `&ValidationError{Field, Reason}`
  validation : Bytes → Bytes → Error
  -- `&CursorError{Reason}`
  cursor : Bytes → Error
  -- `errors.Join(a, b)`
  join : Error → Error → Error
  -- `fmt.Errorf("... %w ...", err)`
  wrap : Error → Error
  -- an error of something outside the repository, or one that wraps nothing
  other : Bytes → Error

abbrev sentinel_index : Sentinel → ℕ
sentinel_index invalid_input = 0
sentinel_index not_found = 1
sentinel_index conflict = 2
sentinel_index store_unavailable = 3
sentinel_index id_generation = 4
sentinel_index invalid_cursor = 5
sentinel_index cursor_unavailable = 6
sentinel_index cursor_state = 7
sentinel_index idempotency_conflict = 8
sentinel_index idempotency_in_progress = 9
sentinel_index idempotency_unavailable = 10
sentinel_index idempotency_state = 11
sentinel_index canceled = 12
sentinel_index deadline_exceeded = 13

abbrev sentinel_eq : Sentinel → Sentinel → Bool
sentinel_eq a b = sentinel_index a == sentinel_index b

-- `errors.Is`: a ValidationError unwraps to ErrInvalidInput, a CursorError to ErrInvalidCursor.
unfoldable pub is : Error → Sentinel → Bool
is (sentinel t) s = sentinel_eq t s
is (validation field reason) s = sentinel_eq invalid_input s
is (cursor reason) s = sentinel_eq invalid_cursor s
is (join a b) s = is a s || is b s
is (wrap e) s = is e s
is (other text) s = false

-- `(*ValidationError).Error`, behind the sentinel's own text.
unfoldable pub validation_text : Option (Bytes × Bytes) → Bytes
validation_text none = codes "item: invalid input"
validation_text (some (field, reason)) =
    if bytes_eq field []
    then codes "item: invalid input: " ++ reason
    else if bytes_eq reason []
    then codes "item: invalid input: " ++ (field ++ codes " is invalid")
    else codes "item: invalid input: " ++ (field ++ (codes " " ++ reason))
