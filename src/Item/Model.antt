-- ===== src/Item/Model.antt =====
-- internal/item/model.go: items, create and list requests, and their validation.
use go_clean_architecture.Prelude.{
  ℕ, ℤ, pos, pos_part, neg_part, ltb_ℤ, ◌+◌, Bool, not, List, [], ◌∷◌, ltb, ◌==◌, if◌then◌else◌,
  Bytes, codes, bytes_eq, Result, ok, ◌>>◌, fail_if,
}
use go_clean_architecture.Std.Time.{Time}
use go_clean_architecture.Std.Text.{Text, trim_space, valid_string, rune_count}
use go_clean_architecture.Item.Errors.{Error, validation}

abbrev pub default_page_size : ℕ
default_page_size = 20

abbrev pub max_page_size : ℕ
max_page_size = 100

abbrev pub min_name_length : ℕ
min_name_length = 1

abbrev pub max_name_length : ℕ
max_name_length = 120

abbrev pub max_description_length : ℕ
max_description_length = 2000

-- `uuid.UUID` is an array of 16 bytes.
abbrev pub Uuid : Type 0
Uuid = Bytes

abbrev pub nil_uuid : Uuid
nil_uuid = 0 ∷ 0 ∷ 0 ∷ 0 ∷ 0 ∷ 0 ∷ 0 ∷ 0 ∷ 0 ∷ 0 ∷ 0 ∷ 0 ∷ 0 ∷ 0 ∷ 0 ∷ 0 ∷ []

abbrev pub is_nil : Uuid → Bool
is_nil id = bytes_eq id nil_uuid

pub record Item : Type 0 where
  pub id : Uuid
  pub name : Text
  pub description : Text
  pub created_at : Time

pub record CreateInput : Type 0 where
  pub name : Text
  pub description : Text

pub record ListParams : Type 0 where
  pub limit : ℤ
  pub offset : ℤ

pub record Page : Type 0 where
  pub items : List Item
  pub limit : ℕ
  pub offset : ℕ
  pub has_more : Bool
  pub next_cursor : Bytes

-- `ValidateCreateInput`. The numbers in the reasons are those of the constants above.
unfoldable pub validate_create_input : CreateInput → Result Error CreateInput
validate_create_input input = do
  let name = trim_space input.name
  let description = trim_space input.description
  fail_if (not (valid_string name)) (validation (codes "name") (codes "must be valid UTF-8"))
  fail_if (ltb (rune_count name) min_name_length) (validation (codes "name") (codes "is required"))
  fail_if (ltb max_name_length (rune_count name))
      (validation (codes "name") (codes "must contain at most 120 Unicode characters"))
  fail_if (not (valid_string description))
      (validation (codes "description") (codes "must be valid UTF-8"))
  fail_if (ltb max_description_length (rune_count description))
      (validation (codes "description") (codes "must contain at most 2000 Unicode characters"))
  ok (record { name = name; description = description })

-- A list request whose limit and offset have been checked.
pub record NormalParams : Type 0 where
  pub limit : ℕ
  pub offset : ℕ

abbrev default_limit : ℤ → ℤ
default_limit l = if pos_part l + neg_part l == 0 then pos default_page_size else l

-- `NormalizeListParams`
unfoldable pub normalize_list_params : ListParams → Result Error NormalParams
normalize_list_params params = do
  let limit = default_limit params.limit
  fail_if (ltb_ℤ limit (pos 0)) (validation (codes "limit") (codes "must be zero or positive"))
  fail_if (ltb_ℤ (pos max_page_size) limit)
      (validation (codes "limit") (codes "must be at most 100"))
  fail_if (ltb_ℤ params.offset (pos 0))
      (validation (codes "offset") (codes "must be zero or positive"))
  ok (record { limit = pos_part limit; offset = pos_part params.offset })
