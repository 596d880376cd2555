-- ===== src/Item/HttpApi/Handlers.antt =====
-- The handlers `Get` and `List` of internal/item/httpapi/handler.go.
use go_clean_architecture.Prelude.{ℕ, Option, none, some, [], if◌then◌else◌, codes, Result, ok, err}
use go_clean_architecture.Item.Errors.{Error, sentinel, cursor_unavailable}
use go_clean_architecture.Item.Context.{Context}
use go_clean_architecture.Item.Model.{Uuid, is_nil, Item, ListParams, Page}
use go_clean_architecture.Item.Ports.{CursorRequest, CursorPage}
use go_clean_architecture.Item.HttpApi.{
  Request, ListRequest, offset_request, cursor_request, parse_list_request, data_of, listing,
  Response, write_error, internal_error, write_service_error,
}

-- `Service` as the two handlers use it, with the optional `CursorLister`.
pub record Reader (S : Type 0) : Type 0 where
  pub get : Option Context → ℕ → Uuid → S → Result Error Item
  pub list : Option Context → ℕ → ListParams → S → Result Error Page
  pub list_cursor : Option (Option Context → ℕ → CursorRequest → S → Result Error CursorPage)

unfoldable pub written_item : Result Error Item → Response
written_item (err e) = write_service_error e
written_item (ok found) = record { status = 200; headers = []; body = data_of found }

unfoldable pub written_page : Result Error Page → Response
written_page (err e) = write_service_error e
written_page (ok page) = record {
  status = 200;
  headers = [];
  body = listing page.items page.limit (some page.offset) page.has_more page.next_cursor;
}

unfoldable pub written_cursor_page : Result Error CursorPage → Response
written_cursor_page (err e) = write_service_error e
written_cursor_page (ok page) = record {
  status = 200;
  headers = [];
  body = listing page.items page.limit none page.has_more page.next_cursor;
}

module _ {S : Type 0} where
  -- `Get`, with the service, if any, and an id that has been parsed.
  unfoldable pub get_by_id : Option (Reader S) → Option Context → ℕ → Uuid → S → Response
  unfolding written_item
  get_by_id none ctx m id s =
      if is_nil id
      then write_error 400 (codes "bad_request") (codes "invalid item id")
      else internal_error
  get_by_id (some service) ctx m id s =
      if is_nil id
      then write_error 400 (codes "bad_request") (codes "invalid item id")
      else written_item (service.get ctx m id s)

  -- `Get`
  unfoldable pub get : Option (Reader S) → ℕ → Request → S → Response
  unfolding get_by_id
  get service m request s = elim request.id [
    | none ↦ write_error 400 (codes "bad_request") (codes "invalid item id")
    | some id ↦ get_by_id service request.ctx m id s
  ]

  -- `List` of a request that has been parsed.
  unfoldable pub list_parsed : Option (Reader S) → Option Context → ℕ → ListRequest → S → Response
  unfolding written_page written_cursor_page
  list_parsed none ctx m (cursor_request c) s = write_service_error (sentinel cursor_unavailable)
  list_parsed none ctx m (offset_request p) s = internal_error
  list_parsed (some service) ctx m (offset_request p) s = written_page (service.list ctx m p s)
  list_parsed (some service) ctx m (cursor_request c) s = elim service.list_cursor [
    | none ↦ write_service_error (sentinel cursor_unavailable)
    | some list_cursor ↦ written_cursor_page (list_cursor ctx m c s)
  ]

  -- `List`
  unfoldable pub list : Option (Reader S) → ℕ → Request → S → Response
  unfolding list_parsed
  list service m request s = elim (parse_list_request (some request)) [
    | err e ↦ write_error 400 (codes "bad_request") (codes "invalid pagination parameters")
    | ok parsed ↦ list_parsed service request.ctx m parsed s
  ]
