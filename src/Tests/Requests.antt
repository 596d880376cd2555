-- ===== src/Tests/Requests.antt =====
-- Requests to the HTTP adapter.
use go_clean_architecture.Prelude.{pos, ◌≡◌, refl, Option, none, some, [], ◌∷◌, codes, bytes_eq, ok}
use go_clean_architecture.Dict.{entry, lookup}
use go_clean_architecture.Item.Errors.{Sentinel, sentinel, wrap, not_found, is}
use go_clean_architecture.Item.HttpApi.{
  Request, offset_request, query_entry, digits_value, unsigned_value, atoi, parse_query_int,
  choose_paging, parse_list_request,
}
use go_clean_architecture.Item.HttpApi.Handlers.{Reader, get, get_by_id, written_item}
use go_clean_architecture.Item.HttpApi.Laws.{IsServiceable, parse_list_request-IsServiceable}
use go_clean_architecture.Item.HttpApi.Creating.{
  RequestBody, Decoded, end_of_body, Creator, Handler, default_max_body_bytes, create,
}
use go_clean_architecture.Std.Text.{ascii}
use go_clean_architecture.Item.Service
use go_clean_architecture.Item.CursorList.{list_cursor}
use go_clean_architecture.Memory.{Memory}
use go_clean_architecture.Memory
use go_clean_architecture.Tests.{uuids, clock, ctx, older, two_items, service}

program : Unit {0}
unfolding bytes_eq lookup query_entry digits_value unsigned_value atoi parse_query_int choose_paging
    parse_list_request is get get_by_id written_item Service.get Service.store_of Memory.get
program = tt

abbrev request : Request
request = record {
  query = some (entry (codes "limit") (codes "25" ∷ []) ∷ []);
  id = some older.id;
  idempotency_keys = [];
  ctx = some ctx;
}

abbrev reader : Reader (Option Memory)
reader = record {
  get = Service.get (some service);
  list = Service.list (some service);
  list_cursor = some (list_cursor (some service));
}

accepted :
    parse_list_request (some request)
    ≡ ok (offset_request (record { limit = pos 25; offset = pos 0 }))
unfolding program
accepted = refl

parse_list_request-IsServiceable_example :
    IsServiceable (offset_request (record { limit = pos 25; offset = pos 0 }))
parse_list_request-IsServiceable_example =
    parse_list_request-IsServiceable request
      (offset_request (record { limit = pos 25; offset = pos 0 })) accepted

same_sentinels : (s : Sentinel) → is (sentinel not_found) s ≡ is (wrap (sentinel not_found)) s
unfolding program
same_sentinels s = refl

answered : (get (some reader) 0 request (some two_items)).status ≡ 200
unfolding program
answered = refl

abbrev creator : Creator (Option Memory)
creator = record { create = Service.create uuids clock (some service); create_idempotent = none }

abbrev handler : Handler (Option Memory)
handler = record { service = some creator; max_body_bytes = pos default_max_body_bytes }

-- A pen, and nothing behind it.
abbrev pen_body : RequestBody
pen_body = record {
  content_length = pos 14;
  decodes = λ n.
      (Decoded.value (some (record { name = ascii (codes "pen"); description = [] })), end_of_body);
}
