-- ===== src/Item/HttpApi/Created.antt =====
-- What the handler `Create` answers.
use go_clean_architecture.Prelude.{
  ℕ, ◌≡◌, Bool, false, Option, none, some, ◌∷◌, ◌++◌, if◌then◌else◌, Bytes, codes, ok, Result,
}
use go_clean_architecture.Item.Errors.{Error}
use go_clean_architecture.Item.Context.{Context}
use go_clean_architecture.Item.Model.{is_nil, Item, CreateInput}
use go_clean_architecture.Item.Ports.{UuidLib}
use go_clean_architecture.Item.HttpApi.{Request, parse_idempotency_key, Response, data_of}
use go_clean_architecture.Item.HttpApi.Creating.{
  RequestBody, Creator, Handler, key_header, replay_header, resource_location, decode_strict_json,
  create,
}

module _ {S : Type 0} where
  -- The service has created or replayed an item: by `Create` without a key, by `CreateIdempotent` with one.
  abbrev pub IsServed :
      Creator S → Option Context → ℕ → CreateInput → S → Item → S → Option Bytes → Bool → Type 0
  IsServed service ctx m input s v t none replayed =
      (service.create ctx m input s ≡ (ok v, t)) × (replayed ≡ false)
  IsServed service ctx m input s v t (some key) replayed =
      (run : Option Context → ℕ → CreateInput → Bytes → S → Result Error (Item × Bool) × S)
      × (service.create_idempotent ≡ some run)
      × (run ctx m input key s ≡ (ok (v, replayed), t))

  -- What an answer below 400 rests on, and the answer.
  abbrev pub IsCreated :
      UuidLib → Handler S → ℕ → Bytes → Request → Option RequestBody → S → Response × S → Type 0
  IsCreated uuids h m path request body s answer =
      (service : Creator S) × (key : Option Bytes) × (input : CreateInput) × (v : Item)
      × (replayed : Bool) × (h.service ≡ some service)
      × (parse_idempotency_key (some request) ≡ ok key)
      × (decode_strict_json body h.max_body_bytes ≡ ok (some input))
      × IsServed service request.ctx m input s v answer.1 key replayed
      × (is_nil v.id ≡ false)
      × (answer.0 ≡ record {
        status = if replayed then 200 else 201;
        headers =
            key_header key
            ++ ((codes "Location", resource_location uuids path v.id) ∷ replay_header replayed);
        body = data_of v;
      })
