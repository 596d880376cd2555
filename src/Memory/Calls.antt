-- ===== src/Memory/Calls.antt =====
-- Idempotent creates of internal/item/memory/idempotency.go that run at the same time: each call goes
-- through its sections one by one, and between two of them any other call may run.
pub mod Safety
pub mod Progress
use go_clean_architecture.Prelude.{
  ℕ, ◌+◌, ◌≡◌, Bool, true, Option, none, some, Bytes, Result, ok, err, if◌then◌else◌, ◌==◌,
}
use go_clean_architecture.Std.Time.{Time}
use go_clean_architecture.Item.Errors.{Error}
use go_clean_architecture.Item.Context.{Context, Clock}
use go_clean_architecture.Item.Model.{Item}
use go_clean_architecture.Item.Cursor.{Sha256}
use go_clean_architecture.Memory.{Memory, create_item}
use go_clean_architecture.Memory.Idempotent
use go_clean_architecture.Memory.Idempotent.{Decision, replay, reserved, reserve}

-- Where a call of `CreateIdempotent` stands.
pub data Phase : Type 0 where
  idle : Phase
  -- the key is reserved, `Create` has not run
  holding : Bytes → Bytes → Item → Phase
  -- `Create` has answered
  concluding : Bytes → Bytes → Result Error Item → Phase
  finished : Result Error (Item × Bool) → Phase

-- The store and its calls, by number.
pub record System : Type 0 where
  pub store : Memory
  pub phase : ℕ → Phase

abbrev pub set_phase : (ℕ → Phase) → ℕ → Phase → ℕ → Phase
set_phase f i p j = if i == j then p else f j

-- Where the first section leaves a call.
unfoldable pub begun : Bytes → Bytes → Item → Result Error Decision → Phase
begun k rh value (err e) = finished (err e)
begun k rh value (ok (replay found)) = finished (ok (found, true))
begun k rh value (ok reserved) = holding k rh value

-- The first section of call `i`, with the time it has read.
unfoldable pub begin_call : Option Context → ℕ → Time → Bytes → Bytes → Item → ℕ → System → System
begin_call ctx m t k rh value i s = record {
  store = (reserve ctx m t k rh s.store).1;
  phase = set_phase s.phase i (begun k rh value (reserve ctx m t k rh s.store).0);
}

-- `Create` of call `i`.
unfoldable pub create_call : Option Context → ℕ → Bytes → Bytes → Item → ℕ → System → System
create_call ctx m k rh value i s = record {
  store = (create_item ctx m value s.store).1;
  phase = set_phase s.phase i (concluding k rh (create_item ctx m value s.store).0);
}

module _ (sha : Sha256) (time_now : Clock) where
  -- The last section of call `i`.
  unfoldable pub conclude_call :
      Option Context → ℕ → Bytes → Bytes → Result Error Item → ℕ → System → System
  conclude_call ctx m k rh answer i s = record {
    store = (Idempotent.conclude sha time_now ctx m k rh answer s.store).1;
    phase =
        set_phase s.phase i
          (finished (Idempotent.conclude sha time_now ctx m k rh answer s.store).0);
  }

  pub data Step (s : System) : System → Type 0 where
    begin :
        (ctx : Option Context) (m : ℕ) (t : Time) (k rh : Bytes) (value : Item) (i : ℕ)
        → s.phase i ≡ idle
        → Step s (begin_call ctx m t k rh value i s)
    -- a call whose arguments are refused
    refuse :
        (e : Error) (i : ℕ)
        → s.phase i ≡ idle
        → Step s (record s { phase = set_phase s.phase i (finished (err e)) })
    create :
        (ctx : Option Context) (m : ℕ) (k rh : Bytes) (value : Item) (i : ℕ)
        → s.phase i ≡ holding k rh value
        → Step s (create_call ctx m k rh value i s)
    conclude :
        (ctx : Option Context) (m : ℕ) (k rh : Bytes) (answer : Result Error Item) (i : ℕ)
        → s.phase i ≡ concluding k rh answer
        → Step s (conclude_call ctx m k rh answer i s)
    -- a call of the plain `Create`
    plain :
        (ctx : Option Context) (m : ℕ) (value : Item)
        → Step s (record s { store = (create_item ctx m value s.store).1 })

  pub data Reach (first : System) : System → Type 0 where
    here : Reach first first
    next : {s t : System} → Reach first s → Step s t → Reach first t
