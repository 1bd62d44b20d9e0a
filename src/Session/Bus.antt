-- ===== src/Session/Bus.antt =====
-- `Subscription` and `InProcessEventBus` of backend/core/session_hub.py. A subscription is an
-- object that the bus and its consumer share: it stands in a heap under its `sub_id`, and the bus
-- holds ids. Where a subscriber's event loop stands at a publish is an argument.
pub mod Delivery
pub mod Fanout
use community_overview.Base.{
  ℕ, ◌+◌, String, Bool, true, false, ◌&&◌, Option, none, some, List, [], ◌∷◌, ◌++◌, leb, ltb, ◌==◌,
  string_eq, nat_eq, length, keep, not, if◌then◌else◌,
}
use community_overview.Base.Dict
use community_overview.Base.Dict.{Dict}
use community_overview.Base.Dict.Nested.{inner, store_or_pop}

-- What stands in a queue: a published event, or the sentinel `{"type": "resync"}`.
pub data Message (E : Type 0) : Type 0 where
  event : E → Message E
  resync : Message E

pub record Subscription (E : Type 0) : Type 0 where
  pub session_id : String
  pub sub_id : ℕ
  pub maxsize : ℕ
  pub queue : List (Message E)
  pub needs_resync : Bool

-- `scheduled` holds the deliveries that other loops have been asked to run, in order.
pub record Bus (E : Type 0) : Type 0 where
  pub queue_max : ℕ
  pub next_id : ℕ
  pub subscribers : Dict String (List ℕ)
  pub objects : Dict ℕ (Subscription E)
  pub scheduled : List (ℕ × E)

-- A subscriber's loop at a publish: none or the running one, one that is closed, another that takes
-- the callback, or one that shuts down before it can.
pub data LoopState : Type 0 where
  same closed other shutting_down : LoopState

-- `asyncio.Queue.full`: a `maxsize` of 0 means no bound.
abbrev pub is_full {ℓ} : {A : Type ℓ} → ℕ → List A → Bool
is_full maxsize queue = ltb 0 maxsize && leb maxsize (length queue)

module _ {E : Type 0} where
  -- `put_nowait`, or `none` for `QueueFull`.
  unfoldable pub put_nowait : Message E → Subscription E → Option (Subscription E)
  put_nowait msg sub =
      if is_full sub.maxsize sub.queue
      then none
      else some (record sub { queue = sub.queue ++ (msg ∷ []) })

  -- `_drain`
  unfoldable pub drain : Subscription E → Subscription E
  drain sub = record sub { queue = [] }

  -- The second `QueueFull` is passed over.
  unfoldable pub force_resync : Subscription E → Subscription E
  unfolding put_nowait drain
  force_resync sub =
      let emptied = record (drain sub) { needs_resync = true } in
      elim (put_nowait resync emptied) [ none ↦ emptied | some sub' ↦ sub' ]

  -- `_publish_to_subscriber`
  unfoldable pub deliver : E → Subscription E → Subscription E
  unfolding put_nowait force_resync
  deliver e sub = elim (put_nowait (event e) sub) [ some sub' ↦ sub' | none ↦ force_resync sub ]

  -- What the consumer's `await self.queue.get()` takes, if something is there.
  unfoldable pub take_next : List (Message E) → Subscription E → Option (Message E) × Subscription E
  take_next [] sub = (none, sub)
  take_next (m ∷ rest) sub = (some m, record sub { queue = rest })

  unfoldable pub init : ℕ → Bus E
  init queue_max = record {
    queue_max = queue_max;
    next_id = 0;
    subscribers = [];
    objects = [];
    scheduled = [];
  }

  -- The ids under which a session's subscriptions stand, in the order of the dict.
  unfoldable pub subscribers_of : String → Bus E → List ℕ
  subscribers_of sid b = inner sid b.subscribers

  unfoldable pub subscribe : String → Bus E → ℕ × Bus E
  subscribe sid b =
      let id = b.next_id in
      let sub : Subscription E = record {
        session_id = sid;
        sub_id = id;
        maxsize = b.queue_max;
        queue = [];
        needs_resync = false;
      } in
      (
        id,
        record b {
          next_id = id + 1;
          subscribers = Dict.put sid (subscribers_of sid b ++ (id ∷ [])) b.subscribers;
          objects = Dict.put id sub b.objects;
        },
      )

  -- The bus forgets the subscription; its consumer still holds the object.
  unfoldable pub unsubscribe : String → ℕ → Bus E → Bus E
  unsubscribe sid id b = record b {
    subscribers = store_or_pop sid (keep (λ j. not (j == id)) (subscribers_of sid b)) b.subscribers;
  }

  unfoldable pub subscriber_count : String → Bus E → ℕ
  subscriber_count sid b = length (subscribers_of sid b)

  unfoldable pub deliver_to : ℕ → E → Bus E → Bus E
  deliver_to id e b = elim (Dict.get id b.objects) [
    | none ↦ b
    | some sub ↦ record b { objects = Dict.put id (deliver e sub) b.objects }
  ]

  -- One round of the loop of `publish`.
  unfoldable pub send : LoopState → String → E → ℕ → Bus E → Bus E
  send same sid e id b = deliver_to id e b
  send closed sid e id b = unsubscribe sid id b
  send other sid e id b = record b { scheduled = b.scheduled ++ ((id, e) ∷ []) }
  send shutting_down sid e id b = unsubscribe sid id b

  unfoldable pub send_all : (ℕ → LoopState) → String → E → List ℕ → Bus E → Bus E
  send_all loops sid e [] b = b
  send_all loops sid e (id ∷ ids) b = send_all loops sid e ids (send (loops id) sid e id b)

  unfoldable pub publish : (ℕ → LoopState) → String → E → Bus E → Bus E
  publish loops sid e b = send_all loops sid e (subscribers_of sid b) b

  -- Another loop runs the deliveries that it was asked for.
  unfoldable pub run_scheduled : List (ℕ × E) → Bus E → Bus E
  run_scheduled [] b = b
  run_scheduled ((id, e) ∷ rest) b = run_scheduled rest (deliver_to id e b)

  unfoldable pub flush : Bus E → Bus E
  flush b = run_scheduled b.scheduled (record b { scheduled = [] })
