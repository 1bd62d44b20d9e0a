-- ===== src/Event/Dispatcher.antt =====
-- `EventDispatcher` of backend/core/events/dispatcher.py: its cache of subscriptions, and the dispatch
-- of an event to agents and webhooks. The callbacks are arguments, and their calls are recorded. Times
-- are in microseconds.
pub mod Calls
use community_overview.Base.{
  ℕ, ◌+◌, ◌-◌, ◌*◌, String, Bool, true, false, not, ◌&&◌, Option, none, some, List, [], ◌∷◌, ◌++◌,
  ltb, ◌==◌, string_eq, if◌then◌else◌,
}
use community_overview.Json.{ℤ, Json}
use community_overview.Text.{is_prefix}
use community_overview.Event.Models.{Event}
use community_overview.Event.Subscriptions.{◌>>=◌, Subscription, Node, subscription_of}
use community_overview.Event.Matching.{matches, should_block}

-- What an agent's callback does: it takes the event, declines it or raises.
pub data AgentReply : Type 0 where
  handled : AgentReply
  declined : AgentReply
  raised : AgentReply

-- `on_deliver` answers false where it raises.
pub record Callbacks : Type 0 where
  pub on_deliver : Option (Event → String → Bool)
  pub on_agent_deliver : Option (Event → String → AgentReply)

pub data Call : Type 0 where
  to_agent : Event → String → Call
  to_webhook : Event → String → Call

pub record EventDispatcher : Type 0 where
  pub subscriptions_cache : Option (List Subscription)
  pub cache_time : Option ℕ
  pub cache_ttl : ℕ

unfoldable pub new_dispatcher : EventDispatcher
new_dispatcher = record { subscriptions_cache = none; cache_time = none; cache_ttl = 30 * 1000000 }

unfoldable pub invalidate_cache : EventDispatcher → EventDispatcher
invalidate_cache d = record d { subscriptions_cache = none; cache_time = none }

-- The cache, while it is fresh.
unfoldable pub cached : ℕ → EventDispatcher → Option (List Subscription)
cached now d = do
  subs ← d.subscriptions_cache
  time ← d.cache_time
  if ltb (now - time) d.cache_ttl then some subs else none

-- The copy of the event that names the subscription.
unfoldable pub addressed : Event → Subscription → Event
addressed e s = record e { subscription = some (record { id = s.id; name = s.name }) }

unfoldable pub is_internal : String → Bool
is_internal url = not (url == "") && is_prefix "internal://" url

unfoldable pub deliver_webhook : (Event → String → Bool) → Event → Subscription → List Call × ℕ
deliver_webhook on_deliver e s =
    let url = s.delivery.webhook_url in
    if is_internal url
    then ([], 0)
    else (to_webhook (addressed e s) url ∷ [], if on_deliver (addressed e s) url then 1 else 0)

-- First the agent, and the webhook where the agent did not take the event.
unfoldable pub deliver_one :
    (Event → String → Bool)
    → Option (Event → String → AgentReply)
    → Event
    → Subscription
    → List Call × ℕ
deliver_one on_deliver none e s = deliver_webhook on_deliver e s
deliver_one on_deliver (some agent) e s =
    let (calls, count) = deliver_webhook on_deliver e s in
    let call = to_agent (addressed e s) s.id in
    elim (agent (addressed e s) s.id) [
      | handled ↦ (call ∷ [], 1)
      | declined ↦ (call ∷ calls, count)
      | raised ↦ (call ∷ calls, count)
    ]

module _ (lower : String → String) (int_of_text : String → Option ℤ) where
  -- The loop over the subscriptions: the calls made, and the count unless an exception ends it.
  unfoldable pub dispatch_all :
      (Event → String → Bool)
      → Option (Event → String → AgentReply)
      → Event
      → List Subscription
      → List Call × Option ℕ
  dispatch_all on_deliver agent e [] = ([], some 0)
  dispatch_all on_deliver agent e (s ∷ ss) =
      let (rest, count) = dispatch_all on_deliver agent e ss in
      let (calls, n) = deliver_one on_deliver agent e s in
      elim (matches lower int_of_text e s.filters) [
        | none ↦ ([], none)
        | some false ↦ (rest, count)
        | some true ↦
            if should_block e s.delivery
            then (rest, count)
            else (calls ++ rest, elim count [ none ↦ none | some m ↦ some (n + m) ])
      ]

  module _ (int_field : Json → Option (Option ℤ)) where
    unfoldable pub load_all : List Node → Option (List Subscription)
    load_all [] = some []
    load_all (n ∷ ns) = do
      subs ← subscription_of int_field n
      rest ← load_all ns
      some (subs ++ rest)

    -- `_load_subscriptions`; an exception leaves the cache as it is.
    unfoldable pub load_subscriptions :
        ℕ → List Node → EventDispatcher → Option (List Subscription) × EventDispatcher
    load_subscriptions now nodes d = elim (cached now d) [
      | some subs ↦ (some subs, d)
      | none ↦ elim (load_all nodes) [
        | none ↦ (none, d)
        | some subs ↦
            (some subs, record d { subscriptions_cache = some subs; cache_time = some now })
      ]
    ]

    unfoldable pub dispatch :
        ℕ → List Node → Callbacks → Event → EventDispatcher → List Call × Option ℕ × EventDispatcher
    dispatch now nodes cb e d = elim cb.on_deliver [
      | none ↦ ([], some 0, d)
      | some on_deliver ↦
          let (loaded, d') = load_subscriptions now nodes d in
          elim loaded [
            | none ↦ ([], none, d')
            | some subs ↦
                let (calls, count) = dispatch_all on_deliver cb.on_agent_deliver e subs in
                (calls, count, d')
          ]
    ]
