-- ===== src/Event/Dispatcher/Calls.antt =====
-- An event reaches only the subscriptions that match it and do not ignore where it comes from.
use community_overview.Base.{
  ℕ, ◌≡◌, refl, ◌⊎◌, inl, inr, String, Bool, true, false, Bool-cases, Option, none, some,
  Option-cases, List, [], ◌∷◌, All, All-append,
}
use community_overview.Json.{ℤ, Json}
use community_overview.Event.Models.{Event}
use community_overview.Event.Subscriptions.{Subscription, Node}
use community_overview.Event.Matching.{matches, should_block}
use community_overview.Event.Dispatcher.{
  AgentReply, handled, declined, raised, Call, to_agent, to_webhook, addressed, is_internal,
  deliver_webhook, deliver_one, dispatch_all, Callbacks, EventDispatcher, load_subscriptions,
  dispatch,
}

module _ (lower : String → String) (int_of_text : String → Option ℤ) where
  -- A call that the dispatch of an event makes for a subscription.
  pub data IsCallFor (e : Event) (s : Subscription) : Call → Type 0 where
    by_agent : IsCallFor e s (to_agent (addressed e s) s.id)
    by_webhook :
        is_internal s.delivery.webhook_url ≡ false
        → IsCallFor e s (to_webhook (addressed e s) s.delivery.webhook_url)

  -- One of the subscriptions matches the event, does not ignore it, and is what the call is for.
  abbrev pub IsDue : Event → List Subscription → Call → Type 0
  IsDue e [] c = false ≡ true
  IsDue e (s ∷ ss) c =
      ((matches lower int_of_text e s.filters ≡ some true)
        × (should_block e s.delivery ≡ false)
        × IsCallFor e s c)
      ⊎ IsDue e ss c

  deliver_webhook-IsCallFor :
      (f : Event → String → Bool) (e : Event) (s : Subscription)
      → All (IsCallFor e s) (deliver_webhook f e s).0
  unfolding deliver_webhook
  deliver_webhook-IsCallFor f e s = elim (Bool-cases (is_internal s.delivery.webhook_url)) [
    | inl inside ↦ rw inside tt
    | inr outside ↦ rw outside (by_webhook outside, tt)
  ]

  deliver_one-IsCallFor :
      (f : Event → String → Bool) (agent : Option (Event → String → AgentReply)) (e : Event)
      (s : Subscription)
      → All (IsCallFor e s) (deliver_one f agent e s).0
  unfolding deliver_one
  deliver_one-IsCallFor f none e s = deliver_webhook-IsCallFor f e s
  deliver_one-IsCallFor f (some agent) e s = by (agent (addressed e s) s.id) refl
    where
      by :
          (r : AgentReply)
          → agent (addressed e s) s.id ≡ r
          → All (IsCallFor e s) (deliver_one f (some agent) e s).0
      by handled h = rw (h, deliver_one) (by_agent, tt)
      by declined h = rw (h, deliver_one) (by_agent, deliver_webhook-IsCallFor f e s)
      by raised h = rw (h, deliver_one) (by_agent, deliver_webhook-IsCallFor f e s)

  All-imp {κ λ'} :
      {P : Call → Type κ} {Q : Call → Type λ'}
      → ((c : Call) → P c → Q c)
      → (cs : List Call) → All P cs
      → All Q cs
  All-imp f [] h = tt
  All-imp f (c ∷ cs) h = (f c h.0, All-imp f cs h.1)

  pub dispatch_all-IsDue :
      (f : Event → String → Bool) (agent : Option (Event → String → AgentReply)) (e : Event)
      (ss : List Subscription)
      → All (IsDue e ss) (dispatch_all lower int_of_text f agent e ss).0
  unfolding dispatch_all
  dispatch_all-IsDue f agent e [] = tt
  dispatch_all-IsDue f agent e (s ∷ ss) =
      let rest = All-imp (λ c h. inr h) _ (dispatch_all-IsDue f agent e ss) in
      elim (Option-cases (matches lower int_of_text e s.filters)) [
        | inl m ↦ rw (m, dispatch_all) tt
        | inr (false, m) ↦ rw (m, dispatch_all) rest
        | inr (true, m) ↦ elim (Bool-cases (should_block e s.delivery)) [
          | inl b ↦ rw (m, b, dispatch_all) rest
          | inr b ↦
              rw (m, b, dispatch_all)
                (All-append (IsDue e (s ∷ ss)) (deliver_one f agent e s).0 _
                  (All-imp (λ c h. inl (m, b, h)) _ (deliver_one-IsCallFor f agent e s)) rest)
        ]
      ]

  -- Where the subscriptions can be loaded, each call of an agent or a webhook that a dispatch
  -- makes carries the event with the name of a loaded subscription that matches the event and does
  -- not ignore its origin or session, and a webhook's url is that subscription's and not an
  -- internal one.
  pub dispatch-IsDue :
      (int_field : Json → Option (Option ℤ)) (now : ℕ) (nodes : List Node) (cb : Callbacks)
      (e : Event) (d : EventDispatcher) (ss : List Subscription)
      → (load_subscriptions lower int_of_text int_field now nodes d).0 ≡ some ss
      → All (IsDue e ss) (dispatch lower int_of_text int_field now nodes cb e d).0
  unfolding dispatch
  dispatch-IsDue int_field now nodes cb e d ss h = elim (Option-cases cb.on_deliver) [
    | inl n ↦ rw (n, dispatch) tt
    | inr (f, n) ↦ rw (n, h, dispatch) (dispatch_all-IsDue f cb.on_agent_deliver e ss)
  ]
