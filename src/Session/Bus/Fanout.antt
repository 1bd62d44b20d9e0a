-- ===== src/Session/Bus/Fanout.antt =====
-- A published event reaches each subscriber of its session once, and nobody else.
use community_overview.Base.{
  ℕ, ◌≤◌, String, ◌≡◌, refl, false, not, Option, List, [], ◌∷◌, ◌++◌, arith, keep, ◌==◌, string_eq,
  nat_eq, contains, contains-append, Option-cases, inl, inr, ap, if◌then◌else◌,
}
use mathlib.Core.Option
use community_overview.Base.Dict
use community_overview.Base.Dict.{Dict, get-put}
use community_overview.Base.Dict.Nested.{inner, inner-put, inner-store_or_pop}
use community_overview.Base.Distinct.{Distinct, contains-keep, keep-Distinct, append_new-Distinct}
use community_overview.Session.Bus.{
  Bus, Subscription, LoopState, same, closed, other, shutting_down, deliver, init, subscribers_of,
  subscribe, unsubscribe, deliver_to, send, send_all, publish, run_scheduled, flush,
}

module _ {E : Type 0} where
  unfoldable pub object : ℕ → Bus E → Option (Subscription E)
  object id b = Dict.get id b.objects

  object-deliver_to :
      (j id : ℕ) (e : E) (b : Bus E)
      → object j (deliver_to id e b)
        ≡ (if j == id then Option.map (deliver e) (object j b) else object j b)
  unfolding object deliver_to
  object-deliver_to j id e b = elim (Option-cases (Dict.get id b.objects)) [
    | inl e₀ ↦ rw (e₀, deliver_to) (ground (arith, e₀))
    | inr (sub, e₁) ↦
        rw (e₁, deliver_to) (ground (arith, e₁, get-put j id (deliver e sub) b.objects))
  ]

  -- No id stands twice in a session's dict, and ids not yet given out stand in none.
  pub record IsWellFormed (b : Bus E) : Type 0 where
    pub distinct : (sid : String) → Distinct (subscribers_of sid b)
    pub fresh :
        (sid : String) (id : ℕ) → b.next_id ≤ id → contains (subscribers_of sid b) id ≡ false

  -- Each round handles the subscriber as its loop demands.
  abbrev pub received : LoopState → E → Option (Subscription E) → Option (Subscription E)
  received same e o = Option.map (deliver e) o
  received closed e o = o
  received other e o = o
  received shutting_down e o = o

  object-send :
      (s : LoopState) (sid : String) (e : E) (j id : ℕ) (b : Bus E)
      → object j (send s sid e id b) ≡ (if j == id then received s e (object j b) else object j b)
  unfolding send
  object-send same sid e j id b = object-deliver_to j id e b
  object-send closed sid e j id b = unfold object unsubscribe in ground arith
  object-send other sid e j id b = unfold object in ground arith
  object-send shutting_down sid e j id b = unfold object unsubscribe in ground arith

  object-send_all :
      (loops : ℕ → LoopState) (sid : String) (e : E) (j : ℕ) (ids : List ℕ) (b : Bus E)
      → Distinct ids
      → object j (send_all loops sid e ids b)
        ≡ (if contains ids j then received (loops j) e (object j b) else object j b)
  unfolding send_all
  object-send_all loops sid e j [] b d = refl
  object-send_all loops sid e j (id ∷ ids) b d = ground (
    arith,
    object-send_all loops sid e j ids (send (loops id) sid e id b) d.1,
    object-send (loops id) sid e j id b,
    ap (λ i. contains ids i) {x = j} {y = id},
  )

  -- On a well-formed bus, each subscriber of the session gets the event once, by `deliver`, if its
  -- loop runs the publish; the queue of any other subscription stays.
  pub object-publish :
      (loops : ℕ → LoopState) (sid : String) (e : E) (j : ℕ) (b : Bus E)
      → IsWellFormed b
      → object j (publish loops sid e b) ≡ (
          if contains (subscribers_of sid b) j
          then received (loops j) e (object j b)
          else object j b)
  unfolding publish
  object-publish loops sid e j b w = object-send_all loops sid e j _ b (w.distinct sid)

  subscribers_of-unsubscribe :
      (sid' sid : String) (id : ℕ) (b : Bus E)
      → subscribers_of sid' (unsubscribe sid id b) ≡ (
          if sid' == sid
          then keep (λ j. not (j == id)) (subscribers_of sid b)
          else subscribers_of sid' b)
  unfolding subscribers_of unsubscribe
  subscribers_of-unsubscribe sid' sid id b = inner-store_or_pop sid' sid _ b.subscribers

  unsubscribe-IsWellFormed :
      (sid : String) (id : ℕ) (b : Bus E) → IsWellFormed b → IsWellFormed (unsubscribe sid id b)
  unsubscribe-IsWellFormed sid id b w = record {
    distinct = λ s.
        rw subscribers_of-unsubscribe
          (ground (arith, w.distinct s, keep-Distinct (λ j. not (j == id)) _ (w.distinct sid)));
    fresh = λ s i h. rw subscribers_of-unsubscribe (
        ground (
          arith,
          w.fresh s i (unfold unsubscribe in h),
          w.fresh sid i (unfold unsubscribe in h),
          contains-keep (λ j. not (j == id)) i (subscribers_of sid b),
        ));
  }

  subscribers_of-subscribe :
      (sid' sid : String) (b : Bus E)
      → subscribers_of sid' (subscribe sid b).1
        ≡ (if sid' == sid then subscribers_of sid b ++ (b.next_id ∷ []) else subscribers_of sid' b)
  unfolding subscribers_of subscribe
  subscribers_of-subscribe sid' sid b =
      inner-put sid' sid (inner sid b.subscribers ++ (b.next_id ∷ [])) b.subscribers

  subscribe-IsWellFormed :
      (sid : String) (b : Bus E) → IsWellFormed b → IsWellFormed (subscribe sid b).1
  unfolding subscribe
  subscribe-IsWellFormed sid b w = record {
    distinct = λ s. rw subscribers_of-subscribe (
        ground (
          arith,
          w.distinct s,
          append_new-Distinct (subscribers_of sid b) b.next_id (w.distinct sid)
              (w.fresh sid b.next_id (omega arith)),
        ));
    fresh = λ s i h. rw subscribers_of-subscribe (
        ground (
          arith,
          w.fresh s i (omega arith),
          w.fresh sid i (omega arith),
          contains-append i (subscribers_of sid b) (b.next_id ∷ []),
        ));
  }

  same-IsWellFormed :
      (b b' : Bus E)
      → b'.subscribers ≡ b.subscribers
      → b'.next_id ≡ b.next_id
      → IsWellFormed b
      → IsWellFormed b'
  unfolding subscribers_of
  same-IsWellFormed b b' p q w = record {
    distinct = λ s. rw p (w.distinct s);
    fresh = λ s i h. rw p (w.fresh s i (omega arith));
  }

  deliver_to-IsWellFormed :
      (id : ℕ) (e : E) (b : Bus E) → IsWellFormed b → IsWellFormed (deliver_to id e b)
  unfolding deliver_to
  deliver_to-IsWellFormed id e b w =
      same-IsWellFormed b (deliver_to id e b) (ground arith) (ground arith) w

  send-IsWellFormed :
      (s : LoopState) (sid : String) (e : E) (id : ℕ) (b : Bus E)
      → IsWellFormed b
      → IsWellFormed (send s sid e id b)
  unfolding send
  send-IsWellFormed same sid e id b w = deliver_to-IsWellFormed id e b w
  send-IsWellFormed closed sid e id b w = unsubscribe-IsWellFormed sid id b w
  send-IsWellFormed other sid e id b w = same-IsWellFormed b (send other sid e id b) refl refl w
  send-IsWellFormed shutting_down sid e id b w = unsubscribe-IsWellFormed sid id b w

  send_all-IsWellFormed :
      (loops : ℕ → LoopState) (sid : String) (e : E) (ids : List ℕ) (b : Bus E)
      → IsWellFormed b
      → IsWellFormed (send_all loops sid e ids b)
  unfolding send_all
  send_all-IsWellFormed loops sid e [] b w = w
  send_all-IsWellFormed loops sid e (id ∷ ids) b w =
      send_all-IsWellFormed loops sid e ids _ (send-IsWellFormed (loops id) sid e id b w)

  run_scheduled-IsWellFormed :
      (rest : List (ℕ × E)) (b : Bus E) → IsWellFormed b → IsWellFormed (run_scheduled rest b)
  unfolding run_scheduled
  run_scheduled-IsWellFormed [] b w = w
  run_scheduled-IsWellFormed ((id, e) ∷ rest) b w =
      run_scheduled-IsWellFormed rest _ (deliver_to-IsWellFormed id e b w)

-- The calls on a bus.
pub data Call (E : Type 0) : Type 0 where
  subscribes : String → Call E
  unsubscribes : String → ℕ → Call E
  publishes : (ℕ → LoopState) → String → E → Call E
  flushes : Call E

module _ {E : Type 0} where
  unfoldable pub step : Bus E → Call E → Bus E
  step b (subscribes sid) = (subscribe sid b).1
  step b (unsubscribes sid id) = unsubscribe sid id b
  step b (publishes loops sid e) = publish loops sid e b
  step b flushes = flush b

  unfoldable pub run : Bus E → List (Call E) → Bus E
  run b [] = b
  run b (c ∷ cs) = run (step b c) cs

  step-IsWellFormed : (b : Bus E) (c : Call E) → IsWellFormed b → IsWellFormed (step b c)
  unfolding step publish flush
  step-IsWellFormed b (subscribes sid) w = subscribe-IsWellFormed sid b w
  step-IsWellFormed b (unsubscribes sid id) w = unsubscribe-IsWellFormed sid id b w
  step-IsWellFormed b (publishes loops sid e) w = send_all-IsWellFormed loops sid e _ b w
  step-IsWellFormed b flushes w =
      run_scheduled-IsWellFormed b.scheduled _
        (same-IsWellFormed b (record b { scheduled = [] }) refl refl w)

  run-IsWellFormed : (b : Bus E) (cs : List (Call E)) → IsWellFormed b → IsWellFormed (run b cs)
  unfolding run
  run-IsWellFormed b [] w = w
  run-IsWellFormed b (c ∷ cs) w = run-IsWellFormed (step b c) cs (step-IsWellFormed b c w)

  -- After any calls on a new bus, no id stands twice among a session's subscribers, and no id that
  -- is still to be given out stands there.
  pub run-init-IsWellFormed :
      (queue_max : ℕ) (cs : List (Call E)) → IsWellFormed (run (init queue_max) cs)
  run-init-IsWellFormed queue_max cs = run-IsWellFormed (init queue_max) cs (
      unfold init subscribers_of inner Dict.get in
      record { distinct = λ s. tt; fresh = λ s i h. refl })
