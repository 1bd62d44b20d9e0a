-- ===== src/Session/Bus/Delivery.antt =====
-- A subscriber either has every event in order, or is told to resynchronise.
use community_overview.Base.{
  ◌≡◌, refl, ap, ◌⊎◌, inl, inr, Bool, true, false, Bool-cases, Option, none, some, List, [], ◌∷◌,
  ◌++◌, arith, if◌then◌else◌,
}
use mathlib.Core.List.{append_assoc, append-nil}
use community_overview.Session.Bus.{
  Message, event, resync, Subscription, deliver, drain, take_next, is_full,
}

-- What a subscription and its consumer go through.
pub data Action (E : Type 0) : Type 0 where
  delivers : E → Action E
  takes : Action E

-- The subscription, and the messages that the consumer has taken so far.
pub record Consumer (E : Type 0) : Type 0 where
  pub sub : Subscription E
  pub taken : List (Message E)

module _ {E : Type 0} where
  abbrev one_or_none : Option (Message E) → List (Message E)
  one_or_none none = []
  one_or_none (some m) = m ∷ []

  unfoldable pub act : Consumer E → Action E → Consumer E
  act c (delivers e) = record c { sub = deliver e c.sub }
  act c takes =
      let (m, sub') = take_next c.sub.queue c.sub in
      record { sub = sub'; taken = c.taken ++ one_or_none m }

  unfoldable pub run : Consumer E → List (Action E) → Consumer E
  run c [] = c
  run c (a ∷ as') = run (act c a) as'

  -- The events that the actions deliver, in order.
  unfoldable pub offered : List (Action E) → List E
  offered [] = []
  offered (delivers e ∷ as') = e ∷ offered as'
  offered (takes ∷ as') = offered as'

  -- What has passed through the queue, what still stands in it included.
  abbrev pub stream : Consumer E → List (Message E)
  stream c = c.taken ++ c.sub.queue

  -- The events after the last `resync` of a stream; `acc` are those before the first.
  unfoldable pub since_resync : List E → List (Message E) → List E
  since_resync acc [] = acc
  since_resync acc (event e ∷ ms) = since_resync (acc ++ (e ∷ [])) ms
  since_resync acc (resync ∷ ms) = since_resync [] ms

  unfoldable pub has_resync : List (Message E) → Bool
  has_resync [] = false
  has_resync (event e ∷ ms) = has_resync ms
  has_resync (resync ∷ ms) = true

  -- The stream ends in the last of the events, with none left out since the last `resync`, and
  -- with none left out at all if there is no `resync` in it.
  pub record IsFaithful (events : List E) (c : Consumer E) : Type 0 where
    pub missed : List E
    pub complete : events ≡ missed ++ since_resync [] (stream c)
    pub nothing_missed : has_resync (stream c) ≡ false → missed ≡ []

  since_resync-event :
      (acc : List E) (ms : List (Message E)) (e : E)
      → since_resync acc (ms ++ (event e ∷ [])) ≡ since_resync acc ms ++ (e ∷ [])
  unfolding since_resync
  since_resync-event acc [] e = refl
  since_resync-event acc (event x ∷ ms) e = since_resync-event (acc ++ (x ∷ [])) ms e
  since_resync-event acc (resync ∷ ms) e = since_resync-event [] ms e

  since_resync-resync :
      (acc : List E) (ms : List (Message E)) → since_resync acc (ms ++ (resync ∷ [])) ≡ []
  unfolding since_resync
  since_resync-resync acc [] = refl
  since_resync-resync acc (event x ∷ ms) = since_resync-resync (acc ++ (x ∷ [])) ms
  since_resync-resync acc (resync ∷ ms) = since_resync-resync [] ms

  has_resync-event :
      (ms : List (Message E)) (e : E) → has_resync (ms ++ (event e ∷ [])) ≡ has_resync ms
  unfolding has_resync
  has_resync-event [] e = refl
  has_resync-event (event x ∷ ms) e = has_resync-event ms e
  has_resync-event (resync ∷ ms) e = refl

  has_resync-resync : (ms : List (Message E)) → has_resync (ms ++ (resync ∷ [])) ≡ true
  unfolding has_resync
  has_resync-resync [] = refl
  has_resync-resync (event x ∷ ms) = has_resync-resync ms
  has_resync-resync (resync ∷ ms) = refl

  -- A full queue is emptied for the sentinel, any other takes the event at its end.
  pub deliver_lem :
      (e : E) (s : Subscription E)
      → deliver e s ≡ (
          if is_full s.maxsize s.queue
          then record s { queue = resync ∷ []; needs_resync = true }
          else record s { queue = s.queue ++ (event e ∷ []) })
  unfolding deliver drain
  deliver_lem e s = ground arith

  -- A take moves a message from the queue to what the consumer has.
  stream-takes :
      (taken : List (Message E)) (queue : List (Message E)) (s : Subscription E)
      → s.queue ≡ queue
      → (taken ++ one_or_none (take_next queue s).0) ++ (take_next queue s).1.queue ≡ taken ++ queue
  unfolding take_next
  stream-takes taken [] s h = rw (append-nil, h, append-nil)
  stream-takes taken (m ∷ rest) s h = rw append_assoc

  stream-delivers :
      (c : Consumer E) (e : E)
      → (stream (act c (delivers e)) ≡ stream c ++ (event e ∷ []))
        ⊎ (stream (act c (delivers e)) ≡ c.taken ++ (resync ∷ []))
  unfolding act
  stream-delivers c e = elim (Bool-cases (is_full c.sub.maxsize c.sub.queue)) [
    | inl full ↦ inr (rw (deliver_lem, full))
    | inr room ↦ inl (rw (deliver_lem, room, append_assoc))
  ]

  act-delivers-IsFaithful :
      (events : List E) (c : Consumer E) (e : E)
      → IsFaithful events c
      → IsFaithful (events ++ (e ∷ [])) (act c (delivers e))
  act-delivers-IsFaithful events c e f = elim (stream-delivers c e) [
    | inl kept ↦ record {
      missed = f.missed;
      complete =
          rw (kept, since_resync-event, ← append_assoc) (ap (λ es. es ++ (e ∷ [])) f.complete);
      nothing_missed = λ h. f.nothing_missed (cc (h, kept, has_resync-event (stream c) e));
    }
    | inr cut ↦ record {
      missed = events ++ (e ∷ []);
      complete = rw (cut, since_resync-resync, append-nil);
      nothing_missed = λ h. cc (h, cut, has_resync-resync c.taken);
    }
  ]

  act-takes-IsFaithful :
      (events : List E) (c : Consumer E) → IsFaithful events c → IsFaithful events (act c takes)
  unfolding act
  act-takes-IsFaithful events c f =
      let same = stream-takes c.taken c.sub.queue c.sub refl in
      record {
        missed = f.missed;
        complete = rw same f.complete;
        nothing_missed = λ h. f.nothing_missed (rw same at h);
      }

  run-IsFaithful :
      (events : List E) (c : Consumer E) (as' : List (Action E))
      → IsFaithful events c
      → IsFaithful (events ++ offered as') (run c as')
  unfolding run offered
  run-IsFaithful events c [] f = rw append-nil f
  run-IsFaithful events c (delivers e ∷ as') f = rw append_assoc at (
      run-IsFaithful (events ++ (e ∷ [])) (act c (delivers e)) as'
        (act-delivers-IsFaithful events c e f))
  run-IsFaithful events c (takes ∷ as') f =
      run-IsFaithful events (act c takes) as' (act-takes-IsFaithful events c f)

  -- From an empty queue, whatever is delivered and taken: what has been taken and what is queued
  -- ends, since the last `resync` in it, in the last events that were delivered, in order and with
  -- none left out, and without a `resync` it is all of them.
  pub run-new-IsFaithful :
      (s : Subscription E) (as' : List (Action E))
      → s.queue ≡ []
      → IsFaithful (offered as') (run (record { sub = s; taken = [] }) as')
  run-new-IsFaithful s as' h = run-IsFaithful [] _ as' (record {
    missed = [];
    complete = rw h (unfold since_resync in refl);
    nothing_missed = λ _. refl;
  })
