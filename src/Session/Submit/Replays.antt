-- ===== src/Session/Submit/Replays.antt =====
-- What a catch-up can replay of a session's ring after a batch of `SessionManager.apply_ops` of
-- backend/core/session_manager.py that is refused or fails.
use mathlib.Core.Option
use community_overview.Base.{◌≡◌, ℕ, String, Option, some, List, arith, string_eq}
use community_overview.Json.{Json, text, array, Object, Items, to_list}
use community_overview.Session.Ops
use community_overview.Session.State.{Session}
use community_overview.Session.Apply.Content.{contents, AllNamed}
use community_overview.Session.Batch.{check_ops}
use community_overview.Session.Batch.Content.{NoneRewrites, contents-roll_back}
use community_overview.Session.Store
use community_overview.Session.Store.{Backend, SessionStore}
use community_overview.Session.Store.Lookup.{found}
use community_overview.Session.Manager.{Manager, ManagerError, ok, err}
use community_overview.Session.Submit.{World, check_batch, check_size, check_client, apply_ops}
use community_overview.Session.Submit.Unchanged.{IsUnchanged}
use community_overview.Session.Submit.Atomic.{Restores, apply_ops-Atomic}

module _ {B : Backend} where
  -- The entries of a session's ring by value, for a session that can be looked up.
  unfoldable pub replayed :
      String → String → SessionStore B → Option (List (ℕ × Object × Option Object))
  replayed now sid st = Option.map (λ s. contents s.objects (Store.ring sid st)) (found now sid st)

  -- A batch that passes the first tests is the list that was sent, under the client's id.
  check_batch_ok :
      (w : World) (sid client name : String) (items : Items) (js : List Json) (m : Manager B)
      → check_batch w sid (text client) (array items) m ≡ ok (js, name)
      → (js ≡ to_list items) × (name ≡ client)
  unfolding check_batch check_size check_client
  check_batch_ok w sid client name items js m h = ground (arith, h)

  -- Where `apply_ops` answers a client's well-formed batch, on a session that can be looked up, with
  -- an error, wherever in the batch it comes: if no op of the batch is one that can rewrite an
  -- annotation in place, which are a well-formed `nodes_removed`, `annotation_updated`,
  -- `group_membership_changed` and `annotation_created` with an id, and if the annotations that the
  -- ring names are there, then the entries of the session's ring are as they were, by number, by
  -- fields and by what their annotations hold.
  pub apply_ops-replayed :
      (w : World) (sid client : String) (items : Items) (batch : List Object) (s : Session)
      (m : Manager B) (e : ManagerError)
      → check_ops (to_list items) ≡ Ops.ok batch
      → NoneRewrites client batch
      → found w.load_time sid m.store ≡ some s
      → AllNamed s.objects (Store.ring sid m.store)
      → (apply_ops w sid (text client) (array items) m).0 ≡ err e
      → replayed w.load_time sid (apply_ops w sid (text client) (array items) m).1.store
        ≡ replayed w.load_time sid m.store
  unfolding replayed
  apply_ops-replayed w sid client items batch s m e checked quiet f named refused =
      rw (same.rings sid) (same.sessions sid)
    where
      value : Session → List (ℕ × Object × Option Object)
      value s = contents s.objects (Store.ring sid m.store)

      restored :
          (js : List Json) (name : String)
          → check_batch w sid (text client) (array items) m ≡ ok (js, name)
          → (s' : Session) → found w.load_time sid m.store ≡ some s'
          → Restores value w name js s'
      restored js name h s' f' ops h' cfg ring =
          let there = check_batch_ok w sid client name items js m h in
          let same_session : s' ≡ s = cc (f, f') in
          let same_batch : ops ≡ batch = cc (checked, h', there.0) in
          let named' : AllNamed s'.objects (Store.ring sid m.store) = rw same_session named in
          let quiet' : NoneRewrites name ops = rw (same_batch, there.1) quiet in
          contents-roll_back cfg w.envs name ops (record { session = s'; ring = ring })
            (Store.ring sid m.store) quiet' named'

      same : IsUnchanged value w.load_time m (apply_ops w sid (text client) (array items) m).1
      same = apply_ops-Atomic value w sid (text client) (array items) m restored e refused
