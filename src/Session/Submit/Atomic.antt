-- ===== src/Session/Submit/Atomic.antt =====
-- A batch that is refused or fails: what `SessionManager.apply_ops` of
-- backend/core/session_manager.py leaves as it was.
use community_overview.Base.{
  ◌≡◌, refl, ◌∙◌, String, Bool, true, false, Option, none, some, List, string_eq, sym, max, length,
  ◌*◌, if◌then◌else◌,
}
use community_overview.Json.{Json, Object}
use community_overview.Session.Ops
use community_overview.Session.Bucket
use community_overview.Session.Bucket.{TokenBucket}
use community_overview.Session.State.{Session, Applied}
use community_overview.Session.Perform.{Config}
use community_overview.Session.Apply.{Live}
use community_overview.Session.Store
use community_overview.Session.Store.{Backend, to_dict}
use community_overview.Session.Store.Lookup.{found, get-found, found-get}
use community_overview.Session.Batch.{
  Run, finished, aborted, run_ops, roll_back, start, check_ops, Progress,
}
use community_overview.Session.Batch.Rollback.{live_of, roll_back-run_ops}
use community_overview.Session.Manager.{
  Manager, ManagerError, Reply, ok, err, persist_failed, op_error, session_not_found, rate_limited,
}
use community_overview.Session.Submit.{
  World, Accepted, check_batch, keep_live, accept, save_and_accept, protected, with_session, locate,
  charge, apply_ops,
}
use community_overview.Session.Submit.Unchanged.{
  IsUnchanged, refl-IsUnchanged, trans-IsUnchanged, get-IsUnchanged, keep_live-IsUnchanged,
  paid-IsUnchanged,
}

module _ {V : Type 0} (value : Session → V) where
  -- The rollback of these ops gives the session the value that it had.
  abbrev pub Restores : World → String → List Json → Session → Type 0
  Restores w client js s =
      (ops : List Object)
      → check_ops js ≡ Ops.ok ops
      → (cfg : Config) (ring : List Applied)
      → let saved : Live = record { session = s; ring = ring } in
        let now = live_of (run_ops cfg w.envs 0 client ops (start saved)) in
        value (roll_back saved now).session ≡ value s

module _ {B : Backend} {V : Type 0} (value : Session → V) where
  -- What holds of a reply that is an error.
  Atomic : String → Manager B → Reply Accepted × Manager B → Type 0
  Atomic now m r = (e : ManagerError) → r.0 ≡ err e → IsUnchanged value now m r.1

  accept-Atomic :
      (now : String) (w : World) (sid client : String) (p : Progress) (m m' : Manager B)
      → Atomic now m (accept w sid client p m')
  unfolding Atomic accept
  accept-Atomic now w sid client p m m' e f = absurd (cc f)

  save_and_accept-Atomic :
      (w : World) (sid client : String) (s : Session) (saved : Live) (p : Progress) (m : Manager B)
      → found w.load_time sid m.store ≡ some s
      → value (roll_back saved p.live).session ≡ value s
      → (roll_back saved p.live).ring ≡ Store.ring sid m.store
      → Atomic w.load_time m (save_and_accept w sid client saved p m)
  unfolding save_and_accept Atomic
  save_and_accept-Atomic w sid client s saved p m f same ring =
      by p.state_changed (Store.persist p.live.session (keep_live sid p.live m).store).0 _ _
    where
      by :
          (changed done : Bool) (m' m'' : Manager B)
          → Atomic w.load_time m (
              if changed
              then (if done
                  then accept w sid client p m'
                  else (err persist_failed, keep_live sid (roll_back saved p.live) m))
              else accept w sid client p m'')
      by true true m' m'' e g = accept-Atomic w.load_time w sid client p m m' e g
      by true false m' m'' e g =
          keep_live-IsUnchanged value w.load_time sid s (roll_back saved p.live) m f same ring
      by false done m' m'' e g = accept-Atomic w.load_time w sid client p m m'' e g

  protected-Atomic :
      (w : World) (sid client : String) (ops : List Object) (s : Session) (m : Manager B)
      → found w.load_time sid m.store ≡ some s
      → (let saved : Live = record { session = s; ring = Store.ring sid m.store } in
          let now = live_of (run_ops m.store.config w.envs 0 client ops (start saved)) in
          value (roll_back saved now).session ≡ value s)
      → Atomic w.load_time m
          (protected w sid client ops (record { session = s; ring = Store.ring sid m.store }) m)
  unfolding protected Atomic
  protected-Atomic w sid client ops s m f restored =
      by (run_ops m.store.config w.envs 0 client ops (start saved))
        (restored, (roll_back-run_ops m.store.config w.envs client ops saved).1)
    where
      saved : Live
      saved = record { session = s; ring = Store.ring sid m.store }

      by :
          (r : Run)
          → (value (roll_back saved (live_of r)).session ≡ value s)
            × ((roll_back saved (live_of r)).ring ≡ Store.ring sid m.store)
          → Atomic w.load_time m (elim r [
            | finished p ↦ save_and_accept w sid client saved p m
            | aborted e now ↦ (err (op_error e), keep_live sid (roll_back saved now) m)
          ])
      by (finished p) (same, ring) e' g =
          save_and_accept-Atomic w sid client s saved p m f same ring e' g
      by (aborted e now) (same, ring) e' g =
          keep_live-IsUnchanged value w.load_time sid s (roll_back saved now) m f same ring

  with_session-Atomic :
      (w : World) (sid client : String) (js : List Json) (s : Session) (m : Manager B)
      → found w.load_time sid m.store ≡ some s
      → Restores value w client js s
      → Atomic w.load_time m (with_session w sid client js s m)
  unfolding with_session Atomic
  with_session-Atomic w sid client js s m f k = by (check_ops js) refl
    where
      by :
          (r : Ops.Result (List Object))
          → check_ops js ≡ r
          → Atomic w.load_time m (elim r [
            | Ops.err e ↦ (err (op_error e), m)
            | Ops.ok ops ↦
                protected w sid client ops (record { session = s; ring = Store.ring sid m.store }) m
          ])
      by (Ops.err e) h e' g = refl-IsUnchanged value w.load_time m
      by (Ops.ok ops) h e' g =
          protected-Atomic w sid client ops s m f (k ops h m.store.config _) e' g

  locate-Atomic :
      (w : World) (sid client : String) (js : List Json) (m : Manager B)
      → ((s : Session) → found w.load_time sid m.store ≡ some s → Restores value w client js s)
      → Atomic w.load_time m (locate w sid client js m)
  unfolding locate Atomic
  locate-Atomic w sid client js m k =
      by (Store.get w.load_time sid m.store).0 (get-found w.load_time sid m.store)
    where
      m' : Manager B
      m' = record m { store = (Store.get w.load_time sid m.store).1 }

      by :
          (o : Option Session)
          → o ≡ found w.load_time sid m.store
          → Atomic w.load_time m (elim o [
            | none ↦ (err session_not_found, m')
            | some s ↦ with_session w sid client js s m'
          ])
      by none f e g = get-IsUnchanged value w.load_time sid m
      by (some s) f e g =
          trans-IsUnchanged value w.load_time m m' _ (get-IsUnchanged value w.load_time sid m) (
            with_session-Atomic w sid client js s m' (found-get w.load_time sid sid m.store ∙ sym f)
              (k s (sym f)) e g)

  charge-Atomic :
      (w : World) (sid client : String) (js : List Json) (m : Manager B)
      → ((s : Session) → found w.load_time sid m.store ≡ some s → Restores value w client js s)
      → Atomic w.load_time m (charge w sid client js m)
  unfolding charge Atomic
  charge-Atomic w sid client js m k =
      by (Bucket.consume w.clock client (max 1 (length js) * m.token_shares) m.bucket).0 _
    where
      by :
          (granted : Bool) (b : TokenBucket)
          → let m' = record m { bucket = b } in
            Atomic w.load_time m
              (if granted then locate w sid client js m' else (err rate_limited, m'))
      by true b e g =
          trans-IsUnchanged value w.load_time m (record m { bucket = b }) _
            (paid-IsUnchanged value w.load_time m b)
            (locate-Atomic w sid client js (record m { bucket = b }) k e g)
      by false b e g = paid-IsUnchanged value w.load_time m b

  -- `apply_ops` with an error, for any value of sessions that the rollback gives back.
  pub apply_ops-Atomic :
      (w : World) (sid : String) (client ops : Json) (m : Manager B)
      → ((js : List Json) (name : String)
          → check_batch w sid client ops m ≡ ok (js, name)
          → (s : Session) → found w.load_time sid m.store ≡ some s
          → Restores value w name js s)
      → (e : ManagerError) → (apply_ops w sid client ops m).0 ≡ err e
      → IsUnchanged value w.load_time m (apply_ops w sid client ops m).1
  unfolding apply_ops Atomic
  apply_ops-Atomic w sid client ops m k = by (check_batch w sid client ops m) refl
    where
      by :
          (r : Reply (List Json × String))
          → check_batch w sid client ops m ≡ r
          → Atomic w.load_time m
              (elim r [ err e ↦ (err e, m) | ok (js, name) ↦ charge w sid name js m ])
      by (err e) h e' g = refl-IsUnchanged value w.load_time m
      by (ok (js, name)) h e' g = charge-Atomic w sid name js m (k js name h) e' g

module _ {B : Backend} where
  -- Where `apply_ops` answers with an error, whichever it is and wherever in the batch it comes:
  -- the bus, the rosters, the claims and what is on disk are as they were; each session that can be
  -- looked up has the value that it had, which is the dict that would be saved; and each ring has
  -- the entries that it had, with their numbers and fields, where an entry's annotation is named and
  -- not compared by content: an op of the batch may have rewritten it.
  pub apply_ops-atomic :
      (w : World) (sid : String) (client ops : Json) (m : Manager B) (e : ManagerError)
      → (apply_ops w sid client ops m).0 ≡ err e
      → IsUnchanged to_dict w.load_time m (apply_ops w sid client ops m).1
  apply_ops-atomic w sid client ops m =
      apply_ops-Atomic to_dict w sid client ops m
        (λ js name h s f batch checked cfg ring. (roll_back-run_ops cfg w.envs name batch _).0)
