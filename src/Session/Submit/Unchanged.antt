-- ===== src/Session/Submit/Unchanged.antt =====
-- What a batch that is refused or fails leaves of a manager of backend/core/session_manager.py, and
-- the steps of such a batch.
use mathlib.Core.Option
use community_overview.Base.{
  ◌≡◌, refl, ap, ◌∙◌, String, true, some, List, [], arith, ◌==◌, string_eq, Bool-cases, inl, inr,
}
use community_overview.Base.Dict
use community_overview.Base.Dict.{Dict, get-put, get-put_self}
use community_overview.Base.Dict.Nested.{inner, inner-put}
use community_overview.Session.Bucket.{TokenBucket}
use community_overview.Session.State.{Session, Applied}
use community_overview.Session.Apply.{Live}
use community_overview.Session.Ids.{is_valid_session_id}
use community_overview.Session.Store
use community_overview.Session.Store.{Backend, SessionStore, load_session, default_ring}
use community_overview.Session.Store.Lookup.{found, found-get}
use community_overview.Session.Manager.{Manager}
use community_overview.Session.Submit.{keep_live}

ring-default_ring :
    (sid' sid : String) (rings : Dict String (List Applied))
    → inner sid' (default_ring sid rings) ≡ inner sid' rings
unfolding default_ring inner
ring-default_ring sid' sid rings = ground (arith, get-put sid' sid [] rings)

module _ {B : Backend} {V : Type 0} (value : Session → V) where
  -- What is published, who is connected and who holds what, what is on disk, the `value` of every
  -- session, and every ring's entries are as they were; `now` is the time that a
  -- reader's clock shows. An entry is its number, its fields and the name of its annotation: what
  -- the object of that name holds is no part of it, nor are a session's tombstones.
  pub record IsUnchanged (now : String) (m m' : Manager B) : Type 0 where
    pub bus : m'.bus ≡ m.bus
    pub presence : m'.presence ≡ m.presence
    pub claims : m'.claims ≡ m.claims
    pub disk : m'.store.disk ≡ m.store.disk
    pub sessions :
        (sid : String)
        → Option.map value (found now sid m'.store) ≡ Option.map value (found now sid m.store)
    pub rings : (sid : String) → Store.ring sid m'.store ≡ Store.ring sid m.store

  pub refl-IsUnchanged : (now : String) (m : Manager B) → IsUnchanged now m m
  refl-IsUnchanged now m = record {
    bus = refl;
    presence = refl;
    claims = refl;
    disk = refl;
    sessions = λ sid. refl;
    rings = λ sid. refl;
  }

  pub trans-IsUnchanged :
      (now : String) (m₁ m₂ m₃ : Manager B)
      → IsUnchanged now m₁ m₂
      → IsUnchanged now m₂ m₃
      → IsUnchanged now m₁ m₃
  trans-IsUnchanged now m₁ m₂ m₃ u v = record {
    bus = v.bus ∙ u.bus;
    presence = v.presence ∙ u.presence;
    claims = v.claims ∙ u.claims;
    disk = v.disk ∙ u.disk;
    sessions = λ sid. v.sessions sid ∙ u.sessions sid;
    rings = λ sid. v.rings sid ∙ u.rings sid;
  }

  disk-get : (now sid : String) (st : SessionStore B) → (Store.get now sid st).1.disk ≡ st.disk
  unfolding Store.get load_session
  disk-get now sid st = ground arith

  ring-get :
      (now sid sid' : String) (st : SessionStore B)
      → Store.ring sid' (Store.get now sid st).1 ≡ Store.ring sid' st
  unfolding Store.get load_session Store.ring
  ring-get now sid sid' st = ground (arith, ring-default_ring sid' sid st.rings)

  pub get-IsUnchanged :
      (now sid : String) (m : Manager B)
      → IsUnchanged now m (record m { store = (Store.get now sid m.store).1 })
  get-IsUnchanged now sid m = record {
    bus = refl;
    presence = refl;
    claims = refl;
    disk = disk-get now sid m.store;
    sessions = λ sid'. ap (Option.map value) (found-get now sid sid' m.store);
    rings = λ sid'. ring-get now sid sid' m.store;
  }

  found_valid :
      (now sid : String) (s : Session) (st : SessionStore B)
      → found now sid st ≡ some s
      → is_valid_session_id st.is_digit sid ≡ true
  unfolding found
  found_valid now sid s st f = ground (arith, f)

  found-put_self :
      (now sid : String) (t : Session) (st : SessionStore B) (rings : Dict String (List Applied))
      → is_valid_session_id st.is_digit sid ≡ true
      → found now sid (record st { sessions = Dict.put sid t st.sessions; rings = rings }) ≡ some t
  unfolding found
  found-put_self now sid t st rings valid = rw (valid, get-put_self sid t st.sessions) refl

  -- Among the loaded sessions one stands in the place of another that has the same value.
  found-put :
      (now sid sid' : String) (s t : Session) (st : SessionStore B)
      (rings : Dict String (List Applied))
      → found now sid st ≡ some s
      → value t ≡ value s
      → let st' = record st { sessions = Dict.put sid t st.sessions; rings = rings } in
        Option.map value (found now sid' st') ≡ Option.map value (found now sid' st)
  found-put now sid sid' s t st rings f same = elim (Bool-cases (sid' == sid)) [
    | inl e ↦
        let p : sid' ≡ sid = ground (arith, e) in
        rw (p, found-put_self now sid t st rings (found_valid now sid s st f), f) (ap some same)
    | inr e ↦ unfold found in ground (arith, get-put sid' sid t st.sessions)
  ]

  -- A session with the value and the ring that it has.
  pub keep_live-IsUnchanged :
      (now sid : String) (s : Session) (live : Live) (m : Manager B)
      → found now sid m.store ≡ some s
      → value live.session ≡ value s
      → live.ring ≡ Store.ring sid m.store
      → IsUnchanged now m (keep_live sid live m)
  unfolding keep_live found Store.ring
  keep_live-IsUnchanged now sid s live m f same ring = record {
    bus = refl;
    presence = refl;
    claims = refl;
    disk = refl;
    sessions = λ sid'.
        found-put now sid sid' s live.session m.store (Dict.put sid live.ring m.store.rings) f same;
    rings = λ sid'. ground (arith, inner-put sid' sid live.ring m.store.rings, ring);
  }

  -- Only the bucket has paid.
  pub paid-IsUnchanged :
      (now : String) (m : Manager B) (b : TokenBucket) → IsUnchanged now m (record m { bucket = b })
  paid-IsUnchanged now m b = record {
    bus = refl;
    presence = refl;
    claims = refl;
    disk = refl;
    sessions = λ sid. refl;
    rings = λ sid. refl;
  }
