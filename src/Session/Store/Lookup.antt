-- ===== src/Session/Store/Lookup.antt =====
-- What `get` finds, and what the other methods change of it.
use community_overview.Base.{
  ◌≡◌, ap, ◌≢◌, String, true, not, Option, none, some, [], arith, ◌==◌, string_eq, Option-cases,
  inl, inr, if◌then◌else◌,
}
use mathlib.Core.Option
use community_overview.Base.Dict
use community_overview.Base.Dict.{Dict, get-put, get-remove}
use community_overview.Session.State.{Session}
use community_overview.Session.Ids.{is_valid_session_id}
use community_overview.Session.Store.{
  Backend, IsLawful, SessionStore, to_dict, from_dict, load_session, get, persist, delete,
}
use community_overview.Session.Store.Values.{to_dict-from_dict}

module _ {B : Backend} where
  -- A store that starts over what the backend holds.
  unfoldable pub restart : SessionStore B → SessionStore B
  restart st = record st { sessions = []; rings = []; meta_cache = none }

  -- The session that a reader finds.
  unfoldable pub found : String → String → SessionStore B → Option Session
  found now sid st =
      if not (is_valid_session_id st.is_digit sid) then none else elim (Dict.get sid st.sessions) [
        | some s ↦ some s
        | none ↦ elim (B.load st.disk sid) [ none ↦ none | some raw ↦ some (from_dict now raw) ]
      ]

  pub get-found : (now sid : String) (st : SessionStore B) → (get now sid st).0 ≡ found now sid st
  unfolding get found load_session
  get-found now sid st = ground arith

  -- To read a session changes nothing that a reader finds.
  pub found-get :
      (now sid sid' : String) (st : SessionStore B)
      → found now sid' (get now sid st).1 ≡ found now sid' st
  unfolding get found load_session
  found-get now sid sid' st = elim (Option-cases (Dict.get sid st.sessions)) [
    | inl e ↦ elim (Option-cases (B.load st.disk sid)) [
      | inl n ↦ ground (arith, e, n)
      | inr (raw, n) ↦ ground (arith, e, n, get-put sid' sid (from_dict now raw) st.sessions)
    ]
    | inr (s, e) ↦ ground (arith, e)
  ]

  -- Behind a lawful backend, a session with a valid id and with both times set, once it has been
  -- saved, is found with its value after a restart.
  pub persist-restart :
      IsLawful B
      → (now : String) (s : Session) (st : SessionStore B)
      → is_valid_session_id st.is_digit s.id ≡ true
      → s.created_at ≢ ""
      → s.updated_at ≢ ""
      → (persist s st).0 ≡ true
      → Option.map to_dict (found now s.id (restart (persist s st).1)) ≡ some (to_dict s)
  persist-restart L now s st valid hc hu e = elim (Option-cases (B.save st.disk (to_dict s))) [
    | inl n ↦ absurd (unfold persist in cc (rw (n, persist) at e))
    | inr (disk, n) ↦
        let loaded : B.load disk s.id ≡ some (to_dict s) =
          unfold to_dict in ground (arith, L.load-save st.disk disk s.id (to_dict s) n) in
        unfold persist found restart Dict.get in
        rw (n, persist) (rw valid (rw loaded (ap some (to_dict-from_dict now s hc hu))))
  ]

  -- Behind a lawful backend, a session that was deleted is found no more, at once or after a
  -- restart, and at once the others are found as before.
  pub found-delete :
      IsLawful B
      → (now sid sid' : String) (st : SessionStore B)
      → (found now sid' (delete sid st).1 ≡ (if sid' == sid then none else found now sid' st))
        × (found now sid (restart (delete sid st).1) ≡ none)
  unfolding delete found restart
  found-delete L now sid sid' st = (
    ground (arith, get-remove sid' sid st.sessions, L.load-delete st.disk sid' sid),
    unfold Dict.get in ground (arith, L.load-delete st.disk sid sid),
  )
