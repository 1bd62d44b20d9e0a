-- ===== src/Session/Store.antt =====
-- `SessionStore` of backend/core/session_store.py behind its persistence seam. Clock readings, random
-- ids and what the backend holds are arguments; the store's lock makes each method one step.
pub mod Memory
pub mod Values
pub mod Lookup
use community_overview.Base.{
  ℕ, ◌≡◌, String, Bool, true, false, not, ◌||◌, Option, none, some, List, [], ◌∷◌, ◌==◌, string_eq,
  length, if◌then◌else◌,
}
use community_overview.Base.Dict
use community_overview.Base.Dict.{Dict, keys}
use community_overview.Base.Dict.Nested.{inner}
use community_overview.Session.State.{Session, Applied, empty_state, union}
use community_overview.Session.Ids.{is_valid_session_id}
use community_overview.Session.Perform.{Config}
use community_overview.Session.Ring
pub use community_overview.Session.Saved.{Saved, Meta}
unfoldable pub use community_overview.Session.Saved.{to_dict, meta, indices, from_dict, or_now}

-- `SessionPersistenceBackend`. A `save` that raises, `none`, has written nothing.
pub record Backend : Type 1 where
  pub Disk : Type 0
  pub load : Disk → String → Option Saved
  pub save : Disk → Saved → Option Disk
  pub delete : Disk → String → Disk
  pub list_meta : Disk → List Meta

pub record IsLawful (B : Backend) : Type 0 where
  pub load-save :
      (d d' : B.Disk) (k : String) (v : Saved)
      → B.save d v ≡ some d'
      → B.load d' k ≡ (if k == v.id then some v else B.load d k)
  pub load-delete :
      (d : B.Disk) (k j : String) → B.load (B.delete d j) k ≡ (if k == j then none else B.load d k)

pub record SessionStore (B : Backend) : Type 0 where
  pub config : Config
  pub is_digit : ℕ → Bool
  pub sessions : Dict String Session
  pub rings : Dict String (List Applied)
  pub meta_cache : Option (List Meta)
  pub disk : B.Disk

unfoldable pub new_session : String → String → Option String → Session
new_session now id name = record {
  id = id;
  name = name;
  created_at = now;
  updated_at = now;
  seq = 0;
  state = empty_state;
  objects = [];
  deleted_annotation_ids = [];
}

-- `self._rings.setdefault(id, deque(…))`
unfoldable pub default_ring : String → Dict String (List Applied) → Dict String (List Applied)
default_ring sid rings = elim (Dict.get sid rings) [ none ↦ Dict.put sid [] rings | some r ↦ rings ]

unfoldable pub ids_of : List Meta → List String
ids_of [] = []
ids_of (m ∷ ms) = m.id ∷ ids_of ms

abbrev pub is_some {ℓ} : {A : Type ℓ} → Option A → Bool
is_some none = false
is_some (some a) = true

module _ {B : Backend} where
  unfoldable pub load_session : String → String → SessionStore B → Option Session × SessionStore B
  load_session now sid st = elim (B.load st.disk sid) [
    | none ↦ (none, st)
    | some raw ↦
        let s = from_dict now raw in
        (
          some s,
          record st { sessions = Dict.put sid s st.sessions; rings = default_ring sid st.rings },
        )
  ]

  unfoldable pub get : String → String → SessionStore B → Option Session × SessionStore B
  get now sid st =
      if not (is_valid_session_id st.is_digit sid)
      then (none, st)
      else elim (Dict.get sid st.sessions) [
        | some s ↦ (some s, st)
        | none ↦ load_session now sid st
      ]

  -- `backend.save` and the drop of the cache; `none` is an exception, and the maps stay as they are.
  unfoldable pub persist : Session → SessionStore B → Bool × SessionStore B
  persist s st = elim (B.save st.disk (to_dict s)) [
    | none ↦ (false, st)
    | some disk ↦ (true, record st { disk = disk; meta_cache = none })
  ]

  -- A session enters the maps before it is saved.
  unfoldable pub insert : Session → SessionStore B → Bool × SessionStore B
  insert s st =
      persist s
        (record st { sessions = Dict.put s.id s st.sessions; rings = Dict.put s.id [] st.rings })

  -- `_new_id`: the first candidate that is free, of those that the random source yields.
  unfoldable pub new_id : List String → SessionStore B → Option String
  new_id [] st = none
  new_id (c ∷ cs) st =
      let rest = new_id cs st in
      elim (Dict.get c st.sessions) [
        | some s ↦ rest
        | none ↦ elim (B.load st.disk c) [ some raw ↦ rest | none ↦ some c ]
      ]

  -- `none` where no id is free or the save raises.
  unfoldable pub create :
      List String → String → Option String → SessionStore B → Option Session × SessionStore B
  create candidates now name st = elim (new_id candidates st) [
    | none ↦ (none, st)
    | some id ↦
        let s = new_session now id name in
        let (saved, st') = insert s st in (if saved then some s else none, st')
  ]

  -- The outcome: a session and whether it is new, or an exception.
  unfoldable pub get_or_create :
      String → String → SessionStore B → Option (Session × Bool) × SessionStore B
  get_or_create now sid st =
      let (found, st₁) = get now sid st in
      let s = new_session now sid none in
      let (saved, st₂) = insert s st₁ in
      if not (is_valid_session_id st.is_digit sid) then (none, st) else elim found [
        | some s' ↦ (some (s', false), st₁)
        | none ↦ (if saved then some (s, true) else none, st₂)
      ]

  -- `rename` of the store; the flag is false where the save raises, after the change in memory.
  unfoldable pub rename :
      String → String → Option String → SessionStore B → Option (Session × Bool) × SessionStore B
  rename now sid name st =
      let (found, st₁) = get now sid st in
      elim found [
        | none ↦ (none, st₁)
        | some s ↦
            let s' = record s { name = name; updated_at = now } in
            let (saved, st₂) =
              persist s' (record st₁ { sessions = Dict.put sid s' st₁.sessions }) in
            (some (s', saved), st₂)
      ]

  unfoldable pub ensure_meta_cache : SessionStore B → List Meta × SessionStore B
  ensure_meta_cache st = elim st.meta_cache [
    | some metas ↦ (metas, st)
    | none ↦ let metas = B.list_meta st.disk in (metas, record st { meta_cache = some metas })
  ]

  -- The number of distinct ids on disk and in memory.
  unfoldable pub session_count : SessionStore B → ℕ × SessionStore B
  session_count st =
      let (metas, st') = ensure_meta_cache st in
      (length (union (union [] (ids_of metas)) (keys st'.sessions)), st')

  unfoldable pub delete : String → SessionStore B → Bool × SessionStore B
  delete sid st =
      let existed = is_some (Dict.get sid st.sessions) || is_some (B.load st.disk sid) in
      (
        existed,
        record st {
          sessions = Dict.remove sid st.sessions;
          rings = Dict.remove sid st.rings;
          disk = B.delete st.disk sid;
          meta_cache = none;
        },
      )

  unfoldable pub ring : String → SessionStore B → List Applied
  ring sid st = inner sid st.rings

  unfoldable pub ops_since : String → ℕ → SessionStore B → Option (List Applied)
  ops_since sid since st = elim (Dict.get sid st.sessions) [
    | none ↦ none
    | some s ↦ Ring.ops_since since s.seq (ring sid st)
  ]
