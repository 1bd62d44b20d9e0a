-- ===== src/Session/Submit.antt =====
-- `SessionManager.apply_ops` and `rename_session` of backend/core/session_manager.py.
pub mod Unchanged
pub mod Atomic
pub mod Replays
use community_overview.Base.{
  ℕ, suc, ◌*◌, max, String, true, false, Option, none, some, List, [], ◌∷◌, ltb, ◌==◌, string_eq,
  length, if◌then◌else◌,
}
use community_overview.Base.Dict
use community_overview.Json.{
  Json, null, text, array, object, Object, field, end, to_list, cons, nil,
}
use community_overview.Session.State.{Session}
use community_overview.Session.Ops
use community_overview.Session.Ops.{bad_ops, bad_client}
use community_overview.Session.Perform.{Env}
use community_overview.Session.Apply.{Live}
use community_overview.Session.Ids.{is_valid_session_id}
use community_overview.Session.Bus.{LoopState}
use community_overview.Session.Claims
use community_overview.Session.Bucket
use community_overview.Session.Store
use community_overview.Session.Store.{Backend}
use community_overview.Session.Batch.{
  Pending, state_op, claim_op, Progress, finished, aborted, check_ops, run_ops, roll_back, start,
}
use community_overview.Session.Manager.{
  Manager, op_applied, selection, Reply, ok, err, session_not_found, rate_limited, batch_too_large,
  persist_failed, op_error, announce, get_or_create,
}

-- What a call reads from outside: the clock of the buckets, the time for a session that is loaded, what
-- each op reads, the two clock readings of each claim, the loops, and the size of a batch as JSON text.
pub record World : Type 0 where
  pub clock : ℕ
  pub load_time : String
  pub envs : ℕ → Env
  pub claim_times : ℕ → ℕ × ℕ
  pub loops : ℕ → LoopState
  pub text_size : Json → ℕ

-- What is returned: the applied ops, a release with what it released, and the session's number.
pub record Accepted : Type 0 where
  pub applied : List Pending
  pub seq : ℕ

-- The tests of a batch that need no session: the ops, and the client's id.
unfoldable pub check_client : Json → List Json → Reply (List Json × String)
check_client (text client) js = if client == "" then err (op_error bad_client) else ok (js, client)
check_client _ js = err (op_error bad_client)

-- `client_id or "rest"`
unfoldable pub or_rest : Option String → Json
or_rest none = text "rest"
or_rest (some c) = if c == "" then text "rest" else text c

abbrev name_json : Option String → Json
name_json none = null
name_json (some n) = text n

module _ {B : Backend} where
  unfoldable pub check_size : World → Json → Json → Manager B → Reply (List Json × String)
  check_size w client (array items) m =
      let js = to_list items in
      if ltb m.max_ops (length js)
      then err batch_too_large
      else if ltb m.max_op_batch_bytes (w.text_size (array items))
      then err batch_too_large
      else check_client client js
  check_size w client _ m = err (op_error bad_ops)

  unfoldable pub check_batch : World → String → Json → Json → Manager B → Reply (List Json × String)
  check_batch w sid client ops m =
      if is_valid_session_id m.store.is_digit sid
      then check_size w client ops m
      else err session_not_found

  -- The session and its ring stand in the store as they are now.
  unfoldable pub keep_live : String → Live → Manager B → Manager B
  keep_live sid live m = record m {
    store = record m.store {
      sessions = Dict.put sid live.session m.store.sessions;
      rings = Dict.put sid live.ring m.store.rings;
    };
  }

  -- One round of the broadcast, and what it reports.
  unfoldable pub commit_one :
      World → ℕ → String → String → Pending → Manager B → Pending × Manager B
  commit_one w i sid client (state_op a) m =
      (state_op a, announce w.loops sid (op_applied client a) m)
  commit_one w i sid client (claim_op true ids) m =
      let (t₀, t₁) = w.claim_times i in
      let (_, claims) = Claims.claim t₀ t₁ sid client ids m.claims in
      (
        claim_op true ids,
        announce w.loops sid (selection true client ids) (record m { claims = claims }),
      )
  commit_one w i sid client (claim_op false ids) m =
      let (t₀, _) = w.claim_times i in
      let (released, claims) = Claims.release t₀ sid client ids m.claims in
      (
        claim_op false released,
        announce w.loops sid (selection false client released) (record m { claims = claims }),
      )

  unfoldable pub commit :
      World → ℕ → String → String → List Pending → Manager B → List Pending × Manager B
  commit w i sid client [] m = ([], m)
  commit w i sid client (p ∷ ps) m =
      let (r, m') = commit_one w i sid client p m in
      let (rs, m'') = commit w (suc i) sid client ps m' in (r ∷ rs, m'')

  unfoldable pub accept :
      World → String → String → Progress → Manager B → Reply Accepted × Manager B
  accept w sid client p m =
      let (reported, m') = commit w 0 sid client p.pending m in
      (ok (record { applied = reported; seq = p.live.session.seq }), m')

  -- The end of the protected region: a changed session is saved, and a failing save undoes all.
  unfoldable pub save_and_accept :
      World → String → String → Live → Progress → Manager B → Reply Accepted × Manager B
  save_and_accept w sid client saved p m =
      let m' = keep_live sid p.live m in
      let (done, st) = Store.persist p.live.session m'.store in
      if p.state_changed
      then (if done
          then accept w sid client p (record m' { store = st })
          else (err persist_failed, keep_live sid (roll_back saved p.live) m))
      else accept w sid client p m'

  -- The loop over the ops: where it raises, the session is rolled back.
  unfoldable pub protected :
      World → String → String → List Object → Live → Manager B → Reply Accepted × Manager B
  protected w sid client ops live m =
      elim (run_ops m.store.config w.envs 0 client ops (start live)) [
        | finished p ↦ save_and_accept w sid client live p m
        | aborted e now ↦ (err (op_error e), keep_live sid (roll_back live now) m)
      ]

  unfoldable pub with_session :
      World → String → String → List Json → Session → Manager B → Reply Accepted × Manager B
  with_session w sid client js s m = elim (check_ops js) [
    | Ops.err e ↦ (err (op_error e), m)
    | Ops.ok ops ↦
        protected w sid client ops (record { session = s; ring = Store.ring sid m.store }) m
  ]

  unfoldable pub locate :
      World → String → String → List Json → Manager B → Reply Accepted × Manager B
  locate w sid client js m =
      let (found, st) = Store.get w.load_time sid m.store in
      let m' = record m { store = st } in
      elim found [ none ↦ (err session_not_found, m') | some s ↦ with_session w sid client js s m' ]

  -- The client's bucket pays for the ops, at least one token.
  unfoldable pub charge :
      World → String → String → List Json → Manager B → Reply Accepted × Manager B
  charge w sid client js m =
      let (granted, bucket) =
        Bucket.consume w.clock client (max 1 (length js) * m.token_shares) m.bucket in
      let m' = record m { bucket = bucket } in
      if granted then locate w sid client js m' else (err rate_limited, m')

  unfoldable pub apply_ops : World → String → Json → Json → Manager B → Reply Accepted × Manager B
  apply_ops w sid client ops m = elim (check_batch w sid client ops m) [
    | err e ↦ (err e, m)
    | ok (js, name) ↦ charge w sid name js m
  ]

  -- The rename is an op like any other; the session that is returned is read again.
  unfoldable pub rename_session :
      World
      → String
      → Option String
      → Option String
      → Manager B
      → Reply (Option Session) × Manager B
  rename_session w sid name client m =
      let (opened, m₁) = get_or_create w.load_time sid m in
      let op = object (field "op" (text "session_renamed") (field "name" (name_json name) end)) in
      let (applied, m₂) = apply_ops w sid (or_rest client) (array (cons op nil)) m₁ in
      let (s, st) = Store.get w.load_time sid m₂.store in
      elim opened [
        | err e ↦ (err e, m₁)
        | ok _ ↦ elim applied [ err e ↦ (err e, m₂) | ok _ ↦ (ok s, record m₂ { store = st }) ]
      ]
