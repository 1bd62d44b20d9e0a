-- ===== src/Session/Batch.antt =====
-- The protected region of `SessionManager.apply_ops` of backend/core/session_manager.py: a batch of
-- ops on one session, with the rollback.
pub mod Rollback
pub mod Numbering
pub mod Content
use community_overview.Base.{
  ℕ, suc, String, Bool, true, false, Option, none, some, List, [], ◌∷◌, ◌++◌, string_eq, length,
}
use community_overview.Base.Dict
use community_overview.Json.{Json, text, object, Object, to_object, item}
use community_overview.Session.State.{Applied, annotations_of}
use community_overview.Session.Ops.{
  ◌>>=◌, OpError, bad_ops, Result, ok, err, op_type_of, claim_op_of, validate_claim_op,
}
use community_overview.Session.Perform.{Config, Env}
use community_overview.Session.Apply.{Live, Outcome, applied, dropped, failed, apply_state_op}
use community_overview.Session.Store.{indices}

-- An op that waits to be broadcast: an applied one, or a claim (true) or a release of elements.
pub data Pending : Type 0 where
  state_op : Applied → Pending
  claim_op : Bool → List String → Pending

-- `isinstance(op, dict)`
abbrev pub as_op : Json → Result Object
as_op (object fs) = ok (to_object fs)
as_op _ = err bad_ops

-- One round of the loop that refuses a malformed batch before anything is applied.
unfoldable pub check_typed : Option Bool → Object → Result (Unit {0})
check_typed (some claims) op = do _ ← validate_claim_op op; ok tt
check_typed none op = do _ ← op_type_of (item "op" op); ok tt

unfoldable pub check_ops : List Json → Result (List Object)
check_ops [] = ok []
check_ops (j ∷ js) = do
  op ← as_op j
  _ ← check_typed (claim_op_of (item "op" op)) op
  ops ← check_ops js
  ok (op ∷ ops)

-- What the loop over the ops has come to: the session with its ring, what is to be broadcast, and
-- whether a state op was applied.
pub record Progress : Type 0 where
  pub live : Live
  pub pending : List Pending
  pub state_changed : Bool

-- The end of the loop, or an exception with the session as it stands then.
pub data Run : Type 0 where
  finished : Progress → Run
  aborted : OpError → Live → Run

-- `{**op, "client_id": client_id}`
abbrev signed : String → Object → Object
signed client op = Dict.put "client_id" (text client) op

abbrev after_state_op : Progress → Outcome → Run
after_state_op p (applied live a) =
    finished
      (record { live = live; pending = p.pending ++ (state_op a ∷ []); state_changed = true })
after_state_op p dropped = finished p
after_state_op p (failed e live) = aborted e live

abbrev after_claim : Progress → Bool → Result (List String) → Run
after_claim p claims (ok ids) =
    finished (record p { pending = p.pending ++ (claim_op claims ids ∷ []) })
after_claim p claims (err e) = aborted e p.live

-- One round; `env` is what this op reads from outside.
unfoldable pub run_op : Config → Env → String → Object → Progress → Run
run_op cfg env client op p = elim (claim_op_of (item "op" op)) [
  | some claims ↦ after_claim p claims (validate_claim_op op)
  | none ↦ after_state_op p (apply_state_op cfg env (signed client op) p.live)
]

-- The loop; `envs i` is what the op at index `i` reads.
unfoldable pub run_ops : Config → (ℕ → Env) → ℕ → String → List Object → Progress → Run
run_ops cfg envs i client [] p = finished p
run_ops cfg envs i client (op ∷ ops) p = elim (run_op cfg (envs i) client op p) [
  | finished p' ↦ run_ops cfg envs (suc i) client ops p'
  | aborted e live ↦ aborted e live
]

-- The deep copy that `saved_state` is, put back: its annotations are objects of their own. The ring
-- gets its old entries back, and those go on naming the objects that the batch has changed.
unfoldable pub roll_back : Live → Live → Live
roll_back saved now =
    let s = now.session in
    let old = saved.session in
    let copies = annotations_of old.objects old.state.annotations in
    record {
      session = record s {
        name = old.name;
        updated_at = old.updated_at;
        seq = old.seq;
        state = record old.state { annotations = indices (length s.objects) copies };
        objects = s.objects ++ copies;
      };
      ring = saved.ring;
    }

unfoldable pub start : Live → Progress
start live = record { live = live; pending = []; state_changed = false }
