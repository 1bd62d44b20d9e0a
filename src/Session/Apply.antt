-- ===== src/Session/Apply.antt =====
-- `SessionStore.apply_state_op` of backend/core/session_store.py, on one session and its ring.
pub mod Sequence
pub mod Lists
pub mod Branches
pub mod Invariant
pub mod Content
use community_overview.Base.{string_eq, ℕ, ◌+◌, List}
use community_overview.Base.Dict
use community_overview.Base.Dict.{Dict}
use community_overview.Json.{number, text, pos, Object, item}
use community_overview.Session.State.{Session, Applied, push_bounded}
use community_overview.Session.Ops.{
  OpError, Result, ok, err, OpType, op_name, op_type_of, Payload, decode,
}
use community_overview.Session.Perform.{Config, Env, Effect, changed, ignored, broken, perform}

-- A session with its ring of applied ops.
pub record Live : Type 0 where
  pub session : Session
  pub ring : List Applied

pub data Outcome : Type 0 where
  applied : Live → Applied → Outcome
  dropped : Outcome
  failed : OpError → Live → Outcome

-- The dict that is reported and kept: with the op's kind and number, without the client.
unfoldable pub report : OpType → ℕ → Object → Object
report t seq fields =
    Dict.remove "client_id"
      (Dict.put "seq" (number (pos seq)) (Dict.put "op" (text (op_name t)) fields))

unfoldable pub finish : Config → Env → OpType → List Applied → Effect → Outcome
finish cfg env t ring (changed s fields annotation) =
    let seq = s.seq + 1 in
    let a : Applied = record { seq = seq; fields = report t seq fields; annotation = annotation } in
    applied
      (record {
        session = record s { seq = seq; updated_at = env.op_time };
        ring = push_bounded cfg.ring_size ring a;
      })
      a
finish cfg env t ring ignored = dropped
finish cfg env t ring (broken e s) = failed e (record { session = s; ring = ring })

unfoldable pub apply_decoded : Config → Env → OpType → Object → Live → Result Payload → Outcome
apply_decoded cfg env t op live (err e) = failed e live
apply_decoded cfg env t op live (ok p) =
    finish cfg env t live.ring (perform cfg env p op live.session)

unfoldable pub apply_typed : Config → Env → Object → Live → Result OpType → Outcome
apply_typed cfg env op live (err e) = failed e live
apply_typed cfg env op live (ok t) = apply_decoded cfg env t op live (decode t op)

unfoldable pub apply_state_op : Config → Env → Object → Live → Outcome
apply_state_op cfg env op live = apply_typed cfg env op live (op_type_of (item "op" op))
