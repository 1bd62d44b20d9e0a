-- ===== src/Session/Apply/Invariant.antt =====
-- What holds of every session that ops have made: its lists hold each id once, its annotations stand
-- in the heap, and there are no more of them than the limit.
use community_overview.Base.{string_eq}
use community_overview.Json.{Object, item}
use community_overview.Session.State.{Session}
use community_overview.Session.Ops.{Result, ok, err, OpType, op_type_of, Payload, decode}
use community_overview.Session.Perform.{Config, Env, Effect, changed, ignored, broken}
use community_overview.Session.Apply.{
  Live, Outcome, applied, dropped, failed, finish, apply_decoded, apply_typed, apply_state_op,
}
use community_overview.Session.Apply.Branches.{IsWellFormed, Yields, perform-Yields}

-- The session that an outcome leaves.
abbrev pub session_after : Live → Outcome → Session
session_after live (applied live' a) = live'.session
session_after live dropped = live.session
session_after live (failed e live') = live'.session

-- An op that is applied, passed over or fails leaves a session whose node and hidden ids stand
-- once in their lists and positions, whose annotations stand in the heap, and which has at most
-- the allowed number of annotations, where it was such a session before.
pub apply_state_op-IsWellFormed :
    (cfg : Config) (env : Env) (op : Object) (live : Live)
    → IsWellFormed cfg.max_annotations live.session
    → IsWellFormed cfg.max_annotations (session_after live (apply_state_op cfg env op live))
unfolding apply_state_op
apply_state_op-IsWellFormed cfg env op live w = typed (op_type_of (item "op" op))
  where
    finished :
        (t : OpType) (f : Effect)
        → Yields (IsWellFormed cfg.max_annotations) f
        → IsWellFormed cfg.max_annotations (session_after live (finish cfg env t live.ring f))
    finished t (changed s fields a) y =
        unfold finish in
        record {
          nodes = y.nodes;
          hidden_nodes = y.hidden_nodes;
          hidden_edges = y.hidden_edges;
          positions = y.positions;
          in_heap = y.in_heap;
          few = y.few;
        }
    finished t ignored y = unfold finish in w
    finished t (broken e s) y = unfold finish in y

    decoded :
        (t : OpType) (r : Result Payload)
        → IsWellFormed cfg.max_annotations (session_after live (apply_decoded cfg env t op live r))
    decoded t (err e) = unfold apply_decoded in w
    decoded t (ok p) =
        unfold apply_decoded in finished t _ (perform-Yields cfg env op live.session w p)

    typed :
        (r : Result OpType)
        → IsWellFormed cfg.max_annotations (session_after live (apply_typed cfg env op live r))
    typed (err e) = unfold apply_typed in w
    typed (ok t) = unfold apply_typed in decoded t (decode t op)
