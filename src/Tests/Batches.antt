-- ===== src/Tests/Batches.antt =====
-- Ops, batches and the ring of backend/core/session_store.py and session_manager.py.
use community_overview.Base.{
  String, some, ◌&&◌, ◌==◌, string_eq, option_eq, if◌then◌else◌, ℕ, ◌≡◌, refl, Bool, none, List, [],
  ◌∷◌, arith, leb, nat_eq, ℕ_discrete,
}
use community_overview.Base.Dict
use community_overview.Json.{
  Json, text, array, object, field, end, cons, nil, Object, to_list, to_object, item, as_text_list,
  as_texts, as_text,
}
use community_overview.Session.State.{
  Session, Applied, empty_state, push_bounded, find_annotation, union,
}
use community_overview.Session.Perform.{Config, Env, perform, do_set_members}
use community_overview.Session.Apply.{
  Live, apply_state_op, apply_typed, apply_decoded, finish, report,
}
use community_overview.Session.Apply.Sequence.{Numbers, apply_state_op-Numbers}
use community_overview.Session.Apply.Branches.{IsWellFormed}
use community_overview.Session.Apply.Invariant.{session_after, apply_state_op-IsWellFormed}
use community_overview.Session.Ring.{IsRing, Answers, ops_since, ops_since-Answers}
use community_overview.Session.Batch.{run_ops, run_op, roll_back, start, check_ops, check_typed}
use community_overview.Session.Batch.Rollback.{live_of, roll_back-run_ops}
use community_overview.Session.Batch.Numbering.{RunIsNumbered, run_ops_lem}
use community_overview.Session.Store.{SessionStore, to_dict}
use community_overview.Session.Store.Memory.{memory}
use community_overview.Session.Bus.{same}
use community_overview.Session.Bus
use community_overview.Session.Bucket
use community_overview.Session.Bucket.{consume, refilled, sweep}
use community_overview.Session.Presence
use community_overview.Session.Claims.Invariant
use community_overview.Session.Claims.Invariant.{claims}
use community_overview.Session.Claims.Laws.{holder}
use community_overview.Session.Presence.Counts
use community_overview.Session.Presence.Counts.{connections, joins}
use community_overview.Session.Manager.Departure.{holder-disconnect}
use community_overview.Session.Manager.{Manager, op_error, err, disconnect}
use community_overview.Session.Ops.{
  group_not_found, claim_op_of, validate_claim_op, op_type_of, find_op, op_name, decode,
  require_id_list,
}
use community_overview.Session.Store
use community_overview.Session.Ids.{
  is_valid_session_id, matches, four_digits, codes, dash, tail_groups, at_end,
}
use community_overview.Session.Submit.{
  World, apply_ops, check_batch, check_size, check_client, charge, locate, with_session, protected,
}
use community_overview.Session.Submit.Unchanged.{IsUnchanged}
use community_overview.Session.Submit.Atomic.{apply_ops-atomic}

abbrev pub room : Session
room = record {
  id = "1234-5678";
  name = none;
  created_at = "t0";
  updated_at = "t0";
  seq = 0;
  state = empty_state;
  objects = [];
  deleted_annotation_ids = [];
}

abbrev live : Live
live = record { session = room; ring = [] }

abbrev cfg : Config
cfg = record { max_annotations = 100; ring_size = 3 }

abbrev env : Env
env = record { annotation_time = "t1"; op_time = "t2"; token = "00ff" }

abbrev envs : ℕ → Env
envs n = env

abbrev create_op : Object
create_op =
    ("op", text "annotation_created")
    ∷ ("annotation", object (field "id" (text "a1") (field "kind" (text "note") end)))
    ∷ []

abbrev add_op : Object
add_op =
    ("op", text "nodes_added") ∷ ("node_ids", array (cons (text "n1") (cons (text "n2") nil))) ∷ []

abbrev unknown_op : Object
unknown_op = ("op", text "unheard_of") ∷ []

live_ring : IsRing live.session.seq live.ring
live_ring = record { first = 1; contiguous = tt; last = refl }

room_lem : IsWellFormed 100 room
unfolding Dict.get
room_lem = record {
  nodes = tt;
  hidden_nodes = tt;
  hidden_edges = tt;
  positions = tt;
  in_heap = tt;
  few = omega arith;
}

apply_state_op-IsWellFormed_example :
    IsWellFormed cfg.max_annotations (session_after live (apply_state_op cfg env create_op live))
apply_state_op-IsWellFormed_example = apply_state_op-IsWellFormed cfg env create_op live room_lem

apply_state_op-Numbers_example : Numbers cfg live (apply_state_op cfg env add_op live)
apply_state_op-Numbers_example = apply_state_op-Numbers cfg env add_op live

abbrev batch : List Object
batch = add_op ∷ create_op ∷ unknown_op ∷ []

roll_back-run_ops_example :
    let now = live_of (run_ops cfg envs 0 "ann" batch (start live)) in
    (to_dict (roll_back live now).session ≡ to_dict live.session)
    × ((roll_back live now).ring ≡ live.ring)
roll_back-run_ops_example = roll_back-run_ops cfg envs "ann" batch live

abbrev long_batch : List Object
long_batch = add_op ∷ create_op ∷ add_op ∷ add_op ∷ create_op ∷ []

run_ops_lem_example : RunIsNumbered cfg live (run_ops cfg envs 0 "ann" long_batch (start live))
run_ops_lem_example = run_ops_lem cfg envs "ann" long_batch live live_ring (omega arith)

abbrev numbered : ℕ → Applied
numbered n = record { seq = n; fields = []; annotation = none }

abbrev kept : List Applied
kept = numbered 4 ∷ numbered 5 ∷ numbered 6 ∷ []

kept_lem : IsRing 6 kept
kept_lem = record { first = 4; contiguous = (refl, (refl, (refl, tt))); last = refl }

ops_since-Answers_example : Answers 4 6 kept (ops_since 4 6 kept)
ops_since-Answers_example = ops_since-Answers 4 6 kept kept_lem

abbrev is_digit : ℕ → Bool
is_digit c = leb 48 c && leb c 57

abbrev pub store : SessionStore memory
store = record {
  config = cfg;
  is_digit = is_digit;
  sessions = ("1234-5678", room) ∷ [];
  rings = [];
  meta_cache = none;
  disk = [];
}

abbrev pub manager : Manager memory
manager = record {
  store = store;
  bus = Bus.init 8;
  presence = Presence.empty;
  claims = Invariant.init 30;
  max_ops = 5;
  max_sessions = 5;
  max_op_batch_bytes = 4096;
  token_shares = 1;
  bucket = Bucket.init 100 2 600 60;
  lookup_bucket = Bucket.init 100 2 600 60;
}

abbrev pub world : World
world = record {
  clock = 5;
  load_time = "t3";
  envs = envs;
  claim_times = λ n. (5, 5);
  loops = λ n. same;
  text_size = λ j. 10;
}

-- An op that is applied, and then one that names a group that is not there.
abbrev request : Json
request = array (
    cons
      (object
        (field "op" (text "nodes_added") (field "node_ids" (array (cons (text "n1") nil)) end)))
      (cons
        (object (
          field "op" (text "group_membership_changed")
            (field "group_id" (text "g1") (field "member_node_ids" (array nil) end))))
        nil))

batch_refused :
    (apply_ops world "1234-5678" (text "ann") request manager).0 ≡ err (op_error group_not_found)
unfolding apply_ops check_batch is_valid_session_id matches four_digits codes dash nat_eq ℕ_discrete
    tail_groups at_end check_size to_list check_client string_eq charge consume refilled sweep
    Bucket.init Dict.get locate Store.get with_session check_ops check_typed claim_op_of item
    to_object op_type_of find_op op_name validate_claim_op protected run_ops run_op start
    apply_state_op apply_typed decode require_id_list as_text_list apply_decoded perform finish
    do_set_members find_annotation Dict.put roll_back union report push_bounded as_texts as_text
batch_refused = refl

apply_ops-atomic_example :
    IsUnchanged to_dict world.load_time manager
      (apply_ops world "1234-5678" (text "ann") request manager).1
apply_ops-atomic_example =
    apply_ops-atomic world "1234-5678" (text "ann") request manager (op_error group_not_found)
      batch_refused

abbrev show : ℕ → String
show n = "1"

abbrev arrivals : List Counts.Event
arrivals = joins "1234-5678" "ann" none ∷ []

abbrev claim_calls : List Invariant.Call
claim_calls = claims 1 1 "1234-5678" "ann" ("e" ∷ []) ∷ []

abbrev visited : Manager memory
visited = record manager {
  presence = Counts.run show Presence.empty arrivals;
  claims = Invariant.run (Invariant.init 30) claim_calls;
}

abbrev sid : String
sid = "1234-5678"

abbrev ann : String
ann = "ann"

holder-disconnect_example : holder 3 sid "e" (disconnect world.loops sid ann 0 visited).claims ≡ (
    if connections sid ann visited.presence == 1
      && (sid == sid && holder 3 sid "e" visited.claims == some ann)
    then none
    else holder 3 sid "e" visited.claims)
holder-disconnect_example =
    holder-disconnect world.loops sid ann 0 3 sid "e" visited
      (Counts.run-init-IsConsistent show arrivals) (Invariant.run-init-IsWellFormed 30 claim_calls)
