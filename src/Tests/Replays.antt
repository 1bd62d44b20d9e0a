-- ===== src/Tests/Replays.antt =====
-- A batch of backend/core/session_manager.py that fails after an op of it has been applied, on a
-- session whose ring names an annotation.
use community_overview.Base.{some, string_eq, ◌≡◌, refl, List, [], ◌∷◌, arith, nat_eq, ℕ_discrete}
use community_overview.Base.Dict
use community_overview.Base.Dict.Nested.{inner}
use community_overview.Json.{
  Items, text, array, object, field, end, cons, nil, Object, to_list, to_object, item, as_text_list,
  as_text, as_object,
}
use community_overview.Session.State.{Session, Applied, empty_state}
use community_overview.Session.Bucket.{consume, refilled, sweep}
use community_overview.Session.Ops
use community_overview.Session.Ops.{
  bad_id_list, claim_op_of, op_type_of, find_op, op_name, decode, require_id_list,
  validate_annotation, check_kind, check_id, check_position,
}
use community_overview.Session.Apply.Content.{
  AllNamed, may_rewrite, typed_rewrites, decoded_rewrites, rewrites,
}
use community_overview.Session.Apply.{apply_state_op, apply_typed, apply_decoded, finish}
use community_overview.Session.Perform.{perform, do_create, append_annotation}
use community_overview.Session.Ids.{
  is_valid_session_id, matches, four_digits, codes, dash, tail_groups, at_end,
}
use community_overview.Session.Bucket
use community_overview.Session.Batch.{check_ops, check_typed, run_ops, run_op, start}
use community_overview.Session.Batch.Content.{NoneRewrites}
use community_overview.Session.Manager.{Manager, op_error, err}
use community_overview.Session.Store
use community_overview.Session.Store.Memory.{memory}
use community_overview.Session.Store.Lookup.{found}
use community_overview.Session.Submit.{
  apply_ops, check_batch, check_size, check_client, charge, locate, with_session, protected,
}
use community_overview.Session.Submit.Replays.{replayed, apply_ops-replayed}
use community_overview.Tests.Batches.{room, store, manager, world}

abbrev note : Object
note = ("id", text "a1") ∷ ("kind", text "note") ∷ ("text", text "old") ∷ []

abbrev noted : Session
noted = record room {
  seq = 1;
  state = record empty_state { annotations = 0 ∷ [] };
  objects = note ∷ [];
}

abbrev entry : Applied
entry = record { seq = 1; fields = ("op", text "annotation_created") ∷ []; annotation = some 0 }

abbrev noted_manager : Manager memory
noted_manager = record manager {
  store = record store {
    sessions = ("1234-5678", noted) ∷ [];
    rings = ("1234-5678", entry ∷ []) ∷ [];
  };
}

-- A new label, and then a list of ids that is none.
abbrev items : Items
items =
    cons
      (object (
        field "op" (text "annotation_created")
          (field "annotation" (object (field "kind" (text "label") end)) end)))
      (cons (object (field "op" (text "nodes_added") (field "node_ids" (text "n1") end))) nil)

abbrev batch : List Object
batch =
    (("op", text "annotation_created")
      ∷ ("annotation", object (field "kind" (text "label") end))
      ∷ [])
    ∷ (("op", text "nodes_added") ∷ ("node_ids", text "n1") ∷ [])
    ∷ []

batch_checked : check_ops (to_list items) ≡ Ops.ok batch
unfolding check_ops to_list check_typed claim_op_of item Dict.get to_object string_eq op_type_of
    find_op op_name
batch_checked = refl

batch_quiet : NoneRewrites "ann" batch
unfolding may_rewrite typed_rewrites decoded_rewrites rewrites op_type_of find_op op_name decode
    item Dict.get Dict.put string_eq validate_annotation as_object check_kind check_id
    check_position as_text require_id_list as_text_list to_object
batch_quiet = (refl, (refl, tt))

noted_found : found world.load_time "1234-5678" noted_manager.store ≡ some noted
unfolding found is_valid_session_id matches four_digits codes dash nat_eq ℕ_discrete tail_groups
    at_end Dict.get string_eq
noted_found = refl

noted_named : AllNamed noted.objects (Store.ring "1234-5678" noted_manager.store)
unfolding Store.ring inner Dict.get string_eq
noted_named = (omega arith, tt)

batch_failed :
    (apply_ops world "1234-5678" (text "ann") (array items) noted_manager).0
    ≡ err (op_error bad_id_list)
unfolding apply_ops check_batch is_valid_session_id matches four_digits codes dash nat_eq ℕ_discrete
    tail_groups at_end check_size to_list check_client string_eq charge consume refilled sweep
    Bucket.init Dict.get Dict.put locate Store.get with_session check_ops check_typed claim_op_of
    item to_object op_type_of find_op op_name protected run_ops run_op start apply_state_op
    apply_typed decode require_id_list as_text_list as_text as_object validate_annotation check_kind
    check_id check_position apply_decoded perform do_create append_annotation finish
batch_failed = refl

apply_ops-replayed_example :
    replayed world.load_time "1234-5678"
      (apply_ops world "1234-5678" (text "ann") (array items) noted_manager).1.store
    ≡ replayed world.load_time "1234-5678" noted_manager.store
apply_ops-replayed_example =
    apply_ops-replayed world "1234-5678" "ann" items batch noted noted_manager
      (op_error bad_id_list) batch_checked batch_quiet noted_found noted_named batch_failed
