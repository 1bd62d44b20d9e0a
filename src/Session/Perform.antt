-- ===== src/Session/Perform.antt =====
-- The branches of `SessionStore.apply_state_op` of backend/core/session_store.py: what an op changes
-- of a session once its payload is decoded.
use community_overview.Base.{
  string_eq, ℕ, String, Bool, false, ◌&&◌, not, Option, none, some, List, [], ◌∷◌, ◌++◌, leb, ◌==◌,
  contains, keep, length, if◌then◌else◌,
}
use community_overview.Base.Dict
use community_overview.Base.Dict.{Dict}
use community_overview.Json.{
  Json, number, text, array, object, Object, of_list, of_object, of_texts, to_list, item, as_text,
}
use community_overview.Session.State.{
  Position, State, Session, tombstone_limit, push_bounded, union, remove_all, object_at, set_object,
  update, find_annotation,
}
use community_overview.Session.Ops.{
  OpError, annotation_limit, group_not_found, unhashable, Result, ok, err, Payload, add_nodes,
  remove_nodes, move_node, hide_nodes, show_nodes, hide_edges, show_edges, create_annotation,
  update_annotation, delete_annotation, set_members, rename, apply_layout,
}

pub record Config : Type 0 where
  pub max_annotations : ℕ
  pub ring_size : ℕ

-- What an op reads from outside: two clock readings, as `_now_iso` prints them, and a random id.
pub record Env : Type 0 where
  pub annotation_time : String
  pub op_time : String
  pub token : String

-- The outcome of the branch for one kind of op: a change, with the dict to report and the live
-- annotation in it; an op to be passed over; or an exception, with what was changed before it.
pub data Effect : Type 0 where
  changed : Session → Object → Option ℕ → Effect
  ignored : Effect
  broken : OpError → Session → Effect

abbrev with_state : Session → State → Session
with_state s st = record s { state = st }

-- `[m for m in members if m not in drop]`, for a set `drop`.
unfoldable pub filter_members : List String → List Json → Result (List Json)
filter_members drop [] = ok []
filter_members drop (text m ∷ ms) =
    let rest = filter_members drop ms in
    if contains drop m then rest else elim rest [ ok l ↦ ok (text m ∷ l) | err e ↦ err e ]
filter_members drop (array xs ∷ ms) = err unhashable
filter_members drop (object fs ∷ ms) = err unhashable
filter_members drop (m ∷ ms) = elim (filter_members drop ms) [ ok l ↦ ok (m ∷ l) | err e ↦ err e ]

unfoldable pub prune_object : List String → Object → Result Object
prune_object drop o = elim (item "member_node_ids" o) [
  | array ms ↦ elim (filter_members drop (to_list ms)) [
    | ok kept ↦ ok (Dict.put "member_node_ids" (array (of_list kept)) o)
    | err e ↦ err e
  ]
  | _ ↦ ok o
]

-- The loop over the annotations: the heap after it, and the exception that ended it.
unfoldable pub prune_members : List String → List ℕ → List Object → List Object × Result (Unit {0})
prune_members drop [] os = (os, ok tt)
prune_members drop (r ∷ rs) os = elim (prune_object drop (object_at os r)) [
  | ok o ↦ prune_members drop rs (set_object os r o)
  | err e ↦ (os, err e)
]

-- `{k: v for k, v in positions.items() if k not in drop}`
unfoldable pub drop_positions : List String → Dict String Position → Dict String Position
drop_positions ids [] = []
drop_positions ids ((k, v) ∷ ps) =
    let rest = drop_positions ids ps in if contains ids k then rest else (k, v) ∷ rest

unfoldable pub do_remove_nodes : List String → Object → Session → Effect
do_remove_nodes ids op s =
    let st = s.state in
    let st' = record st {
      node_refs = remove_all st.node_refs ids;
      positions = drop_positions ids st.positions;
      hidden_node_ids = remove_all st.hidden_node_ids ids;
    } in
    let (os, result) = prune_members ids st.annotations s.objects in
    let s' = record s { state = st'; objects = os } in
    elim result [ ok _ ↦ changed s' op none | err e ↦ broken e s' ]

unfoldable pub position_json : Position → Json
position_json p = object (of_object (("x", number p.x) ∷ ("y", number p.y) ∷ []))

unfoldable pub positions_json : Dict String Position → Object
positions_json [] = []
positions_json ((nid, p) ∷ ps) = (nid, position_json p) ∷ positions_json ps

unfoldable pub update_positions : Dict String Position → Dict String Position → Dict String Position
update_positions d [] = d
update_positions d ((nid, p) ∷ ps) = update_positions (Dict.put nid p d) ps

-- `a.get("id") == ann_id`
unfoldable pub has_id : String → Object → Bool
has_id id o = elim (as_text (item "id" o)) [ none ↦ false | some id' ↦ id' == id ]

unfoldable pub is_group : Object → Bool
is_group o = elim (as_text (item "kind" o)) [ none ↦ false | some k ↦ k == "group" ]

-- A change in place of the live annotation.
unfoldable pub rewrite_object : ℕ → Object → Session → Session
rewrite_object r o s = record s { objects = set_object s.objects r o }

abbrev set_default : String → Json → Object → Object
set_default k v o = elim (Dict.get k o) [ none ↦ Dict.put k v o | some w ↦ o ]

-- The dict of a new annotation.
unfoldable pub new_object : Env → Object → Json → Object
new_object env a client =
    let named : Object = elim (as_text (item "id" a)) [
      | none ↦ Dict.put "id" (text env.token) a
      | some id ↦ a
    ] in
    Dict.put "updated_at" (text env.annotation_time) (set_default "created_by" client named)

unfoldable pub append_annotation : Config → Env → Object → Json → Object → Session → Effect
append_annotation cfg env a client op s =
    if leb cfg.max_annotations (length s.state.annotations)
    then broken annotation_limit s
    else (let r = length s.objects in
        let st = record s.state { annotations = s.state.annotations ++ (r ∷ []) } in
        changed (record s { state = st; objects = s.objects ++ (new_object env a client ∷ []) }) op
          (some r))

-- An annotation dict that is brought up to date by another.
unfoldable pub updated_object : Env → Object → Object → Object
updated_object env old incoming =
    Dict.put "updated_at" (text env.annotation_time) (update old incoming)

unfoldable pub upsert_annotation : Config → Env → String → Object → Json → Object → Session → Effect
upsert_annotation cfg env id a client op s =
    if contains s.deleted_annotation_ids id
    then ignored
    else elim (find_annotation (has_id id) s.objects s.state.annotations) [
      | some r ↦
          changed (rewrite_object r (updated_object env (object_at s.objects r) a) s) op (some r)
      | none ↦ append_annotation cfg env a client op s
    ]

unfoldable pub do_create : Config → Env → Object → Json → Object → Session → Effect
do_create cfg env a client op s = elim (as_text (item "id" a)) [
  | some id ↦ upsert_annotation cfg env id a client op s
  | none ↦ append_annotation cfg env a client op s
]

unfoldable pub do_update : Env → String → Object → Object → Session → Effect
do_update env id a op s = elim (find_annotation (has_id id) s.objects s.state.annotations) [
  | some r ↦ changed (rewrite_object r (updated_object env (object_at s.objects r) a) s) op (some r)
  | none ↦ ignored
]

-- The annotations whose id is another.
unfoldable pub without_id : String → List Object → List ℕ → List ℕ
without_id id os rs = keep (λ r. not (has_id id (object_at os r))) rs

unfoldable pub do_delete : String → Object → Session → Effect
do_delete id op s =
    let st = record s.state { annotations = without_id id s.objects s.state.annotations } in
    changed
      (record s {
        state = st;
        deleted_annotation_ids = push_bounded tombstone_limit s.deleted_annotation_ids id;
      })
      (Dict.put "annotation_id" (text id) op) none

unfoldable pub do_set_members : Env → String → List String → Object → Session → Effect
do_set_members env group_id members op s =
    elim (find_annotation (λ o. has_id group_id o && is_group o) s.objects s.state.annotations) [
      | none ↦ broken group_not_found s
      | some r ↦
          let o = Dict.put "member_node_ids" (array (of_texts members)) (object_at s.objects r) in
          changed (rewrite_object r (Dict.put "updated_at" (text env.annotation_time) o) s) op none
    ]

unfoldable pub perform : Config → Env → Payload → Object → Session → Effect
perform cfg env (add_nodes ids) op s =
    let refs = union s.state.node_refs ids in
    changed (with_state s (record s.state { node_refs = refs })) op none
perform cfg env (remove_nodes ids) op s = do_remove_nodes ids op s
perform cfg env (move_node nid p) op s =
    changed (with_state s (record s.state { positions = Dict.put nid p s.state.positions }))
      (Dict.put "position" (position_json p) op) none
perform cfg env (hide_nodes ids) op s =
    let hidden = union s.state.hidden_node_ids ids in
    changed (with_state s (record s.state { hidden_node_ids = hidden })) op none
perform cfg env (show_nodes ids) op s =
    let hidden = remove_all s.state.hidden_node_ids ids in
    changed (with_state s (record s.state { hidden_node_ids = hidden })) op none
perform cfg env (hide_edges ids) op s =
    let hidden = union s.state.hidden_edge_ids ids in
    changed (with_state s (record s.state { hidden_edge_ids = hidden })) op none
perform cfg env (show_edges ids) op s =
    let hidden = remove_all s.state.hidden_edge_ids ids in
    changed (with_state s (record s.state { hidden_edge_ids = hidden })) op none
perform cfg env (create_annotation a client) op s = do_create cfg env a client op s
perform cfg env (update_annotation id a) op s = do_update env id a op s
perform cfg env (delete_annotation id) op s = do_delete id op s
perform cfg env (set_members group_id members) op s = do_set_members env group_id members op s
perform cfg env (rename name) op s = changed (record s { name = name }) op none
perform cfg env (apply_layout ps) op s =
    let positions = update_positions s.state.positions ps in
    changed (with_state s (record s.state { positions = positions }))
      (Dict.put "positions" (object (of_object (positions_json ps))) op) none
