-- ===== src/Session/Ops.antt =====
-- The ops of a session: what `apply_state_op` and `_validate_claim_op` accept. Every check of a
-- payload precedes every change, so an op is first decoded.
use community_overview.Base.{
  ◌≡◌, refl, ◌⊎◌, inl, inr, string_eq, String, Bool, true, false, Option, none, some, List, [], ◌∷◌,
  ◌==◌, contains, if◌then◌else◌,
}
use community_overview.Base.Dict.{Dict}
use community_overview.Json.{
  Json, null, text, array, object, Object, item, as_text, as_number, as_object, as_text_list,
  is_truthy,
}
use community_overview.Session.State.{Position}

-- Why an op is refused: an `OpError`, by what it is about, or Python's `TypeError` for a list or a
-- dict as a member of a set.
pub data OpError : Type 0 where
  unknown_op bad_id_list bad_position not_an_object bad_kind bad_annotation_id : OpError
  bad_node_id bad_group_id bad_name bad_positions annotation_limit group_not_found : OpError
  bad_claim bad_ops bad_client unhashable : OpError

pub data Result {ℓ} (A : Type ℓ) : Type ℓ where
  ok : A → Result A
  err : OpError → Result A

infixl 5 ◌>>=◌
abbrev pub ◌>>=◌ {ℓ κ} : {A : Type ℓ} {B : Type κ} → Result A → (A → Result B) → Result B
ok a >>= f = f a
err e >>= f = err e

abbrev pub or_err {ℓ} : {A : Type ℓ} → OpError → Option A → Result A
or_err e none = err e
or_err e (some a) = ok a

pub Result-cases {ℓ} :
    {A : Type ℓ} (r : Result A) → ((a : A) × (r ≡ ok a)) ⊎ ((e : OpError) × (r ≡ err e))
Result-cases (ok a) = inl (a, refl)
Result-cases (err e) = inr (e, refl)

-- `STATE_OPS`
pub data OpType : Type 0 where
  nodes_added nodes_removed node_moved nodes_hidden nodes_shown edges_hidden edges_shown : OpType
  annotation_created annotation_updated annotation_deleted group_membership_changed : OpType
  session_renamed layout_applied : OpType

unfoldable pub op_name : OpType → String
op_name nodes_added = "nodes_added"
op_name nodes_removed = "nodes_removed"
op_name node_moved = "node_moved"
op_name nodes_hidden = "nodes_hidden"
op_name nodes_shown = "nodes_shown"
op_name edges_hidden = "edges_hidden"
op_name edges_shown = "edges_shown"
op_name annotation_created = "annotation_created"
op_name annotation_updated = "annotation_updated"
op_name annotation_deleted = "annotation_deleted"
op_name group_membership_changed = "group_membership_changed"
op_name session_renamed = "session_renamed"
op_name layout_applied = "layout_applied"

abbrev pub state_ops : List OpType
state_ops =
    nodes_added ∷ nodes_removed ∷ node_moved ∷ nodes_hidden ∷ nodes_shown ∷ edges_hidden
    ∷ edges_shown ∷ annotation_created ∷ annotation_updated ∷ annotation_deleted
    ∷ group_membership_changed ∷ session_renamed ∷ layout_applied ∷ []

unfoldable pub find_op : String → List OpType → Option OpType
find_op s [] = none
find_op s (t ∷ ts) = let rest = find_op s ts in if s == op_name t then some t else rest

unfoldable pub is_hashable : Json → Bool
is_hashable (array xs) = false
is_hashable (object fs) = false
is_hashable _ = true

-- `op_type in STATE_OPS`
unfoldable pub op_type_of : Json → Result OpType
op_type_of (text s) = or_err unknown_op (find_op s state_ops)
op_type_of j = if is_hashable j then err unknown_op else err unhashable

-- What a valid op asks for.
pub data Payload : Type 0 where
  add_nodes : List String → Payload
  remove_nodes : List String → Payload
  move_node : String → Position → Payload
  hide_nodes : List String → Payload
  show_nodes : List String → Payload
  hide_edges : List String → Payload
  show_edges : List String → Payload
  create_annotation : Object → Json → Payload
  update_annotation : String → Object → Payload
  delete_annotation : String → Payload
  set_members : String → List String → Payload
  rename : Option String → Payload
  apply_layout : Dict String Position → Payload

-- `_require_id_list`
unfoldable pub require_id_list : String → Object → Result (List String)
require_id_list key op = or_err bad_id_list (as_text_list (item key op))

-- `_validate_position`
unfoldable pub validate_position : Json → Result Position
validate_position v = do
  o ← or_err bad_position (as_object v)
  x ← or_err bad_position (as_number (item "x" o))
  y ← or_err bad_position (as_number (item "y" o))
  ok (record { x = x; y = y })

-- `_ANNOTATION_KINDS`
abbrev pub annotation_kinds : List String
annotation_kinds = "group" ∷ "note" ∷ "label" ∷ "arrow" ∷ []

unfoldable pub check_kind : Json → Result (Unit {0})
check_kind (text k) = if contains annotation_kinds k then ok tt else err bad_kind
check_kind j = if is_hashable j then err bad_kind else err unhashable

-- A `position` of `None` is let pass.
unfoldable pub check_position : Json → Result (Unit {0})
check_position null = ok tt
check_position v = do _ ← validate_position v; ok tt

unfoldable pub check_id : Bool → Json → Result (Unit {0})
check_id false v = ok tt
check_id true (text s) = ok tt
check_id true _ = err bad_annotation_id

-- `_validate_annotation`
unfoldable pub validate_annotation : Bool → Json → Result Object
validate_annotation require_id v = do
  o ← or_err not_an_object (as_object v)
  _ ← check_kind (item "kind" o)
  _ ← check_id require_id (item "id" o)
  _ ← check_position (item "position" o)
  ok o

unfoldable pub validate_positions : Object → Result (Dict String Position)
validate_positions [] = ok []
validate_positions ((nid, v) ∷ o) = do
  p ← validate_position v
  rest ← validate_positions o
  ok ((nid, p) ∷ rest)

-- `v or w`
unfoldable pub or_else : Json → Json → Json
or_else v w = if is_truthy v then v else w

unfoldable pub as_name : Json → Result (Option String)
as_name null = ok none
as_name (text s) = ok (some s)
as_name _ = err bad_name

unfoldable pub decode : OpType → Object → Result Payload
decode nodes_added op = do ids ← require_id_list "node_ids" op; ok (add_nodes ids)
decode nodes_removed op = do ids ← require_id_list "node_ids" op; ok (remove_nodes ids)
decode node_moved op = do
  node_id ← or_err bad_node_id (as_text (item "node_id" op))
  position ← validate_position (item "position" op)
  ok (move_node node_id position)
decode nodes_hidden op = do ids ← require_id_list "node_ids" op; ok (hide_nodes ids)
decode nodes_shown op = do ids ← require_id_list "node_ids" op; ok (show_nodes ids)
decode edges_hidden op = do ids ← require_id_list "edge_ids" op; ok (hide_edges ids)
decode edges_shown op = do ids ← require_id_list "edge_ids" op; ok (show_edges ids)
decode annotation_created op = do
  annotation ← validate_annotation false (item "annotation" op)
  ok (create_annotation annotation (item "client_id" op))
decode annotation_updated op = do
  annotation ← validate_annotation true (item "annotation" op)
  id ← or_err bad_annotation_id (as_text (item "id" annotation))
  ok (update_annotation id annotation)
decode annotation_deleted op = do
  id ← or_err bad_annotation_id (as_text (or_else (item "annotation_id" op) (item "id" op)))
  ok (delete_annotation id)
decode group_membership_changed op = do
  group_id ← or_err bad_group_id (as_text (item "group_id" op))
  members ← require_id_list "member_node_ids" op
  ok (set_members group_id members)
decode session_renamed op = do name ← as_name (item "name" op); ok (rename name)
decode layout_applied op = do
  positions ← or_err bad_positions (as_object (item "positions" op))
  valid ← validate_positions positions
  ok (apply_layout valid)

-- `CLAIM_OPS`; the flag says whether elements are claimed.
unfoldable pub claim_op_of : Json → Option Bool
claim_op_of (text s) =
    if s == "selection_claimed"
    then some true
    else if s == "selection_released"
    then some false
    else none
claim_op_of _ = none

-- `_validate_claim_op`
unfoldable pub validate_claim_op : Object → Result (List String)
validate_claim_op op = or_err bad_claim (as_text_list (item "element_ids" op))
