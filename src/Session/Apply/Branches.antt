-- ===== src/Session/Apply/Branches.antt =====
-- Each branch of `SessionStore.apply_state_op` leaves a well-formed session.
use community_overview.Base.{
  ℕ, ◌+◌, ◌≤◌, ◌<◌, String, ◌&&◌, not, none, List, [], ◌∷◌, arith, leb, string_eq, contains, length,
  length-append, length-keep-le, All, All-append, Bool-cases, Option-cases, inl, inr,
}
use community_overview.Base.Dict.{NodupKeys, put-NodupKeys}
use community_overview.Base.Distinct.{Distinct}
use community_overview.Json.{Json, Object, item, as_text}
use community_overview.Session.State.{Session, State, remove_all, find_annotation, object_at}
use community_overview.Session.Ops.{
  Result, ok, err, Payload, add_nodes, remove_nodes, move_node, hide_nodes, show_nodes, hide_edges,
  show_edges, create_annotation, update_annotation, delete_annotation, set_members, rename,
  apply_layout,
}
use community_overview.Session.Perform.{
  Config, Env, Effect, changed, ignored, broken, perform, do_remove_nodes, do_create, do_update,
  do_delete, do_set_members, append_annotation, upsert_annotation, rewrite_object, prune_members,
  drop_positions, without_id, has_id, is_group,
}
use community_overview.Session.Apply.Lists.{
  union-Distinct, remove_all-Distinct, drop_positions-NodupKeys, update_positions-NodupKeys,
  length-set_object, length-prune_members, All-keep, All-weaken,
}

pub record IsWellFormed (max_annotations : ℕ) (s : Session) : Type 0 where
  pub nodes : Distinct s.state.node_refs
  pub hidden_nodes : Distinct s.state.hidden_node_ids
  pub hidden_edges : Distinct s.state.hidden_edge_ids
  pub positions : NodupKeys s.state.positions
  pub in_heap : All (λ r. r < length s.objects) s.state.annotations
  pub few : length s.state.annotations ≤ max_annotations

-- A predicate on the session that an effect leaves.
abbrev pub Yields : (Session → Type 0) → Effect → Type 0
Yields P (changed s fields annotation) = P s
Yields P ignored = Unit
Yields P (broken e s) = P s

module _ (cfg : Config) (env : Env) (op : Object) (s : Session)
    (w : IsWellFormed cfg.max_annotations s) where
  -- A change of one annotation in place.
  rewrite_object-IsWellFormed :
      (r : ℕ) (o : Object) → IsWellFormed cfg.max_annotations (rewrite_object r o s)
  unfolding rewrite_object
  rewrite_object-IsWellFormed r o = record {
    nodes = w.nodes;
    hidden_nodes = w.hidden_nodes;
    hidden_edges = w.hidden_edges;
    positions = w.positions;
    in_heap = rw length-set_object w.in_heap;
    few = w.few;
  }

  append_annotation-Yields :
      (a : Object) (client : Json)
      → Yields (IsWellFormed cfg.max_annotations) (append_annotation cfg env a client op s)
  unfolding append_annotation
  append_annotation-Yields a client =
      elim (Bool-cases (leb cfg.max_annotations (length s.state.annotations))) [
        | inl full ↦ rw full w
        | inr room ↦ rw room (record {
          nodes = w.nodes;
          hidden_nodes = w.hidden_nodes;
          hidden_edges = w.hidden_edges;
          positions = w.positions;
          in_heap = rw length-append (
              All-append (λ r. r < length s.objects + 1) s.state.annotations (length s.objects ∷ [])
                (All-weaken (length s.objects) (length s.objects + 1) s.state.annotations
                  (omega arith) w.in_heap)
                (omega arith, tt));
          few = ground (arith, length-append s.state.annotations (length s.objects ∷ []));
        })
      ]

  upsert_annotation-Yields :
      (id : String) (a : Object) (client : Json)
      → Yields (IsWellFormed cfg.max_annotations) (upsert_annotation cfg env id a client op s)
  unfolding upsert_annotation
  upsert_annotation-Yields id a client = elim (Bool-cases (contains s.deleted_annotation_ids id)) [
    | inl gone ↦ rw gone tt
    | inr new ↦
        rw new (elim (Option-cases (find_annotation (has_id id) s.objects s.state.annotations)) [
          | inl e ↦ rw e (append_annotation-Yields a client)
          | inr (r, e) ↦ rw e (rewrite_object-IsWellFormed r _)
        ])
  ]

  do_create-Yields :
      (a : Object) (client : Json)
      → Yields (IsWellFormed cfg.max_annotations) (do_create cfg env a client op s)
  unfolding do_create
  do_create-Yields a client = elim (Option-cases (as_text (item "id" a))) [
    | inl e ↦ rw (e, do_create) (append_annotation-Yields a client)
    | inr (id, e) ↦ rw (e, do_create) (upsert_annotation-Yields id a client)
  ]

  do_update-Yields :
      (id : String) (a : Object)
      → Yields (IsWellFormed cfg.max_annotations) (do_update env id a op s)
  unfolding do_update
  do_update-Yields id a =
      elim (Option-cases (find_annotation (has_id id) s.objects s.state.annotations)) [
        | inl e ↦ rw (e, do_update) tt
        | inr (r, e) ↦ rw (e, do_update) (rewrite_object-IsWellFormed r _)
      ]

  do_set_members-Yields :
      (id : String) (members : List String)
      → Yields (IsWellFormed cfg.max_annotations) (do_set_members env id members op s)
  unfolding do_set_members
  do_set_members-Yields id members =
      elim (Option-cases
        (find_annotation (λ o. has_id id o && is_group o) s.objects s.state.annotations)) [
          | inl e ↦ rw (e, do_set_members) w
          | inr (r, e) ↦ rw (e, do_set_members) (rewrite_object-IsWellFormed r _)
        ]

  do_delete-Yields : (id : String) → Yields (IsWellFormed cfg.max_annotations) (do_delete id op s)
  unfolding do_delete without_id
  do_delete-Yields id = record {
    nodes = w.nodes;
    hidden_nodes = w.hidden_nodes;
    hidden_edges = w.hidden_edges;
    positions = w.positions;
    in_heap = All-keep (λ r. r < length s.objects) _ s.state.annotations w.in_heap;
    few = omega (
      arith,
      length-keep-le (λ r. not (has_id id (object_at s.objects r))) s.state.annotations,
      w.few,
    );
  }

  do_remove_nodes-Yields :
      (ids : List String) → Yields (IsWellFormed cfg.max_annotations) (do_remove_nodes ids op s)
  unfolding do_remove_nodes
  do_remove_nodes-Yields ids =
      let st' : State = record s.state {
        node_refs = remove_all s.state.node_refs ids;
        positions = drop_positions ids s.state.positions;
        hidden_node_ids = remove_all s.state.hidden_node_ids ids;
      } in
      let os = (prune_members ids s.state.annotations s.objects).0 in
      let good : IsWellFormed cfg.max_annotations (record s { state = st'; objects = os }) =
        record {
          nodes = remove_all-Distinct s.state.node_refs ids w.nodes;
          hidden_nodes = remove_all-Distinct s.state.hidden_node_ids ids w.hidden_nodes;
          hidden_edges = w.hidden_edges;
          positions = drop_positions-NodupKeys ids s.state.positions w.positions;
          in_heap = rw length-prune_members w.in_heap;
          few = w.few;
        } in
      either (prune_members ids s.state.annotations s.objects).1 good
    where
      either :
          {s' : Session} (r : Result (Unit {0}))
          → IsWellFormed cfg.max_annotations s'
          → Yields
              (IsWellFormed cfg.max_annotations)
              (elim r [ ok _ ↦ changed s' op none | err e ↦ broken e s' ])
      either (ok _) good = good
      either (err e) good = good

  pub perform-Yields :
      (p : Payload) → Yields (IsWellFormed cfg.max_annotations) (perform cfg env p op s)
  unfolding perform
  perform-Yields (add_nodes ids) = record {
    nodes = union-Distinct s.state.node_refs ids w.nodes;
    hidden_nodes = w.hidden_nodes;
    hidden_edges = w.hidden_edges;
    positions = w.positions;
    in_heap = w.in_heap;
    few = w.few;
  }
  perform-Yields (remove_nodes ids) = do_remove_nodes-Yields ids
  perform-Yields (move_node nid p) = record {
    nodes = w.nodes;
    hidden_nodes = w.hidden_nodes;
    hidden_edges = w.hidden_edges;
    positions = put-NodupKeys nid p s.state.positions w.positions;
    in_heap = w.in_heap;
    few = w.few;
  }
  perform-Yields (hide_nodes ids) = record {
    nodes = w.nodes;
    hidden_nodes = union-Distinct s.state.hidden_node_ids ids w.hidden_nodes;
    hidden_edges = w.hidden_edges;
    positions = w.positions;
    in_heap = w.in_heap;
    few = w.few;
  }
  perform-Yields (show_nodes ids) = record {
    nodes = w.nodes;
    hidden_nodes = remove_all-Distinct s.state.hidden_node_ids ids w.hidden_nodes;
    hidden_edges = w.hidden_edges;
    positions = w.positions;
    in_heap = w.in_heap;
    few = w.few;
  }
  perform-Yields (hide_edges ids) = record {
    nodes = w.nodes;
    hidden_nodes = w.hidden_nodes;
    hidden_edges = union-Distinct s.state.hidden_edge_ids ids w.hidden_edges;
    positions = w.positions;
    in_heap = w.in_heap;
    few = w.few;
  }
  perform-Yields (show_edges ids) = record {
    nodes = w.nodes;
    hidden_nodes = w.hidden_nodes;
    hidden_edges = remove_all-Distinct s.state.hidden_edge_ids ids w.hidden_edges;
    positions = w.positions;
    in_heap = w.in_heap;
    few = w.few;
  }
  perform-Yields (create_annotation a client) = do_create-Yields a client
  perform-Yields (update_annotation id a) = do_update-Yields id a
  perform-Yields (delete_annotation id) = do_delete-Yields id
  perform-Yields (set_members id members) = do_set_members-Yields id members
  perform-Yields (rename name) = record {
    nodes = w.nodes;
    hidden_nodes = w.hidden_nodes;
    hidden_edges = w.hidden_edges;
    positions = w.positions;
    in_heap = w.in_heap;
    few = w.few;
  }
  perform-Yields (apply_layout ps) = record {
    nodes = w.nodes;
    hidden_nodes = w.hidden_nodes;
    hidden_edges = w.hidden_edges;
    positions = update_positions-NodupKeys s.state.positions ps w.positions;
    in_heap = w.in_heap;
    few = w.few;
  }
