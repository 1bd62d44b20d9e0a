-- ===== src/Graph/Integrity/Deletions.antt =====
-- What `delete_nodes`, `delete_edge` and `delete_edges` do to an intact storage.
use community_overview.Base.{
  ◌≤◌, String, ◌≡◌, refl, Bool, true, false, ◌&&◌, Bool-cases, Option, none, inl, inr, List, [],
  ◌∷◌, arith, string_eq, nat_eq, contains, ltb, length, if◌then◌else◌,
}
use community_overview.Base.Dict
use community_overview.Base.Dict.{Dict}
use community_overview.Base.Dict.Bulk.{holds, unless}
use community_overview.Event.Models.{EventContext}
use community_overview.Graph.Models.{Node, Edge}
use community_overview.Graph.Multigraph.{MultiDiGraph, IsLawful}
use community_overview.Graph.Storage.{GraphStorage, Emission, Env, has_key, get_edge, save, emit}
use community_overview.Graph.Deletion.{
  deleted, DeleteNodesResult, Progress, finished, begin, emit_edge_delete, emit_edge_deletes,
  emit_node_deletes, after_loop, delete_nodes,
}
use community_overview.Graph.Integrity.{Intact}
use community_overview.Graph.Integrity.Clearing.{touches_any, delete_loop-IsCleared}

module _ {G : MultiDiGraph} where
  -- Emissions change nothing else.
  pub emit_edge_deletes-same :
      (env : Env) (ctx : Option EventContext) (d : Dict String Edge) (st : GraphStorage G)
      → (es : List Emission) × (emit_edge_deletes env ctx d st ≡ record st { emitted = es })
  unfolding emit_edge_deletes emit_edge_delete emit
  emit_edge_deletes-same env ctx [] st = (st.emitted, refl)
  emit_edge_deletes-same env ctx ((k, e) ∷ d) st =
      emit_edge_deletes-same env ctx d (emit_edge_delete env ctx k e st)

  pub emit_node_deletes-same :
      (ctx : Option EventContext) (d : Dict String Node) (st : GraphStorage G)
      → (es : List Emission) × (emit_node_deletes ctx d st ≡ record st { emitted = es })
  unfolding emit_node_deletes emit
  emit_node_deletes-same ctx [] st = (st.emitted, refl)
  emit_node_deletes-same ctx ((k, n) ∷ d) st = emit_node_deletes-same ctx d (emit _ st)

  -- A whole deletion, when the vector store does its part.
  after_loop-finished :
      (env : Env) (ctx : Option EventContext) (p : Progress G)
      → env.embeddings_removed ≡ true
      → (es : List Emission) × (after_loop env ctx (finished p) ≡ (
        record {
          deleted_node_ids = p.deleted_node_ids;
          affected_edge_ids = p.affected_edge_ids;
          success = true;
          message = deleted;
        },
        record (save p.storage) { emitted = es },
      ))
  unfolding after_loop
  after_loop-finished env ctx p ok =
      let (es, e) = emit_edge_deletes-same env ctx p.edge_states (save p.storage) in
      let (es', e') =
        emit_node_deletes-same ctx p.node_states (record (save p.storage) { emitted = es }) in
      (es', simp (after_loop, ok, e, e'))

  -- What a deletion of nodes answers and leaves.
  pub record IsDeletion (ids : List String) (st : GraphStorage G) (r : DeleteNodesResult)
      (st' : GraphStorage G) : Type 0 where
    pub success : r.success ≡ true
    pub nodes :
        (n : String) → Dict.get n st'.nodes ≡ (if contains ids n then none else Dict.get n st.nodes)
    pub edges : (k : String) → get_edge k st' ≡ unless (touches_any ids) (get_edge k st)
    pub deleted_node_ids :
        (n : String) → contains r.deleted_node_ids n ≡ (contains ids n && has_key n st.nodes)
    pub affected_edge_ids :
        (k : String) → contains r.affected_edge_ids k ≡ holds (touches_any ids) (get_edge k st)

  module _ (L : IsLawful G) where
    -- On an intact storage a confirmed deletion of at most ten ids succeeds when the vector
    -- store does its part: the nodes under these ids are gone, an edge is gone exactly if one
    -- of its ends is among the ids, everything else stands as before, and the answer names
    -- exactly the nodes and the edges that are gone.
    pub delete_nodes-IsDeletion :
        (env : Env) (ids : List String) (ctx : Option EventContext) (st : GraphStorage G)
        → Intact st
        → length ids ≤ 10
        → env.embeddings_removed ≡ true
        → IsDeletion ids st
            (delete_nodes env ids true ctx st).0
            (delete_nodes env ids true ctx st).1
    unfolding delete_nodes save get_edge
    delete_nodes-IsDeletion env ids ctx st I few ok =
        let (q, run, c) = delete_loop-IsCleared L ids (begin st) I in
        let (es, e) = after_loop-finished env ctx q ok in
        let small : ltb 10 (length ids) ≡ false = ground (arith, few) in
        rw (delete_nodes, small, run, e)
          (record {
            success = refl;
            nodes = c.nodes;
            edges = c.edges;
            deleted_node_ids = c.deleted;
            affected_edge_ids = c.affected;
          })

    pub delete_nodes-Intact :
        (env : Env) (ids : List String) (confirmed : Bool) (ctx : Option EventContext)
        (st : GraphStorage G)
        → Intact st
        → Intact (delete_nodes env ids confirmed ctx st).1
    unfolding delete_nodes after_loop save
    delete_nodes-Intact env ids confirmed ctx st I =
        let (q, run, c) = delete_loop-IsCleared L ids (begin st) I in
        elim (Bool-cases (ltb 10 (length ids))) [
          | inl z ↦ rw (delete_nodes, z) I
          | inr z ↦ elim (Bool-cases confirmed) [
            | inr y ↦ rw (delete_nodes, z, y) I
            | inl y ↦ elim (Bool-cases env.embeddings_removed) [
              | inr x ↦ rw (delete_nodes, z, y, run, after_loop, x) c.intact
              | inl x ↦
                  let (es, e) = after_loop-finished env ctx q x in
                  rw (delete_nodes, z, y, run, e) c.intact
            ]
          ]
        ]
