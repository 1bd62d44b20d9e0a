-- ===== src/Graph/Integrity/Added.antt =====
-- What `add_nodes` adds, and what it leaves alone, also where it fails.
use community_overview.Base.{
  String, ◌≡◌, refl, true, false, Option, some, Option-cases, inl, inr, List, [], ◌∷◌, ◌⊎◌,
  string_eq, nat_eq, map,
}
use community_overview.Base.Dict
use community_overview.Base.Dict.{Dict}
use community_overview.Event.Models.{EventContext}
use community_overview.Graph.Models.{Node, Edge}
use community_overview.Graph.Multigraph.{MultiDiGraph, IsLawful}
use community_overview.Graph.Storage.{GraphStorage, Emission, Env, get_edge, save, emit}
use community_overview.Graph.Insertion.{
  AddNodesResult, Step, done, stopped, name_to_id, insert_nodes, insert_edges, emit_nodes,
  emit_node_create, emit_edge_create, emit_edges, after_edges, after_nodes, add_nodes,
}
use community_overview.Graph.Integrity.{Intact}
use community_overview.Graph.Integrity.Additions.{left, insert_nodes-Intact}
use community_overview.Graph.Integrity.Naming.{names-IsNaming}
use community_overview.Graph.Integrity.Kept.{
  IsKept, IsGrown, insert_nodes-IsGrown, insert_edges-IsGrown, IsKept-trans,
}

module _ {G : MultiDiGraph} where
  emit_nodes-same :
      (ctx : Option EventContext) (ids : List String) (st : GraphStorage G)
      → (es : List Emission) × (emit_nodes ctx ids st ≡ record st { emitted = es })
  unfolding emit_nodes emit_node_create emit
  emit_nodes-same ctx [] st = (st.emitted, refl)
  emit_nodes-same ctx (id ∷ ids) st = elim (Option-cases (Dict.get id st.nodes)) [
    | inl z ↦ let (es, e) = emit_nodes-same ctx ids st in (es, rw (emit_nodes, z) e)
    | inr (n, z) ↦
        let (es, e) = emit_nodes-same ctx ids (emit_node_create ctx id n st) in
        (es, rw (emit_nodes, z) e)
  ]

  emit_edges-same :
      (env : Env) (ctx : Option EventContext) (ids : List String) (st : GraphStorage G)
      → (es : List Emission) × (emit_edges env ctx ids st ≡ record st { emitted = es })
  unfolding emit_edges emit_edge_create emit
  emit_edges-same env ctx [] st = (st.emitted, refl)
  emit_edges-same env ctx (id ∷ ids) st = elim (Option-cases (get_edge id st)) [
    | inl z ↦ let (es, e) = emit_edges-same env ctx ids st in (es, rw (emit_edges, z) e)
    | inr (f, z) ↦
        let (es, e) = emit_edges-same env ctx ids (emit_edge_create env ctx id f st) in
        (es, rw (emit_edges, z) e)
  ]

  -- What a call of `add_nodes` answers and leaves.
  pub record IsAddition (ns : List Node) (es : List Edge) (st : GraphStorage G) (r : AddNodesResult)
      (st' : GraphStorage G) : Type 0 where
    pub nodes :
        (id : String) (n : Node) → Dict.get id st.nodes ≡ some n → Dict.get id st'.nodes ≡ some n
    pub edges : (k : String) (e : Edge) → get_edge k st ≡ some e → get_edge k st' ≡ some e
    pub answer :
        (r.success ≡ true)
          × (r.added_node_ids ≡ map (λ n. n.id) ns)
          × (r.added_edge_ids ≡ map (λ e. e.id) es)
        ⊎ (r.success ≡ false)
          × (r.added_node_ids ≡ [])
          × (r.added_edge_ids ≡ [])
          × (st'.emitted ≡ st.emitted)

  IsAddition-failed :
      (ns : List Node) (es : List Edge) (st st' : GraphStorage G) (r : AddNodesResult)
      → IsKept st st'
      → r.success ≡ false
      → r.added_node_ids ≡ []
      → r.added_edge_ids ≡ []
      → IsAddition ns es st r st'
  IsAddition-failed ns es st st' r k f a b = record {
    nodes = k.nodes;
    edges = k.edges;
    answer = inr (f, a, b, k.emitted);
  }

  after_edges-IsAddition :
      (env : Env) (ctx : Option EventContext) (ns : List Node) (es : List Edge)
      (ids_n : List String) (st : GraphStorage G) (x : Step G)
      → ids_n ≡ map (λ n. n.id) ns
      → IsGrown [] (map (λ e. e.id) es) st x
      → IsAddition ns es st (after_edges env ctx ids_n x).0 (after_edges env ctx ids_n x).1
  unfolding after_edges save get_edge
  after_edges-IsAddition env ctx ns es ids_n st (stopped m st') same k =
      IsAddition-failed ns es st st' _ k refl refl refl
  after_edges-IsAddition env ctx ns es ids_n st (done ids st') same k =
      let (sent, e) = emit_nodes-same ctx ids_n (save st') in
      let (all, f) = emit_edges-same env ctx ids (record (save st') { emitted = sent }) in
      simp (e, f) (record { nodes = k.1.nodes; edges = k.1.edges; answer = inl (refl, same, k.0) })

  saved-IsKept : (st st' : GraphStorage G) → IsKept st st' → IsKept st (save st')
  unfolding save get_edge
  saved-IsKept st st' k = record { nodes = k.nodes; edges = k.edges; emitted = k.emitted }

  IsGrown-from :
      (ids new : List String) (st st' : GraphStorage G) (x : Step G)
      → IsKept st st'
      → IsGrown ids new st' x
      → IsGrown ids new st x
  IsGrown-from ids new st st' (done out st'') k g = (g.0, IsKept-trans st st' st'' k g.1)
  IsGrown-from ids new st st' (stopped m st'') k g = IsKept-trans st st' st'' k g

  module _ (L : IsLawful G) where
    after_nodes-IsAddition :
        (env : Env) (ctx : Option EventContext) (ns : List Node) (es : List Edge)
        (st : GraphStorage G) (x : Step G)
        → IsGrown [] (map (λ n. n.id) ns) st x
        → Intact (left L x)
        → IsAddition ns es st (after_nodes env es ctx x).0 (after_nodes env es ctx x).1
    unfolding after_nodes save get_edge
    after_nodes-IsAddition env ctx ns es st (stopped m st') k I =
        IsAddition-failed ns es st st' _ k refl refl refl
    after_nodes-IsAddition env ctx ns es st (done ids st') k I =
        elim (Option-cases (name_to_id st'.nodes [])) [
          | inl z ↦
              rw (after_nodes, z)
                (IsAddition-failed ns es st (save st') _ (saved-IsKept st st' k.1) refl refl refl)
          | inr (names, z) ↦
              let x = insert_edges names es [] (save st') in
              rw (after_nodes, z)
                (after_edges-IsAddition env ctx ns es ids st x k.0 (
                  IsGrown-from [] (map (λ e. e.id) es) st (save st') x (saved-IsKept st st' k.1) (
                    insert_edges-IsGrown L names es [] (save st') I
                      (names-IsNaming st'.nodes names z))))
        ]

    -- On an intact storage `add_nodes` leaves every node and edge that was there as it was, and
    -- either it succeeds and answers the ids of all the given nodes and edges, in order, or it
    -- fails, answers no ids and has emitted no event.
    pub add_nodes-IsAddition :
        (env : Env) (ns : List Node) (es : List Edge) (ctx : Option EventContext)
        (st : GraphStorage G)
        → Intact st
        → IsAddition ns es st (add_nodes env ns es ctx st).0 (add_nodes env ns es ctx st).1
    unfolding add_nodes
    add_nodes-IsAddition env ns es ctx st I =
        after_nodes-IsAddition env ctx ns es st (insert_nodes env ns [] st)
          (insert_nodes-IsGrown env ns [] st) (insert_nodes-Intact L env ns [] st I)
