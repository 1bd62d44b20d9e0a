-- ===== src/Graph/Integrity/Additions.antt =====
-- `add_nodes` and `add_edge` keep the storage intact, also where they stop midway.
use community_overview.Base.{
  String, ◌≡◌, true, false, Bool-cases, Option, Option-cases, inl, inr, List, [], ◌∷◌, arith,
  string_eq,
}
use community_overview.Base.Dict
use community_overview.Base.Dict.{Dict}
use community_overview.Event.Models.{EventContext}
use community_overview.Graph.Models.{Node, Edge}
use community_overview.Graph.Multigraph.{MultiDiGraph, IsLawful}
use community_overview.Graph.Score.{build_searchable_text}
use community_overview.Graph.Storage.{GraphStorage, Env, has_key, get_edge, save, emit}
use community_overview.Graph.Insertion.{
  Step, done, stopped, name_to_id, resolve, attach, place_node, cache_text, insert_node,
  insert_nodes, insert_edge, insert_edges, emit_nodes, emit_node_create, emit_edge_create,
  emit_edges, after_edges, after_nodes, add_nodes,
}
use community_overview.Graph.Integrity.{Intact}
use community_overview.Graph.Integrity.Parts.{put_node, put_edge}
use community_overview.Graph.Integrity.Naming.{IsNaming, names-IsNaming, resolve-has_key}

module _ {G : MultiDiGraph} (L : IsLawful G) where
  abbrev pub left : Step G → GraphStorage G
  left (done ids st) = st
  left (stopped m st) = st

  pub place_node-Intact : (n : Node) (st : GraphStorage G) → Intact st → Intact (place_node n st)
  unfolding place_node
  place_node-Intact n st I =
      put_node L st.nodes st.edges st.objects st.next st.graph I n (G.add_node n.id st.graph)
        (λ m. L.has_node-add_node m n.id st.graph) (λ u v k. L.edge_at-add_node u v k n.id st.graph)

  pub attach-Intact :
      (e : Edge) (st : GraphStorage G)
      → Intact st
      → has_key e.id st.edges ≡ false
      → has_key e.source st.nodes ≡ true
      → has_key e.target st.nodes ≡ true
      → Intact (attach e st)
  unfolding attach
  attach-Intact e st I new hs ht =
      put_edge L st.nodes st.edges st.objects st.next st.graph I e (ground (arith, new)) hs ht

  pub insert_node-Intact :
      (env : Env) (n : Node) (ids : List String) (st : GraphStorage G)
      → Intact st
      → Intact (left (insert_node env n ids st))
  unfolding insert_node cache_text
  insert_node-Intact env n ids st I = elim (Bool-cases (has_key n.id st.nodes)) [
    | inl h ↦ rw h I
    | inr h ↦ elim (Option-cases (build_searchable_text env.strings st.type_texts n)) [
      | inl z ↦ rw (h, z) (place_node-Intact n st I)
      | inr (s, z) ↦ rw (h, z) (place_node-Intact n st I)
    ]
  ]

  pub insert_nodes-Intact :
      (env : Env) (ns : List Node) (ids : List String) (st : GraphStorage G)
      → Intact st
      → Intact (left (insert_nodes env ns ids st))
  unfolding insert_nodes
  insert_nodes-Intact env [] ids st I = I
  insert_nodes-Intact env (n ∷ ns) ids st I =
      after (insert_node env n ids st) (insert_node-Intact env n ids st I)
        (λ ids' st' I'. insert_nodes-Intact env ns ids' st' I')
    where
      after :
          (x : Step G)
          → Intact (left x)
          → ((ids' : List String) (st' : GraphStorage G)
              → Intact st'
              → Intact (left (insert_nodes env ns ids' st')))
          → Intact (
              left (elim x [
                | stopped m st' ↦ stopped m st'
                | done ids' st' ↦ insert_nodes env ns ids' st'
              ]))
      after (stopped m st') h go = h
      after (done ids' st') h go = go ids' st' h

  -- The loop over the edges adds no node, so that the names stay good.
  abbrev pub IsGood : Dict String String → Step G → Type 0
  IsGood names x = Intact (left x) × IsNaming names (left x).nodes

  pub insert_edge-IsGood :
      (names : Dict String String) (e : Edge) (ids : List String) (st : GraphStorage G)
      → Intact st
      → IsNaming names st.nodes
      → IsGood names (insert_edge names e ids st)
  unfolding insert_edge attach
  insert_edge-IsGood names e ids st I N = elim (Option-cases (resolve st.nodes names e.source)) [
    | inl z ↦ rw (insert_edge, z) (I, N)
    | inr (s, hs) ↦ elim (Option-cases (resolve st.nodes names e.target)) [
      | inl z ↦ rw (insert_edge, hs, z) (I, N)
      | inr (t, ht) ↦ elim (Bool-cases (has_key e.id st.edges)) [
        | inl z ↦ rw (insert_edge, hs, ht, z) (I, N)
        | inr z ↦
            rw (insert_edge, hs, ht, z)
              (
                attach-Intact (record e { source = s; target = t }) st I z
                    (resolve-has_key st.nodes names e.source s N hs)
                    (resolve-has_key st.nodes names e.target t N ht),
                N,
              )
      ]
    ]
  ]

  insert_edges-Intact :
      (names : Dict String String) (es : List Edge) (ids : List String) (st : GraphStorage G)
      → Intact st
      → IsNaming names st.nodes
      → Intact (left (insert_edges names es ids st))
  unfolding insert_edges
  insert_edges-Intact names [] ids st I N = I
  insert_edges-Intact names (e ∷ es) ids st I N =
      after (insert_edge names e ids st) (insert_edge-IsGood names e ids st I N)
        (λ ids' st' I' N'. insert_edges-Intact names es ids' st' I' N')
    where
      after :
          (x : Step G)
          → IsGood names x
          → ((ids' : List String) (st' : GraphStorage G)
              → Intact st'
              → IsNaming names st'.nodes
              → Intact (left (insert_edges names es ids' st')))
          → Intact (
              left (elim x [
                | stopped m st' ↦ stopped m st'
                | done ids' st' ↦ insert_edges names es ids' st'
              ]))
      after (stopped m st') h go = h.0
      after (done ids' st') h go = go ids' st' h.0 h.1

  emit_nodes-Intact :
      (ctx : Option EventContext) (ids : List String) (st : GraphStorage G)
      → Intact st
      → Intact (emit_nodes ctx ids st)
  unfolding emit_nodes emit_node_create emit
  emit_nodes-Intact ctx [] st I = I
  emit_nodes-Intact ctx (id ∷ ids) st I = elim (Option-cases (Dict.get id st.nodes)) [
    | inl z ↦ rw (emit_nodes, z) (emit_nodes-Intact ctx ids st I)
    | inr (n, z) ↦ rw (emit_nodes, z) (emit_nodes-Intact ctx ids _ I)
  ]

  emit_edges-Intact :
      (env : Env) (ctx : Option EventContext) (ids : List String) (st : GraphStorage G)
      → Intact st
      → Intact (emit_edges env ctx ids st)
  unfolding emit_edges emit_edge_create emit
  emit_edges-Intact env ctx [] st I = I
  emit_edges-Intact env ctx (id ∷ ids) st I = elim (Option-cases (get_edge id st)) [
    | inl z ↦ rw (emit_edges, z) (emit_edges-Intact env ctx ids st I)
    | inr (e, z) ↦ rw (emit_edges, z) (emit_edges-Intact env ctx ids _ I)
  ]

  after_edges-Intact :
      (env : Env) (ctx : Option EventContext) (ids : List String) (x : Step G)
      → Intact (left x)
      → Intact (after_edges env ctx ids x).1
  unfolding after_edges save
  after_edges-Intact env ctx ids (stopped m st) I = I
  after_edges-Intact env ctx ids (done edge_ids st) I =
      emit_edges-Intact env ctx edge_ids _ (emit_nodes-Intact ctx ids (save st) I)

  after_nodes-Intact :
      (env : Env) (es : List Edge) (ctx : Option EventContext) (x : Step G)
      → Intact (left x)
      → Intact (after_nodes env es ctx x).1
  unfolding after_nodes save
  after_nodes-Intact env es ctx (stopped m st) I = I
  after_nodes-Intact env es ctx (done ids st) I = elim (Option-cases (name_to_id st.nodes [])) [
    | inl z ↦ rw (after_nodes, z) I
    | inr (names, z) ↦
        rw (after_nodes, z)
          (after_edges-Intact env ctx ids (insert_edges names es [] (save st))
            (insert_edges-Intact names es [] (save st) I (names-IsNaming st.nodes names z)))
  ]

  pub add_nodes-Intact :
      (env : Env) (ns : List Node) (es : List Edge) (ctx : Option EventContext)
      (st : GraphStorage G)
      → Intact st
      → Intact (add_nodes env ns es ctx st).1
  unfolding add_nodes
  add_nodes-Intact env ns es ctx st I =
      after_nodes-Intact env es ctx (insert_nodes env ns [] st) (insert_nodes-Intact env ns [] st I)
