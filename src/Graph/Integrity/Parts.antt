-- ===== src/Graph/Integrity/Parts.antt =====
-- The steps by which the storage's methods change it keep it intact.
use community_overview.Base.{
  ℕ, ◌+◌, String, ◌≡◌, refl, sym, ap, ◌∙◌, true, false, ◌||◌, Bool-cases, none, some, Option-cases,
  inl, inr, arith, ◌==◌, string_eq, nat_eq,
}
use community_overview.Base.Dict
use community_overview.Base.Dict.{
  Dict, get-put, get-put_self, get-remove, put-NodupKeys, remove-NodupKeys,
}
use community_overview.Graph.Models.{Node, Edge}
use community_overview.Graph.Multigraph.{MultiDiGraph, IsLawful}
use community_overview.Graph.Storage.{has_key, touches}
use community_overview.Graph.Integrity.{ref_if, ref_at, IsPlaced, IsIntact}

module _ {G : MultiDiGraph} (L : IsLawful G) (nodes : Dict String Node) (edges : Dict String ℕ)
    (objects : Dict ℕ Edge) (next : ℕ) (graph : G.Graph)
    (I : IsIntact G nodes edges objects next graph) where
  IsPlaced-put :
      (k id : String) (e : Edge) (n : Node)
      → IsPlaced nodes k e
      → IsPlaced (Dict.put id n nodes) k e
  IsPlaced-put k id e n p = record {
    key = p.key;
    source = ground (arith, get-put e.source id n nodes, p.source);
    target = ground (arith, get-put e.target id n nodes, p.target);
  }

  -- A node under its id, new or in place of another.
  pub put_node :
      (n : Node) (g : G.Graph)
      → ((m : String) → G.has_node m g ≡ (m == n.id || G.has_node m graph))
      → ((u v k : String) → G.edge_at u v k g ≡ G.edge_at u v k graph)
      → IsIntact G (Dict.put n.id n nodes) edges objects next g
  put_node n g has at = record {
    nodes_once = put-NodupKeys n.id n nodes I.nodes_once;
    edges_once = I.edges_once;
    keyed = λ id m h. ground (arith, get-put id n.id n nodes, h, I.keyed id m);
    placed = λ k r h. let (e, found, p) = I.placed k r h in (e, found, IsPlaced-put k n.id e n p);
    fresh = I.fresh;
    graph_nodes = λ m. ground (arith, has m, I.graph_nodes m, get-put m n.id n nodes);
    graph_edges = λ u v k. at u v k ∙ I.graph_edges u v k;
  }

  -- What the multigraph has for an edge of the dict.
  pub edge_at-found :
      (u v k : String) (r : ℕ) (e : Edge)
      → Dict.get k edges ≡ some r
      → Dict.get r objects ≡ some e
      → G.edge_at u v k graph ≡ ref_if u v r (some e)
  edge_at-found u v k r e at found =
      I.graph_edges u v k ∙ (ap (λ o. ref_at u v o objects) at ∙ ap (ref_if u v r) found)

  -- A new object is at no reference of the dict.
  moved :
      (u v k : String) (e : Edge)
      → ref_at u v (Dict.get k edges) (Dict.put next e objects)
        ≡ ref_at u v (Dict.get k edges) objects
  moved u v k e = elim (Option-cases (Dict.get k edges)) [
    | inl n ↦ rw n refl
    | inr (r, h) ↦
        let (f, found, p) = I.placed k r h in
        rw h (ground (arith, get-put r next e objects, found, I.fresh r f))
  ]

  -- A new edge between two nodes, as a new object.
  pub put_edge :
      (e : Edge)
      → Dict.get e.id edges ≡ none
      → has_key e.source nodes ≡ true
      → has_key e.target nodes ≡ true
      → IsIntact G nodes
          (Dict.put e.id next edges)
          (Dict.put next e objects)
          (next + 1)
          (G.add_edge e.source e.target e.id next graph)
  put_edge e new hs ht = record {
    nodes_once = I.nodes_once;
    edges_once = put-NodupKeys e.id next edges I.edges_once;
    keyed = I.keyed;
    placed = λ k r h. elim (Bool-cases (k == e.id)) [
      | inl same ↦ (
        e,
        ground (arith, same, h, get-put k e.id next edges, get-put r next e objects),
        record { key = ground (arith, same); source = hs; target = ht },
      )
      | inr other ↦
          let (f, found, p) = I.placed k r (ground (arith, other, h, get-put k e.id next edges)) in
          (f, ground (arith, found, get-put r next e objects, I.fresh r f), p)
    ];
    fresh = λ r f h. ground (arith, get-put r next e objects, h, I.fresh r f);
    graph_nodes = λ m.
        ground (arith, L.has_node-add_edge m e.source e.target e.id next graph, I.graph_nodes m);
    graph_edges = λ u v k. elim (Bool-cases (k == e.id)) [
      | inl same ↦
          let absent : Dict.get k edges ≡ none = ground (arith, same, new) in
          let before : G.edge_at u v k graph ≡ none =
            I.graph_edges u v k ∙ ap (λ o. ref_at u v o objects) absent in
          rw (get-put, L.edge_at-add_edge, same, get-put_self) (ground (arith, before))
      | inr other ↦
          rw (get-put, L.edge_at-add_edge, other)
            (ground (arith, moved u v k e, I.graph_edges u v k))
    ];
  }

  -- An edge leaves the dict and the multigraph; its object stays.
  pub drop_edge :
      (k : String) (e : Edge) (r : ℕ) (g : G.Graph)
      → Dict.get k edges ≡ some r
      → Dict.get r objects ≡ some e
      → G.remove_edge e.source e.target k graph ≡ some g
      → IsIntact G nodes (Dict.remove k edges) objects next g
  drop_edge k e r g hk hr cut = record {
    nodes_once = I.nodes_once;
    edges_once = remove-NodupKeys k edges I.edges_once;
    keyed = I.keyed;
    placed = λ j q h. I.placed j q (ground (arith, get-remove j k edges, h));
    fresh = I.fresh;
    graph_nodes = λ m. L.has_node-remove_edge m e.source e.target k graph g cut ∙ I.graph_nodes m;
    graph_edges = λ u v j. elim (Bool-cases (j == k)) [
      | inl same ↦
          let at : Dict.get j edges ≡ some r = ground (arith, same, hk) in
          rw (get-remove, L.edge_at-remove_edge u v j e.source e.target k graph g cut, same)
            (ground (arith, edge_at-found u v j r e at hr))
      | inr other ↦
          rw (get-remove, L.edge_at-remove_edge u v j e.source e.target k graph g cut, other)
            (ground (arith, I.graph_edges u v j))
    ];
  }

  -- The multigraph has every edge of the dict, so that its removal does not raise.
  pub remove_edge_ok :
      (k : String) (e : Edge) (r : ℕ)
      → Dict.get k edges ≡ some r
      → Dict.get r objects ≡ some e
      → (g : G.Graph) × (G.remove_edge e.source e.target k graph ≡ some g)
  remove_edge_ok k e r hk hr =
      let at : G.edge_at e.source e.target k graph ≡ some r =
        edge_at-found e.source e.target k r e hk hr ∙ ground arith in
      elim (Option-cases (G.remove_edge e.source e.target k graph)) [
        | inl n ↦ absurd (L.remove_edge-present e.source e.target k graph (λ z. cc (at, z)) n)
        | inr found ↦ found
      ]

  -- A node that no edge touches leaves.
  pub drop_node :
      (n : String) (g : G.Graph)
      → ((k : String) (r : ℕ) (e : Edge)
          → Dict.get k edges ≡ some r
          → Dict.get r objects ≡ some e
          → touches n e ≡ false)
      → G.remove_node n graph ≡ some g
      → IsIntact G (Dict.remove n nodes) edges objects next g
  drop_node n g free cut = record {
    nodes_once = remove-NodupKeys n nodes I.nodes_once;
    edges_once = I.edges_once;
    keyed = λ id m h. I.keyed id m (ground (arith, get-remove id n nodes, h));
    placed = λ k r h.
        let (e, found, p) = I.placed k r h in
        let away = free k r e h found in
        (
          e,
          found,
          record {
            key = p.key;
            source = ground (arith, get-remove e.source n nodes, p.source, away);
            target = ground (arith, get-remove e.target n nodes, p.target, away);
          },
        );
    fresh = I.fresh;
    graph_nodes = λ m.
        ground
          (arith, L.has_node-remove_node m n graph g cut, I.graph_nodes m, get-remove m n nodes);
    graph_edges = λ u v k. elim (Option-cases (Dict.get k edges)) [
      | inl none_at ↦
          rw (L.edge_at-remove_node u v k n graph g cut, none_at)
            (ground (arith, I.graph_edges u v k, none_at))
      | inr (r, at) ↦
          let (e, found, p) = I.placed k r at in
          rw (L.edge_at-remove_node u v k n graph g cut, at, found)
            (ground (arith, edge_at-found u v k r e at found, free k r e at found))
    ];
  }

  pub remove_node_ok :
      (n : String) → has_key n nodes ≡ true → (g : G.Graph) × (G.remove_node n graph ≡ some g)
  remove_node_ok n h = elim (Option-cases (G.remove_node n graph)) [
    | inl z ↦ absurd (L.remove_node-present n graph (I.graph_nodes n ∙ h) z)
    | inr found ↦ found
  ]

  -- An object changes, but not its id and its ends.
  pub change_object :
      (r : ℕ) (e f : Edge)
      → Dict.get r objects ≡ some e
      → f.id ≡ e.id
      → f.source ≡ e.source
      → f.target ≡ e.target
      → IsIntact G nodes edges (Dict.put r f objects) next graph
  change_object r e f hr id source target = record {
    nodes_once = I.nodes_once;
    edges_once = I.edges_once;
    keyed = I.keyed;
    placed = λ k q h.
        let (d, found, p) = I.placed k q h in
        elim (Bool-cases (q == r)) [
          | inr other ↦ (d, rw (get-put, other) found, p)
          | inl same ↦
              let de : d ≡ e = ground (arith, same, found, hr) in
              (
                f,
                rw (get-put, same) refl,
                record {
                  key = id ∙ (ap (λ (x : Edge). x.id) (sym de) ∙ p.key);
                  source =
                      ap (λ s. has_key s nodes) (source ∙ ap (λ (x : Edge). x.source) (sym de))
                      ∙ p.source;
                  target =
                      ap (λ s. has_key s nodes) (target ∙ ap (λ (x : Edge). x.target) (sym de))
                      ∙ p.target;
                },
              )
        ];
    fresh = λ q d h. ground (arith, get-put q r f objects, h, I.fresh q d, I.fresh r e);
    graph_nodes = I.graph_nodes;
    graph_edges = λ u v k. elim (Option-cases (Dict.get k edges)) [
      | inl n ↦ rw n (ground (arith, I.graph_edges u v k, n))
      | inr (q, at) ↦
          let (d, found, p) = I.placed k q at in
          elim (Bool-cases (q == r)) [
            | inr other ↦ rw (at, get-put, other) (I.graph_edges u v k ∙ rw at refl)
            | inl same ↦
                let de : d ≡ e = ground (arith, same, found, hr) in
                rw (at, get-put, same)
                  (ground (arith, edge_at-found u v k q d at found, de, source, target))
          ]
    ];
  }
