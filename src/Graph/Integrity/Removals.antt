-- ===== src/Graph/Integrity/Removals.antt =====
-- `delete_nodes`, `delete_edge` and `delete_edges` keep the storage intact.
use community_overview.Base.{
  ℕ, String, ◌≡◌, refl, ap, sym, ◌∙◌, Bool, true, false, some, Option-cases, inl, inr, List, [],
  ◌∷◌, arith, string_eq, nat_eq, contains, All,
}
use community_overview.Base.Dict
use community_overview.Base.Dict.{Dict, NodupKeys, get-remove}
use community_overview.Base.Dict.Bulk.{
  keys_where, holds, unless-some, remove_all, contains-keys_where, get-drop_where,
  keys_where-Distinct,
}
use community_overview.Base.Distinct.{Distinct}
use community_overview.Graph.Models.{Edge}
use community_overview.Graph.Multigraph.{MultiDiGraph, IsLawful}
use community_overview.Graph.Storage.{GraphStorage, has_key, touches, get_edge}
use community_overview.Graph.Deletion.{
  removed, touching, remove_edge, remove_edges, remove_node, detach,
}
use community_overview.Graph.Integrity.{Intact}
use community_overview.Graph.Integrity.Parts.{drop_edge, remove_edge_ok, drop_node, remove_node_ok}

All-has_key-remove :
    (k : String) (d : Dict String ℕ) (ks : List String)
    → contains ks k ≡ false
    → All (λ j. has_key j d ≡ true) ks
    → All (λ j. has_key j (Dict.remove k d) ≡ true) ks
All-has_key-remove k d [] n h = tt
All-has_key-remove k d (j ∷ ks) n h =
    ground (arith, h.0, n, get-remove j k d, All-has_key-remove k d ks)

All-keys_where :
    (p : ℕ → Bool) (d : Dict String ℕ)
    → NodupKeys d
    → All (λ j. has_key j d ≡ true) (keys_where p d)
All-keys_where p d h =
    all_of (keys_where p d) (λ j c. ground (arith, contains-keys_where p j d h, c))
  where
    all_of :
        (ks : List String)
        → ((j : String) → contains ks j ≡ true → has_key j d ≡ true)
        → All (λ j. has_key j d ≡ true) ks
    all_of [] f = tt
    all_of (k ∷ ks) f = (f k (ground arith), all_of ks (λ j c. f j (ground (arith, c))))

module _ {G : MultiDiGraph} where
  abbrev pub without : List String → G.Graph → GraphStorage G → GraphStorage G
  without ks g st = record st { graph = g; edges = remove_all ks st.edges }

  abbrev pub detached : String → G.Graph → GraphStorage G → GraphStorage G
  detached n g st = record st {
    graph = g;
    nodes = Dict.remove n st.nodes;
    edges = remove_all (touching n st.objects st.edges) st.edges;
    text_cache = Dict.remove n st.text_cache;
  }

module _ {G : MultiDiGraph} (L : IsLawful G) where
  remove_edge-Intact :
      (k : String) (r : ℕ) (st : GraphStorage G)
      → Intact st
      → Dict.get k st.edges ≡ some r
      → (g : G.Graph) × (remove_edge k st
          ≡ removed (record st { graph = g; edges = Dict.remove k st.edges }))
        × Intact (record st { graph = g; edges = Dict.remove k st.edges })
  unfolding remove_edge get_edge
  remove_edge-Intact k r st I at =
      let (e, found, p) = I.placed k r at in
      let (g, cut) =
        remove_edge_ok L st.nodes st.edges st.objects st.next st.graph I k e r at found in
      (
        g,
        rw (remove_edge, at, found, cut) refl,
        drop_edge L st.nodes st.edges st.objects st.next st.graph I k e r g at found cut,
      )

  remove_edges-Intact :
      (ks : List String) (st : GraphStorage G)
      → Intact st
      → Distinct ks
      → All (λ k. has_key k st.edges ≡ true) ks
      → (g : G.Graph) × (remove_edges ks st ≡ removed (without ks g st)) × Intact (without ks g st)
  unfolding remove_edges remove_all
  remove_edges-Intact [] st I d h = (st.graph, refl, I)
  remove_edges-Intact (k ∷ ks) st I d h = elim (Option-cases (Dict.get k st.edges)) [
    | inl z ↦ ground (arith, z, h.0)
    | inr (r, at) ↦
        let (g, cut, J) = remove_edge-Intact k r st I at in
        let st' : GraphStorage G = record st { graph = g; edges = Dict.remove k st.edges } in
        let (g', cuts, J') =
          remove_edges-Intact ks st' J d.1 (All-has_key-remove k st.edges ks d.0 h.1) in
        (g', rw (remove_edges, cut) cuts, J')
  ]

  -- What is left does not touch the node.
  left_over :
      (n k : String) (r : ℕ) (e : Edge) (st : GraphStorage G)
      → Intact st
      → Dict.get k (remove_all (touching n st.objects st.edges) st.edges) ≡ some r
      → Dict.get r st.objects ≡ some e
      → touches n e ≡ false
  left_over n k r e st I at found =
      let test : ℕ → Bool = λ q. holds (touches n) (Dict.get q st.objects) in
      let same = sym (get-drop_where test k st.edges I.edges_once) ∙ at in
      let free : test r ≡ false = (unless-some test (Dict.get k st.edges) r same).1 in
      ap (holds (touches n)) (sym found) ∙ free

  -- A node of an intact storage is detached without an exception.
  pub detach-Intact :
      (n : String) (st : GraphStorage G)
      → Intact st
      → has_key n st.nodes ≡ true
      → (g : G.Graph) × (detach n st ≡ removed (detached n g st)) × Intact (detached n g st)
  unfolding detach remove_node
  detach-Intact n st I h =
      let ks = touching n st.objects st.edges in
      let test : ℕ → Bool = λ q. holds (touches n) (Dict.get q st.objects) in
      let (g, cuts, J) =
        remove_edges-Intact ks st I (keys_where-Distinct test st.edges I.edges_once)
          (All-keys_where test st.edges I.edges_once) in
      let (g', cut) =
        remove_node_ok L st.nodes (remove_all ks st.edges) st.objects st.next g J n h in
      (
        g',
        rw (detach, cuts, remove_node, cut) refl,
        drop_node L st.nodes (remove_all ks st.edges) st.objects st.next g J n g'
            (λ k r e at found. left_over n k r e st I at found) cut,
      )
