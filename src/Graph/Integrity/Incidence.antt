-- ===== src/Graph/Integrity/Incidence.antt =====
-- `get_incident_edges` finds what a scan over all edges finds.
use community_overview.Base.{
  ℕ, String, ◌≡◌, refl, ap, sym, subst, ◌∙◌, ◌↔◌, true, ◌&&◌, Bool-cases, some, Option-cases, inl,
  inr, List, [], ◌∷◌, arith, ◌==◌, string_eq, nat_eq, contains, keep,
}
use mathlib.Core.List.{Memᴰ}
use community_overview.Base.Dict
use community_overview.Base.Dict.{Dict, NodupKeys, get-put, put-NodupKeys}
use community_overview.Graph.Models.{Edge}
use community_overview.Graph.Multigraph.{MultiDiGraph, IsLawful}
use community_overview.Graph.Storage.{
  GraphStorage, has_key, touches, collect, get_edge, get_all_edges, collect_node, collect_nodes,
  get_incident_edges,
}
use community_overview.Graph.Integrity.{Intact}
use community_overview.Graph.Integrity.Clearing.{touches_any}
use community_overview.Graph.Integrity.Membership.{
  values-get, get-values, Memᴰ-keep, deref-get, get-deref,
}
use community_overview.Graph.Integrity.Links.{out_edges-IsLink, in_edges-IsLink, get_edge-listed}

module _ {G : MultiDiGraph} (L : IsLawful G) (st : GraphStorage G) (I : Intact st) where
  -- Every collected edge is one of the storage with an end among the nodes.
  abbrev IsSound : List String → Dict String Edge → Type 0
  IsSound ids d =
      (k : String) (e : Edge)
      → Dict.get k d ≡ some e
      → (get_edge k st ≡ some e) × (touches_any ids e ≡ true)

  abbrev IsGood : List String → List (String × String × ℕ) → Type 0
  IsGood ids xs =
      (n k : String) (r : ℕ)
      → Memᴰ (n, k, r) xs
      → (e : Edge) × (Dict.get r st.objects ≡ some e)
        × (e.id ≡ k)
        × (get_edge k st ≡ some e)
        × (touches_any ids e ≡ true)

  collect-IsSound :
      (ids : List String) (xs : List (String × String × ℕ)) (d : Dict String Edge)
      → IsGood ids xs
      → IsSound ids d
      → IsSound ids (collect st.objects xs d)
  unfolding collect
  collect-IsSound ids [] d g h = h
  collect-IsSound ids ((n, k, r) ∷ xs) d g h =
      let (e, found, id, edge, touch) = g n k r (Memᴰ.head refl) in
      let more : IsSound ids (Dict.put e.id e d) =
        λ j f at. ground (arith, at, get-put j e.id e d, h j f, id, edge, touch) in
      rw (collect, found)
        (collect-IsSound ids xs (Dict.put e.id e d) (λ m j q at. g m j q (Memᴰ.tail at)) more)

  collect-keeps :
      (j : String) (xs : List (String × String × ℕ)) (d : Dict String Edge)
      → has_key j d ≡ true
      → has_key j (collect st.objects xs d) ≡ true
  unfolding collect
  collect-keeps j [] d h = h
  collect-keeps j ((n, k, r) ∷ xs) d h = elim (Option-cases (Dict.get r st.objects)) [
    | inl z ↦ rw (collect, z) (collect-keeps j xs d h)
    | inr (e, z) ↦
        rw (collect, z)
          (collect-keeps j xs (Dict.put e.id e d) (ground (arith, h, get-put j e.id e d)))
  ]

  collect-has :
      (ids : List String) (n k : String) (r : ℕ) (xs : List (String × String × ℕ))
      (d : Dict String Edge)
      → IsGood ids xs
      → Memᴰ (n, k, r) xs
      → has_key k (collect st.objects xs d) ≡ true
  unfolding collect
  collect-has ids n k r [] d g m = elim m [ ]
  collect-has ids n k r ((m, j, q) ∷ xs) d g (Memᴰ.head same) =
      let (e, found, id, edge, touch) = g n k r (Memᴰ.head same) in
      let at : Dict.get q st.objects ≡ some e =
        ap (λ x. Dict.get x.2 st.objects) (sym same) ∙ found in
      rw (collect, at)
        (collect-keeps k xs (Dict.put e.id e d) (ground (arith, get-put k e.id e d, id)))
  collect-has ids n k r ((m, j, q) ∷ xs) d g (Memᴰ.tail later) =
      let more : IsGood ids xs = λ n' k' r' h. g n' k' r' (Memᴰ.tail h) in
      elim (Option-cases (Dict.get q st.objects)) [
        | inl z ↦ rw (collect, z) (collect-has ids n k r xs d more later)
        | inr (e, z) ↦ rw (collect, z) (collect-has ids n k r xs (Dict.put e.id e d) more later)
      ]

  collect-NodupKeys :
      (xs : List (String × String × ℕ)) (d : Dict String Edge)
      → NodupKeys d
      → NodupKeys (collect st.objects xs d)
  unfolding collect
  collect-NodupKeys [] d h = h
  collect-NodupKeys ((n, k, r) ∷ xs) d h = elim (Option-cases (Dict.get r st.objects)) [
    | inl z ↦ rw (collect, z) (collect-NodupKeys xs d h)
    | inr (e, z) ↦
        rw (collect, z) (collect-NodupKeys xs (Dict.put e.id e d) (put-NodupKeys e.id e d h))
  ]

  out-IsGood :
      (ids : List String) (n : String) → contains ids n ≡ true → IsGood ids (G.out_edges n st.graph)
  out-IsGood ids n c v k r m =
      let (e, l) = out_edges-IsLink L st I n v k r m in
      (e, l.found, l.key, l.edge, ground (arith, l.source, c))

  in-IsGood :
      (ids : List String) (n : String) → contains ids n ≡ true → IsGood ids (G.in_edges n st.graph)
  in-IsGood ids n c u k r m =
      let (e, l) = in_edges-IsLink L st I u n k r m in
      (e, l.found, l.key, l.edge, ground (arith, l.target, c))

  -- One node's edges are all there afterwards, and those from before too.
  collect_node-lem :
      (ids : List String) (n : String) (d : Dict String Edge)
      → contains ids n ≡ true
      → NodupKeys d
      → IsSound ids d
      → NodupKeys (collect_node n st d)
        × IsSound ids (collect_node n st d)
        × ((k : String) → has_key k d ≡ true → has_key k (collect_node n st d) ≡ true)
        × ((k : String) (e : Edge)
            → get_edge k st ≡ some e
            → touches n e ≡ true
            → has_key k (collect_node n st d) ≡ true)
  unfolding collect_node
  collect_node-lem ids n d c h s =
      let outs = G.out_edges n st.graph in
      let ins = G.in_edges n st.graph in
      let d' = collect st.objects outs d in
      elim (Bool-cases (has_key n st.nodes && G.has_node n st.graph)) [
        | inr z ↦
            rw (collect_node, z)
              (
                h,
                s,
                λ k m. m,
                λ k e at t.
                    let (r, o, i, p) = get_edge-listed L st I k e at in
                    ground (arith, z, t, p.source, p.target, I.graph_nodes n),
              )
        | inl z ↦
            rw (collect_node, z)
              (
                collect-NodupKeys ins d' (collect-NodupKeys outs d h),
                collect-IsSound ids ins d' (in-IsGood ids n c)
                    (collect-IsSound ids outs d (out-IsGood ids n c) s),
                λ k m. collect-keeps k ins d' (collect-keeps k outs d m),
                λ k e at t.
                    let (r, o, i, p) = get_edge-listed L st I k e at in
                    elim (Bool-cases (n == e.source)) [
                      | inl same ↦ collect-keeps k ins d' (
                          collect-has ids e.target k r outs d (out-IsGood ids n c)
                            (ground (arith, same, o)))
                      | inr other ↦
                          let here : n ≡ e.target = ground (arith, other, t) in
                          collect-has ids e.source k r ins d' (in-IsGood ids n c) (
                            subst (λ x. Memᴰ (e.source, k, r) (G.in_edges x st.graph)) (sym here) i)
                    ],
              )
      ]

  collect_nodes-lem :
      (ids ns : List String) (d : Dict String Edge)
      → ((n : String) → contains ns n ≡ true → contains ids n ≡ true)
      → NodupKeys d
      → IsSound ids d
      → NodupKeys (collect_nodes ns st d)
        × IsSound ids (collect_nodes ns st d)
        × ((k : String) → has_key k d ≡ true → has_key k (collect_nodes ns st d) ≡ true)
        × ((k : String) (e : Edge)
            → get_edge k st ≡ some e
            → touches_any ns e ≡ true
            → has_key k (collect_nodes ns st d) ≡ true)
  unfolding collect_nodes
  collect_nodes-lem ids [] d sub h s = (h, s, λ k m. m, λ k e at t. cc t)
  collect_nodes-lem ids (n ∷ ns) d sub h s =
      let (h1, s1, keep1, all1) = collect_node-lem ids n d (sub n (ground arith)) h s in
      let (h2, s2, keep2, all2) =
        collect_nodes-lem ids ns (collect_node n st d) (λ m c. sub m (ground (arith, c))) h1 s1 in
      (
        h2,
        s2,
        λ k m. keep2 k (keep1 k m),
        λ k e at t. elim (Bool-cases (touches n e)) [
          | inl here ↦ keep2 k (all1 k e at here)
          | inr other ↦ all2 k e at (ground (arith, t, other))
        ],
      )

  incident :
      (ids : List String) (e : Edge)
      → Memᴰ e (get_incident_edges ids st)
        ↔ ((get_edge e.id st ≡ some e) × (touches_any ids e ≡ true))
  unfolding get_incident_edges Dict.get
  incident ids e =
      let (h, s, keeps, all) = collect_nodes-lem ids ids [] (λ n c. c) tt (λ k f at. cc at) in
      (
        λ m.
            let (k, at) = values-get e (collect_nodes ids st []) h m in
            let (edge, touch) = s k e at in
            let (r, o, i, p) = get_edge-listed L st I k e edge in
            (subst (λ x. get_edge x st ≡ some e) (sym p.key) edge, touch),
        λ w. elim (Option-cases (Dict.get e.id (collect_nodes ids st []))) [
          | inl z ↦ ground (arith, z, all e.id e w.0 w.1)
          | inr (f, z) ↦
              let same : f ≡ e = ground (arith, (s e.id f z).0, w.0) in
              get-values e e.id (collect_nodes ids st []) (z ∙ ap some same)
        ],
      )

  scanned :
      (ids : List String) (e : Edge)
      → Memᴰ e (keep (touches_any ids) (get_all_edges st))
        ↔ ((get_edge e.id st ≡ some e) × (touches_any ids e ≡ true))
  unfolding get_all_edges get_edge
  scanned ids e =
      let (to, from) = Memᴰ-keep (touches_any ids) e (get_all_edges st) in
      (
        λ m.
            let (all, touch) = to m in
            let (r, at, found) = deref-get st.objects e (Dict.values st.edges) all in
            let (k, key) = values-get r st.edges I.edges_once at in
            let edge : get_edge k st ≡ some e = rw (get_edge, key) found in
            let (q, o, i, p) = get_edge-listed L st I k e edge in
            (subst (λ x. get_edge x st ≡ some e) (sym p.key) edge, touch),
        λ w. elim (Option-cases (Dict.get e.id st.edges)) [
          | inl z ↦ ground (arith, z, w.0)
          | inr (r, z) ↦ from (
            get-deref st.objects e r (Dict.values st.edges) (get-values r e.id st.edges z)
                (ground (arith, z, w.0)),
            w.1,
          )
        ],
      )

  -- On an intact storage `get_incident_edges`, which asks the multigraph, finds exactly the edges
  -- that a scan over all edges finds with an end among the ids.
  pub get_incident_edges-scan :
      (ids : List String) (e : Edge)
      → Memᴰ e (get_incident_edges ids st) ↔ Memᴰ e (keep (touches_any ids) (get_all_edges st))
  get_incident_edges-scan ids e =
      (λ m. (scanned ids e).1 ((incident ids e).0 m), λ m. (incident ids e).1 ((scanned ids e).0 m))
