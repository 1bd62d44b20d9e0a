-- ===== src/Graph/Related/Steps.antt =====
-- What a node of the layer, and the whole layer, adds to the traversal of an intact storage.
use community_overview.Base.{
  ℕ, String, ◌≡◌, subst, ◌⊎◌, ◌↔◌, true, Bool-cases, some, inl, inr, List, [], ◌∷◌, arith, ◌==◌,
  string_eq, nat_eq, contains,
}
use mathlib.Core.List.{Memᴰ}
use community_overview.Base.Dict
use community_overview.Base.Dict.{Dict}
use community_overview.Graph.Models.{Edge}
use community_overview.Graph.Multigraph.{MultiDiGraph, IsLawful}
use community_overview.Graph.Storage.{GraphStorage, get_edge}
use community_overview.Graph.Integrity.{Intact}
use community_overview.Graph.Integrity.Links.{out_edges-IsLink, in_edges-IsLink, get_edge-listed}
use community_overview.Graph.Related.{Walk, visit_node, visit_layer}
use community_overview.Graph.Related.Hops.{Leaves, Adjacent}
use community_overview.Graph.Related.Growth.{IsGrown, IsGrown-none, IsGrown-then}
use community_overview.Graph.Related.Met.{
  MetNode, MetEdge, visit_edges-IsGrown, MetNode-Memᴰ, MetEdge-Memᴰ,
}

abbrev pub FromAny : (String → String → Type 0) → List String → String → Type 0
FromAny P us v = (u : String) × (contains us u ≡ true) × P u v

FromAny-cons :
    (P : String → String → Type 0) (u : String) (us : List String) (v : String)
    → FromAny P (u ∷ us) v ↔ (P u v ⊎ FromAny P us v)
FromAny-cons P u us v = (
  λ h.
      let (x, c, p) = h in
      elim (Bool-cases (x == u)) [
        | inl same ↦ inl (subst (λ y. P y v) (ground (arith, same)) p)
        | inr other ↦ inr (x, ground (arith, c, other), p)
      ],
  λ h. elim h [ inl p ↦ (u, ground arith, p) | inr (x, c, p) ↦ (x, ground (arith, c), p) ],
)

module _ {G : MultiDiGraph} (L : IsLawful G) (types : List String) (st : GraphStorage G)
    (I : Intact st) where
  abbrev MetOut : String → String → Type 0
  MetOut u = MetNode types st.objects (G.out_edges u st.graph)

  abbrev MetIn : String → String → Type 0
  MetIn u = MetNode types st.objects (G.in_edges u st.graph)

  -- What an edge's listing says of it.
  out_entry :
      (u v k : String) (r : ℕ) (e : Edge)
      → Memᴰ (v, k, r) (G.out_edges u st.graph)
      → Dict.get r st.objects ≡ some e
      → (get_edge k st ≡ some e) × (e.source ≡ u) × (e.target ≡ v)
  out_entry u v k r e m found =
      let (f, l) = out_edges-IsLink L st I u v k r m in
      let same : f ≡ e = ground (arith, found, l.found) in
      ground (arith, same, l.edge, l.source, l.target)

  in_entry :
      (u v k : String) (r : ℕ) (e : Edge)
      → Memᴰ (v, k, r) (G.in_edges u st.graph)
      → Dict.get r st.objects ≡ some e
      → (get_edge k st ≡ some e) × (e.source ≡ v) × (e.target ≡ u)
  in_entry u v k r e m found =
      let (f, l) = in_edges-IsLink L st I v u k r m in
      let same : f ≡ e = ground (arith, found, l.found) in
      ground (arith, same, l.edge, l.source, l.target)

  out_listed :
      (k : String) (e : Edge)
      → get_edge k st ≡ some e
      → (r : ℕ) × Memᴰ (e.target, k, r) (G.out_edges e.source st.graph)
        × (Dict.get r st.objects ≡ some e)
  out_listed k e h =
      let (r, o, i, p) = get_edge-listed L st I k e h in
      let (f, l) = out_edges-IsLink L st I e.source e.target k r o in
      (r, o, ground (arith, l.found, l.edge, h))

  in_listed :
      (k : String) (e : Edge)
      → get_edge k st ≡ some e
      → (r : ℕ) × Memᴰ (e.source, k, r) (G.in_edges e.target st.graph)
        × (Dict.get r st.objects ≡ some e)
  in_listed k e h =
      let (r, o, i, p) = get_edge-listed L st I k e h in
      let (f, l) = in_edges-IsLink L st I e.source e.target k r i in
      (r, i, ground (arith, l.found, l.edge, h))

  Adjacent-met : (u v : String) → Adjacent types st u v ↔ (MetOut u v ⊎ MetIn u v)
  Adjacent-met u v =
      let outs = MetNode-Memᴰ types st.objects (G.out_edges u st.graph) v in
      let ins = MetNode-Memᴰ types st.objects (G.in_edges u st.graph) v in
      (
        λ a.
            let (k, e, edge, follow, ends) = a in
            elim ends [
              | inl (s, t) ↦
                  let (r, m, found) = out_listed k e edge in
                  let m' : Memᴰ (v, k, r) (G.out_edges u st.graph) = ground (arith, m, s, t) in
                  inl (outs.1 (k, r, m', (e, found, follow)))
              | inr (s, t) ↦
                  let (r, m, found) = in_listed k e edge in
                  let m' : Memᴰ (v, k, r) (G.in_edges u st.graph) = ground (arith, m, s, t) in
                  inr (ins.1 (k, r, m', (e, found, follow)))
            ],
        λ h. elim h [
          | inl o ↦
              let (k, r, m, (e, found, follow)) = outs.0 o in
              let (edge, s, t) = out_entry u v k r e m found in (k, e, edge, follow, inl (s, t))
          | inr i ↦
              let (k, r, m, (e, found, follow)) = ins.0 i in
              let (edge, s, t) = in_entry u v k r e m found in (k, e, edge, follow, inr (s, t))
        ],
      )

  Leaves-met :
      (u k : String)
      → Leaves types st u k ↔ (
          MetEdge types st.objects (G.out_edges u st.graph) k
          ⊎ MetEdge types st.objects (G.in_edges u st.graph) k)
  Leaves-met u k =
      let outs = MetEdge-Memᴰ types st.objects (G.out_edges u st.graph) k in
      let ins = MetEdge-Memᴰ types st.objects (G.in_edges u st.graph) k in
      (
        λ a.
            let (e, (edge, follow, touch)) = a in
            elim (Bool-cases (u == e.source)) [
              | inl s ↦
                  let (r, m, found) = out_listed k e edge in
                  let m' : Memᴰ (e.target, k, r) (G.out_edges u st.graph) = ground (arith, m, s) in
                  inl (outs.1 (e.target, r, m', (e, found, follow)))
              | inr s ↦
                  let (r, m, found) = in_listed k e edge in
                  let m' : Memᴰ (e.source, k, r) (G.in_edges u st.graph) =
                    ground (arith, m, s, touch) in
                  inr (ins.1 (e.source, r, m', (e, found, follow)))
            ],
        λ h. elim h [
          | inl o ↦
              let (v, r, m, (e, found, follow)) = outs.0 o in
              let (edge, s, t) = out_entry u v k r e m found in
              (e, (edge, follow, ground (arith, s)))
          | inr i ↦
              let (v, r, m, (e, found, follow)) = ins.0 i in
              let (edge, s, t) = in_entry u v k r e m found in
              (e, (edge, follow, ground (arith, t)))
        ],
      )

  visit_node-IsGrown :
      (u : String) (w : Walk)
      → IsGrown (Adjacent types st u) (Leaves types st u) w (visit_node types st u w)
  unfolding visit_node
  visit_node-IsGrown u w =
      IsGrown-then _ _ _ _ _ _ w _ _ (Adjacent-met u) (Leaves-met u)
        (visit_edges-IsGrown types st.objects (G.out_edges u st.graph) w)
        (visit_edges-IsGrown types st.objects (G.in_edges u st.graph) _)

  pub visit_layer-IsGrown :
      (us : List String) (w : Walk)
      → IsGrown
          (FromAny (Adjacent types st) us)
          (FromAny (Leaves types st) us)
          w
          (visit_layer types st us w)
  unfolding visit_layer
  visit_layer-IsGrown [] w = IsGrown-none _ _ w (λ v h. cc (h.1)) (λ v h. cc (h.1))
  visit_layer-IsGrown (u ∷ us) w =
      IsGrown-then _ _ _ _ _ _ w _ _ (FromAny-cons (Adjacent types st) u us)
        (FromAny-cons (Leaves types st) u us) (visit_node-IsGrown u w) (visit_layer-IsGrown us _)
