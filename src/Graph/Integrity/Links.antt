-- ===== src/Graph/Integrity/Links.antt =====
-- What the multigraph of an intact storage lists at a node.
use community_overview.Base.{
  ℕ, String, ◌≡◌, ap, sym, subst, ◌∙◌, some, Option-cases, inl, inr, List, [], ◌∷◌, arith,
  string_eq, nat_eq, All,
}
use mathlib.Core.List.{Memᴰ}
use community_overview.Base.Dict
use community_overview.Base.Dict.{Dict}
use community_overview.Graph.Models.{Edge}
use community_overview.Graph.Multigraph.{MultiDiGraph, IsLawful}
use community_overview.Graph.Storage.{GraphStorage, get_edge}
use community_overview.Graph.Integrity.{Intact, IsPlaced, ref_if}
use community_overview.Graph.Integrity.Parts.{edge_at-found}

-- The edge behind a reference of the multigraph.
pub record IsLink {G : MultiDiGraph} (st : GraphStorage G) (u v k : String) (r : ℕ) (e : Edge)
    : Type 0 where
  pub found : Dict.get r st.objects ≡ some e
  pub edge : get_edge k st ≡ some e
  pub key : e.id ≡ k
  pub source : e.source ≡ u
  pub target : e.target ≡ v

All-found {ℓ} : {A : Type ℓ} (P : A → Type 0) (x : A) (xs : List A) → All P xs → Memᴰ x xs → P x
All-found P x [] h m = elim m [ ]
All-found P x (y ∷ ys) h (Memᴰ.head e) = subst P (sym e) h.0
All-found P x (y ∷ ys) h (Memᴰ.tail m) = All-found P x ys h.1 m

module _ {G : MultiDiGraph} (L : IsLawful G) (st : GraphStorage G) (I : Intact st) where
  ref_if-some :
      (u v : String) (r q : ℕ) (e : Edge)
      → ref_if u v r (some e) ≡ some q
      → (r ≡ q) × (e.source ≡ u) × (e.target ≡ v)
  ref_if-some u v r q e h = ground (arith, h)

  edge_at-IsLink :
      (u v k : String) (r : ℕ)
      → G.edge_at u v k st.graph ≡ some r
      → (e : Edge) × IsLink st u v k r e
  unfolding get_edge
  edge_at-IsLink u v k r h = elim (Option-cases (Dict.get k st.edges)) [
    | inl z ↦ ground (arith, h, z, I.graph_edges u v k)
    | inr (q, z) ↦
        let (e, found, p) = I.placed k q z in
        let (same, source, target) = ref_if-some u v q r e (
          sym (edge_at-found L st.nodes st.edges st.objects st.next st.graph I u v k q e z found)
          ∙ h) in
        (
          e,
          record {
            found = ap (λ x. Dict.get x st.objects) (sym same) ∙ found;
            edge = rw (get_edge, z) found;
            key = p.key;
            source = source;
            target = target;
          },
        )
  ]

  -- An edge of the dict is in the multigraph, between two nodes.
  get_edge-edge_at :
      (k : String) (e : Edge)
      → get_edge k st ≡ some e
      → (r : ℕ) × (G.edge_at e.source e.target k st.graph ≡ some r) × IsPlaced st.nodes k e
  unfolding get_edge
  get_edge-edge_at k e h = elim (Option-cases (Dict.get k st.edges)) [
    | inl z ↦ ground (arith, h, z)
    | inr (r, z) ↦
        let (f, found, p) = I.placed k r z in
        let same : f ≡ e = ground (arith, h, z, found) in
        let at =
          edge_at-found L st.nodes st.edges st.objects st.next st.graph I e.source e.target k r e z
            (found ∙ ap some same) in
        (r, at ∙ ground arith, subst (IsPlaced st.nodes k) same p)
  ]

  pub out_edges-IsLink :
      (u v k : String) (r : ℕ)
      → Memᴰ (v, k, r) (G.out_edges u st.graph)
      → (e : Edge) × IsLink st u v k r e
  out_edges-IsLink u v k r m = edge_at-IsLink u v k r (
      All-found (λ x. G.edge_at u x.0 x.1 st.graph ≡ some x.2) (v, k, r) (G.out_edges u st.graph)
        (L.out_edges-sound u st.graph) m)

  pub in_edges-IsLink :
      (u v k : String) (r : ℕ)
      → Memᴰ (u, k, r) (G.in_edges v st.graph)
      → (e : Edge) × IsLink st u v k r e
  in_edges-IsLink u v k r m = edge_at-IsLink u v k r (
      All-found (λ x. G.edge_at x.0 v x.1 st.graph ≡ some x.2) (u, k, r) (G.in_edges v st.graph)
        (L.in_edges-sound v st.graph) m)

  -- An edge's listing at its source and at its target.
  pub get_edge-listed :
      (k : String) (e : Edge)
      → get_edge k st ≡ some e
      → (r : ℕ) × Memᴰ (e.target, k, r) (G.out_edges e.source st.graph)
        × Memᴰ (e.source, k, r) (G.in_edges e.target st.graph)
        × IsPlaced st.nodes k e
  get_edge-listed k e h =
      let (r, at, p) = get_edge-edge_at k e h in
      (
        r,
        L.out_edges-complete e.source e.target k r st.graph at,
        L.in_edges-complete e.source e.target k r st.graph at,
        p,
      )
