-- ===== src/Graph/Integrity/Changes.antt =====
-- `update_node` and `update_edge` keep the storage intact, also where they stop midway: no update
-- reaches an id or an end.
use community_overview.Base.{
  String, ◌≡◌, refl, subst, ◌∙◌, ◌||◌, Bool-cases, Option, some, Option-cases, inl, inr, [], ◌∷◌,
  arith, ◌==◌, string_eq, nat_eq,
}
use community_overview.Base.Dict
use community_overview.Base.Dict.{Dict}
use community_overview.Json.{Json, Object}
use community_overview.Event.Models.{EventContext}
use community_overview.Graph.Models.{Node, Edge}
use community_overview.Graph.Multigraph.{MultiDiGraph, IsLawful}
use community_overview.Graph.Score.{Strings, build_searchable_text}
use community_overview.Graph.Storage.{GraphStorage, Env, save, emit}
use community_overview.Graph.Insertion.{cache_text}
use community_overview.Graph.Change.{
  set_field, set_fields, fold_extra, set_edge_field, set_edge_fields, with_node, store_updated,
  update_node, update_edge,
}
use community_overview.Graph.Integrity.{Intact}
use community_overview.Graph.Integrity.Parts.{put_node, change_object}

set_field-id : (key : String) (v : Json) (n : Node) → (set_field key v n).id ≡ n.id
unfolding set_field
set_field-id key v n = ground arith

set_fields-id : (u : Object) (n : Node) → (set_fields u n).id ≡ n.id
unfolding set_fields
set_fields-id [] n = refl
set_fields-id ((key, v) ∷ u) n = set_fields-id u _ ∙ ground (arith, set_field-id key v n)

fold_extra-id : (p : Strings) (u : Object) (n m : Node) → fold_extra p u n ≡ some m → m.id ≡ n.id
unfolding fold_extra
fold_extra-id p u n m e = ground (arith, e)

set_edge_field-ends :
    (key : String) (v : Json) (e : Edge)
    → ((set_edge_field key v e).id ≡ e.id)
      × ((set_edge_field key v e).source ≡ e.source)
      × ((set_edge_field key v e).target ≡ e.target)
unfolding set_edge_field
set_edge_field-ends key v e = ground arith

set_edge_fields-ends :
    (u : Object) (e : Edge)
    → ((set_edge_fields u e).id ≡ e.id)
      × ((set_edge_fields u e).source ≡ e.source)
      × ((set_edge_fields u e).target ≡ e.target)
unfolding set_edge_fields
set_edge_fields-ends [] e = (refl, refl, refl)
set_edge_fields-ends ((key, v) ∷ u) e =
    ground (arith, set_edge_fields-ends u (set_edge_field key v e), set_edge_field-ends key v e)

module _ {G : MultiDiGraph} (L : IsLawful G) where
  -- A node in place of itself.
  with_node-Intact :
      (id : String) (old n : Node) (st : GraphStorage G)
      → Intact st
      → Dict.get id st.nodes ≡ some old
      → n.id ≡ old.id
      → Intact (with_node id n st)
  with_node-Intact id old n st I at same =
      let here : n.id ≡ id = same ∙ I.keyed id old at in
      let has : (m : String) → G.has_node m st.graph ≡ (m == n.id || G.has_node m st.graph) =
        λ m. ground (arith, here, at, I.graph_nodes id) in
      subst (λ k. Intact (with_node k n st)) here
        (put_node L st.nodes st.edges st.objects st.next st.graph I n st.graph has (λ u v k. refl))

  store_updated-Intact :
      (env : Env) (id : String) (old n : Node) (ctx : Option EventContext) (st : GraphStorage G)
      → Intact (with_node id n st)
      → Intact (store_updated env id old n ctx st).1
  unfolding store_updated save emit cache_text
  store_updated-Intact env id old n ctx st I = elim (Bool-cases (G.has_node id st.graph)) [
    | inr z ↦ rw (store_updated, z) I
    | inl h ↦ elim (Option-cases (build_searchable_text env.strings st.type_texts n)) [
      | inl z ↦ rw (store_updated, h, z) I
      | inr (s, z) ↦ rw (store_updated, h, z) I
    ]
  ]

  pub update_node-Intact :
      (env : Env) (id : String) (u : Object) (ctx : Option EventContext) (st : GraphStorage G)
      → Intact st
      → Intact (update_node env id u ctx st).1
  unfolding update_node
  update_node-Intact env id u ctx st I = elim (Option-cases (Dict.get id st.nodes)) [
    | inl z ↦ rw (update_node, z) I
    | inr (old, at) ↦ elim (Option-cases (fold_extra env.strings u (set_fields u old))) [
      | inl z ↦
          rw (update_node, at, z)
            (with_node-Intact id old (set_fields u old) st I at (set_fields-id u old))
      | inr (n, z) ↦
          rw (update_node, at, z)
            (store_updated-Intact env id old (record n { updated_at = env.now }) ctx st
              (with_node-Intact id old (record n { updated_at = env.now }) st I at
                (fold_extra-id env.strings u (set_fields u old) n z ∙ set_fields-id u old)))
    ]
  ]

  pub update_edge-Intact :
      (env : Env) (id : String) (u : Object) (ctx : Option EventContext) (st : GraphStorage G)
      → Intact st
      → Intact (update_edge env id u ctx st).1
  unfolding update_edge emit save
  update_edge-Intact env id u ctx st I = elim (Option-cases (Dict.get id st.edges)) [
    | inl z ↦ rw (update_edge, z) I
    | inr (r, at) ↦ elim (Option-cases (Dict.get r st.objects)) [
      | inl z ↦ rw (update_edge, at, z) I
      | inr (old, z) ↦
          let (same, source, target) = set_edge_fields-ends u old in
          rw (update_edge, at, z)
            (change_object L st.nodes st.edges st.objects st.next st.graph I r old
              (set_edge_fields u old) z same source target)
    ]
  ]
