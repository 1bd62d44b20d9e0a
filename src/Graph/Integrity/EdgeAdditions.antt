-- ===== src/Graph/Integrity/EdgeAdditions.antt =====
-- `add_edge` keeps the storage intact.
use community_overview.Base.{
  String, ◌≡◌, refl, true, Bool-cases, Option, none, some, Option-cases, inl, inr, [], arith,
  string_eq,
}
use community_overview.Event.Models.{EventContext}
use community_overview.Graph.Models.{Edge}
use community_overview.Graph.Multigraph.{MultiDiGraph, IsLawful}
use community_overview.Graph.Storage.{GraphStorage, Env, has_key, save, emit}
use community_overview.Graph.Insertion.{
  Reply, returned, raised, name_to_id, emit_edge_create, find_end, add_resolved, add_edge,
}
use community_overview.Graph.Integrity.{Intact}
use community_overview.Graph.Integrity.Naming.{names-IsNaming}
use community_overview.Graph.Integrity.Additions.{attach-Intact}

module _ {G : MultiDiGraph} (L : IsLawful G) where
  find_end-has_key :
      (s t : String) (st : GraphStorage G)
      → find_end s st ≡ returned (some t)
      → has_key t st.nodes ≡ true
  unfolding find_end
  find_end-has_key s t st e = elim (Bool-cases (has_key s st.nodes)) [
    | inl h ↦ ground (arith, h, e)
    | inr h ↦ elim (Option-cases (name_to_id st.nodes [])) [
      | inl z ↦ ground (arith, h, e, z)
      | inr (names, z) ↦ ground (arith, h, e, z, names-IsNaming st.nodes names z s t)
    ]
  ]

  add_resolved-Intact :
      (env : Env) (e : Edge) (ctx : Option EventContext) (st : GraphStorage G)
      → Intact st
      → has_key e.source st.nodes ≡ true
      → has_key e.target st.nodes ≡ true
      → Intact (add_resolved env e ctx st).1
  unfolding add_resolved emit_edge_create emit save
  add_resolved-Intact env e ctx st I hs ht = elim (Bool-cases (has_key e.id st.edges)) [
    | inl z ↦ rw z I
    | inr z ↦ rw z (attach-Intact L e st I z hs ht)
  ]

  pub add_edge-Intact :
      (env : Env) (e : Edge) (ctx : Option EventContext) (st : GraphStorage G)
      → Intact st
      → Intact (add_edge env e ctx st).1
  unfolding add_edge
  add_edge-Intact env e ctx st I =
      ends (find_end e.source st) (find_end e.target st) (λ t. find_end-has_key e.source t st)
        (λ t. find_end-has_key e.target t st)
    where
      Ending : Type 0
      Ending = Reply (Option String) × GraphStorage G

      joined : Reply (Option String) → Reply (Option String) → Ending
      joined x y = elim x as (λ x'. Ending) [
        | raised ↦ (raised, st)
        | returned none ↦ (returned none, st)
        | returned (some s) ↦ elim y as (λ y'. Ending) [
          | raised ↦ (raised, st)
          | returned none ↦ (returned none, st)
          | returned (some t) ↦ add_resolved env (record e { source = s; target = t }) ctx st
        ]
      ]

      ends :
          (x y : Reply (Option String))
          → ((s : String) → x ≡ returned (some s) → has_key s st.nodes ≡ true)
          → ((t : String) → y ≡ returned (some t) → has_key t st.nodes ≡ true)
          → Intact (joined x y).1
      ends raised y hx hy = I
      ends (returned none) y hx hy = I
      ends (returned (some s)) raised hx hy = I
      ends (returned (some s)) (returned none) hx hy = I
      ends (returned (some s)) (returned (some t)) hx hy =
          add_resolved-Intact env (record e { source = s; target = t }) ctx st I (hx s refl)
            (hy t refl)
