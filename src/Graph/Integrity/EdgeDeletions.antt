-- ===== src/Graph/Integrity/EdgeDeletions.antt =====
-- What `delete_edge` and `delete_edges` do to an intact storage.
use community_overview.Base.{
  String, ◌≡◌, refl, Bool, true, false, ◌&&◌, ◌||◌, Option, none, some, Option-cases, inl, inr,
  List, [], ◌∷◌, ◌++◌, arith, ◌==◌, string_eq, nat_eq, contains, if◌then◌else◌,
}
use community_overview.Base.Dict
use community_overview.Base.Dict.{Dict, get-remove}
use community_overview.Event.Models.{EventContext}
use community_overview.Graph.Models.{Edge}
use community_overview.Graph.Multigraph.{MultiDiGraph, IsLawful}
use community_overview.Graph.Storage.{GraphStorage, Env, get_edge, save, emit}
use community_overview.Graph.Deletion.{
  emit_edge_delete, forget_edge, delete_edge, forget_edges, delete_edges,
}
use community_overview.Graph.Integrity.{Intact}
use community_overview.Graph.Integrity.Parts.{drop_edge, remove_edge_ok}
use community_overview.Graph.Integrity.Deletions.{emit_edge_deletes-same}

abbrev is_some : Option Edge → Bool
is_some none = false
is_some (some e) = true

keys-append :
    (found : List (String × Edge)) (k : String) (e : Edge) (j : String)
    → contains (Dict.keys (found ++ ((k, e) ∷ []))) j ≡ (contains (Dict.keys found) j || j == k)
keys-append [] k e j = ground arith
keys-append ((i, d) ∷ found) k e j = ground (arith, keys-append found k e j)

module _ {G : MultiDiGraph} where
  get_edge-forget_edge :
      (j k : String) (e : Edge) (st : GraphStorage G)
      → get_edge j (forget_edge k e st) ≡ (if j == k then none else get_edge j st)
  unfolding get_edge forget_edge
  get_edge-forget_edge j k e st = ground (arith, get-remove j k st.edges)

  -- What the loop finds and leaves.
  pub record IsForgotten (ks : List String) (found : List (String × Edge)) (st : GraphStorage G)
      (out : List String) (st' : GraphStorage G) : Type 0 where
    pub nodes : st'.nodes ≡ st.nodes
    pub edges : (k : String) → get_edge k st' ≡ (if contains ks k then none else get_edge k st)
    pub ids :
        (k : String)
        → contains out k
          ≡ (contains (Dict.keys found) k || (contains ks k && is_some (get_edge k st)))

  module _ (L : IsLawful G) where
    forget_edge-Intact :
        (k : String) (e : Edge) (st : GraphStorage G)
        → Intact st
        → get_edge k st ≡ some e
        → Intact (forget_edge k e st)
    unfolding get_edge forget_edge
    forget_edge-Intact k e st I at = elim (Option-cases (Dict.get k st.edges)) [
      | inl z ↦ ground (arith, at, z)
      | inr (r, z) ↦
          let found : Dict.get r st.objects ≡ some e = ground (arith, at, z) in
          let (g, cut) =
            remove_edge_ok L st.nodes st.edges st.objects st.next st.graph I k e r z found in
          rw (forget_edge, cut)
            (drop_edge L st.nodes st.edges st.objects st.next st.graph I k e r g z found cut)
    ]

    forget_edges-lem :
        (ks : List String) (found : List (String × Edge)) (st : GraphStorage G)
        → Intact st
        → Intact (forget_edges ks found st).1
          × IsForgotten ks found st
              (Dict.keys (forget_edges ks found st).0)
              (forget_edges ks found st).1
    unfolding forget_edges forget_edge
    forget_edges-lem [] found st I =
        (I, record { nodes = refl; edges = λ k. refl; ids = λ k. ground arith })
    forget_edges-lem (k ∷ ks) found st I = elim (Option-cases (get_edge k st)) [
      | inl z ↦
          let (J, f) = forget_edges-lem ks found st I in
          rw (forget_edges, z)
            (
              J,
              record {
                nodes = f.nodes;
                edges = λ j. ground (arith, f.edges j, z);
                ids = λ j. ground (arith, f.ids j, z);
              },
            )
      | inr (e, z) ↦
          let (J, f) =
            forget_edges-lem ks (found ++ ((k, e) ∷ [])) (forget_edge k e st)
              (forget_edge-Intact k e st I z) in
          rw (forget_edges, z)
            (
              J,
              record {
                nodes = f.nodes;
                edges = λ j. ground (arith, f.edges j, get_edge-forget_edge j k e st);
                ids = λ j.
                    ground
                      (arith, f.ids j, z, get_edge-forget_edge j k e st, keys-append found k e j);
              },
            )
    ]

    -- On an intact storage `delete_edges` takes away exactly the edges under the given ids,
    -- leaves the nodes and the other edges as they are, and answers exactly the ids that stood
    -- for an edge.
    pub delete_edges-IsForgotten :
        (env : Env) (ids : List String) (ctx : Option EventContext) (st : GraphStorage G)
        → Intact st
        → IsForgotten ids [] st (delete_edges env ids ctx st).0 (delete_edges env ids ctx st).1
    unfolding delete_edges save get_edge
    delete_edges-IsForgotten env ids ctx st I =
        let (J, f) = forget_edges-lem ids [] st I in
        let (es, e) =
          emit_edge_deletes-same env ctx (forget_edges ids [] st).0
            (save (forget_edges ids [] st).1) in
        simp (e) (record { nodes = f.nodes; edges = f.edges; ids = f.ids })

    pub delete_edges-Intact :
        (env : Env) (ids : List String) (ctx : Option EventContext) (st : GraphStorage G)
        → Intact st
        → Intact (delete_edges env ids ctx st).1
    unfolding delete_edges save
    delete_edges-Intact env ids ctx st I =
        let (J, f) = forget_edges-lem ids [] st I in
        let (es, e) =
          emit_edge_deletes-same env ctx (forget_edges ids [] st).0
            (save (forget_edges ids [] st).1) in
        simp (e) J

    pub delete_edge-Intact :
        (env : Env) (k : String) (ctx : Option EventContext) (st : GraphStorage G)
        → Intact st
        → Intact (delete_edge env k ctx st).1
    unfolding delete_edge emit_edge_delete emit save
    delete_edge-Intact env k ctx st I = elim (Option-cases (get_edge k st)) [
      | inl z ↦ rw (delete_edge, z) I
      | inr (e, z) ↦ rw (delete_edge, z) (forget_edge-Intact k e st I z)
    ]
