-- ===== src/Graph/Integrity/Kept.antt =====
-- The loops of `add_nodes` leave what is there as it is, and announce nothing.
use community_overview.Base.{
  String, ◌≡◌, refl, ap, sym, ◌∙◌, false, Bool-cases, some, Option-cases, inl, inr, List, [], ◌∷◌,
  ◌++◌, arith, string_eq, nat_eq, map,
}
use community_overview.Base.Sequences.{append_assoc, append-nil}
use community_overview.Base.Dict
use community_overview.Base.Dict.{Dict, get-put}
use community_overview.Graph.Models.{Node, Edge}
use community_overview.Graph.Multigraph.{MultiDiGraph, IsLawful}
use community_overview.Graph.Score.{build_searchable_text}
use community_overview.Graph.Storage.{GraphStorage, Env, has_key, get_edge}
use community_overview.Graph.Insertion.{
  Step, done, stopped, resolve, attach, place_node, cache_text, insert_node, insert_nodes,
  insert_edge, insert_edges,
}
use community_overview.Graph.Integrity.{Intact}
use community_overview.Graph.Integrity.Additions.{IsGood, insert_edge-IsGood}
use community_overview.Graph.Integrity.Naming.{IsNaming}

module _ {G : MultiDiGraph} where
  -- Every node and every edge is still there as it was, and nothing has been announced.
  pub record IsKept (st st' : GraphStorage G) : Type 0 where
    pub nodes :
        (id : String) (n : Node) → Dict.get id st.nodes ≡ some n → Dict.get id st'.nodes ≡ some n
    pub edges : (k : String) (e : Edge) → get_edge k st ≡ some e → get_edge k st' ≡ some e
    pub emitted : st'.emitted ≡ st.emitted

  pub IsKept-refl : (st : GraphStorage G) → IsKept st st
  IsKept-refl st = record { nodes = λ id n h. h; edges = λ k e h. h; emitted = refl }

  pub IsKept-trans : (s t u : GraphStorage G) → IsKept s t → IsKept t u → IsKept s u
  IsKept-trans s t u f g = record {
    nodes = λ id n h. g.nodes id n (f.nodes id n h);
    edges = λ k e h. g.edges k e (f.edges k e h);
    emitted = g.emitted ∙ f.emitted;
  }

  pub place_node-IsKept :
      (n : Node) (st : GraphStorage G) → has_key n.id st.nodes ≡ false → IsKept st (place_node n st)
  unfolding place_node get_edge
  place_node-IsKept n st new = record {
    nodes = λ id m h. ground (arith, h, get-put id n.id n st.nodes, new);
    edges = λ k e h. h;
    emitted = refl;
  }

  pub attach-IsKept :
      (e : Edge) (st : GraphStorage G)
      → Intact st
      → has_key e.id st.edges ≡ false
      → IsKept st (attach e st)
  unfolding attach get_edge
  attach-IsKept e st I new = record {
    nodes = λ id n h. h;
    edges = λ k f h. elim (Option-cases (Dict.get k st.edges)) [
      | inl z ↦ ground (arith, h, z)
      | inr (r, z) ↦
          let found : Dict.get r st.objects ≡ some f = ground (arith, h, z) in
          let at : Dict.get k (Dict.put e.id st.next st.edges) ≡ some r =
            ground (arith, z, new, get-put k e.id st.next st.edges) in
          rw (get_edge, at) (ground (arith, found, get-put r st.next e st.objects, I.fresh r f))
    ];
    emitted = refl;
  }

  -- A loop that is done has added the ids of its items.
  abbrev pub IsGrown : List String → List String → GraphStorage G → Step G → Type 0
  IsGrown ids new st (done ids' st') = (ids' ≡ ids ++ new) × IsKept st st'
  IsGrown ids new st (stopped m st') = IsKept st st'

  pub insert_node-IsGrown :
      (env : Env) (n : Node) (ids : List String) (st : GraphStorage G)
      → IsGrown ids (n.id ∷ []) st (insert_node env n ids st)
  unfolding insert_node cache_text get_edge
  insert_node-IsGrown env n ids st = elim (Bool-cases (has_key n.id st.nodes)) [
    | inl h ↦ rw h (IsKept-refl st)
    | inr h ↦
        let k = place_node-IsKept n st h in
        elim (Option-cases (build_searchable_text env.strings st.type_texts n)) [
          | inl z ↦ rw (h, z) k
          | inr (s, z) ↦
              rw (h, z) (refl, record { nodes = k.nodes; edges = k.edges; emitted = k.emitted })
        ]
  ]

  pub IsGrown-trans :
      (ids : List String) (id : String) (new ids' : List String) (st st' : GraphStorage G)
      (x : Step G)
      → ids' ≡ ids ++ (id ∷ [])
      → IsKept st st'
      → IsGrown ids' new st' x
      → IsGrown ids (id ∷ new) st x
  IsGrown-trans ids id new ids' st st' (done out st'') e k g = (
    g.0 ∙ (ap (λ l. l ++ new) e ∙ append_assoc ids (id ∷ []) new),
    IsKept-trans st st' st'' k g.1,
  )
  IsGrown-trans ids id new ids' st st' (stopped m st'') e k g = IsKept-trans st st' st'' k g

  pub insert_nodes-IsGrown :
      (env : Env) (ns : List Node) (ids : List String) (st : GraphStorage G)
      → IsGrown ids (map (λ n. n.id) ns) st (insert_nodes env ns ids st)
  unfolding insert_nodes
  insert_nodes-IsGrown env [] ids st = (sym (append-nil ids), IsKept-refl st)
  insert_nodes-IsGrown env (n ∷ ns) ids st =
      after (insert_node env n ids st) (insert_node-IsGrown env n ids st)
        (λ ids' st'. insert_nodes-IsGrown env ns ids' st')
    where
      after :
          (x : Step G)
          → IsGrown ids (n.id ∷ []) st x
          → ((ids' : List String) (st' : GraphStorage G)
              → IsGrown ids' (map (λ m. m.id) ns) st' (insert_nodes env ns ids' st'))
          → IsGrown ids (n.id ∷ map (λ m. m.id) ns) st (elim x [
            | stopped m st' ↦ stopped m st'
            | done ids' st' ↦ insert_nodes env ns ids' st'
          ])
      after (stopped m st') h go = h
      after (done ids' st') h go =
          IsGrown-trans ids n.id (map (λ m. m.id) ns) ids' st st' (insert_nodes env ns ids' st') h.0
            h.1 (go ids' st')

  module _ (L : IsLawful G) where
    pub insert_edge-IsGrown :
        (names : Dict String String) (e : Edge) (ids : List String) (st : GraphStorage G)
        → Intact st
        → IsGrown ids (e.id ∷ []) st (insert_edge names e ids st)
    unfolding insert_edge
    insert_edge-IsGrown names e ids st I = elim (Option-cases (resolve st.nodes names e.source)) [
      | inl z ↦ rw (insert_edge, z) (IsKept-refl st)
      | inr (s, hs) ↦ elim (Option-cases (resolve st.nodes names e.target)) [
        | inl z ↦ rw (insert_edge, hs, z) (IsKept-refl st)
        | inr (t, ht) ↦ elim (Bool-cases (has_key e.id st.edges)) [
          | inl z ↦ rw (insert_edge, hs, ht, z) (IsKept-refl st)
          | inr z ↦
              rw (insert_edge, hs, ht, z)
                (refl, attach-IsKept (record e { source = s; target = t }) st I z)
        ]
      ]
    ]

    pub insert_edges-IsGrown :
        (names : Dict String String) (es : List Edge) (ids : List String) (st : GraphStorage G)
        → Intact st
        → IsNaming names st.nodes
        → IsGrown ids (map (λ e. e.id) es) st (insert_edges names es ids st)
    unfolding insert_edges
    insert_edges-IsGrown names [] ids st I N = (sym (append-nil ids), IsKept-refl st)
    insert_edges-IsGrown names (e ∷ es) ids st I N =
        after (insert_edge names e ids st) (insert_edge-IsGrown names e ids st I)
          (insert_edge-IsGood L names e ids st I N)
          (λ ids' st' J M. insert_edges-IsGrown names es ids' st' J M)
      where
        after :
            (x : Step G)
            → IsGrown ids (e.id ∷ []) st x
            → IsGood L names x
            → ((ids' : List String) (st' : GraphStorage G)
                → Intact st'
                → IsNaming names st'.nodes
                → IsGrown ids' (map (λ f. f.id) es) st' (insert_edges names es ids' st'))
            → IsGrown ids (e.id ∷ map (λ f. f.id) es) st (elim x [
              | stopped m st' ↦ stopped m st'
              | done ids' st' ↦ insert_edges names es ids' st'
            ])
        after (stopped m st') h good go = h
        after (done ids' st') h good go =
            IsGrown-trans ids e.id (map (λ f. f.id) es) ids' st st' (insert_edges names es ids' st')
              h.0 h.1 (go ids' st' good.0 good.1)
