-- ===== src/Graph/Integrity/Clearing.antt =====
-- What the loop of `delete_nodes` leaves of the nodes and the edges, and what it reports.
use community_overview.Base.{
  ℕ, String, ◌≡◌, refl, sym, ◌∙◌, Bool, false, ◌&&◌, ◌||◌, Option, none, some, Option-cases, inl,
  inr, List, [], ◌∷◌, arith, string_eq, nat_eq, contains, contains-append, if◌then◌else◌,
}
use community_overview.Base.Dict
use community_overview.Base.Dict.{Dict, get-remove}
use community_overview.Base.Dict.Bulk.{holds, unless, contains-keys_where, get-drop_where}
use community_overview.Graph.Models.{Node, Edge}
use community_overview.Graph.Multigraph.{MultiDiGraph, IsLawful}
use community_overview.Graph.Storage.{GraphStorage, has_key, touches, get_edge}
use community_overview.Graph.Deletion.{Progress, finished, touching, noted, delete_one, delete_loop}
use community_overview.Graph.Integrity.{Intact}
use community_overview.Graph.Integrity.Removals.{detached, detach-Intact}

abbrev pub touches_any : List String → Edge → Bool
touches_any ids e = contains ids e.source || contains ids e.target

unless-unless :
    (id : String) (ids : List String) (o : Option Edge)
    → unless (touches_any ids) (unless (touches_any (id ∷ [])) o)
      ≡ unless (touches_any (id ∷ ids)) o
unless-unless id ids none = refl
unless-unless id ids (some e) = ground arith

holds-unless :
    (id : String) (ids : List String) (o : Option Edge)
    → (holds (touches_any (id ∷ [])) o
        || holds (touches_any ids) (unless (touches_any (id ∷ [])) o))
      ≡ holds (touches_any (id ∷ ids)) o
holds-unless id ids none = refl
holds-unless id ids (some e) = ground arith

touches_one :
    (n : String) (o : Option Edge) → unless (touches n) o ≡ unless (touches_any (n ∷ [])) o
touches_one n none = refl
touches_one n (some e) = ground arith

holds_one : (n : String) (o : Option Edge) → holds (touches n) o ≡ holds (touches_any (n ∷ [])) o
holds_one n none = refl
holds_one n (some e) = ground arith

module _ {G : MultiDiGraph} where
  -- A stretch of the loop, over these ids.
  pub record IsCleared (ids : List String) (p q : Progress G) : Type 0 where
    pub intact : Intact q.storage
    pub nodes :
        (n : String)
        → Dict.get n q.storage.nodes ≡ (if contains ids n then none else Dict.get n p.storage.nodes)
    pub edges :
        (k : String) → get_edge k q.storage ≡ unless (touches_any ids) (get_edge k p.storage)
    pub deleted :
        (n : String)
        → contains q.deleted_node_ids n
          ≡ (contains p.deleted_node_ids n || (contains ids n && has_key n p.storage.nodes))
    pub affected :
        (k : String)
        → contains q.affected_edge_ids k
          ≡ (contains p.affected_edge_ids k || holds (touches_any ids) (get_edge k p.storage))

  IsCleared-cons :
      (id : String) (ids : List String) (p q r : Progress G)
      → IsCleared (id ∷ []) p q
      → IsCleared ids q r
      → IsCleared (id ∷ ids) p r
  IsCleared-cons id ids p q r f s = record {
    intact = s.intact;
    nodes = λ n. ground (arith, s.nodes n, f.nodes n);
    edges = λ k. s.edges k ∙ rw (f.edges k) (unless-unless id ids (get_edge k p.storage));
    deleted = λ n. ground (arith, s.deleted n, f.deleted n, f.nodes n);
    affected = λ k.
        rw (s.affected k, f.affected k, f.edges k, sym (holds-unless id ids (get_edge k p.storage)))
          (ground arith);
  }

  -- No edge of an intact storage ends at an id that is not a node's.
  missing-touches :
      (id : String) (k : String) (e : Edge) (st : GraphStorage G)
      → Intact st
      → Dict.get id st.nodes ≡ none
      → get_edge k st ≡ some e
      → touches_any (id ∷ []) e ≡ false
  unfolding get_edge
  missing-touches id k e st I out at = elim (Option-cases (Dict.get k st.edges)) [
    | inl z ↦ ground (arith, at, z)
    | inr (r, z) ↦
        let (f, found, p) = I.placed k r z in
        let same : e ≡ f = ground (arith, at, z, found) in
        ground (arith, same, p.source, p.target, out)
  ]

  IsCleared-missing :
      (id : String) (p : Progress G)
      → Intact p.storage
      → Dict.get id p.storage.nodes ≡ none
      → IsCleared (id ∷ []) p p
  IsCleared-missing id p I out = record {
    intact = I;
    nodes = λ n. ground (arith, out);
    edges = λ k. elim (Option-cases (get_edge k p.storage)) [
      | inl z ↦ rw z refl
      | inr (e, z) ↦ rw (z, missing-touches id k e p.storage I out z) refl
    ];
    deleted = λ n. ground (arith, out);
    affected = λ k. elim (Option-cases (get_edge k p.storage)) [
      | inl z ↦ rw z (ground arith)
      | inr (e, z) ↦ rw (z, missing-touches id k e p.storage I out z) (ground arith)
    ];
  }

  get_edge-detached :
      (n k : String) (g : G.Graph) (st : GraphStorage G)
      → Intact st
      → get_edge k (detached n g st) ≡ unless (touches n) (get_edge k st)
  unfolding get_edge
  get_edge-detached n k g st I =
      let test : ℕ → Bool = λ q. holds (touches n) (Dict.get q st.objects) in
      elim (Option-cases (Dict.get k st.edges)) [
        | inl z ↦ ground (arith, z, get-drop_where test k st.edges I.edges_once)
        | inr (r, z) ↦ elim (Option-cases (Dict.get r st.objects)) [
          | inl y ↦ ground (arith, z, y, get-drop_where test k st.edges I.edges_once)
          | inr (e, y) ↦ ground (arith, z, y, get-drop_where test k st.edges I.edges_once)
        ]
      ]

  contains-touching :
      (n k : String) (st : GraphStorage G)
      → Intact st
      → contains (touching n st.objects st.edges) k ≡ holds (touches n) (get_edge k st)
  unfolding get_edge
  contains-touching n k st I =
      let test : ℕ → Bool = λ q. holds (touches n) (Dict.get q st.objects) in
      contains-keys_where test k st.edges I.edges_once ∙ elim (Option-cases (Dict.get k st.edges)) [
        | inl z ↦ rw (get_edge, z) refl
        | inr (r, z) ↦ rw (get_edge, z) refl
      ]

  module _ (L : IsLawful G) where
    delete_one-IsCleared :
        (id : String) (n : Node) (p : Progress G)
        → Intact p.storage
        → Dict.get id p.storage.nodes ≡ some n
        → (q : Progress G) × (delete_one id n p ≡ finished q) × IsCleared (id ∷ []) p q
    unfolding delete_one
    delete_one-IsCleared id n p I at =
        let (g, cut, J) = detach-Intact L id p.storage I (ground (arith, at)) in
        (
          noted id n p (detached id g p.storage),
          rw (delete_one, cut) refl,
          record {
            intact = J;
            nodes = λ m. ground (arith, get-remove m id p.storage.nodes);
            edges =
                λ k. get_edge-detached id k g p.storage I ∙ touches_one id (get_edge k p.storage);
            deleted = λ m. ground (arith, at, contains-append m p.deleted_node_ids (id ∷ []));
            affected = λ k.
                contains-append k p.affected_edge_ids
                  (touching id p.storage.objects p.storage.edges)
                ∙ rw (contains-touching id k p.storage I, holds_one id (get_edge k p.storage)) refl;
          },
        )

    pub delete_loop-IsCleared :
        (ids : List String) (p : Progress G)
        → Intact p.storage
        → (q : Progress G) × (delete_loop ids p ≡ finished q) × IsCleared ids p q
    unfolding delete_loop
    delete_loop-IsCleared [] p I = (
      p,
      refl,
      record {
        intact = I;
        nodes = λ n. refl;
        edges = λ k. elim (Option-cases (get_edge k p.storage)) [
          | inl z ↦ rw z refl
          | inr (e, z) ↦ rw z refl
        ];
        deleted = λ n. ground arith;
        affected = λ k. elim (Option-cases (get_edge k p.storage)) [
          | inl z ↦ rw z (ground arith)
          | inr (e, z) ↦ rw z (ground arith)
        ];
      },
    )
    delete_loop-IsCleared (id ∷ ids) p I = elim (Option-cases (Dict.get id p.storage.nodes)) [
      | inl z ↦
          let (q, run, c) = delete_loop-IsCleared ids p I in
          (q, rw (delete_loop, z) run, IsCleared-cons id ids p p q (IsCleared-missing id p I z) c)
      | inr (n, z) ↦
          let (q, one, first) = delete_one-IsCleared id n p I z in
          let (r, run, c) = delete_loop-IsCleared ids q first.intact in
          (r, rw (delete_loop, z, one) run, IsCleared-cons id ids p q r first c)
    ]
