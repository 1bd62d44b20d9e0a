-- ===== src/Graph/Related/Correct.antt =====
-- `get_related_nodes` returns what is near.
use community_overview.Base.{
  ℕ, String, ◌≡◌, ap, sym, ◌∙◌, ◌↔◌, true, Bool-cases, Option, some, Option-cases, inl, inr, List,
  [], ◌∷◌, arith, ◌==◌, string_eq, contains,
}
use mathlib.Core.List.{Memᴰ}
use mathlib.Core.List.Memᴰ
use community_overview.Base.Dict
use community_overview.Base.Dict.{Dict}
use community_overview.Graph.Models.{Node, Edge}
use community_overview.Graph.Multigraph.{MultiDiGraph, IsLawful}
use community_overview.Graph.Storage.{GraphStorage, has_key, get_edge}
use community_overview.Graph.Integrity.{Intact}
use community_overview.Graph.Related.{all_at, walk_from, get_related_nodes}
use community_overview.Graph.Related.Hops.{Hops, Passed}
use community_overview.Graph.Related.Layers.{visited_nodes-Hops, visited_edges-Passed}

Memᴰ-all_at {ℓ} :
    {A : Type ℓ} (f : String → Option A) (x : A) (ks : List String)
    → Memᴰ x (all_at f ks) ↔ ((k : String) × (contains ks k ≡ true) × (f k ≡ some x))
unfolding all_at
Memᴰ-all_at f x [] = (λ m. absurd (Memᴰ.not-nil m), λ w. cc (w.1))
Memᴰ-all_at f x (j ∷ ks) =
    let (to, from) = Memᴰ-all_at f x ks in
    elim (Option-cases (f j)) [
      | inl z ↦
          rw (all_at, z)
            (
              λ m. let (k, c, h) = to m in (k, ground (arith, c), h),
              λ w.
                  let (k, c, h) = w in
                  elim (Bool-cases (k == j)) [
                    | inl same ↦
                        let here : k ≡ j = ground (arith, same) in absurd (cc (ap f here, z, h))
                    | inr other ↦ from (k, ground (arith, c, other), h)
                  ],
            )
      | inr (y, z) ↦
          rw (all_at, z)
            (
              λ m. elim (Memᴰ.cases_cons m) [
                | inl e ↦ (j, ground arith, z ∙ ap some (sym e))
                | inr later ↦ let (k, c, h) = to later in (k, ground (arith, c), h)
              ],
              λ w.
                  let (k, c, h) = w in
                  elim (Bool-cases (k == j)) [
                    | inl same ↦
                        let here : k ≡ j = ground (arith, same) in
                        let both : some x ≡ some y = sym h ∙ (ap f here ∙ z) in Memᴰ.head (cc both)
                    | inr other ↦ Memᴰ.tail (from (k, ground (arith, c, other), h))
                  ],
            )
    ]

module _ {G : MultiDiGraph} (L : IsLawful G) where
  -- On an intact storage the traversal from a node returns exactly the nodes that at most `depth`
  -- edges of the given types lead to, in either direction, and exactly the edges that such a path
  -- can end with.
  pub get_related_nodes-Hops :
      (types : List String) (st : GraphStorage G) (id : String) (depth : ℕ)
      → Intact st
      → has_key id st.nodes ≡ true
      → ((n : Node)
          → Memᴰ n (get_related_nodes types st id depth).0
            ↔ ((v : String) × Hops types st id depth v × (Dict.get v st.nodes ≡ some n)))
        × ((e : Edge)
            → Memᴰ e (get_related_nodes types st id depth).1
              ↔ ((k : String) × Passed types st id depth k × (get_edge k st ≡ some e)))
  unfolding get_related_nodes
  get_related_nodes-Hops types st id depth I here =
      rw (get_related_nodes, here)
        (
          λ n.
              let (to, from) =
                Memᴰ-all_at (λ k. Dict.get k st.nodes) n
                  (walk_from types st id depth).visited_nodes in
              (
                λ m.
                    let (v, c, at) = to m in
                    (v, (visited_nodes-Hops L types st I id depth v).0 c, at),
                λ w.
                    let (v, h, at) = w in
                    from (v, (visited_nodes-Hops L types st I id depth v).1 h, at),
              ),
          λ e.
              let (to, from) =
                Memᴰ-all_at (λ k. get_edge k st) e (walk_from types st id depth).visited_edges in
              (
                λ m.
                    let (k, c, at) = to m in
                    (k, (visited_edges-Passed L types st I id depth k).0 c, at),
                λ w.
                    let (k, h, at) = w in
                    from (k, (visited_edges-Passed L types st I id depth k).1 h, at),
              ),
        )
