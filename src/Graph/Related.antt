-- ===== src/Graph/Related.antt =====
-- `get_related_nodes` of backend/core/storage_search.py. A Python set is a list that holds each element
-- once; no result depends on its order. Every layer holds nodes of the graph only, so that
-- `out_edges` and `in_edges` do not raise. A depth below 0 acts as 0.
pub mod Hops
pub mod Growth
pub mod Met
pub mod Steps
pub mod Layers
pub mod Correct
use community_overview.Base.{
  ℕ, String, Bool, false, ◌||◌, Option, none, some, List, [], ◌∷◌, ◌++◌, string_eq, nat_eq,
  contains, is_empty, if◌then◌else◌,
}
use community_overview.Base.Dict
use community_overview.Base.Dict.{Dict}
use community_overview.Json.{Json, text}
use community_overview.Graph.Models.{Node, Edge}
use community_overview.Graph.Multigraph.{MultiDiGraph}
use community_overview.Graph.Storage.{GraphStorage, has_key, get_edge}

-- `not (relationship_types and edge.type not in relationship_types)`
abbrev pub has_type : List String → Json → Bool
has_type types (text s) = contains types s
has_type types _ = false

unfoldable pub is_followed : List String → Edge → Bool
is_followed types e = is_empty types || has_type types e.type

abbrev pub set_add : String → List String → List String
set_add x xs = if contains xs x then xs else xs ++ (x ∷ [])

pub record Walk : Type 0 where
  pub visited_nodes : List String
  pub visited_edges : List String
  pub next_layer : List String

unfoldable pub meet : String → String → Walk → Walk
meet v k w = record {
  visited_nodes = set_add v w.visited_nodes;
  visited_edges = set_add k w.visited_edges;
  next_layer = if contains w.visited_nodes v then w.next_layer else set_add v w.next_layer;
}

unfoldable pub visit_edges : List String → Dict ℕ Edge → List (String × String × ℕ) → Walk → Walk
visit_edges types os [] w = w
visit_edges types os ((v, k, r) ∷ xs) w =
    visit_edges types os xs
      (elim (Dict.get r os) [ none ↦ w | some e ↦ if is_followed types e then meet v k w else w ])

-- `[d[k] for k in ks if k in d]`
unfoldable pub all_at {ℓ} : {A : Type ℓ} → (String → Option A) → List String → List A
all_at f [] = []
all_at f (k ∷ ks) = let rest = all_at f ks in elim (f k) [ none ↦ rest | some x ↦ x ∷ rest ]

module _ {G : MultiDiGraph} (types : List String) (st : GraphStorage G) where
  unfoldable pub visit_node : String → Walk → Walk
  visit_node n w =
      visit_edges types st.objects (G.in_edges n st.graph)
        (visit_edges types st.objects (G.out_edges n st.graph) w)

  unfoldable pub visit_layer : List String → Walk → Walk
  visit_layer [] w = w
  visit_layer (n ∷ ns) w = visit_layer ns (visit_node n w)

  unfoldable pub visit : ℕ → List String → Walk → Walk
  visit ℕ.zero layer w = w
  visit (ℕ.suc depth) layer w =
      let w' = visit_layer layer (record w { next_layer = [] }) in visit depth w'.next_layer w'

  abbrev pub walk_from : String → ℕ → Walk
  walk_from id depth =
      visit depth (id ∷ [])
        (record { visited_nodes = id ∷ []; visited_edges = []; next_layer = [] })

  unfoldable pub get_related_nodes : String → ℕ → List Node × List Edge
  get_related_nodes id depth =
      if has_key id st.nodes
      then (
        all_at (λ k. Dict.get k st.nodes) (walk_from id depth).visited_nodes,
        all_at (λ k. get_edge k st) (walk_from id depth).visited_edges,
      )
      else ([], [])
