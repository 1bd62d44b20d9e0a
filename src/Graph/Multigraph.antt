-- ===== src/Graph/Multigraph.antt =====
-- What backend/core/storage.py uses of `networkx.MultiDiGraph`, a third-party class: its operations,
-- and what its documentation says of them. An edge's data is the reference of an `Edge` object.
pub mod Listed
use community_overview.Base.{
  ℕ, String, ◌≡◌, ◌≢◌, Bool, true, false, ◌&&◌, ◌||◌, Option, none, some, List, ◌==◌, string_eq,
  All, if◌then◌else◌,
}
use mathlib.Core.List.{Memᴰ}

-- `remove_edge` and `remove_node` raise, `none`, where there is nothing to remove. `out_edges` lists
-- targets with keys and data, `in_edges` sources. `edge_at` is `get_edge_data(u, v, key)`.
pub record MultiDiGraph : Type 1 where
  pub Graph : Type 0
  pub empty : Graph
  pub add_node : String → Graph → Graph
  pub add_edge : String → String → String → ℕ → Graph → Graph
  pub remove_edge : String → String → String → Graph → Option Graph
  pub remove_node : String → Graph → Option Graph
  pub has_node : String → Graph → Bool
  pub edge_at : String → String → String → Graph → Option ℕ
  pub out_edges : String → Graph → List (String × String × ℕ)
  pub in_edges : String → Graph → List (String × String × ℕ)

pub record IsLawful (G : MultiDiGraph) : Type 0 where
  pub has_node-empty : (n : String) → G.has_node n G.empty ≡ false
  pub edge_at-empty : (u v k : String) → G.edge_at u v k G.empty ≡ none
  pub has_node-add_node :
      (n m : String) (g : G.Graph) → G.has_node n (G.add_node m g) ≡ (n == m || G.has_node n g)
  pub edge_at-add_node :
      (u v k m : String) (g : G.Graph) → G.edge_at u v k (G.add_node m g) ≡ G.edge_at u v k g
  pub has_node-add_edge :
      (n s t j : String) (r : ℕ) (g : G.Graph)
      → G.has_node n (G.add_edge s t j r g) ≡ (n == s || (n == t || G.has_node n g))
  pub edge_at-add_edge :
      (u v k s t j : String) (r : ℕ) (g : G.Graph)
      → G.edge_at u v k (G.add_edge s t j r g)
        ≡ (if u == s && (v == t && k == j) then some r else G.edge_at u v k g)
  pub remove_edge-present :
      (s t j : String) (g : G.Graph) → G.edge_at s t j g ≢ none → G.remove_edge s t j g ≢ none
  pub edge_at-remove_edge :
      (u v k s t j : String) (g g' : G.Graph)
      → G.remove_edge s t j g ≡ some g'
      → G.edge_at u v k g' ≡ (if u == s && (v == t && k == j) then none else G.edge_at u v k g)
  pub has_node-remove_edge :
      (n s t j : String) (g g' : G.Graph)
      → G.remove_edge s t j g ≡ some g'
      → G.has_node n g' ≡ G.has_node n g
  pub remove_node-present :
      (m : String) (g : G.Graph) → G.has_node m g ≡ true → G.remove_node m g ≢ none
  pub edge_at-remove_node :
      (u v k m : String) (g g' : G.Graph)
      → G.remove_node m g ≡ some g'
      → G.edge_at u v k g' ≡ (if u == m || v == m then none else G.edge_at u v k g)
  pub has_node-remove_node :
      (n m : String) (g g' : G.Graph)
      → G.remove_node m g ≡ some g'
      → G.has_node n g' ≡ (if n == m then false else G.has_node n g)
  pub out_edges-sound :
      (s : String) (g : G.Graph) → All (λ x. G.edge_at s x.0 x.1 g ≡ some x.2) (G.out_edges s g)
  pub out_edges-complete :
      (s t j : String) (r : ℕ) (g : G.Graph)
      → G.edge_at s t j g ≡ some r
      → Memᴰ (t, j, r) (G.out_edges s g)
  pub in_edges-sound :
      (t : String) (g : G.Graph) → All (λ x. G.edge_at x.0 t x.1 g ≡ some x.2) (G.in_edges t g)
  pub in_edges-complete :
      (s t j : String) (r : ℕ) (g : G.Graph)
      → G.edge_at s t j g ≡ some r
      → Memᴰ (s, j, r) (G.in_edges t g)
