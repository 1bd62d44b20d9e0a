-- ===== src/Graph/Integrity.antt =====
-- What the methods of backend/core/storage.py keep of the storage: the dicts and the multigraph tell
-- the same story.
pub mod Parts
pub mod Naming
pub mod Additions
pub mod EdgeAdditions
pub mod Kept
pub mod Added
pub mod Changes
pub mod Removals
pub mod Clearing
pub mod Deletions
pub mod EdgeDeletions
pub mod Calls
pub mod Links
pub mod Membership
pub mod Incidence
use community_overview.Base.{
  ℕ, ◌<◌, String, ◌≡◌, true, ◌&&◌, Option, none, some, ◌==◌, string_eq, nat_eq, if◌then◌else◌,
}
use community_overview.Base.Dict
use community_overview.Base.Dict.{Dict, NodupKeys}
use community_overview.Graph.Models.{Node, Edge}
use community_overview.Graph.Multigraph.{MultiDiGraph}
use community_overview.Graph.Storage.{GraphStorage, has_key}

-- The reference that the multigraph should have between two nodes under a key.
abbrev pub ref_if : String → String → ℕ → Option Edge → Option ℕ
ref_if u v r none = none
ref_if u v r (some e) = if u == e.source && v == e.target then some r else none

abbrev pub ref_at : String → String → Option ℕ → Dict ℕ Edge → Option ℕ
ref_at u v none os = none
ref_at u v (some r) os = ref_if u v r (Dict.get r os)

-- An edge that stands under its id between two nodes of the graph.
pub record IsPlaced (nodes : Dict String Node) (k : String) (e : Edge) : Type 0 where
  pub key : e.id ≡ k
  pub source : has_key e.source nodes ≡ true
  pub target : has_key e.target nodes ≡ true

pub record IsIntact (G : MultiDiGraph) (nodes : Dict String Node) (edges : Dict String ℕ)
    (objects : Dict ℕ Edge) (next : ℕ) (graph : G.Graph) : Type 0 where
  pub nodes_once : NodupKeys nodes
  pub edges_once : NodupKeys edges
  pub keyed : (id : String) (n : Node) → Dict.get id nodes ≡ some n → n.id ≡ id
  pub placed :
      (k : String) (r : ℕ)
      → Dict.get k edges ≡ some r
      → (e : Edge) × (Dict.get r objects ≡ some e) × IsPlaced nodes k e
  pub fresh : (r : ℕ) (e : Edge) → Dict.get r objects ≡ some e → r < next
  pub graph_nodes : (n : String) → G.has_node n graph ≡ has_key n nodes
  pub graph_edges : (u v k : String) → G.edge_at u v k graph ≡ ref_at u v (Dict.get k edges) objects

module _ {G : MultiDiGraph} where
  abbrev pub Intact : GraphStorage G → Type 0
  Intact st = IsIntact G st.nodes st.edges st.objects st.next st.graph
