-- ===== src/Graph/Related/Hops.antt =====
-- What is near a node: the description that the traversal is measured by.
use community_overview.Base.{ℕ, suc, String, ◌≡◌, ◌⊎◌, true, some, List}
use community_overview.Graph.Models.{Edge}
use community_overview.Graph.Multigraph.{MultiDiGraph}
use community_overview.Graph.Storage.{GraphStorage, touches, get_edge}
use community_overview.Graph.Related.{is_followed}

module _ {G : MultiDiGraph} (types : List String) (st : GraphStorage G) where
  -- An edge of the storage, of one of the types, that leads from or to a node.
  abbrev pub LeavesBy : String → String → Edge → Type 0
  LeavesBy u k e = (get_edge k st ≡ some e) × (is_followed types e ≡ true) × (touches u e ≡ true)

  abbrev pub Adjacent : String → String → Type 0
  Adjacent u v =
      (k : String) × (e : Edge) × (get_edge k st ≡ some e)
      × (is_followed types e ≡ true)
      × (((e.source ≡ u) × (e.target ≡ v)) ⊎ ((e.source ≡ v) × (e.target ≡ u)))

  abbrev pub Leaves : String → String → Type 0
  Leaves u k = (e : Edge) × LeavesBy u k e

  -- A node is at most so many edges away.
  pub data Hops (a : String) : ℕ → String → Type 0 where
    start : {d : ℕ} → Hops a d a
    hop : {d : ℕ} {u v : String} → Hops a d u → Adjacent u v → Hops a (suc d) v

  -- An edge that a path of at most so many edges can end with.
  pub data Passed (a : String) : ℕ → String → Type 0 where
    pass : {d : ℕ} {u k : String} → Hops a d u → Leaves u k → Passed a (suc d) k
