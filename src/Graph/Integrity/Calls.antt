-- ===== src/Graph/Integrity/Calls.antt =====
-- Sequences of calls of the storage's methods.
use community_overview.Base.{String, Bool, Option, List, [], ◌∷◌}
use community_overview.Base.Dict
use community_overview.Base.Dict.{Dict}
use community_overview.Json.{Object}
use community_overview.Event.Models.{EventContext}
use community_overview.Graph.Models.{Node, Edge}
use community_overview.Graph.Multigraph.{MultiDiGraph, IsLawful}
use community_overview.Graph.Storage.{GraphStorage, Env, empty}
use community_overview.Graph.Insertion.{add_nodes, add_edge}
use community_overview.Graph.Change.{update_node, update_edge}
use community_overview.Graph.Deletion.{delete_nodes, delete_edge, delete_edges}
use community_overview.Graph.Integrity.{Intact}
use community_overview.Graph.Integrity.Additions.{add_nodes-Intact}
use community_overview.Graph.Integrity.EdgeAdditions.{add_edge-Intact}
use community_overview.Graph.Integrity.Changes.{update_node-Intact, update_edge-Intact}
use community_overview.Graph.Integrity.Deletions.{delete_nodes-Intact}
use community_overview.Graph.Integrity.EdgeDeletions.{delete_edge-Intact, delete_edges-Intact}

-- The methods that change a graph.
pub data Call : Type 0 where
  add_nodes_call : List Node → List Edge → Call
  add_edge_call : Edge → Call
  update_node_call : String → Object → Call
  update_edge_call : String → Object → Call
  delete_nodes_call : List String → Bool → Call
  delete_edge_call : String → Call
  delete_edges_call : List String → Call

module _ {G : MultiDiGraph} where
  abbrev pub call : Env → Option EventContext → Call → GraphStorage G → GraphStorage G
  call env ctx (add_nodes_call ns es) st = (add_nodes env ns es ctx st).1
  call env ctx (add_edge_call e) st = (add_edge env e ctx st).1
  call env ctx (update_node_call id u) st = (update_node env id u ctx st).1
  call env ctx (update_edge_call id u) st = (update_edge env id u ctx st).1
  call env ctx (delete_nodes_call ids confirmed) st = (delete_nodes env ids confirmed ctx st).1
  call env ctx (delete_edge_call id) st = (delete_edge env id ctx st).1
  call env ctx (delete_edges_call ids) st = (delete_edges env ids ctx st).1

  -- Each call finds its own surroundings.
  abbrev pub calls : List (Env × Option EventContext × Call) → GraphStorage G → GraphStorage G
  calls [] st = st
  calls ((env, ctx, c) ∷ cs) st = calls cs (call env ctx c st)

  empty-Intact : (texts : Dict String String) → IsLawful G → Intact {G = G} (empty texts)
  unfolding empty Dict.get
  empty-Intact texts L = record {
    nodes_once = tt;
    edges_once = tt;
    keyed = λ id n h. cc h;
    placed = λ k r h. cc h;
    fresh = λ r e h. cc h;
    graph_nodes = L.has_node-empty;
    graph_edges = L.edge_at-empty;
  }

  module _ (L : IsLawful G) where
    pub call-Intact :
        (env : Env) (ctx : Option EventContext) (c : Call) (st : GraphStorage G)
        → Intact st
        → Intact (call env ctx c st)
    call-Intact env ctx (add_nodes_call ns es) st I = add_nodes-Intact L env ns es ctx st I
    call-Intact env ctx (add_edge_call e) st I = add_edge-Intact L env e ctx st I
    call-Intact env ctx (update_node_call id u) st I = update_node-Intact L env id u ctx st I
    call-Intact env ctx (update_edge_call id u) st I = update_edge-Intact L env id u ctx st I
    call-Intact env ctx (delete_nodes_call ids confirmed) st I =
        delete_nodes-Intact L env ids confirmed ctx st I
    call-Intact env ctx (delete_edge_call id) st I = delete_edge-Intact L env id ctx st I
    call-Intact env ctx (delete_edges_call ids) st I = delete_edges-Intact L env ids ctx st I

    calls_from :
        (cs : List (Env × Option EventContext × Call)) (st : GraphStorage G)
        → Intact st
        → Intact (calls cs st)
    calls_from [] st I = I
    calls_from ((env, ctx, c) ∷ cs) st I =
        calls_from cs (call env ctx c st) (call-Intact env ctx c st I)

    pub calls-Intact :
        (texts : Dict String String) (cs : List (Env × Option EventContext × Call))
        → Intact (calls cs (empty {G = G} texts))
    calls-Intact texts cs = calls_from cs (empty texts) (empty-Intact texts L)
