-- ===== src/Graph/Deletion.antt =====
-- `delete_nodes`, `delete_edge` and `delete_edges` of backend/core/storage.py.
use community_overview.Base.{
  ℕ, String, Bool, true, false, not, Option, none, some, List, [], ◌∷◌, ◌++◌, ltb, string_eq,
  nat_eq, length, if◌then◌else◌,
}
use community_overview.Base.Dict
use community_overview.Base.Dict.{Dict}
use community_overview.Base.Dict.Bulk.{keys_where, holds}
use community_overview.Event.Models.{EventContext, node_delete, edge_delete, node, edge}
use community_overview.Graph.Models.{Node, Edge, of_node, of_edge}
use community_overview.Graph.Multigraph.{MultiDiGraph}
use community_overview.Graph.Score.{str_of}
use community_overview.Graph.Storage.{GraphStorage, Env, has_key, touches, get_edge, save, emit}

pub data Message : Type 0 where
  too_many unconfirmed failed deleted : Message

pub record DeleteNodesResult : Type 0 where
  pub deleted_node_ids : List String
  pub affected_edge_ids : List String
  pub success : Bool
  pub message : Message

abbrev pub refused : Message → DeleteNodesResult
refused m = record { deleted_node_ids = []; affected_edge_ids = []; success = false; message = m }

-- What the loop over the nodes has collected; the dicts hold the states before.
pub record Progress (G : MultiDiGraph) : Type 0 where
  pub storage : GraphStorage G
  pub deleted_node_ids : List String
  pub affected_edge_ids : List String
  pub node_states : Dict String Node
  pub edge_states : Dict String Edge

pub data Run (G : MultiDiGraph) : Type 0 where
  finished : Progress G → Run G
  aborted : GraphStorage G → Run G

-- A single removal: what is left, or an exception and the state then.
pub data Removal (G : MultiDiGraph) : Type 0 where
  removed : GraphStorage G → Removal G
  stuck : GraphStorage G → Removal G

-- The ids of the edges that touch a node, in the order of the dict.
abbrev pub touching : String → Dict ℕ Edge → Dict String ℕ → List String
touching n os d = keys_where (λ r. holds (touches n) (Dict.get r os)) d

-- `if edge_id not in states: states[edge_id] = edge.to_dict()`
unfoldable pub note_state : String → Option Edge → Dict String Edge → Dict String Edge
note_state k none d = d
note_state k (some e) d = if has_key k d then d else Dict.put k e d

module _ {G : MultiDiGraph} where
  unfoldable pub note_states : List String → GraphStorage G → Dict String Edge → Dict String Edge
  note_states [] st d = d
  note_states (k ∷ ks) st d = note_states ks st (note_state k (get_edge k st) d)

  -- `graph.remove_edge(…)` and `del self.edges[edge_id]`
  unfoldable pub remove_edge : String → GraphStorage G → Removal G
  remove_edge k st = elim (get_edge k st) [
    | none ↦ stuck st
    | some e ↦ elim (G.remove_edge e.source e.target k st.graph) [
      | none ↦ stuck st
      | some g ↦ removed (record st { graph = g; edges = Dict.remove k st.edges })
    ]
  ]

  unfoldable pub remove_edges : List String → GraphStorage G → Removal G
  remove_edges [] st = removed st
  remove_edges (k ∷ ks) st = elim (remove_edge k st) [
    | stuck st' ↦ stuck st'
    | removed st' ↦ remove_edges ks st'
  ]

  unfoldable pub remove_node : String → GraphStorage G → Removal G
  remove_node n st = elim (G.remove_node n st.graph) [
    | none ↦ stuck st
    | some g ↦ removed (record st {
      graph = g;
      nodes = Dict.remove n st.nodes;
      text_cache = Dict.remove n st.text_cache;
    })
  ]

  -- The node with its edges.
  unfoldable pub detach : String → GraphStorage G → Removal G
  detach n st = elim (remove_edges (touching n st.objects st.edges) st) [
    | stuck st' ↦ stuck st'
    | removed st' ↦ remove_node n st'
  ]

  -- What the loop has collected after a node is detached.
  abbrev pub noted : String → Node → Progress G → GraphStorage G → Progress G
  noted id n p st =
      let ks = touching id p.storage.objects p.storage.edges in
      record {
        storage = st;
        deleted_node_ids = p.deleted_node_ids ++ (id ∷ []);
        affected_edge_ids = p.affected_edge_ids ++ ks;
        node_states = Dict.put id n p.node_states;
        edge_states = note_states ks p.storage p.edge_states;
      }

  unfoldable pub delete_one : String → Node → Progress G → Run G
  delete_one id n p = elim (detach id p.storage) [
    | stuck st ↦ aborted st
    | removed st ↦ finished (noted id n p st)
  ]

  unfoldable pub delete_loop : List String → Progress G → Run G
  delete_loop [] p = finished p
  delete_loop (id ∷ ids) p = elim (Dict.get id p.storage.nodes) [
    | none ↦ delete_loop ids p
    | some n ↦ elim (delete_one id n p) [
      | aborted st ↦ aborted st
      | finished p' ↦ delete_loop ids p'
    ]
  ]

  unfoldable pub emit_edge_delete :
      Env → Option EventContext → String → Edge → GraphStorage G → GraphStorage G
  emit_edge_delete env ctx id e st =
      emit
        (record {
          event_type = edge_delete;
          entity_kind = edge;
          entity_id = id;
          entity_type = str_of env.strings e.type;
          before = some (of_edge e);
          after = none;
          context = ctx;
        })
        st

  unfoldable pub emit_edge_deletes :
      Env → Option EventContext → Dict String Edge → GraphStorage G → GraphStorage G
  emit_edge_deletes env ctx [] st = st
  emit_edge_deletes env ctx ((id, e) ∷ d) st =
      emit_edge_deletes env ctx d (emit_edge_delete env ctx id e st)

  unfoldable pub emit_node_deletes :
      Option EventContext → Dict String Node → GraphStorage G → GraphStorage G
  emit_node_deletes ctx [] st = st
  emit_node_deletes ctx ((id, n) ∷ d) st = emit_node_deletes ctx d (
      emit
        (record {
          event_type = node_delete;
          entity_kind = node;
          entity_id = id;
          entity_type = n.type;
          before = some (of_node n);
          after = none;
          context = ctx;
        })
        st)

  unfoldable pub after_loop : Env → Option EventContext → Run G → DeleteNodesResult × GraphStorage G
  after_loop env ctx (aborted st) = (refused failed, st)
  after_loop env ctx (finished p) =
      if env.embeddings_removed
      then (
        record {
          deleted_node_ids = p.deleted_node_ids;
          affected_edge_ids = p.affected_edge_ids;
          success = true;
          message = deleted;
        },
        emit_node_deletes ctx p.node_states
            (emit_edge_deletes env ctx p.edge_states (save p.storage)),
      )
      else (refused failed, p.storage)

  abbrev pub begin : GraphStorage G → Progress G
  begin st = record {
    storage = st;
    deleted_node_ids = [];
    affected_edge_ids = [];
    node_states = [];
    edge_states = [];
  }

  unfoldable pub delete_nodes :
      Env
      → List String
      → Bool
      → Option EventContext
      → GraphStorage G
      → DeleteNodesResult × GraphStorage G
  delete_nodes env ids confirmed ctx st =
      if ltb 10 (length ids)
      then (refused too_many, st)
      else if not confirmed
      then (refused unconfirmed, st)
      else after_loop env ctx (delete_loop ids (begin st))

  -- Here an exception of the multigraph is passed over.
  unfoldable pub forget_edge : String → Edge → GraphStorage G → GraphStorage G
  forget_edge k e st = record st {
    graph = elim (G.remove_edge e.source e.target k st.graph) [ none ↦ st.graph | some g ↦ g ];
    edges = Dict.remove k st.edges;
  }

  unfoldable pub delete_edge :
      Env → String → Option EventContext → GraphStorage G → Bool × GraphStorage G
  delete_edge env k ctx st = elim (get_edge k st) [
    | none ↦ (false, st)
    | some e ↦ (true, emit_edge_delete env ctx k e (save (forget_edge k e st)))
  ]

  unfoldable pub forget_edges :
      List String → List (String × Edge) → GraphStorage G → List (String × Edge) × GraphStorage G
  forget_edges [] found st = (found, st)
  forget_edges (k ∷ ks) found st = elim (get_edge k st) [
    | none ↦ forget_edges ks found st
    | some e ↦ forget_edges ks (found ++ ((k, e) ∷ [])) (forget_edge k e st)
  ]

  unfoldable pub delete_edges :
      Env → List String → Option EventContext → GraphStorage G → List String × GraphStorage G
  delete_edges env ids ctx st =
      let (found, st') = forget_edges ids [] st in
      (Dict.keys found, emit_edge_deletes env ctx found (save st'))
