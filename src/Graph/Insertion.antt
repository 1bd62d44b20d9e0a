-- ===== src/Graph/Insertion.antt =====
-- `add_nodes` and `add_edge` of backend/core/storage.py. Where a method stops, at a `return` or an
-- exception, the state stays as it is then.
use community_overview.Base.{
  ◌+◌, String, Bool, true, false, Option, none, some, List, [], ◌∷◌, ◌++◌, string_eq, nat_eq,
  if◌then◌else◌,
}
use community_overview.Base.Dict
use community_overview.Base.Dict.{Dict}
use community_overview.Json.{text, array, object}
use community_overview.Event.Models.{EventContext, node_create, edge_create, node, edge}
use community_overview.Graph.Models.{Node, Edge, of_node, of_edge}
use community_overview.Graph.Multigraph.{MultiDiGraph}
use community_overview.Graph.Score.{str_of, build_searchable_text}
use community_overview.Graph.Storage.{GraphStorage, Env, has_key, get_edge, save, emit}

-- The reason in a result's `message`.
pub data Message : Type 0 where
  node_exists edge_exists failed added : Message

pub record AddNodesResult : Type 0 where
  pub added_node_ids : List String
  pub added_edge_ids : List String
  pub success : Bool
  pub message : Message

-- A loop that ends with the ids it has added, or a method that stops within it.
pub data Step (G : MultiDiGraph) : Type 0 where
  done : List String → GraphStorage G → Step G
  stopped : Message → GraphStorage G → Step G

pub data Reply {ℓ} (A : Type ℓ) : Type ℓ where
  returned : A → Reply A
  raised : Reply A

abbrev pub refused : Message → AddNodesResult
refused m = record { added_node_ids = []; added_edge_ids = []; success = false; message = m }

-- `name_to_id[node.name] = node_id` for all nodes. A name that is no text is equal to no text; one that
-- cannot be hashed raises.
unfoldable pub name_to_id : Dict String Node → Dict String String → Option (Dict String String)
name_to_id [] names = some names
name_to_id ((k, n) ∷ ns) names = elim n.name [
  | text s ↦ name_to_id ns (Dict.put s k names)
  | array xs ↦ none
  | object fs ↦ none
  | _ ↦ name_to_id ns names
]

-- An end of an edge, by id or by name.
unfoldable pub resolve : Dict String Node → Dict String String → String → Option String
resolve nodes names s = if has_key s nodes then some s else Dict.get s names

module _ {G : MultiDiGraph} where
  -- The edge, as a new object of the dict and the multigraph.
  unfoldable pub attach : Edge → GraphStorage G → GraphStorage G
  attach e st = record st {
    edges = Dict.put e.id st.next st.edges;
    objects = Dict.put st.next e st.objects;
    next = st.next + 1;
    graph = G.add_edge e.source e.target e.id st.next st.graph;
  }

  unfoldable pub place_node : Node → GraphStorage G → GraphStorage G
  place_node n st = record st { nodes = Dict.put n.id n st.nodes; graph = G.add_node n.id st.graph }

  unfoldable pub cache_text : String → String → GraphStorage G → GraphStorage G
  cache_text id s st = record st { text_cache = Dict.put id s st.text_cache }

  unfoldable pub insert_node : Env → Node → List String → GraphStorage G → Step G
  insert_node env n ids st =
      if has_key n.id st.nodes
      then stopped node_exists st
      else elim (build_searchable_text env.strings st.type_texts n) [
        | none ↦ stopped failed (place_node n st)
        | some s ↦ done (ids ++ (n.id ∷ [])) (cache_text n.id s (place_node n st))
      ]

  unfoldable pub insert_nodes : Env → List Node → List String → GraphStorage G → Step G
  insert_nodes env [] ids st = done ids st
  insert_nodes env (n ∷ ns) ids st = elim (insert_node env n ids st) [
    | stopped m st' ↦ stopped m st'
    | done ids' st' ↦ insert_nodes env ns ids' st'
  ]

  unfoldable pub insert_edge : Dict String String → Edge → List String → GraphStorage G → Step G
  insert_edge names e ids st = elim (resolve st.nodes names e.source) [
    | none ↦ stopped failed st
    | some s ↦ elim (resolve st.nodes names e.target) [
      | none ↦ stopped failed st
      | some t ↦
          if has_key e.id st.edges
          then stopped edge_exists st
          else done (ids ++ (e.id ∷ [])) (attach (record e { source = s; target = t }) st)
    ]
  ]

  unfoldable pub insert_edges :
      Dict String String → List Edge → List String → GraphStorage G → Step G
  insert_edges names [] ids st = done ids st
  insert_edges names (e ∷ es) ids st = elim (insert_edge names e ids st) [
    | stopped m st' ↦ stopped m st'
    | done ids' st' ↦ insert_edges names es ids' st'
  ]

  unfoldable pub emit_node_create :
      Option EventContext → String → Node → GraphStorage G → GraphStorage G
  emit_node_create ctx id n st =
      emit
        (record {
          event_type = node_create;
          entity_kind = node;
          entity_id = id;
          entity_type = n.type;
          before = none;
          after = some (of_node n);
          context = ctx;
        })
        st

  unfoldable pub emit_nodes : Option EventContext → List String → GraphStorage G → GraphStorage G
  emit_nodes ctx [] st = st
  emit_nodes ctx (id ∷ ids) st =
      emit_nodes ctx ids
        (elim (Dict.get id st.nodes) [ none ↦ st | some n ↦ emit_node_create ctx id n st ])

  unfoldable pub emit_edge_create :
      Env → Option EventContext → String → Edge → GraphStorage G → GraphStorage G
  emit_edge_create env ctx id e st =
      emit
        (record {
          event_type = edge_create;
          entity_kind = edge;
          entity_id = id;
          entity_type = str_of env.strings e.type;
          before = none;
          after = some (of_edge e);
          context = ctx;
        })
        st

  unfoldable pub emit_edges :
      Env → Option EventContext → List String → GraphStorage G → GraphStorage G
  emit_edges env ctx [] st = st
  emit_edges env ctx (id ∷ ids) st =
      emit_edges env ctx ids
        (elim (get_edge id st) [ none ↦ st | some e ↦ emit_edge_create env ctx id e st ])

  -- What follows the loop over the edges.
  unfoldable pub after_edges :
      Env → Option EventContext → List String → Step G → AddNodesResult × GraphStorage G
  after_edges env ctx node_ids (stopped m st) = (refused m, st)
  after_edges env ctx node_ids (done edge_ids st) = (
    record {
      added_node_ids = node_ids;
      added_edge_ids = edge_ids;
      success = true;
      message = added;
    },
    emit_edges env ctx edge_ids (emit_nodes ctx node_ids (save st)),
  )

  -- What follows the loop over the nodes: the embeddings, whose exceptions are caught, and a save.
  unfoldable pub after_nodes :
      Env → List Edge → Option EventContext → Step G → AddNodesResult × GraphStorage G
  after_nodes env edges ctx (stopped m st) = (refused m, st)
  after_nodes env edges ctx (done ids st) = elim (name_to_id st.nodes []) [
    | none ↦ (refused failed, save st)
    | some names ↦ after_edges env ctx ids (insert_edges names edges [] (save st))
  ]

  unfoldable pub add_nodes :
      Env
      → List Node
      → List Edge
      → Option EventContext
      → GraphStorage G
      → AddNodesResult × GraphStorage G
  add_nodes env nodes edges ctx st = after_nodes env edges ctx (insert_nodes env nodes [] st)

  -- An end of a single edge; the names are looked at only where there is no such id.
  unfoldable pub find_end : String → GraphStorage G → Reply (Option String)
  find_end s st = if has_key s st.nodes then returned (some s) else elim (name_to_id st.nodes []) [
    | none ↦ raised
    | some names ↦ returned (Dict.get s names)
  ]

  unfoldable pub add_resolved :
      Env → Edge → Option EventContext → GraphStorage G → Reply (Option String) × GraphStorage G
  add_resolved env e ctx st =
      if has_key e.id st.edges
      then (returned none, st)
      else (returned (some e.id), emit_edge_create env ctx e.id e (save (attach e st)))

  unfoldable pub add_edge :
      Env → Edge → Option EventContext → GraphStorage G → Reply (Option String) × GraphStorage G
  add_edge env e ctx st = elim (find_end e.source st) [
    | raised ↦ (raised, st)
    | returned none ↦ (returned none, st)
    | returned (some s) ↦ elim (find_end e.target st) [
      | raised ↦ (raised, st)
      | returned none ↦ (returned none, st)
      | returned (some t) ↦ add_resolved env (record e { source = s; target = t }) ctx st
    ]
  ]
