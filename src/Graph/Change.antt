-- ===== src/Graph/Change.antt =====
-- `update_node` and `update_edge` of backend/core/storage.py. Values are set with no test; where the
-- method raises, `raised`, what has been set stays set.
use community_overview.Base.{
  String, ◌||◌, Option, none, some, List, [], ◌∷◌, ◌==◌, string_eq, nat_eq, contains, is_empty,
  if◌then◌else◌,
}
use community_overview.Base.Dict
use community_overview.Base.Dict.{Dict}
use community_overview.Json.{Json, null, text, object, Object, to_object, of_object, is_truthy}
use community_overview.Event.Models.{EventContext, node_update, edge_update, node, edge}
use community_overview.Graph.Models.{Node, Edge, of_node, of_edge}
use community_overview.Graph.Multigraph.{MultiDiGraph}
use community_overview.Graph.Score.{Strings, str_of, build_searchable_text}
use community_overview.Graph.Storage.{GraphStorage, Env, save, emit}
use community_overview.Graph.Insertion.{Reply, returned, raised, cache_text}

abbrev allowed_fields : List String
allowed_fields =
    "name" ∷ "description" ∷ "summary" ∷ "tags" ∷ "subtypes" ∷ "aliases" ∷ "metadata" ∷ []

abbrev reserved_fields : List String
reserved_fields = "id" ∷ "type" ∷ "embedding" ∷ "created_at" ∷ "updated_at" ∷ []

-- `setattr(node, key, value)` for an allowed field.
unfoldable pub set_field : String → Json → Node → Node
set_field key v n =
    if key == "name"
    then record n { name = v }
    else if key == "description"
    then record n { description = v }
    else if key == "summary"
    then record n { summary = v }
    else if key == "tags"
    then record n { tags = v }
    else if key == "subtypes"
    then record n { subtypes = v }
    else if key == "aliases"
    then record n { aliases = v }
    else if key == "metadata"
    then record n { metadata = v }
    else n

unfoldable pub set_fields : Object → Node → Node
set_fields [] n = n
set_fields ((key, v) ∷ updates) n =
    set_fields updates (if contains allowed_fields key then set_field key v n else n)

-- The updates that the base model has no field for.
unfoldable pub extra_of : Object → Object
extra_of [] = []
extra_of ((key, v) ∷ updates) =
    let rest = extra_of updates in
    if contains allowed_fields key || contains reserved_fields key then rest else (key, v) ∷ rest

unfoldable pub update_dict : Object → Object → Object
update_dict d [] = d
update_dict d ((key, v) ∷ updates) = update_dict (Dict.put key v d) updates

-- `dict(node.metadata or {})`
unfoldable pub metadata_dict : Strings → Json → Option Object
metadata_dict p (object fs) = some (to_object fs)
metadata_dict p v = if is_truthy v then p.dict v else some []

unfoldable pub fold_extra : Strings → Object → Node → Option Node
fold_extra p updates n =
    if is_empty (extra_of updates) then some n else elim (metadata_dict p n.metadata) [
      | none ↦ none
      | some meta ↦
          some (record n { metadata = object (of_object (update_dict meta (extra_of updates))) })
    ]

-- `setattr(edge, key, value)` for an allowed field; an empty type is the default one.
unfoldable pub default_type : Json → Json
default_type null = text "RELATES_TO"
default_type (text s) = if s == "" then text "RELATES_TO" else text s
default_type v = v

unfoldable pub set_edge_field : String → Json → Edge → Edge
set_edge_field key v e =
    if key == "type"
    then record e { type = default_type v }
    else if key == "label"
    then record e { label = v }
    else if key == "metadata"
    then record e { metadata = v }
    else e

unfoldable pub set_edge_fields : Object → Edge → Edge
set_edge_fields [] e = e
set_edge_fields ((key, v) ∷ updates) e = set_edge_fields updates (set_edge_field key v e)

module _ {G : MultiDiGraph} where
  abbrev pub with_node : String → Node → GraphStorage G → GraphStorage G
  with_node id n st = record st { nodes = Dict.put id n st.nodes }

  unfoldable pub store_updated :
      Env
      → String
      → Node
      → Node
      → Option EventContext
      → GraphStorage G
      → Reply (Option Node) × GraphStorage G
  store_updated env id old n ctx st =
      if G.has_node id st.graph
      then elim (build_searchable_text env.strings st.type_texts n) [
        | none ↦ (raised, with_node id n st)
        | some s ↦ (
          returned (some n),
          emit
              (record {
                event_type = node_update;
                entity_kind = node;
                entity_id = id;
                entity_type = n.type;
                before = some (of_node old);
                after = some (of_node n);
                context = ctx;
              })
              (save (cache_text n.id s (with_node id n st))),
        )
      ]
      else (raised, with_node id n st)

  unfoldable pub update_node :
      Env
      → String
      → Object
      → Option EventContext
      → GraphStorage G
      → Reply (Option Node) × GraphStorage G
  update_node env id updates ctx st = elim (Dict.get id st.nodes) [
    | none ↦ (returned none, st)
    | some old ↦ elim (fold_extra env.strings updates (set_fields updates old)) [
      | none ↦ (raised, with_node id (set_fields updates old) st)
      | some n ↦ store_updated env id old (record n { updated_at = env.now }) ctx st
    ]
  ]

  unfoldable pub update_edge :
      Env → String → Object → Option EventContext → GraphStorage G → Option Edge × GraphStorage G
  update_edge env id updates ctx st = elim (Dict.get id st.edges) [
    | none ↦ (none, st)
    | some r ↦ elim (Dict.get r st.objects) [
      | none ↦ (none, st)
      | some old ↦
          let e = set_edge_fields updates old in
          (
            some e,
            emit
                (record {
                  event_type = edge_update;
                  entity_kind = edge;
                  entity_id = id;
                  entity_type = str_of env.strings e.type;
                  before = some (of_edge old);
                  after = some (of_edge e);
                  context = ctx;
                })
                (save (record st { objects = Dict.put r e st.objects })),
          )
    ]
  ]
