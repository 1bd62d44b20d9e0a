-- ===== src/Tests/Graph.antt =====
-- The storage of backend/core/storage.py: three nodes in a row, and calls on them.
use community_overview.Base.{
  ◌≡◌, ◌↔◌, refl, String, true, none, some, [], ◌∷◌, arith, keep, string_eq, nat_eq, ℕ_discrete,
}
use mathlib.Core.List.{Memᴰ}
use community_overview.Base.Dict
use community_overview.Base.Dict.{Dict}
use community_overview.Json.{text, array, object, nil, end, is_truthy, to_list, as_texts}
use community_overview.Graph.Models.{Node, Edge}
use community_overview.Graph.Multigraph.Listed.{listed, listed-IsLawful}
use community_overview.Graph.Score
use community_overview.Graph.Insertion
use community_overview.Graph.Insertion.{add_nodes}
use community_overview.Graph.Integrity.Added.{IsAddition, add_nodes-IsAddition}
use community_overview.Text
use community_overview.Graph.Storage.{
  GraphStorage, Env, empty, get_edge, get_all_edges, get_incident_edges, has_key, deref, emit, save,
}
use community_overview.Graph.Deletion.{delete_nodes, delete_edges}
use community_overview.Graph.Integrity.{Intact}
use community_overview.Graph.Integrity.Calls.{Call, add_nodes_call, calls, calls-Intact}
use community_overview.Graph.Integrity.Clearing.{touches_any}
use community_overview.Graph.Integrity.Deletions.{IsDeletion, delete_nodes-IsDeletion}
use community_overview.Graph.Integrity.EdgeDeletions.{IsForgotten, delete_edges-IsForgotten}
use community_overview.Graph.Integrity.Incidence.{get_incident_edges-scan}
use community_overview.Graph.Related.{get_related_nodes}
use community_overview.Graph.Related.Hops.{Hops, Passed}
use community_overview.Graph.Related.Correct.{get_related_nodes-Hops}

abbrev pub env : Env
env = record {
  now = "2026-01-01T00:00:00";
  strings = record { lower = λ s. s; strip = λ s. s; str = λ j. "None"; dict = λ j. none };
  embeddings_removed = true;
}

abbrev pub actor : String → Node
actor id = record {
  id = id;
  type = "Actor";
  name = text id;
  description = text "";
  summary = text "";
  tags = array nil;
  subtypes = array nil;
  aliases = array nil;
  metadata = object end;
  created_at = "2026-01-01T00:00:00";
  updated_at = "2026-01-01T00:00:00";
}

abbrev relation : String → String → String → Edge
relation id source target = record {
  id = id;
  source = source;
  target = target;
  type = text "RELATES_TO";
  label = text "";
  metadata = object end;
  created_at = "2026-01-01T00:00:00";
}

abbrev three : Call
three =
    add_nodes_call (actor "a" ∷ actor "b" ∷ actor "c" ∷ [])
      (relation "ab" "a" "b" ∷ relation "bc" "b" "c" ∷ [])

abbrev row : GraphStorage listed
row = calls ((env, none, three) ∷ []) (empty [])

row-Intact : Intact row
row-Intact = calls-Intact listed-IsLawful [] ((env, none, three) ∷ [])

delete_nodes-IsDeletion_example :
    IsDeletion
      ("a" ∷ "x" ∷ [])
      row
      (delete_nodes env ("a" ∷ "x" ∷ []) true none row).0
      (delete_nodes env ("a" ∷ "x" ∷ []) true none row).1
delete_nodes-IsDeletion_example =
    delete_nodes-IsDeletion listed-IsLawful env ("a" ∷ "x" ∷ []) none row row-Intact (omega arith)
      refl

delete_edges-IsForgotten_example :
    IsForgotten
      ("bc" ∷ "x" ∷ [])
      []
      row
      (delete_edges env ("bc" ∷ "x" ∷ []) none row).0
      (delete_edges env ("bc" ∷ "x" ∷ []) none row).1
delete_edges-IsForgotten_example =
    delete_edges-IsForgotten listed-IsLawful env ("bc" ∷ "x" ∷ []) none row row-Intact

get_incident_edges-scan_example :
    Memᴰ (relation "ab" "a" "b") (get_incident_edges ("b" ∷ []) row)
    ↔ Memᴰ (relation "ab" "a" "b") (keep (touches_any ("b" ∷ [])) (get_all_edges row))
get_incident_edges-scan_example =
    get_incident_edges-scan listed-IsLawful row row-Intact ("b" ∷ []) (relation "ab" "a" "b")

row-has_key : has_key "a" row.nodes ≡ true
unfolding Dict.get Dict.put Insertion.add_nodes Insertion.after_nodes Insertion.insert_nodes
    Insertion.insert_node Insertion.cache_text Insertion.place_node Insertion.name_to_id
    Insertion.after_edges Insertion.insert_edges Insertion.insert_edge Insertion.attach
    Insertion.emit_edge_create Insertion.emit_edges Insertion.emit_nodes Insertion.resolve
    Score.build_searchable_text Score.texts_of Score.get_or Score.str_of Score.type_key empty deref
    emit save get_edge get_all_edges is_truthy Text.elements Text.join string_eq nat_eq to_list
    as_texts ℕ_discrete Insertion.emit_node_create
row-has_key = refl

get_related_nodes-Hops_example :
    ((n : Node)
      → Memᴰ n (get_related_nodes [] row "a" 2).0
        ↔ ((v : String) × Hops [] row "a" 2 v × (Dict.get v row.nodes ≡ some n)))
    × ((e : Edge)
        → Memᴰ e (get_related_nodes [] row "a" 2).1
          ↔ ((k : String) × Passed [] row "a" 2 k × (get_edge k row ≡ some e)))
get_related_nodes-Hops_example =
    get_related_nodes-Hops listed-IsLawful [] row "a" 2 row-Intact row-has_key

add_nodes-IsAddition_example :
    IsAddition
      (actor "d" ∷ actor "a" ∷ [])
      []
      row
      (add_nodes env (actor "d" ∷ actor "a" ∷ []) [] none row).0
      (add_nodes env (actor "d" ∷ actor "a" ∷ []) [] none row).1
add_nodes-IsAddition_example =
    add_nodes-IsAddition listed-IsLawful env (actor "d" ∷ actor "a" ∷ []) [] none row row-Intact
