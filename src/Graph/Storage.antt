-- ===== src/Graph/Storage.antt =====
-- `GraphStorage` of backend/core/storage.py: its state, its reads, `save`, and the events that it
-- emits. An edge is an object that the dict of edges and the multigraph share: both hold a reference
-- to it. Embeddings and the type labels' configuration are left out; the lock makes each method one
-- step.
use community_overview.Base.{
  ℕ, String, Bool, true, false, ◌&&◌, ◌||◌, Option, none, some, List, [], ◌∷◌, ◌++◌, ◌==◌,
  string_eq, nat_eq, contains, keep, if◌then◌else◌,
}
use community_overview.Base.Dict
use community_overview.Base.Dict.{Dict}
use community_overview.Event.Models.{EventType, EntityKind, EventContext}
use community_overview.Graph.Models.{Node, Edge, Entity}
use community_overview.Graph.Multigraph.{MultiDiGraph}
use community_overview.Graph.Score.{Strings}

-- The arguments of a call of `_emit_event`.
pub record Emission : Type 0 where
  pub event_type : EventType
  pub entity_kind : EntityKind
  pub entity_id : String
  pub entity_type : String
  pub before : Option Entity
  pub after : Option Entity
  pub context : Option EventContext

-- What `save` hands to the background thread.
pub record Snapshot : Type 0 where
  pub nodes : List Node
  pub edges : List Edge

-- `objects` is the heap of edges; `next` is the next free reference. `saves` and `emitted` are what has
-- been handed over so far, in order.
pub record GraphStorage (G : MultiDiGraph) : Type 0 where
  pub nodes : Dict String Node
  pub edges : Dict String ℕ
  pub objects : Dict ℕ Edge
  pub next : ℕ
  pub graph : G.Graph
  pub text_cache : Dict String String
  pub type_texts : Dict String String
  pub saves : List Snapshot
  pub emitted : List Emission

-- What a call reads from outside: the time, texts, and whether the vector store's removal of
-- embeddings comes back without an exception.
pub record Env : Type 0 where
  pub now : String
  pub strings : Strings
  pub embeddings_removed : Bool

abbrev pub has_key {ℓ} : {V : Type ℓ} → String → Dict String V → Bool
has_key k d = elim (Dict.get k d) [ none ↦ false | some v ↦ true ]

-- The objects of a dict's references.
unfoldable pub deref : Dict ℕ Edge → List ℕ → List Edge
deref os [] = []
deref os (r ∷ rs) =
    let rest = deref os rs in elim (Dict.get r os) [ none ↦ rest | some e ↦ e ∷ rest ]

abbrev pub touches : String → Edge → Bool
touches n e = e.source == n || e.target == n

-- `collected_edges[edge.id] = edge` for what the multigraph lists.
unfoldable pub collect :
    Dict ℕ Edge → List (String × String × ℕ) → Dict String Edge → Dict String Edge
collect os [] d = d
collect os ((n, k, r) ∷ xs) d =
    collect os xs (elim (Dict.get r os) [ none ↦ d | some e ↦ Dict.put e.id e d ])

module _ {G : MultiDiGraph} where
  -- A new storage, with the type labels of the configuration, before anything is loaded.
  unfoldable pub empty : Dict String String → GraphStorage G
  empty texts = record {
    nodes = [];
    edges = [];
    objects = [];
    next = 0;
    graph = G.empty;
    text_cache = [];
    type_texts = texts;
    saves = [];
    emitted = [];
  }

  -- `self.edges.get(edge_id)`, the object.
  unfoldable pub get_edge : String → GraphStorage G → Option Edge
  get_edge k st = elim (Dict.get k st.edges) [ none ↦ none | some r ↦ Dict.get r st.objects ]

  unfoldable pub get_all_edges : GraphStorage G → List Edge
  get_all_edges st = deref st.objects (Dict.values st.edges)

  unfoldable pub save : GraphStorage G → GraphStorage G
  save st = record st {
    saves = st.saves ++ (record { nodes = Dict.values st.nodes; edges = get_all_edges st } ∷ []);
  }

  unfoldable pub emit : Emission → GraphStorage G → GraphStorage G
  emit e st = record st { emitted = st.emitted ++ (e ∷ []) }

  unfoldable pub get_edges_for_node : String → GraphStorage G → List Edge
  get_edges_for_node n st = keep (touches n) (get_all_edges st)

  unfoldable pub get_edges_between_nodes : List String → GraphStorage G → List Edge
  get_edges_between_nodes ids st =
      keep (λ e. contains ids e.source && contains ids e.target) (get_all_edges st)

  unfoldable pub collect_node : String → GraphStorage G → Dict String Edge → Dict String Edge
  collect_node n st d =
      if has_key n st.nodes && G.has_node n st.graph
      then collect st.objects (G.in_edges n st.graph)
          (collect st.objects (G.out_edges n st.graph) d)
      else d

  unfoldable pub collect_nodes : List String → GraphStorage G → Dict String Edge → Dict String Edge
  collect_nodes [] st d = d
  collect_nodes (n ∷ ns) st d = collect_nodes ns st (collect_node n st d)

  unfoldable pub get_incident_edges : List String → GraphStorage G → List Edge
  get_incident_edges ids st = Dict.values (collect_nodes ids st [])
