-- ===== src/Event/Subscriptions.antt =====
-- The subscriptions of backend/core/events/dispatcher.py, as `_parse_filters`, `_parse_delivery` and
-- `_load_subscriptions` make them of graph nodes. `none` is an exception. Which values pydantic takes
-- for an optional int is an argument.
use community_overview.Base.{
  String, Option, none, some, List, [], ◌∷◌, ◌==◌, string_eq, if◌then◌else◌,
}
use community_overview.Base.Dict
use community_overview.Json.{
  ℤ, Json, object, Object, to_object, item, is_truthy, as_text, as_text_list,
}
use community_overview.Event.Models.{EntityKind, node, edge}

infixl 5 ◌>>=◌
abbrev pub ◌>>=◌ {ℓ κ} : {A : Type ℓ} {B : Type κ} → Option A → (A → Option B) → Option B
none >>= f = none
some a >>= f = f a

pub record TargetFilters : Type 0 where
  pub entity_kind : EntityKind
  pub node_types : List String
  pub relationship_types : List String

pub record FederationFilters : Type 0 where
  pub scope : String
  pub include_graph_ids : List String
  pub max_distance : Option ℤ

pub record SubscriptionFilters : Type 0 where
  pub target : TargetFilters
  pub operations : List String
  pub keywords : List String
  pub federation : FederationFilters

pub record SubscriptionDelivery : Type 0 where
  pub webhook_url : String
  pub ignore_origins : List String
  pub ignore_session_ids : List String

pub record Subscription : Type 0 where
  pub id : String
  pub name : String
  pub filters : SubscriptionFilters
  pub delivery : SubscriptionDelivery

-- What the dispatcher reads of a graph node, its type as text.
pub record Node : Type 0 where
  pub id : String
  pub type : String
  pub name : String
  pub metadata : Option Object

-- `d.get(key, {})`, of which the caller then calls `get`.
unfoldable pub section : String → Object → Option Object
section key d = elim (Dict.get key d) [
  | none ↦ some []
  | some (object fs) ↦ some (to_object fs)
  | some _ ↦ none
]

-- `d.get(key, default)` where the model wants a list of texts, and where it wants a text.
unfoldable pub texts_or : List String → String → Object → Option (List String)
texts_or default key d = elim (Dict.get key d) [ none ↦ some default | some v ↦ as_text_list v ]

unfoldable pub text_or : String → String → Object → Option String
text_or default key d = elim (Dict.get key d) [ none ↦ some default | some v ↦ as_text v ]

-- `EntityKind(value)`
unfoldable pub entity_kind : String → Option EntityKind
entity_kind s = if s == "node" then some node else if s == "edge" then some edge else none

unfoldable pub parse_delivery : Object → Option SubscriptionDelivery
parse_delivery settings = do
  webhook_url ← as_text (item "webhook_url" settings)
  ignore_origins ← texts_or [] "ignore_origins" settings
  ignore_session_ids ← texts_or [] "ignore_session_ids" settings
  some (record {
    webhook_url = webhook_url;
    ignore_origins = ignore_origins;
    ignore_session_ids = ignore_session_ids;
  })

-- `node.metadata or {}`
unfoldable pub metadata_of : Node → Object
metadata_of n = elim n.metadata [ none ↦ [] | some m ↦ m ]

module _ (int_field : Json → Option (Option ℤ)) where
  unfoldable pub parse_filters : Object → Option SubscriptionFilters
  parse_filters settings = do
    target_data ← section "target" settings
    kind_name ← text_or "node" "entity_kind" target_data
    kind ← entity_kind kind_name
    node_types ← texts_or [] "node_types" target_data
    relationship_types ← texts_or [] "relationship_types" target_data
    keywords_data ← section "keywords" settings
    keywords ← texts_or [] "any" keywords_data
    federation_data ← section "federation" settings
    scope ← text_or "local_only" "scope" federation_data
    include_graph_ids ← texts_or [] "include_graph_ids" federation_data
    max_distance ← int_field (item "max_distance" federation_data)
    operations ← texts_or ("create" ∷ "update" ∷ "delete" ∷ []) "operations" settings
    some (record {
      target = record {
        entity_kind = kind;
        node_types = node_types;
        relationship_types = relationship_types;
      };
      operations = operations;
      keywords = keywords;
      federation = record {
        scope = scope;
        include_graph_ids = include_graph_ids;
        max_distance = max_distance;
      };
    })

  -- One round of the loop over the nodes: a node that is skipped yields no subscription.
  unfoldable pub subscription_of : Node → Option (List Subscription)
  subscription_of n =
      if n.type == "EventSubscription"
      then (do
        filters_data ← section "filters" (metadata_of n)
        filters ← parse_filters filters_data
        delivery_data ← section "delivery" (metadata_of n)
        delivered filters delivery_data (item "webhook_url" delivery_data))
      else some []
    where
      delivered : SubscriptionFilters → Object → Json → Option (List Subscription)
      delivered filters settings url =
          if is_truthy url
          then (do
            delivery ← parse_delivery settings
            some (record { id = n.id; name = n.name; filters = filters; delivery = delivery } ∷ []))
          else some []
