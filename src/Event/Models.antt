-- ===== src/Event/Models.antt =====
-- The event and its parts, of backend/core/events/models.py. An event's time stands in it as the text
-- that it has in the payload.
use community_overview.Base.{ℕ, String, Option}
use community_overview.Json.{Object}

pub data EventType : Type 0 where
  node_create : EventType
  node_update : EventType
  node_delete : EventType
  edge_create : EventType
  edge_update : EventType
  edge_delete : EventType

-- `event_type.value`
unfoldable pub type_value : EventType → String
type_value node_create = "node.create"
type_value node_update = "node.update"
type_value node_delete = "node.delete"
type_value edge_create = "edge.create"
type_value edge_update = "edge.update"
type_value edge_delete = "edge.delete"

pub data EntityKind : Type 0 where
  node : EntityKind
  edge : EntityKind

pub record EventContext : Type 0 where
  pub event_origin : Option String
  pub event_session_id : Option String
  pub event_correlation_id : Option String

pub record EntityData : Type 0 where
  pub kind : EntityKind
  pub id : String
  pub type : String
  pub before : Option Object
  pub after : Option Object
  pub patch : Option Object

pub record SubscriptionInfo : Type 0 where
  pub id : String
  pub name : String

pub record Event : Type 0 where
  pub event_id : String
  pub schema_version : String
  pub event_type : EventType
  pub occurred_at : String
  pub origin : EventContext
  pub entity : EntityData
  pub subscription : Option SubscriptionInfo

pub data DeliveryStatus : Type 0 where
  success : DeliveryStatus
  failed : DeliveryStatus
  retrying : DeliveryStatus
  dropped : DeliveryStatus

-- Error messages are left out, and the time of a success.
pub record DeliveryResult : Type 0 where
  pub event_id : String
  pub subscription_id : String
  pub webhook_url : String
  pub status : DeliveryStatus
  pub attempt : ℕ
  pub max_attempts : ℕ
  pub status_code : Option ℕ
