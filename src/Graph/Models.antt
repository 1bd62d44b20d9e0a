-- ===== src/Graph/Models.antt =====
-- `Node` and `Edge` of backend/core/models.py. `update_node` and `update_edge` put what a request
-- holds into a field with no test, so these fields are JSON values. Types are the texts that `type_str`
-- gives. Embeddings are left out.
use community_overview.Base.{String}
use community_overview.Json.{Json}

pub record Node : Type 0 where
  pub id : String
  pub type : String
  pub name : Json
  pub description : Json
  pub summary : Json
  pub tags : Json
  pub subtypes : Json
  pub aliases : Json
  pub metadata : Json
  pub created_at : String
  pub updated_at : String

pub record Edge : Type 0 where
  pub id : String
  pub source : String
  pub target : String
  pub type : Json
  pub label : Json
  pub metadata : Json
  pub created_at : String

-- What `to_dict` makes: the entity by value.
pub data Entity : Type 0 where
  of_node : Node → Entity
  of_edge : Edge → Entity
