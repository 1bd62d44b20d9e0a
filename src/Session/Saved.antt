-- ===== src/Session/Saved.antt =====
-- `Session.to_dict`, `from_dict` and `meta` of backend/core/session_store.py.
use community_overview.Base.{
  ℕ, suc, String, Option, none, some, List, [], ◌∷◌, ◌==◌, string_eq, if◌then◌else◌,
}
use community_overview.Base.Dict.{Dict}
use community_overview.Json.{Object}
use community_overview.Session.State.{Position, Session, annotations_of}

-- The dict of a session as `to_dict` makes it, by value; what a file may lack is optional.
pub record Saved : Type 0 where
  pub id : String
  pub name : Option String
  pub created_at : Option String
  pub updated_at : Option String
  pub seq : Option ℕ
  pub node_refs : Option (List String)
  pub positions : Option (Dict String Position)
  pub hidden_node_ids : Option (List String)
  pub hidden_edge_ids : Option (List String)
  pub annotations : Option (List Object)

pub record Meta : Type 0 where
  pub id : String
  pub name : Option String
  pub created_at : String
  pub updated_at : String
  pub seq : ℕ

unfoldable pub to_dict : Session → Saved
to_dict s = record {
  id = s.id;
  name = s.name;
  created_at = some s.created_at;
  updated_at = some s.updated_at;
  seq = some s.seq;
  node_refs = some s.state.node_refs;
  positions = some s.state.positions;
  hidden_node_ids = some s.state.hidden_node_ids;
  hidden_edge_ids = some s.state.hidden_edge_ids;
  annotations = some (annotations_of s.objects s.state.annotations);
}

unfoldable pub meta : Session → Meta
meta s = record {
  id = s.id;
  name = s.name;
  created_at = s.created_at;
  updated_at = s.updated_at;
  seq = s.seq;
}

abbrev or_default {ℓ} : {A : Type ℓ} → Option A → A → A
or_default none d = d
or_default (some a) d = a

-- `data.get(key) or _now_iso()`
unfoldable pub or_now : String → Option String → String
or_now now none = now
or_now now (some t) = if t == "" then now else t

-- New indices for objects that are put at the end of a heap of some size.
unfoldable pub indices : ℕ → List Object → List ℕ
indices n [] = []
indices n (o ∷ os) = n ∷ indices (suc n) os

-- `Session.from_dict`
unfoldable pub from_dict : String → Saved → Session
from_dict now d =
    let objects : List Object = or_default d.annotations [] in
    record {
      id = d.id;
      name = d.name;
      created_at = or_now now d.created_at;
      updated_at = or_now now d.updated_at;
      seq = or_default d.seq 0;
      state = record {
        node_refs = or_default d.node_refs [];
        positions = or_default d.positions [];
        hidden_node_ids = or_default d.hidden_node_ids [];
        hidden_edge_ids = or_default d.hidden_edge_ids [];
        annotations = indices 0 objects;
      };
      objects = objects;
      deleted_annotation_ids = [];
    }
