-- ===== src/Session/Store/Memory.antt =====
-- `InMemorySessionPersistenceBackend` of backend/core/session_store.py. The copy by way of JSON text
-- is the identity on values; the order of `list_meta` is not modelled.
use community_overview.Base.{String, some, List, [], ◌∷◌, arith, string_eq}
use community_overview.Base.Dict
use community_overview.Base.Dict.{Dict, get-put, get-remove}
use community_overview.Session.Store.{Saved, Meta, Backend, IsLawful, from_dict, meta}

unfoldable pub metas_of : Dict String Saved → List Meta
metas_of [] = []
metas_of ((k, v) ∷ d) = meta (from_dict "" v) ∷ metas_of d

abbrev pub memory : Backend
memory = record {
  Disk = Dict String Saved;
  load = λ d k. Dict.get k d;
  save = λ d v. some (Dict.put v.id v d);
  delete = λ d k. Dict.remove k d;
  list_meta = metas_of;
}

-- What is saved under an id is what is loaded, until it is saved again or deleted.
pub memory-IsLawful : IsLawful memory
memory-IsLawful = record {
  load-save = λ d d' k v e. ground (arith, get-put k v.id v d, e);
  load-delete = λ d k j. get-remove k j d;
}
