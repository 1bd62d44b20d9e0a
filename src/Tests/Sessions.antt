-- ===== src/Tests/Sessions.antt =====
-- The session store of backend/core/session_store.py.
use community_overview.Base.{
  ℕ, ◌≡◌, refl, ◌≢◌, String, Bool, true, ◌&&◌, none, some, [], ◌∷◌, leb, ◌==◌, string_eq, nat_eq,
  ℕ_discrete, if◌then◌else◌,
}
use mathlib.Core.Option
use community_overview.Json.{text}
use community_overview.Session.State.{Session, empty_state}
use community_overview.Session.Ids.{
  is_valid_session_id, matches, four_digits, codes, dash, tail_groups, at_end,
}
use community_overview.Session.Store
use community_overview.Session.Store.{SessionStore, to_dict, from_dict, persist, delete}
use community_overview.Session.Store.Memory.{memory, memory-IsLawful}
use community_overview.Session.Store.Values.{to_dict-from_dict}
use community_overview.Session.Store.Lookup.{
  found, found-get, persist-restart, found-delete, restart,
}

abbrev room : Session
room = record {
  id = "1234-5678";
  name = some "Plan";
  created_at = "t0";
  updated_at = "t1";
  seq = 4;
  state = record empty_state { node_refs = "n1" ∷ []; annotations = 0 ∷ [] };
  objects = (("id", text "a1") ∷ []) ∷ [];
  deleted_annotation_ids = [];
}

abbrev room_id : String
room_id = "1234-5678"

abbrev is_digit : ℕ → Bool
is_digit c = leb 48 c && leb c 57

abbrev store : SessionStore memory
store = record {
  config = record { max_annotations = 100; ring_size = 3 };
  is_digit = is_digit;
  sessions = (room_id, room) ∷ [];
  rings = [];
  meta_cache = none;
  disk = [];
}

created_set : room.created_at ≢ ""
created_set = λ e. cc e

updated_set : room.updated_at ≢ ""
updated_set = λ e. cc e

room_valid : is_valid_session_id is_digit room.id ≡ true
unfolding is_valid_session_id matches four_digits codes dash nat_eq ℕ_discrete tail_groups at_end
room_valid = refl

room_saved : (persist room store).0 ≡ true
unfolding persist
room_saved = refl

to_dict-from_dict_example : to_dict (from_dict "t9" (to_dict room)) ≡ to_dict room
to_dict-from_dict_example = to_dict-from_dict "t9" room created_set updated_set

persist-restart_example :
    Option.map to_dict (found "t9" room.id (restart (persist room store).1)) ≡ some (to_dict room)
persist-restart_example =
    persist-restart memory-IsLawful "t9" room store room_valid created_set updated_set room_saved

found-delete_example :
    (found "t9" room_id (delete room_id store).1
      ≡ (if room_id == room_id then none else found "t9" room_id store))
    × (found "t9" room_id (restart (delete room_id store).1) ≡ none)
found-delete_example = found-delete memory-IsLawful "t9" room_id room_id store

found-get_example : found "t9" room_id (Store.get "t9" room_id store).1 ≡ found "t9" room_id store
found-get_example = found-get "t9" room_id room_id store
