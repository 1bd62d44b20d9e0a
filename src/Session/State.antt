-- ===== src/Session/State.antt =====
-- `Session` of backend/core/session_store.py, and the collections that it is made of.
-- Annotations are dicts that the state and the ring of applied ops share and that ops change in
-- place: they stand in the session's heap `objects`, and are named by their index there.
use community_overview.Base.{
  string_eq, ℕ, zero, suc, ◌-◌, String, Bool, Option, none, some, List, [], ◌∷◌, ◌++◌, not,
  contains, keep, length, if◌then◌else◌,
}
use community_overview.Base.Dict
use community_overview.Base.Dict.{Dict}
use community_overview.Json.{ℤ, Object}

pub record Position : Type 0 where
  pub x : ℤ
  pub y : ℤ

-- `Session.state`; an annotation is an index of the heap.
pub record State : Type 0 where
  pub node_refs : List String
  pub positions : Dict String Position
  pub hidden_node_ids : List String
  pub hidden_edge_ids : List String
  pub annotations : List ℕ

-- `_empty_state`
abbrev pub empty_state : State
empty_state = record {
  node_refs = [];
  positions = [];
  hidden_node_ids = [];
  hidden_edge_ids = [];
  annotations = [];
}

pub record Session : Type 0 where
  pub id : String
  pub name : Option String
  pub created_at : String
  pub updated_at : String
  pub seq : ℕ
  pub state : State
  pub objects : List Object
  pub deleted_annotation_ids : List String

abbrev pub tombstone_limit : ℕ
tombstone_limit = 200

-- An applied op of the ring: its dict, where `annotation`, if there is one, names the live object.
pub record Applied : Type 0 where
  pub seq : ℕ
  pub fields : Object
  pub annotation : Option ℕ

abbrev pub drop {ℓ} : {A : Type ℓ} → ℕ → List A → List A
drop zero xs = xs
drop (suc n) [] = []
drop (suc n) (x ∷ xs) = drop n xs

-- `deque.append` of a deque with a `maxlen`.
unfoldable pub push_bounded {ℓ} : {A : Type ℓ} → ℕ → List A → A → List A
push_bounded maxlen xs x = let ys = xs ++ (x ∷ []) in drop (length ys - maxlen) ys

-- `_union`
unfoldable pub union : List String → List String → List String
union existing [] = existing
union existing (x ∷ incoming) =
    union (if contains existing x then existing else existing ++ (x ∷ [])) incoming

-- `_remove_all`
unfoldable pub remove_all : List String → List String → List String
remove_all existing removals = keep (λ x. not (contains removals x)) existing

-- The object at an index; every index in use is below the size of the heap.
unfoldable pub object_at : List Object → ℕ → Object
object_at [] r = []
object_at (o ∷ os) zero = o
object_at (o ∷ os) (suc r) = object_at os r

unfoldable pub set_object : List Object → ℕ → Object → List Object
set_object [] r o' = []
set_object (o ∷ os) zero o' = o' ∷ os
set_object (o ∷ os) (suc r) o' = o ∷ set_object os r o'

-- The annotations by value.
unfoldable pub annotations_of : List Object → List ℕ → List Object
annotations_of os [] = []
annotations_of os (r ∷ rs) = object_at os r ∷ annotations_of os rs

-- `dict.update`
unfoldable pub update : Object → Object → Object
update o [] = o
update o ((k, v) ∷ fs) = update (Dict.put k v o) fs

-- `next((a for a in annotations if a.get("id") == ann_id), None)`, with a further test.
unfoldable pub find_annotation : (Object → Bool) → List Object → List ℕ → Option ℕ
find_annotation p os [] = none
find_annotation p os (r ∷ rs) =
    let rest = find_annotation p os rs in if p (object_at os r) then some r else rest
