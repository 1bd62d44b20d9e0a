-- ===== src/Session/Store/Values.antt =====
-- Sessions by value: what is written out is what is read back, wherever its annotations stand.
use community_overview.Base.{
  suc, ◌≡◌, refl, ap, ◌≢◌, String, some, List, [], ◌∷◌, ◌++◌, arith, string_eq, length,
  length-append,
}
use mathlib.Core.List.{append_assoc}
use community_overview.Json.{Object}
use community_overview.Session.State.{Session, object_at, annotations_of}
use community_overview.Session.Store.{to_dict, from_dict, or_now, indices}

object_at-append :
    (pre : List Object) (o : Object) (os : List Object)
    → object_at (pre ++ (o ∷ os)) (length pre) ≡ o
unfolding object_at
object_at-append [] o os = refl
object_at-append (p ∷ pre) o os = object_at-append pre o os

-- The new indices name the objects that were put at the end of the heap.
pub annotations_of-indices :
    (pre os : List Object) → annotations_of (pre ++ os) (indices (length pre) os) ≡ os
unfolding annotations_of indices
annotations_of-indices pre [] = refl
annotations_of-indices pre (o ∷ os) =
    let size : length (pre ++ (o ∷ [])) ≡ suc (length pre) =
      omega (arith, length-append pre (o ∷ [])) in
    let split : (pre ++ (o ∷ [])) ++ os ≡ pre ++ (o ∷ os) = append_assoc pre (o ∷ []) os in
    let ih = annotations_of-indices (pre ++ (o ∷ [])) os in
    rw object_at-append (ap (◌∷◌ o) (rw (size, split) at ih))

or_now_set : (now t : String) → t ≢ "" → or_now now (some t) ≡ t
unfolding or_now
or_now_set now t h = ground arith

-- A session with both times set, turned into its dict and back, has the same dict.
pub to_dict-from_dict :
    (now : String) (s : Session)
    → s.created_at ≢ ""
    → s.updated_at ≢ ""
    → to_dict (from_dict now (to_dict s)) ≡ to_dict s
unfolding to_dict from_dict
to_dict-from_dict now s hc hu =
    rw (or_now_set now s.created_at hc, or_now_set now s.updated_at hu)
      (rw (annotations_of-indices [] (annotations_of s.objects s.state.annotations)) refl)
