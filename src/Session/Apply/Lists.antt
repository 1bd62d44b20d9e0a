-- ===== src/Session/Apply/Lists.antt =====
-- What the list and dict helpers of backend/core/session_store.py keep: distinct ids, and the heap's size.
use community_overview.Base.{
  ℕ, zero, suc, ◌≤◌, ◌<◌, String, ◌≡◌, refl, ap, ◌∙◌, Bool, not, none, List, [], ◌∷◌, ◌++◌, arith,
  string_eq, contains, keep, length, All, Bool-cases, inl, inr, if◌then◌else◌,
}
use community_overview.Base.Dict
use community_overview.Base.Dict.{Dict, NodupKeys, put-NodupKeys}
use community_overview.Base.Distinct.{Distinct, keep-Distinct, append_new-Distinct}
use community_overview.Json.{Object}
use community_overview.Session.State.{Position, union, remove_all, object_at, set_object}
use community_overview.Session.Ops.{Result-cases}
use community_overview.Session.Perform.{
  prune_members, prune_object, drop_positions, update_positions,
}

pub union-Distinct : (xs ys : List String) → Distinct xs → Distinct (union xs ys)
unfolding union
union-Distinct xs [] h = h
union-Distinct xs (y ∷ ys) h =
    union-Distinct (if contains xs y then xs else xs ++ (y ∷ [])) ys
      (ground (arith, append_new-Distinct xs y h))

pub remove_all-Distinct : (xs ys : List String) → Distinct xs → Distinct (remove_all xs ys)
unfolding remove_all
remove_all-Distinct xs ys h = keep-Distinct (λ x. not (contains ys x)) xs h

pub get-drop_positions :
    (ids : List String) (k : String) (d : Dict String Position)
    → Dict.get k (drop_positions ids d) ≡ (if contains ids k then none else Dict.get k d)
unfolding drop_positions Dict.get
get-drop_positions ids k [] = ground arith
get-drop_positions ids k ((j, p) ∷ d) = ground (arith, get-drop_positions ids k d)

pub drop_positions-NodupKeys :
    (ids : List String) (d : Dict String Position) → NodupKeys d → NodupKeys (drop_positions ids d)
unfolding drop_positions
drop_positions-NodupKeys ids [] h = tt
drop_positions-NodupKeys ids ((j, p) ∷ d) h =
    ground (arith, get-drop_positions ids j d, drop_positions-NodupKeys ids d h.1)

pub update_positions-NodupKeys :
    (d ps : Dict String Position) → NodupKeys d → NodupKeys (update_positions d ps)
unfolding update_positions
update_positions-NodupKeys d [] h = h
update_positions-NodupKeys d ((k, p) ∷ ps) h =
    update_positions-NodupKeys (Dict.put k p d) ps (put-NodupKeys k p d h)

pub length-set_object :
    (os : List Object) (r : ℕ) (o : Object) → length (set_object os r o) ≡ length os
unfolding set_object
length-set_object [] r o = refl
length-set_object (x ∷ os) zero o = refl
length-set_object (x ∷ os) (suc r) o = ap suc (length-set_object os r o)

pub length-prune_members :
    (ids : List String) (rs : List ℕ) (os : List Object)
    → length (prune_members ids rs os).0 ≡ length os
unfolding prune_members
length-prune_members ids [] os = refl
length-prune_members ids (r ∷ rs) os = elim (Result-cases (prune_object ids (object_at os r))) [
  | inl (o, e) ↦
      rw (e, prune_members)
        (length-prune_members ids rs (set_object os r o) ∙ length-set_object os r o)
  | inr (x, e) ↦ rw (e, prune_members) refl
]

pub All-keep {κ} : (P : ℕ → Type κ) (p : ℕ → Bool) (xs : List ℕ) → All P xs → All P (keep p xs)
All-keep P p [] h = h
All-keep P p (x ∷ xs) h = elim (Bool-cases (p x)) [
  | inl e ↦ rw e (h.0, All-keep P p xs h.1)
  | inr e ↦ rw e (All-keep P p xs h.1)
]

pub All-weaken : (n m : ℕ) (rs : List ℕ) → n ≤ m → All (λ r. r < n) rs → All (λ r. r < m) rs
All-weaken n m [] h k = tt
All-weaken n m (r ∷ rs) h k = (omega arith, All-weaken n m rs h k.1)
