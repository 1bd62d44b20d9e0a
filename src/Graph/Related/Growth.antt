-- ===== src/Graph/Related/Growth.antt =====
-- What one layer of the traversal adds.
use community_overview.Base.{
  String, ◌≡◌, ◌⊎◌, ◌↔◌, true, ◌||◌, inl, inr, List, [], ◌∷◌, arith, ◌==◌, string_eq, nat_eq,
  contains, contains-append,
}
use community_overview.Graph.Related.{set_add, Walk, meet}

abbrev pub IsVisited : Walk → String → Type 0
IsVisited w v = contains w.visited_nodes v ≡ true

abbrev pub IsCrossed : Walk → String → Type 0
IsCrossed w k = contains w.visited_edges k ≡ true

abbrev pub IsNext : Walk → String → Type 0
IsNext w v = contains w.next_layer v ≡ true

contains-set_add :
    (x y : String) (xs : List String) → contains (set_add x xs) y ≡ (contains xs y || y == x)
contains-set_add x y xs = ground (arith, contains-append y xs (x ∷ []))

-- A stretch of the traversal that meets the nodes of `Q` over the edges of `R`.
pub record IsGrown (Q R : String → Type 0) (w x : Walk) : Type 0 where
  pub old : (v : String) → IsVisited w v → IsVisited x v
  pub new : (v : String) → IsVisited x v → IsVisited w v ⊎ Q v
  pub all : (v : String) → Q v → IsVisited x v
  pub old_edges : (k : String) → IsCrossed w k → IsCrossed x k
  pub new_edges : (k : String) → IsCrossed x k → IsCrossed w k ⊎ R k
  pub all_edges : (k : String) → R k → IsCrossed x k
  pub old_next : (v : String) → IsNext w v → IsNext x v
  pub new_next : (v : String) → IsNext x v → IsNext w v ⊎ IsVisited x v
  pub all_next : (v : String) → IsVisited x v → IsVisited w v ⊎ IsNext x v

pub IsGrown-none :
    (Q R : String → Type 0) (w : Walk)
    → ((v : String) → Q v → ⊥)
    → ((k : String) → R k → ⊥)
    → IsGrown Q R w w
IsGrown-none Q R w none_met none_crossed = record {
  old = λ v h. h;
  new = λ v h. inl h;
  all = λ v q. absurd (none_met v q);
  old_edges = λ k h. h;
  new_edges = λ k h. inl h;
  all_edges = λ k r. absurd (none_crossed k r);
  old_next = λ v h. h;
  new_next = λ v h. inl h;
  all_next = λ v h. inl h;
}

-- Two stretches, one after the other.
pub IsGrown-then :
    (Q R Q' R' P S : String → Type 0) (w x y : Walk)
    → ((v : String) → P v ↔ (Q v ⊎ Q' v))
    → ((k : String) → S k ↔ (R k ⊎ R' k))
    → IsGrown Q R w x
    → IsGrown Q' R' x y
    → IsGrown P S w y
IsGrown-then Q R Q' R' P S w x y nodes edges f g = record {
  old = λ v h. g.old v (f.old v h);
  new = λ v h. elim (g.new v h) [
    | inr q ↦ inr ((nodes v).1 (inr q))
    | inl m ↦ elim (f.new v m) [ inl o ↦ inl o | inr q ↦ inr ((nodes v).1 (inl q)) ]
  ];
  all = λ v p. elim ((nodes v).0 p) [ inl q ↦ g.old v (f.all v q) | inr q ↦ g.all v q ];
  old_edges = λ k h. g.old_edges k (f.old_edges k h);
  new_edges = λ k h. elim (g.new_edges k h) [
    | inr q ↦ inr ((edges k).1 (inr q))
    | inl m ↦ elim (f.new_edges k m) [ inl o ↦ inl o | inr q ↦ inr ((edges k).1 (inl q)) ]
  ];
  all_edges = λ k p. elim ((edges k).0 p) [
    | inl q ↦ g.old_edges k (f.all_edges k q)
    | inr q ↦ g.all_edges k q
  ];
  old_next = λ v h. g.old_next v (f.old_next v h);
  new_next = λ v h. elim (g.new_next v h) [
    | inr q ↦ inr q
    | inl m ↦ elim (f.new_next v m) [ inl o ↦ inl o | inr q ↦ inr (g.old v q) ]
  ];
  all_next = λ v h. elim (g.all_next v h) [
    | inr q ↦ inr q
    | inl m ↦ elim (f.all_next v m) [ inl o ↦ inl o | inr q ↦ inr (g.old_next v q) ]
  ];
}

-- One edge.
pub meet-IsGrown : (v k : String) (w : Walk) → IsGrown (λ x. x ≡ v) (λ x. x ≡ k) w (meet v k w)
unfolding meet
meet-IsGrown v k w = record {
  old = λ x h. ground (arith, h, contains-set_add v x w.visited_nodes);
  new = λ x h. ground (arith, h, contains-set_add v x w.visited_nodes);
  all = λ x q. ground (arith, q, contains-set_add v x w.visited_nodes);
  old_edges = λ x h. ground (arith, h, contains-set_add k x w.visited_edges);
  new_edges = λ x h. ground (arith, h, contains-set_add k x w.visited_edges);
  all_edges = λ x q. ground (arith, q, contains-set_add k x w.visited_edges);
  old_next = λ x h. ground (arith, h, contains-set_add v x w.next_layer);
  new_next = λ x h.
      ground (arith, h, contains-set_add v x w.next_layer, contains-set_add v x w.visited_nodes);
  all_next = λ x h.
      ground (arith, h, contains-set_add v x w.next_layer, contains-set_add v x w.visited_nodes);
}

pub IsGrown-map :
    (Q R Q' R' : String → Type 0) (w x : Walk)
    → ((v : String) → Q v ↔ Q' v)
    → ((k : String) → R k ↔ R' k)
    → IsGrown Q R w x
    → IsGrown Q' R' w x
IsGrown-map Q R Q' R' w x nodes edges f = record {
  old = f.old;
  new = λ v h. elim (f.new v h) [ inl m ↦ inl m | inr q ↦ inr ((nodes v).0 q) ];
  all = λ v q. f.all v ((nodes v).1 q);
  old_edges = f.old_edges;
  new_edges = λ k h. elim (f.new_edges k h) [ inl m ↦ inl m | inr q ↦ inr ((edges k).0 q) ];
  all_edges = λ k q. f.all_edges k ((edges k).1 q);
  old_next = f.old_next;
  new_next = f.new_next;
  all_next = f.all_next;
}
