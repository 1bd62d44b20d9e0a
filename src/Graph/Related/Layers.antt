-- ===== src/Graph/Related/Layers.antt =====
-- The traversal finds what is near.
use community_overview.Base.{
  ℕ, suc, ◌+◌, String, ◌≡◌, subst, ◌⊎◌, ◌↔◌, true, inl, inr, List, [], ◌∷◌, arith, string_eq,
  nat_eq, contains,
}
use community_overview.Graph.Multigraph.{MultiDiGraph, IsLawful}
use community_overview.Graph.Storage.{GraphStorage}
use community_overview.Graph.Integrity.{Intact}
use community_overview.Graph.Related.{Walk, visit_layer, visit, walk_from}
use community_overview.Graph.Related.Hops.{Leaves, Adjacent, Hops, start, hop, Passed, pass}
use community_overview.Graph.Related.Growth.{IsVisited, IsCrossed, IsGrown}
use community_overview.Graph.Related.Steps.{FromAny, visit_layer-IsGrown}

module _ {G : MultiDiGraph} (L : IsLawful G) (types : List String) (st : GraphStorage G)
    (I : Intact st) (a : String) where
  abbrev Near : ℕ → String → Type 0
  Near = Hops types st a

  Near-suc : (d : ℕ) (v : String) → Near d v → Near (suc d) v
  Near-suc d v start = start
  Near-suc (suc d) v (hop {u = u} h q) = hop (Near-suc d u h) q

  -- After so many rounds, with this layer left to look at.
  record IsRound (d : ℕ) (layer : List String) (w : Walk) : Type 0 where
    near : (v : String) → IsVisited w v ↔ Near d v
    crossed : (k : String) → IsCrossed w k ↔ Passed types st a d k
    waiting : (v : String) → contains layer v ≡ true → IsVisited w v
    closed :
        (u v : String)
        → IsVisited w u
        → Adjacent types st u v
        → (contains layer u ≡ true) ⊎ IsVisited w v
    closed_edges :
        (u k : String)
        → IsVisited w u
        → Leaves types st u k
        → (contains layer u ≡ true) ⊎ IsCrossed w k

  module _ (d : ℕ) (layer : List String) (w x : Walk) (r : IsRound d layer w)
      (g : IsGrown
        (FromAny (Adjacent types st) layer)
        (FromAny (Leaves types st) layer)
        (record w { next_layer = [] })
        x) where
    -- Where a visited node leads to is visited by now.
    reached : (u v : String) → IsVisited w u → Adjacent types st u v → IsVisited x v
    reached u v m q = elim (r.closed u v m q) [ inl c ↦ g.all v (u, c, q) | inr n ↦ g.old v n ]

    IsCrossed-from : (u k : String) → IsVisited w u → Leaves types st u k → IsCrossed x k
    IsCrossed-from u k m q = elim (r.closed_edges u k m q) [
      | inl c ↦ g.all_edges k (u, c, q)
      | inr n ↦ g.old_edges k n
    ]

    Near-later : (v : String) → Near (suc d) v → IsVisited x v
    Near-later v start = g.old a ((r.near a).1 start)
    Near-later v (hop {u = u} h q) = reached u v ((r.near u).1 h) q

    Passed-later : (k : String) → Passed types st a (suc d) k → IsCrossed x k
    Passed-later k (pass {u = u} h q) = IsCrossed-from u k ((r.near u).1 h) q

    Passed-suc : (e : ℕ) (k : String) → Passed types st a e k → Passed types st a (suc e) k
    Passed-suc ℕ.zero k q = elim q [ ]
    Passed-suc (suc e) k (pass {u = u} h q) = pass (Near-suc e u h) q

    IsRound-suc : IsRound (suc d) x.next_layer x
    IsRound-suc = record {
      near = λ v. (
        λ m. elim (g.new v m) [
          | inl o ↦ Near-suc d v ((r.near v).0 o)
          | inr (u, c, q) ↦ hop ((r.near u).0 (r.waiting u c)) q
        ],
        Near-later v,
      );
      crossed = λ k. (
        λ m. elim (g.new_edges k m) [
          | inl o ↦ Passed-suc d k ((r.crossed k).0 o)
          | inr (u, c, q) ↦ pass ((r.near u).0 (r.waiting u c)) q
        ],
        Passed-later k,
      );
      waiting = λ v c. elim (g.new_next v c) [ inl z ↦ cc z | inr m ↦ m ];
      closed = λ u v m q. elim (g.all_next u m) [ inl o ↦ inr (reached u v o q) | inr c ↦ inl c ];
      closed_edges =
          λ u k m q. elim (g.all_next u m) [ inl o ↦ inr (IsCrossed-from u k o q) | inr c ↦ inl c ];
    }

  visit-IsRound :
      (n d : ℕ) (layer : List String) (w : Walk)
      → IsRound d layer w
      → (last : List String) × IsRound (d + n) last (visit types st n layer w)
  unfolding visit
  visit-IsRound ℕ.zero d layer w r = (layer, subst (λ m. IsRound m layer w) (omega arith) r)
  visit-IsRound (suc n) d layer w r =
      let g = visit_layer-IsGrown L types st I layer (record w { next_layer = [] }) in
      let x : Walk = visit_layer types st layer (record w { next_layer = [] }) in
      let (last, done) = visit-IsRound n (suc d) x.next_layer x (IsRound-suc d layer w x r g) in
      (last, subst (λ m. IsRound m last (visit types st n x.next_layer x)) (omega arith) done)

  begin : Walk
  begin = record { visited_nodes = a ∷ []; visited_edges = []; next_layer = [] }

  begin-IsRound : IsRound 0 (a ∷ []) begin
  unfolding begin
  begin-IsRound = record {
    near = λ v. (λ m. subst (Near 0) (ground (arith, m)) start, at_start v);
    crossed = λ k. (λ m. cc m, λ q. none_passed k q);
    waiting = λ v c. c;
    closed = λ u v m q. inl m;
    closed_edges = λ u k m q. inl m;
  }
    where
      at_start : (v : String) → Near 0 v → contains (a ∷ []) v ≡ true
      at_start v start = ground arith

      none_passed : (k : String) → Passed types st a 0 k → contains [] k ≡ true
      none_passed k q = elim q [ ]

  walk_from-IsRound :
      (depth : ℕ) → (last : List String) × IsRound depth last (walk_from types st a depth)
  unfolding begin
  walk_from-IsRound depth =
      let (last, done) = visit-IsRound depth 0 (a ∷ []) begin begin-IsRound in
      (last, subst (λ m. IsRound m last (walk_from types st a depth)) (omega arith) done)

  pub visited_nodes-Hops :
      (depth : ℕ) (v : String)
      → (contains (walk_from types st a depth).visited_nodes v ≡ true) ↔ Hops types st a depth v
  visited_nodes-Hops depth v = (walk_from-IsRound depth).1.near v

  pub visited_edges-Passed :
      (depth : ℕ) (k : String)
      → (contains (walk_from types st a depth).visited_edges k ≡ true) ↔ Passed types st a depth k
  visited_edges-Passed depth k = (walk_from-IsRound depth).1.crossed k
