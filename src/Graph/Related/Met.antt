-- ===== src/Graph/Related/Met.antt =====
-- What one listing of edges adds to the traversal.
use community_overview.Base.{
  ℕ, String, ◌≡◌, refl, ap, subst, ◌⊎◌, ◌↔◌, true, Bool-cases, Option, none, some, inl, inr, List,
  [], ◌∷◌, arith, string_eq, nat_eq, if◌then◌else◌,
}
use mathlib.Core.List.{Memᴰ}
use mathlib.Core.List.Memᴰ
use community_overview.Base.Dict
use community_overview.Base.Dict.{Dict}
use community_overview.Graph.Models.{Edge}
use community_overview.Graph.Related.{is_followed, Walk, meet, visit_edges}
use community_overview.Graph.Related.Growth.{
  IsGrown, IsGrown-none, IsGrown-then, IsGrown-map, meet-IsGrown,
}

abbrev pub IsFollowedAt : List String → Dict ℕ Edge → ℕ → Type 0
IsFollowedAt types os r = (e : Edge) × (Dict.get r os ≡ some e) × (is_followed types e ≡ true)

-- The nodes, and the keys, of the entries whose edges are followed.
abbrev pub MetNode : List String → Dict ℕ Edge → List (String × String × ℕ) → String → Type 0
MetNode types os [] x = ⊥
MetNode types os ((v, k, r) ∷ xs) x = ((x ≡ v) × IsFollowedAt types os r) ⊎ MetNode types os xs x

abbrev pub MetEdge : List String → Dict ℕ Edge → List (String × String × ℕ) → String → Type 0
MetEdge types os [] x = ⊥
MetEdge types os ((v, k, r) ∷ xs) x = ((x ≡ k) × IsFollowedAt types os r) ⊎ MetEdge types os xs x

pub visit_edge-IsGrown :
    (types : List String) (os : Dict ℕ Edge) (v k : String) (r : ℕ) (w : Walk)
    → IsGrown
        (λ x. (x ≡ v) × IsFollowedAt types os r)
        (λ x. (x ≡ k) × IsFollowedAt types os r)
        w
        (elim (Dict.get r os) [ none ↦ w | some e ↦ if is_followed types e then meet v k w else w ])
visit_edge-IsGrown types os v k r w = by (Dict.get r os) refl
  where
    Followed : Option Edge → Type 0
    Followed o = (e : Edge) × (o ≡ some e) × (is_followed types e ≡ true)

    Goal : Option Edge → Type 0
    Goal o =
        IsGrown (λ x. (x ≡ v) × Followed o) (λ x. (x ≡ k) × Followed o) w
          (elim o [ none ↦ w | some e ↦ if is_followed types e then meet v k w else w ])

    by : (o : Option Edge) → o ≡ Dict.get r os → Goal o
    by none h = IsGrown-none _ _ w (λ x q. cc (q.1.1)) (λ x q. cc (q.1.1))
    by (some e) h = elim (Bool-cases (is_followed types e)) [
      | inl t ↦ rw t (
          IsGrown-map (λ x. x ≡ v) (λ x. x ≡ k) _ _ w (meet v k w)
            (λ x. (λ p. (p, (e, refl, t)), λ q. q.0)) (λ x. (λ p. (p, (e, refl, t)), λ q. q.0))
            (meet-IsGrown v k w))
      | inr t ↦ rw t (
          IsGrown-none _ _ w (λ x q. ground (arith, q.1.1, q.1.2, t))
            (λ x q. ground (arith, q.1.1, q.1.2, t)))
    ]

pub visit_edges-IsGrown :
    (types : List String) (os : Dict ℕ Edge) (xs : List (String × String × ℕ)) (w : Walk)
    → IsGrown (MetNode types os xs) (MetEdge types os xs) w (visit_edges types os xs w)
unfolding visit_edges
visit_edges-IsGrown types os [] w = IsGrown-none _ _ w (λ x q. q) (λ x q. q)
visit_edges-IsGrown types os ((v, k, r) ∷ xs) w =
    IsGrown-then _ _ (MetNode types os xs) (MetEdge types os xs) _ _ w _ _ (λ x. (λ q. q, λ q. q))
      (λ x. (λ q. q, λ q. q)) (visit_edge-IsGrown types os v k r w)
      (visit_edges-IsGrown types os xs _)

pub MetNode-Memᴰ :
    (types : List String) (os : Dict ℕ Edge) (xs : List (String × String × ℕ)) (x : String)
    → MetNode types os xs x ↔ ((k : String) × (r : ℕ) × Memᴰ (x, k, r) xs × IsFollowedAt types os r)
MetNode-Memᴰ types os [] x = (λ h. absurd h, λ w. absurd (Memᴰ.not-nil w.2))
MetNode-Memᴰ types os ((v, k, r) ∷ xs) x =
    let (to, from) = MetNode-Memᴰ types os xs x in
    (
      λ h. elim h [
        | inl (e, f) ↦ (k, r, Memᴰ.head (ap (λ y. (y, k, r)) e), f)
        | inr h' ↦ let (j, q, m, f) = to h' in (j, q, Memᴰ.tail m, f)
      ],
      λ w.
          let (j, q, m, f) = w in
          elim (Memᴰ.cases_cons m) [
            | inl e ↦ inl (ap (λ y. y.0) e, subst (IsFollowedAt types os) (ap (λ y. y.2) e) f)
            | inr m' ↦ inr (from (j, q, m', f))
          ],
    )

pub MetEdge-Memᴰ :
    (types : List String) (os : Dict ℕ Edge) (xs : List (String × String × ℕ)) (x : String)
    → MetEdge types os xs x ↔ ((v : String) × (r : ℕ) × Memᴰ (v, x, r) xs × IsFollowedAt types os r)
MetEdge-Memᴰ types os [] x = (λ h. absurd h, λ w. absurd (Memᴰ.not-nil w.2))
MetEdge-Memᴰ types os ((v, k, r) ∷ xs) x =
    let (to, from) = MetEdge-Memᴰ types os xs x in
    (
      λ h. elim h [
        | inl (e, f) ↦ (v, r, Memᴰ.head (ap (λ y. (v, y, r)) e), f)
        | inr h' ↦ let (j, q, m, f) = to h' in (j, q, Memᴰ.tail m, f)
      ],
      λ w.
          let (j, q, m, f) = w in
          elim (Memᴰ.cases_cons m) [
            | inl e ↦ inl (ap (λ y. y.1) e, subst (IsFollowedAt types os) (ap (λ y. y.2) e) f)
            | inr m' ↦ inr (from (j, q, m', f))
          ],
    )
