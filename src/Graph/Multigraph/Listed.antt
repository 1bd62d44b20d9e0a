-- ===== src/Graph/Multigraph/Listed.antt =====
-- A multigraph as lists of its nodes and edges: the laws can hold.
use community_overview.Base.{
  ℕ, String, ◌≡◌, ◌≢◌, refl, Bool, Bool-cases, Option-cases, ◌⊎◌, inl, inr, true, false, not, ◌&&◌,
  ◌||◌, Option, none, some, List, [], ◌∷◌, arith, ◌==◌, string_eq, All, keep, contains,
  if◌then◌else◌,
}
use mathlib.Core.List.{Memᴰ}
use community_overview.Graph.Multigraph.{MultiDiGraph, IsLawful}

-- Source, target, key and data.
abbrev pub Link : Type 0
Link = String × String × String × ℕ

pub record Links : Type 0 where
  pub nodes : List String
  pub links : List Link

abbrev is_link : String → String → String → Link → Bool
is_link u v k l = u == l.0 && (v == l.1 && k == l.2)

-- The newest entry of an edge counts.
unfoldable pub find : String → String → String → List Link → Option ℕ
find u v k [] = none
find u v k (l ∷ ls) = if is_link u v k l then some l.3 else find u v k ls

unfoldable pub drop_links : (Link → Bool) → List Link → List Link
drop_links p [] = []
drop_links p (l ∷ ls) = let rest = drop_links p ls in if p l then rest else l ∷ rest

abbrev is_some : Option ℕ → Bool
is_some none = false
is_some (some r) = true

unfoldable pub targets : String → List Link → List Link → List (String × String × ℕ)
targets s all [] = []
targets s all ((a, b, k, q) ∷ ls) =
    let rest = targets s all ls in
    if s == a then elim (find s b k all) [ none ↦ rest | some r ↦ (b, k, r) ∷ rest ] else rest

unfoldable pub sources : String → List Link → List Link → List (String × String × ℕ)
sources t all [] = []
sources t all ((a, b, k, q) ∷ ls) =
    let rest = sources t all ls in
    if t == b then elim (find a t k all) [ none ↦ rest | some r ↦ (a, k, r) ∷ rest ] else rest

abbrev pub listed : MultiDiGraph
listed = record {
  Graph = Links;
  empty = record { nodes = []; links = [] };
  add_node = λ n g. record g { nodes = n ∷ g.nodes };
  add_edge = λ s t k r g. record { nodes = s ∷ t ∷ g.nodes; links = (s, t, k, r) ∷ g.links };
  remove_edge = λ s t k g.
      if is_some (find s t k g.links)
      then some (record g { links = drop_links (is_link s t k) g.links })
      else none;
  remove_node = λ n g.
      if contains g.nodes n
      then some (record {
        nodes = keep (λ m. not (m == n)) g.nodes;
        links = drop_links (λ l. n == l.0 || n == l.1) g.links;
      })
      else none;
  has_node = λ n g. contains g.nodes n;
  edge_at = λ u v k g. find u v k g.links;
  out_edges = λ s g. targets s g.links g.links;
  in_edges = λ t g. sources t g.links g.links;
}

find-drop_link :
    (u v k s t j : String) (ls : List Link)
    → find u v k (drop_links (is_link s t j) ls)
      ≡ (if u == s && (v == t && k == j) then none else find u v k ls)
unfolding find drop_links
find-drop_link u v k s t j [] = ground arith
find-drop_link u v k s t j (l ∷ ls) = ground (arith, find-drop_link u v k s t j ls)

find-drop_node :
    (u v k n : String) (ls : List Link)
    → find u v k (drop_links (λ l. n == l.0 || n == l.1) ls)
      ≡ (if u == n || v == n then none else find u v k ls)
unfolding find drop_links
find-drop_node u v k n [] = ground arith
find-drop_node u v k n (l ∷ ls) = ground (arith, find-drop_node u v k n ls)

contains-keep_other :
    (n m : String) (ns : List String)
    → contains (keep (λ k. not (k == m)) ns) n ≡ (if n == m then false else contains ns n)
contains-keep_other n m [] = ground arith
contains-keep_other n m (x ∷ ns) = ground (arith, contains-keep_other n m ns)

targets_sound :
    (s : String) (all ls : List Link) → All (λ x. find s x.0 x.1 all ≡ some x.2) (targets s all ls)
unfolding targets
targets_sound s all [] = tt
targets_sound s all ((a, b, k, q) ∷ ls) = ground (arith, targets_sound s all ls)

sources_sound :
    (t : String) (all ls : List Link) → All (λ x. find x.0 t x.1 all ≡ some x.2) (sources t all ls)
unfolding sources
sources_sound t all [] = tt
sources_sound t all ((a, b, k, q) ∷ ls) = ground (arith, sources_sound t all ls)

targets-tail :
    (s : String) (all : List Link) (l : Link) (ls : List Link)
    → (targets s all (l ∷ ls) ≡ targets s all ls)
      ⊎ ((x : String × String × ℕ) × (targets s all (l ∷ ls) ≡ x ∷ targets s all ls))
unfolding targets
targets-tail s all (a, b, k, q) ls = elim (Bool-cases (s == a)) [
  | inr e ↦ inl (rw e refl)
  | inl e ↦ elim (Option-cases (find s b k all)) [
    | inl n ↦ inl (rw (e, n) refl)
    | inr (r, m) ↦ inr ((b, k, r), rw (e, m) refl)
  ]
]

targets-found :
    (s t j : String) (q r : ℕ) (all ls : List Link)
    → find s t j all ≡ some r
    → targets s all ((s, t, j, q) ∷ ls) ≡ (t, j, r) ∷ targets s all ls
unfolding targets
targets-found s t j q r all ls h = ground (arith, h)

pub targets-complete :
    (s t j : String) (r : ℕ) (all ls : List Link)
    → find s t j all ≡ some r
    → find s t j ls ≢ none
    → Memᴰ (t, j, r) (targets s all ls)
unfolding find
targets-complete s t j r all [] h n = absurd (n refl)
targets-complete s t j r all ((a, b, k, q) ∷ ls) h n =
    elim (Bool-cases (is_link s t j (a, b, k, q))) [
      | inl e ↦
          let pa : a ≡ s = ground (arith, e) in
          let pb : b ≡ t = ground (arith, e) in
          let pk : k ≡ j = ground (arith, e) in
          rw (pa, pb, pk, targets-found s t j q r all ls h) (Memᴰ.head refl)
      | inr e ↦
          let more : find s t j ls ≢ none = λ z. n (rw e z) in
          let ih = targets-complete s t j r all ls h more in
          elim (targets-tail s all (a, b, k, q) ls) [
            | inl same ↦ rw same ih
            | inr (x, longer) ↦ rw longer (Memᴰ.tail ih)
          ]
    ]

sources-tail :
    (t : String) (all : List Link) (l : Link) (ls : List Link)
    → (sources t all (l ∷ ls) ≡ sources t all ls)
      ⊎ ((x : String × String × ℕ) × (sources t all (l ∷ ls) ≡ x ∷ sources t all ls))
unfolding sources
sources-tail t all (a, b, k, q) ls = elim (Bool-cases (t == b)) [
  | inr e ↦ inl (rw e refl)
  | inl e ↦ elim (Option-cases (find a t k all)) [
    | inl n ↦ inl (rw (e, n) refl)
    | inr (r, m) ↦ inr ((a, k, r), rw (e, m) refl)
  ]
]

sources-found :
    (s t j : String) (q r : ℕ) (all ls : List Link)
    → find s t j all ≡ some r
    → sources t all ((s, t, j, q) ∷ ls) ≡ (s, j, r) ∷ sources t all ls
unfolding sources
sources-found s t j q r all ls h = ground (arith, h)

pub sources-complete :
    (s t j : String) (r : ℕ) (all ls : List Link)
    → find s t j all ≡ some r
    → find s t j ls ≢ none
    → Memᴰ (s, j, r) (sources t all ls)
unfolding find
sources-complete s t j r all [] h n = absurd (n refl)
sources-complete s t j r all ((a, b, k, q) ∷ ls) h n =
    elim (Bool-cases (is_link s t j (a, b, k, q))) [
      | inl e ↦
          let pa : a ≡ s = ground (arith, e) in
          let pb : b ≡ t = ground (arith, e) in
          let pk : k ≡ j = ground (arith, e) in
          rw (pa, pb, pk, sources-found s t j q r all ls h) (Memᴰ.head refl)
      | inr e ↦
          let more : find s t j ls ≢ none = λ z. n (rw e z) in
          let ih = sources-complete s t j r all ls h more in
          elim (sources-tail t all (a, b, k, q) ls) [
            | inl same ↦ rw same ih
            | inr (x, longer) ↦ rw longer (Memᴰ.tail ih)
          ]
    ]

pub listed-IsLawful : IsLawful listed
unfolding find
listed-IsLawful = record {
  has_node-empty = λ n. refl;
  edge_at-empty = λ u v k. refl;
  has_node-add_node = λ n m g. refl;
  edge_at-add_node = λ u v k m g. refl;
  has_node-add_edge = λ n s t j r g. refl;
  edge_at-add_edge = λ u v k s t j r g. refl;
  remove_edge-present = λ s t j g h. ground (arith, h);
  edge_at-remove_edge = λ u v k s t j g g' e. ground (arith, e, find-drop_link u v k s t j g.links);
  has_node-remove_edge = λ n s t j g g' e. ground (arith, e);
  remove_node-present = λ m g h. ground (arith, h);
  edge_at-remove_node = λ u v k m g g' e. ground (arith, e, find-drop_node u v k m g.links);
  has_node-remove_node = λ n m g g' e. ground (arith, e, contains-keep_other n m g.nodes);
  out_edges-sound = λ s g. targets_sound s g.links g.links;
  out_edges-complete = λ s t j r g h. targets-complete s t j r g.links g.links h (cc h);
  in_edges-sound = λ t g. sources_sound t g.links g.links;
  in_edges-complete = λ s t j r g h. sources-complete s t j r g.links g.links h (cc h);
}
