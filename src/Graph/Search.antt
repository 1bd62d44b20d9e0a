-- ===== src/Graph/Search.antt =====
-- `search_nodes` of backend/core/storage_search.py.
use community_overview.Base.{
  ℕ, String, Bool, not, ◌&&◌, ◌||◌, Option, none, some, List, [], ◌∷◌, ltb, ◌==◌, string_eq,
  contains, is_empty, if◌then◌else◌,
}
use community_overview.Base.Dict
use community_overview.Base.Dict.{Dict}
use community_overview.Base.Sequences.{take}
use community_overview.Text.{is_infix}
use community_overview.Graph.Models.{Node}
use community_overview.Graph.Score.{◌>>=◌, Strings, build_searchable_text, score_node_match}

-- One node of the loop: whether it matches, and the cache of texts.
unfoldable pub matches_text :
    Strings
    → Dict String String
    → String
    → Node
    → Dict String String
    → Option (Bool × Dict String String)
matches_text p type_texts query n cache = elim (Dict.get n.id cache) [
  | some s ↦ some (is_infix query s, cache)
  | none ↦ elim (build_searchable_text p type_texts n) [
    | none ↦ none
    | some s ↦ some (is_infix query s, Dict.put n.id s cache)
  ]
]

unfoldable pub matching :
    Strings
    → Dict String String
    → Bool
    → String
    → List String
    → List Node
    → Dict String String
    → Option (List Node × Dict String String)
matching p type_texts match_all query types [] cache = some ([], cache)
matching p type_texts match_all query types (n ∷ ns) cache =
    let rest = λ (c : Dict String String). matching p type_texts match_all query types ns c in
    if not (is_empty types) && not (contains types n.type)
    then rest cache
    else if match_all
    then (do (found, cache') ← rest cache; some (n ∷ found, cache'))
    else (do
      (hit, c) ← matches_text p type_texts query n cache
      (found, cache') ← rest c
      some (if hit then n ∷ found else found, cache'))

-- `sort(key=score, reverse=True)`: stable, the highest score first.
unfoldable pub insert : ℕ × Node → List (ℕ × Node) → List (ℕ × Node)
insert x [] = x ∷ []
insert x (y ∷ ys) = let rest = insert x ys in if ltb x.0 y.0 then y ∷ rest else x ∷ y ∷ ys

unfoldable pub sort : List (ℕ × Node) → List (ℕ × Node)
sort [] = []
sort (x ∷ xs) = insert x (sort xs)

unfoldable pub scored : Strings → Dict String String → String → List Node → Option (List (ℕ × Node))
scored p type_texts query [] = some []
scored p type_texts query (n ∷ ns) = do
  score ← score_node_match p type_texts query n
  rest ← scored p type_texts query ns
  some ((score, n) ∷ rest)

unfoldable pub search_nodes :
    Strings
    → Dict String String
    → String
    → List String
    → ℕ
    → Dict String Node
    → Dict String String
    → Option (List Node × Dict String String)
search_nodes p type_texts query types limit nodes cache =
    let q = p.strip (p.lower query) in
    let match_all = q == "" || q == "*" in
    do
      (found, cache') ← matching p type_texts match_all q types (Dict.values nodes) cache
      (if match_all then some (take limit found, cache') else (do
        ranked ← scored p type_texts q found
        some (take limit (Dict.values (sort ranked)), cache')))
