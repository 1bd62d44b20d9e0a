-- ===== src/Graph/Score.antt =====
-- `build_searchable_text` and `score_node_match` of backend/core/storage_search.py. `str.lower`,
-- `str.strip`, `str` of what is no text and `dict` of what is no dict are arguments; `none` is an
-- exception.
pub mod Tiers
use community_overview.Base.{
  ℕ, ◌+◌, max, String, ◌<>◌, Bool, true, false, ◌||◌, Option, none, some, List, [], ◌∷◌, ◌==◌,
  string_eq, contains, map, if◌then◌else◌,
}
use community_overview.Base.Dict
use community_overview.Base.Dict.{Dict}
use community_overview.Json.{Json, text, array, object, Object, is_truthy, to_list}
use community_overview.Text.{is_prefix, is_infix, join, elements, characters, keys}
use community_overview.Graph.Models.{Node}

infixl 5 ◌>>=◌
abbrev pub ◌>>=◌ {ℓ κ} : {A : Type ℓ} {B : Type κ} → Option A → (A → Option B) → Option B
none >>= f = none
some a >>= f = f a

pub record Strings : Type 0 where
  pub lower : String → String
  pub strip : String → String
  pub str : Json → String
  pub dict : Json → Option Object

-- The members of the enum `NodeType`, by value.
abbrev pub node_type_members : Dict String String
node_type_members =
    ("Actor", "ACTOR")
    ∷ ("Initiative", "INITIATIVE")
    ∷ ("Capability", "CAPABILITY")
    ∷ ("Resource", "RESOURCE")
    ∷ ("Legislation", "LEGISLATION")
    ∷ ("Theme", "THEME")
    ∷ ("Goal", "GOAL")
    ∷ ("Event", "EVENT")
    ∷ ("SavedView", "SAVED_VIEW")
    ∷ ("VisualizationView", "VISUALIZATION_VIEW")
    ∷ []

-- `str(node.type)`, which for a member of the enum is its qualified name.
unfoldable pub type_key : Node → String
type_key n = elim (Dict.get n.type node_type_members) [
  | none ↦ n.type
  | some member ↦ "NodeType." <> member
]

unfoldable pub get_or : String → String → Dict String String → String
get_or k default d = elim (Dict.get k d) [ none ↦ default | some s ↦ s ]

-- `xs if xs else []`, gone through.
unfoldable pub texts_of : Json → Option (List String)
texts_of v = if is_truthy v then elements v else some []

-- `(v or "").lower()`
unfoldable pub lower_of : Strings → Json → Option String
lower_of p (text s) = some (p.lower s)
lower_of p v = if is_truthy v then none else some (p.lower "")

unfoldable pub str_of : Strings → Json → String
str_of p (text s) = s
str_of p v = p.str v

unfoldable pub build_searchable_text : Strings → Dict String String → Node → Option String
build_searchable_text p type_texts n = do
  tags ← texts_of n.tags
  subtypes ← texts_of n.subtypes
  aliases ← texts_of n.aliases
  let type_text = get_or (type_key n) (p.lower (type_key n)) type_texts
  some (
      p.lower (
        join (
          str_of p n.name
          ∷ str_of p n.description
          ∷ str_of p n.summary
          ∷ join tags
          ∷ join subtypes
          ∷ join aliases
          ∷ type_text
          ∷ [])))

abbrev pub any : (String → Bool) → List String → Bool
any p [] = false
any p (x ∷ xs) = p x || any p xs

-- The four parts of a score.
unfoldable pub name_score : String → String → ℕ
name_score query name =
    if name == query
    then 500000
    else if is_prefix query name
    then 400000
    else if is_infix query name
    then 300000
    else 0

unfoldable pub alias_score : String → List String → ℕ
alias_score query aliases =
    if contains aliases query
    then 250000
    else if any (is_prefix query) aliases
    then 220000
    else if any (is_infix query) aliases
    then 200000
    else 0

unfoldable pub type_score : String → String → String → ℕ
type_score query type_name type_text =
    if type_name == query
    then 700
    else if is_prefix query type_name
    then 650
    else if is_infix query type_text
    then 600
    else 0

unfoldable pub tag_score : String → List String → ℕ
tag_score query tags =
    if contains tags query then 500 else if any (is_infix query) tags then 450 else 0

-- `any(query in s.lower() for s in items)`, which stops at the first hit.
unfoldable pub any_lower : Strings → String → List Json → Option Bool
any_lower p query [] = some false
any_lower p query (text s ∷ js) =
    let rest = any_lower p query js in if is_infix query (p.lower s) then some true else rest
any_lower p query (_ ∷ js) = none

-- What a loop over a value goes through.
unfoldable pub items_of : Json → Option (List Json)
items_of (array xs) = some (to_list xs)
items_of (text s) = some (map text (characters s))
items_of (object fs) = some (map text (keys fs))
items_of _ = none

unfoldable pub subtype_score : Strings → String → Json → Option ℕ
subtype_score p query v =
    if is_truthy v
    then (do items ← items_of v; hit ← any_lower p query items; some (if hit then 400 else 0))
    else some 0

-- The summary is read only where the description does not match.
unfoldable pub text_score : Strings → String → Json → Json → Option ℕ
text_score p query description summary = do
  d ← lower_of p description
  (if is_infix query d
      then some 200
      else (do s ← lower_of p summary; some (if is_infix query s then 200 else 0)))

unfoldable pub score_node_match : Strings → Dict String String → String → Node → Option ℕ
score_node_match p type_texts query n = do
  name ← lower_of p n.name
  aliases ← texts_of n.aliases
  tags ← texts_of n.tags
  by_subtype ← subtype_score p query n.subtypes
  by_text ← text_score p query n.description n.summary
  let type_name = p.lower (type_key n)
  some (
      max (name_score query name) (alias_score query (map p.lower aliases))
      + type_score query type_name (get_or (type_key n) type_name type_texts)
      + tag_score query (map p.lower tags)
      + by_subtype
      + by_text)
