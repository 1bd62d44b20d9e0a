-- ===== src/Graph/Score/Tiers.antt =====
-- The bands of a score: names before aliases, aliases before all else.
use community_overview.Base.{
  ℕ, ◌+◌, ◌≤◌, ◌<◌, max, String, ◌≡◌, refl, Bool, true, false, Bool-cases, none, some, Option-cases,
  inl, inr, List, [], ◌∷◌, arith, leb, string_eq, nat_eq, contains, map, if◌then◌else◌,
}
use community_overview.Base.Dict.{Dict}
use community_overview.Json.{Json}
use community_overview.Text.{is_prefix, is_infix}
use community_overview.Graph.Models.{Node}
use community_overview.Graph.Score.{
  Strings, type_key, get_or, texts_of, lower_of, any, name_score, alias_score, type_score,
  tag_score, subtype_score, text_score, score_node_match,
}

is_prefix_self : (s : String) → is_prefix s s ≡ true
unfolding is_prefix
is_prefix_self String.[] = refl
is_prefix_self (String.◌∷◌ c s) = ground (arith, is_prefix_self s)

is_prefix-is_infix : (k s : String) → is_prefix k s ≡ true → is_infix k s ≡ true
unfolding is_infix
is_prefix-is_infix k String.[] h = h
is_prefix-is_infix k (String.◌∷◌ d s) h = ground (arith, h)

-- Whether the name, or an alias, has the query in it.
abbrev pub name_hit : Strings → String → Node → Bool
name_hit p query n = elim (lower_of p n.name) [ none ↦ false | some name ↦ is_infix query name ]

abbrev pub alias_hit : Strings → String → Node → Bool
alias_hit p query n = elim (texts_of n.aliases) [
  | none ↦ false
  | some aliases ↦ any (is_infix query) (map p.lower aliases)
]

abbrev pub tier : Strings → String → Node → ℕ
tier p query n = if name_hit p query n then 2 else if alias_hit p query n then 1 else 0

name_score-hit :
    (query name : String)
    → is_infix query name ≡ true
    → (300000 ≤ name_score query name) × (name_score query name ≤ 500000)
unfolding name_score
name_score-hit query name h = ground (arith, h)

name_score-miss : (query name : String) → is_infix query name ≡ false → name_score query name ≡ 0
unfolding name_score
name_score-miss query name h =
    ground (arith, h, is_prefix-is_infix query name, is_prefix_self query)

any-implies :
    (f g : String → Bool) (xs : List String)
    → ((x : String) → f x ≡ true → g x ≡ true)
    → any g xs ≡ false
    → any f xs ≡ false
any-implies f g [] h n = refl
any-implies f g (x ∷ xs) h n = ground (arith, h x, n, any-implies f g xs h)

contains-any :
    (query : String) (xs : List String)
    → any (is_infix query) xs ≡ false
    → contains xs query ≡ false
contains-any query [] n = refl
contains-any query (x ∷ xs) n =
    ground (arith, n, contains-any query xs, is_prefix-is_infix query query, is_prefix_self query)

alias_score-bounds :
    (query : String) (xs : List String)
    → (alias_score query xs ≤ 250000)
      × (any (is_infix query) xs ≡ true → 200000 ≤ alias_score query xs)
      × (any (is_infix query) xs ≡ false → alias_score query xs ≡ 0)
unfolding alias_score
alias_score-bounds query xs = ground (
  arith,
  contains-any query xs,
  any-implies (is_prefix query) (is_infix query) xs (is_prefix-is_infix query),
)

type_score-le : (query name text : String) → type_score query name text ≤ 700
unfolding type_score
type_score-le query name text = ground arith

tag_score-le : (query : String) (tags : List String) → tag_score query tags ≤ 500
unfolding tag_score
tag_score-le query tags = ground arith

subtype_score-le :
    (p : Strings) (query : String) (v : Json) (s : ℕ) → subtype_score p query v ≡ some s → s ≤ 400
unfolding subtype_score
subtype_score-le p query v s e = ground (arith, e)

text_score-le :
    (p : Strings) (query : String) (d v : Json) (s : ℕ) → text_score p query d v ≡ some s → s ≤ 200
unfolding text_score
text_score-le p query d v s e = ground (arith, e)

abbrev floor : ℕ → ℕ
floor t = if leb 2 t then 300000 else if leb 1 t then 200000 else 0

abbrev ceiling : ℕ → ℕ
ceiling t = if leb 2 t then 501800 else if leb 1 t then 251800 else 1800

-- The name and the aliases decide on the band.
name_alias-bounds :
    (query name : String) (aliases : List String) (t : ℕ)
    → t ≡ (if is_infix query name then 2 else if any (is_infix query) aliases then 1 else 0)
    → (floor t ≤ max (name_score query name) (alias_score query aliases))
      × (max (name_score query name) (alias_score query aliases) + 1800 ≤ ceiling t)
name_alias-bounds query name aliases t e =
    let (le, ge, zero_if) = alias_score-bounds query aliases in
    elim (Bool-cases (is_infix query name)) [
      | inl h ↦ ground (arith, e, h, name_score-hit query name h, le)
      | inr h ↦ elim (Bool-cases (any (is_infix query) aliases)) [
        | inl k ↦ ground (arith, e, h, k, name_score-miss query name h, le, ge k)
        | inr k ↦ ground (arith, e, h, k, name_score-miss query name h, zero_if k)
      ]
    ]

-- A score is the band's part and at most 1800 for the rest.
score-parts :
    (p : Strings) (type_texts : Dict String String) (query : String) (n : Node) (a : ℕ)
    (name : String) (aliases : List String)
    → lower_of p n.name ≡ some name
    → texts_of n.aliases ≡ some aliases
    → score_node_match p type_texts query n ≡ some a
    → (rest : ℕ) × (a
        ≡ max (name_score query name) (alias_score query (map p.lower aliases)) + rest)
      × (rest ≤ 1800)
unfolding score_node_match
score-parts p type_texts query n a name aliases z y e =
    let lowered = p.lower (type_key n) in
    let by_type = type_score query lowered (get_or (type_key n) lowered type_texts) in
    elim (Option-cases (texts_of n.tags)) [
      | inl x ↦ ground (arith, e, z, y, x)
      | inr (tags, x) ↦ elim (Option-cases (subtype_score p query n.subtypes)) [
        | inl w ↦ ground (arith, e, z, y, x, w)
        | inr (s, w) ↦ elim (Option-cases (text_score p query n.description n.summary)) [
          | inl v ↦ ground (arith, e, z, y, x, w, v)
          | inr (t, v) ↦
              let by_tag = tag_score query (map p.lower tags) in
              let top = max (name_score query name) (alias_score query (map p.lower aliases)) in
              let sum : a ≡ top + by_type + by_tag + s + t = ground (arith, e, z, y, x, w, v) in
              (
                by_type + by_tag + s + t,
                omega (arith, sum),
                omega (
                  arith,
                  type_score-le query lowered (get_or (type_key n) lowered type_texts),
                  tag_score-le query (map p.lower tags),
                  subtype_score-le p query n.subtypes s w,
                  text_score-le p query n.description n.summary t v,
                ),
              )
        ]
      ]
    ]

score-band :
    (p : Strings) (type_texts : Dict String String) (query : String) (n : Node) (a : ℕ)
    → score_node_match p type_texts query n ≡ some a
    → (floor (tier p query n) ≤ a) × (a ≤ ceiling (tier p query n))
unfolding score_node_match
score-band p type_texts query n a e = elim (Option-cases (lower_of p n.name)) [
  | inl z ↦ ground (arith, e, z)
  | inr (name, z) ↦ elim (Option-cases (texts_of n.aliases)) [
    | inl y ↦ ground (arith, e, z, y)
    | inr (aliases, y) ↦
        let (rest, sum, small) = score-parts p type_texts query n a name aliases z y e in
        let here =
          name_alias-bounds query name (map p.lower aliases) (tier p query n)
            (ground (arith, z, y)) in
        omega (arith, sum, small, here)
  ]
]

-- Where scoring raises for neither of two nodes, the node in the higher tier scores higher,
-- whatever else of the two matches: a name that has the query in it is above an alias that has it,
-- and that is above all other matches.
pub score_node_match-tier :
    (p : Strings) (type_texts : Dict String String) (query : String) (n m : Node) (a b : ℕ)
    → score_node_match p type_texts query n ≡ some a
    → score_node_match p type_texts query m ≡ some b
    → tier p query m < tier p query n
    → b < a
score_node_match-tier p type_texts query n m a b e f lt =
    ground (arith, score-band p type_texts query n a e, score-band p type_texts query m b f, lt)
