-- ===== src/Event/Matching.antt =====
-- `_matches`, `_matches_keywords`, `_matches_federation` and `_should_block` of
-- backend/core/events/dispatcher.py. `str.lower` and `int` of a text are arguments; `none` is an
-- exception.
use Prim.Native.Char.{code}
use community_overview.Base.{
  zero, suc, ◌/◌, ◌^◌, String, ◌<>◌, Bool, true, false, not, ◌&&◌, ◌||◌, Option, none, some, List,
  [], ◌∷◌, ◌++◌, ltb, ◌==◌, string_eq, nat_eq, contains, is_empty, if◌then◌else◌,
}
use community_overview.Json.{
  ℤ, pos, negsuc, Json, null, boolean, number, text, Object, item, is_truthy, as_text,
}
use community_overview.Text.{is_infix, join, elements}
use community_overview.Event.Models.{
  EventType, type_value, EntityKind, node, edge, Event, EntityData,
}
use community_overview.Event.Subscriptions.{
  ◌>>=◌, TargetFilters, FederationFilters, SubscriptionFilters, SubscriptionDelivery, section,
}

unfoldable pub same_kind : EntityKind → EntityKind → Bool
same_kind node node = true
same_kind node edge = false
same_kind edge node = false
same_kind edge edge = true

-- `s.split(".")[-1]`, of what stands since the last dot.
unfoldable pub after_dot : String → String → String
after_dot seen String.[] = seen
after_dot seen (String.◌∷◌ c s) =
    if code c == 46 then after_dot String.[] s else after_dot (seen <> String.◌∷◌ c String.[]) s

unfoldable pub operation : EventType → String
operation t = after_dot String.[] (type_value t)

-- A part that is a text, or else `join` raises.
unfoldable pub part : String → Object → Option (List String)
part key d =
    if is_truthy (item key d)
    then elim (as_text (item key d)) [ none ↦ none | some s ↦ some (s ∷ []) ]
    else some []

-- `extend` goes through whatever can be gone through.
unfoldable pub tag_parts : Object → Option (List String)
tag_parts d = if is_truthy (item "tags" d) then elements (item "tags" d) else some []

unfoldable pub searchable_parts : Object → Option (List String)
searchable_parts d = do
  name ← part "name" d
  description ← part "description" d
  summary ← part "summary" d
  tags ← tag_parts d
  some (name ++ (description ++ (summary ++ tags)))

-- `event.entity.after or event.entity.before`, with `{}` for what is missing.
unfoldable pub or_else : Option Object → Object → Object
or_else none d = d
or_else (some []) d = d
or_else (some (x ∷ o)) d = x ∷ o

unfoldable pub entity_data : EntityData → Object
entity_data e = or_else e.after (or_else e.before [])

-- `int(v)` of a number, towards zero.
unfoldable pub truncate : ℤ → ℤ
truncate (pos n) = pos (n / 2 ^ 1074)
truncate (negsuc n) = elim (suc n / 2 ^ 1074) [ zero ↦ pos 0 | suc k ↦ negsuc k ]

unfoldable pub exceeds : ℤ → ℤ → Bool
exceeds (pos a) (pos b) = ltb b a
exceeds (pos a) (negsuc b) = true
exceeds (negsuc a) (pos b) = false
exceeds (negsuc a) (negsuc b) = ltb a b

-- `value in texts`
unfoldable pub is_one_of : List String → Json → Bool
is_one_of xs (text s) = contains xs s
is_one_of xs _ = false

unfoldable pub is_null : Json → Bool
is_null null = true
is_null _ = false

module _ (lower : String → String) (int_of_text : String → Option ℤ) where
  -- `int(v)`, where `none` is an exception.
  unfoldable pub to_int : Json → Option ℤ
  to_int (number n) = some (truncate n)
  to_int (boolean true) = some (pos 1)
  to_int (boolean false) = some (pos 0)
  to_int (text s) = int_of_text s
  to_int _ = none

  unfoldable pub has_any : List String → String → Bool
  has_any [] s = false
  has_any (k ∷ ks) s = is_infix (lower k) s || has_any ks s

  unfoldable pub matches_keywords : Event → List String → Option Bool
  matches_keywords e keywords =
      let d = entity_data e.entity in
      if is_empty d then some false else elim (searchable_parts d) [
        | none ↦ none
        | some parts ↦ some (has_any keywords (lower (join parts)))
      ]

  unfoldable pub within : Option ℤ → Json → Bool
  within none distance = true
  within (some limit) distance = elim (to_int distance) [
    | none ↦ false
    | some n ↦ not (exceeds n limit)
  ]

  unfoldable pub in_scope : FederationFilters → Json → Json → Bool
  in_scope f origin distance =
      let federated = not (is_null origin) && not (is_null distance) in
      if f.scope == "local_only"
      then not federated
      else if f.scope == "local_and_federated"
      then not federated
        || ((is_empty f.include_graph_ids || is_one_of f.include_graph_ids origin)
            && within f.max_distance distance)
      else false

  unfoldable pub matches_federation : Event → FederationFilters → Option Bool
  matches_federation e f = do
    metadata ← section "metadata" (entity_data e.entity)
    some (in_scope f (item "origin_graph_id" metadata) (item "federation_distance" metadata))

  -- The list of types that the event's kind is held against; an empty one takes all.
  unfoldable pub type_allowed : TargetFilters → EntityData → Bool
  type_allowed t e = elim e.kind [
    | node ↦ is_empty t.node_types || contains t.node_types e.type
    | edge ↦ is_empty t.relationship_types || contains t.relationship_types e.type
  ]

  unfoldable pub matches : Event → SubscriptionFilters → Option Bool
  matches e f =
      let by_keywords = if is_empty f.keywords then some true else matches_keywords e f.keywords in
      if not (same_kind e.entity.kind f.target.entity_kind)
      then some false
      else if not (contains f.operations (operation e.event_type))
      then some false
      else if not (type_allowed f.target e.entity)
      then some false
      else elim by_keywords [
        | none ↦ none
        | some false ↦ some false
        | some true ↦ matches_federation e f.federation
      ]

-- `if x: if x in ignored`
unfoldable pub is_ignored : Option String → List String → Bool
is_ignored none ignored = false
is_ignored (some s) ignored = if s == "" then false else contains ignored s

unfoldable pub should_block : Event → SubscriptionDelivery → Bool
should_block e d =
    is_ignored e.origin.event_origin d.ignore_origins
    || is_ignored e.origin.event_session_id d.ignore_session_ids
