-- ===== src/Tests/History.antt =====
-- The history of backend/core/history_store.py and the scores of backend/core/storage_search.py.
use community_overview.Base.{
  ◌+◌, ◌<◌, ◌≡◌, refl, String, true, none, some, List, [], ◌∷◌, ◌++◌, arith, length, string_eq,
  nat_eq, ℕ_discrete,
}
use community_overview.Base.Sequences.{reverse}
use community_overview.Json.{pos, text, array, of_list, is_truthy, to_list, as_texts}
use community_overview.Base.Dict
use community_overview.Text
use community_overview.Text.{is_infix, is_prefix}
use community_overview.Graph.Models.{Node}
use community_overview.Graph.Score
use community_overview.Graph.Score.{score_node_match}
use community_overview.Graph.Score.Tiers.{tier, score_node_match-tier}
use community_overview.Graph.History.{
  HistoryRecord, HistoryEnv, interval_of, open_store, read_lines, read_all, paginate, clamp,
  get_recent,
}
use community_overview.Graph.History.Pages.{append_all, records_of, get_recent-untrimmed}
use community_overview.Graph.History.Growth.{length-append_all-lt}
use community_overview.Tests.Graph.{actor, env}

abbrev change : String → HistoryRecord
change id = record {
  entity_id = id;
  entity_kind = "node";
  occurred_at = text "2026-01-01";
  rest = [];
}

abbrev disk : HistoryEnv
disk = record { now = 100; timestamp = λ s. some 90; rewritten = true }

abbrev appends : List (HistoryEnv × HistoryRecord)
appends = (disk, change "a") ∷ (disk, change "b") ∷ (disk, change "c") ∷ []

get_recent-untrimmed_example :
    get_recent (pos 1) (pos 1) (
      append_all appends
        (open_store (none ∷ some (change "z") ∷ []) (some (pos 2)) none (some (pos 1))))
    ≡ paginate
        (reverse (read_lines (none ∷ some (change "z") ∷ []) ++ records_of appends))
        (pos 1)
        (pos 1)
unfolding clamp
get_recent-untrimmed_example =
    get_recent-untrimmed 2 (none ∷ some (change "z") ∷ []) (some (pos 1)) appends (pos 1) (pos 1)
      (omega arith) (omega arith)

length-append_all-lt_example :
    length
      (read_all (append_all appends (open_store [] (some (pos 2)) (some (pos 50)) (some (pos 2)))))
    < 2 + interval_of (some (pos 2)) (some 2)
unfolding read_lines
length-append_all-lt_example =
    length-append_all-lt 2 [] (some (pos 50)) (some (pos 2)) appends (omega arith) (omega arith)
      (refl, (refl, (refl, tt)))

-- One node has the query in its name, the other in an alias and a tag.
abbrev named : Node
named = actor "my forest"

abbrev aliased : Node
aliased = record (actor "wood") {
  aliases = array (of_list (text "forest" ∷ []));
  tags = array (of_list (text "forest" ∷ []));
}

named-score : score_node_match env.strings [] "forest" named ≡ some 300000
unfolding score_node_match Score.lower_of Score.texts_of Score.type_key Score.get_or
    Score.name_score Score.alias_score Score.type_score Score.tag_score Score.subtype_score
    Score.text_score Dict.get is_truthy is_infix is_prefix Text.elements to_list of_list as_texts
    string_eq nat_eq ℕ_discrete
named-score = refl

aliased-score : score_node_match env.strings [] "forest" aliased ≡ some 250500
unfolding score_node_match Score.lower_of Score.texts_of Score.type_key Score.get_or
    Score.name_score Score.alias_score Score.type_score Score.tag_score Score.subtype_score
    Score.text_score Dict.get is_truthy is_infix is_prefix Text.elements to_list of_list as_texts
    string_eq nat_eq ℕ_discrete
aliased-score = refl

named-tier : tier env.strings "forest" aliased < tier env.strings "forest" named
unfolding Score.lower_of Score.texts_of Score.type_key Score.get_or Score.name_score
    Score.alias_score Score.type_score Score.tag_score Score.subtype_score Score.text_score Dict.get
    is_truthy is_infix is_prefix Text.elements to_list of_list as_texts string_eq nat_eq ℕ_discrete
named-tier = omega arith

score_node_match-tier_example : 250500 < 300000
score_node_match-tier_example =
    score_node_match-tier env.strings [] "forest" named aliased 300000 250500 named-score
      aliased-score named-tier
