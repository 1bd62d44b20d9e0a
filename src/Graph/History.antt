-- ===== src/Graph/History.antt =====
-- `GraphHistoryStore` of backend/core/history_store.py. The file is a list of its lines, `none` for a
-- line that is not JSON; a record that is written is read back as it is. Times and ages are in ticks
-- of a clock. A write of a line that fails is left out.
pub mod Pages
pub mod Growth
use community_overview.Base.{
  ℕ, ◌+◌, ◌-◌, min, max, String, Bool, true, false, not, ◌&&◌, ◌||◌, Option, none, some, List, [],
  ◌∷◌, ◌++◌, ltb, leb, ◌==◌, string_eq, nat_eq, keep, length, if◌then◌else◌,
}
use community_overview.Base.Sequences.{take, drop, reverse}
use community_overview.Json.{ℤ, pos, negsuc, Json, Object}

-- The fields that the store reads, and the rest.
pub record HistoryRecord : Type 0 where
  pub entity_id : String
  pub entity_kind : String
  pub occurred_at : Json
  pub rest : Object

pub record GraphHistoryStore : Type 0 where
  pub lines : List (Option HistoryRecord)
  pub max_events : Option ℕ
  pub max_age : Option ℕ
  pub compaction_interval : ℕ
  pub appends_since_compaction : ℕ

-- The time, `fromisoformat` with its time zone (`none` for what is no text or no time), and whether a
-- rewrite of the file succeeds.
pub record HistoryEnv : Type 0 where
  pub now : ℕ
  pub timestamp : Json → Option ℕ
  pub rewritten : Bool

-- A cap counts only when it is positive.
unfoldable pub positive : Option ℤ → Option ℕ
positive none = none
positive (some (pos n)) = if n == 0 then none else some n
positive (some (negsuc n)) = none

-- `max(1, n)`
unfoldable pub at_least_one : ℤ → ℕ
at_least_one (pos n) = max 1 n
at_least_one (negsuc n) = 1

unfoldable pub interval_of : Option ℤ → Option ℕ → ℕ
interval_of (some n) events = at_least_one n
interval_of none (some m) = max 1 (min m 256)
interval_of none none = 256

unfoldable pub open_store :
    List (Option HistoryRecord) → Option ℤ → Option ℤ → Option ℤ → GraphHistoryStore
open_store lines max_events max_age interval = record {
  lines = lines;
  max_events = positive max_events;
  max_age = positive max_age;
  compaction_interval = interval_of interval (positive max_events);
  appends_since_compaction = 0;
}

abbrev is_some : Option ℕ → Bool
is_some none = false
is_some (some n) = true

abbrev pub retention_enabled : GraphHistoryStore → Bool
retention_enabled st = is_some st.max_events || is_some st.max_age

-- `_read_all_unlocked`
unfoldable pub read_lines : List (Option HistoryRecord) → List HistoryRecord
read_lines [] = []
read_lines (none ∷ ls) = read_lines ls
read_lines (some r ∷ ls) = r ∷ read_lines ls

abbrev pub read_all : GraphHistoryStore → List HistoryRecord
read_all st = read_lines st.lines

-- A record whose time cannot be read is kept.
unfoldable pub within_age : HistoryEnv → ℕ → HistoryRecord → Bool
within_age env age r = elim (env.timestamp r.occurred_at) [
  | none ↦ true
  | some t ↦ leb env.now (t + age)
]

unfoldable pub keep_young : HistoryEnv → Option ℕ → List HistoryRecord → List HistoryRecord
keep_young env none rs = rs
keep_young env (some age) rs = keep (within_age env age) rs

-- `kept[-max_events:]` where there are more.
unfoldable pub keep_newest : Option ℕ → List HistoryRecord → List HistoryRecord
keep_newest none rs = rs
keep_newest (some m) rs = if ltb m (length rs) then drop (length rs - m) rs else rs

unfoldable pub apply_retention :
    HistoryEnv → GraphHistoryStore → List HistoryRecord → List HistoryRecord
apply_retention env st rs = keep_newest st.max_events (keep_young env st.max_age rs)

unfoldable pub lines_of : List HistoryRecord → List (Option HistoryRecord)
lines_of [] = []
lines_of (r ∷ rs) = some r ∷ lines_of rs

-- The file as `_compact_locked` leaves it; a failed rewrite leaves it as it was.
unfoldable pub compacted_lines : HistoryEnv → GraphHistoryStore → List (Option HistoryRecord)
compacted_lines env st =
    let kept = apply_retention env st (read_all st) in
    if length kept == length (read_all st)
    then st.lines
    else if env.rewritten
    then lines_of kept
    else st.lines

unfoldable pub compact_locked : HistoryEnv → GraphHistoryStore → GraphHistoryStore
compact_locked env st = record st { lines = compacted_lines env st; appends_since_compaction = 0 }

unfoldable pub compact : HistoryEnv → GraphHistoryStore → GraphHistoryStore
compact env st = if retention_enabled st then compact_locked env st else st

unfoldable pub count_append : GraphHistoryStore → GraphHistoryStore
count_append st = record st { appends_since_compaction = st.appends_since_compaction + 1 }

unfoldable pub compact_when_due : HistoryEnv → GraphHistoryStore → GraphHistoryStore
compact_when_due env st =
    if leb st.compaction_interval st.appends_since_compaction then compact_locked env st else st

unfoldable pub append_record : HistoryEnv → HistoryRecord → GraphHistoryStore → GraphHistoryStore
append_record env r st =
    let written = record st { lines = st.lines ++ (some r ∷ []) } in
    if retention_enabled st then compact_when_due env (count_append written) else written

-- A negative limit or offset is 0.
unfoldable pub clamp : ℤ → ℕ
clamp (pos n) = n
clamp (negsuc n) = 0

unfoldable pub paginate : List HistoryRecord → ℤ → ℤ → List HistoryRecord
paginate rs limit offset = take (clamp limit) (drop (clamp offset) rs)

unfoldable pub get_recent : ℤ → ℤ → GraphHistoryStore → List HistoryRecord
get_recent limit offset st = paginate (reverse (read_all st)) limit offset

unfoldable pub is_about : String → Option String → HistoryRecord → Bool
is_about id none r = r.entity_id == id
is_about id (some kind) r = r.entity_id == id && r.entity_kind == kind

unfoldable pub get_entity_history :
    String → Option String → ℤ → ℤ → GraphHistoryStore → List HistoryRecord
get_entity_history id kind limit offset st =
    paginate (reverse (keep (is_about id kind) (read_all st))) limit offset

-- The helpers of storage_history.py, for a storage with or without a store.
unfoldable pub get_recent_history : ℤ → ℤ → Option GraphHistoryStore → List HistoryRecord
get_recent_history limit offset none = []
get_recent_history limit offset (some st) = get_recent limit offset st

unfoldable pub get_node_history : String → ℤ → ℤ → Option GraphHistoryStore → List HistoryRecord
get_node_history id limit offset none = []
get_node_history id limit offset (some st) = get_entity_history id (some "node") limit offset st

unfoldable pub get_edge_history : String → ℤ → ℤ → Option GraphHistoryStore → List HistoryRecord
get_edge_history id limit offset none = []
get_edge_history id limit offset (some st) = get_entity_history id (some "edge") limit offset st
