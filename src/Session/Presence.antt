-- ===== src/Session/Presence.antt =====
-- `PresenceRegistry` of backend/core/session_hub.py: the roster of connected clients, with a
-- count of live connections for each client and a colour for each member.
pub mod Counts
pub mod Colors
use community_overview.Base.{
  ℕ, zero, suc, ◌+◌, ◌-◌, ◌%◌, String, ◌<>◌, Option, none, some, List, [], ◌∷◌, ltb, ◌==◌,
  string_eq, contains, is_empty, length, if◌then◌else◌,
}
use community_overview.Base.Dict
use community_overview.Base.Dict.{Dict, values}
use community_overview.Base.Dict.Nested.{inner, store_or_pop}

pub record Member : Type 0 where
  pub client_id : String
  pub display_name : String
  pub color : String

-- session id → client id → member, session id → colour index, session id → client id → connections
pub record PresenceRegistry : Type 0 where
  pub rosters : Dict String (Dict String Member)
  pub color_cursor : Dict String ℕ
  pub conn_counts : Dict String (Dict String ℕ)

-- `_PRESENCE_COLORS`
abbrev pub presence_colors : List String
presence_colors =
    "#e6194b" ∷ "#3cb44b" ∷ "#4363d8" ∷ "#f58231" ∷ "#911eb4" ∷ "#46f0f0" ∷ "#f032e6" ∷ "#bcf60c"
    ∷ "#fabebe" ∷ "#008080" ∷ []

-- `d.get(k, 0)`
abbrev pub or_zero : Option ℕ → ℕ
or_zero none = 0
or_zero (some n) = n

-- `colors[i]`, for an index in range.
unfoldable pub color_at : List String → ℕ → String
color_at [] i = ""
color_at (c ∷ cs) zero = c
color_at (c ∷ cs) (suc i) = color_at cs i

unfoldable pub colors_of : List Member → List String
colors_of [] = []
colors_of (m ∷ ms) = m.color ∷ colors_of ms

-- The loop of `_assign_color`, with the tries left: an unused colour, and where the cursor is left.
unfoldable pub search_color : ℕ → List String → ℕ → Option String × ℕ
search_color zero used cursor = (none, cursor)
search_color (suc tries) used cursor =
    let idx = cursor % length presence_colors in
    let color = color_at presence_colors idx in
    let rest = search_color tries used (idx + 1) in
    if contains used color then rest else (some color, idx + 1)

-- The colour, and the cursor after it.
unfoldable pub assign_color : List String → ℕ → String × ℕ
assign_color used cursor =
    let (found, cursor') = search_color (length presence_colors) used cursor in
    elim found [
      | some color ↦ (color, cursor')
      | none ↦ let idx = cursor' % length presence_colors in (color_at presence_colors idx, idx + 1)
    ]

unfoldable pub roster_of : String → PresenceRegistry → Dict String Member
roster_of sid p = inner sid p.rosters

unfoldable pub counts_of : String → PresenceRegistry → Dict String ℕ
counts_of sid p = inner sid p.conn_counts

unfoldable pub cursor_of : String → PresenceRegistry → ℕ
cursor_of sid p = or_zero (Dict.get sid p.color_cursor)

-- The colour of a client that is on the roster, or a new one, with the cursors after it.
unfoldable pub color_for : String → String → PresenceRegistry → String × Dict String ℕ
color_for sid client p = elim (Dict.get client (roster_of sid p)) [
  | some existing ↦ (existing.color, p.color_cursor)
  | none ↦
      let (color, cursor) = assign_color (colors_of (values (roster_of sid p))) (cursor_of sid p) in
      (color, Dict.put sid cursor p.color_cursor)
]

-- `display_name or f"Guest-{len(roster) + 1}"`; `show` prints a number.
unfoldable pub guest_name : (ℕ → String) → Option String → ℕ → String
guest_name show none size = "Guest-" <> show (size + 1)
guest_name show (some name) size = if name == "" then "Guest-" <> show (size + 1) else name

unfoldable pub join :
    (ℕ → String) → String → String → Option String → PresenceRegistry → Member × PresenceRegistry
join show sid client display_name p =
    let roster = roster_of sid p in
    let counts = counts_of sid p in
    let (color, cursors) = color_for sid client p in
    let member : Member = record {
      client_id = client;
      display_name = guest_name show display_name (length roster);
      color = color;
    } in
    (
      member,
      record {
        rosters = Dict.put sid (Dict.put client member roster) p.rosters;
        color_cursor = cursors;
        conn_counts =
            Dict.put sid (Dict.put client (or_zero (Dict.get client counts) + 1) counts)
              p.conn_counts;
      },
    )

-- The counts after the last connection of the client has gone.
unfoldable pub drop_count : String → String → PresenceRegistry → Dict String (Dict String ℕ)
drop_count sid client p = store_or_pop sid (Dict.remove client (counts_of sid p)) p.conn_counts

-- The client leaves the roster; a roster that becomes empty goes, with its colour cursor.
unfoldable pub depart : String → String → PresenceRegistry → Option Member × PresenceRegistry
depart sid client p =
    let roster = roster_of sid p in
    let counts = drop_count sid client p in
    let left = Dict.remove client roster in
    if is_empty roster then (none, record p { conn_counts = counts }) else (
      Dict.get client roster,
      record {
        rosters = store_or_pop sid left p.rosters;
        color_cursor = if is_empty left then Dict.remove sid p.color_cursor else p.color_cursor;
        conn_counts = counts;
      },
    )

unfoldable pub leave : String → String → PresenceRegistry → Option Member × PresenceRegistry
leave sid client p =
    let counts = counts_of sid p in
    let count = or_zero (Dict.get client counts) in
    if ltb 1 count
    then (
      none,
      record p { conn_counts = Dict.put sid (Dict.put client (count - 1) counts) p.conn_counts },
    )
    else depart sid client p

unfoldable pub roster : String → PresenceRegistry → List Member
roster sid p = values (roster_of sid p)

unfoldable pub count : String → PresenceRegistry → ℕ
count sid p = length (roster_of sid p)

unfoldable pub empty : PresenceRegistry
empty = record { rosters = []; color_cursor = []; conn_counts = [] }
