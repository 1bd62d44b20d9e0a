-- ===== src/Session/Presence/Counts.antt =====
-- A client is on the roster exactly while it has a live connection.
use community_overview.Base.{
  ℕ, ◌+◌, ◌-◌, String, ◌≡◌, refl, ◌≢◌, ◌↔◌, ◌&&◌, Option, none, some, List, [], ◌∷◌, arith, leb,
  ◌==◌, string_eq, is_empty-eq_nil, if◌then◌else◌,
}
use community_overview.Base.Dict
use community_overview.Base.Dict.{Dict, get-put, get-remove}
use community_overview.Base.Dict.Nested.{inner, inner-put, inner-store_or_pop}
use community_overview.Session.Presence.{
  Member, PresenceRegistry, or_zero, roster_of, counts_of, join, empty, drop_count, depart, leave,
}

-- The live connections of a client.
unfoldable pub connections : String → String → PresenceRegistry → ℕ
connections sid client p = or_zero (Dict.get client (counts_of sid p))

unfoldable pub member_of : String → String → PresenceRegistry → Option Member
member_of sid client p = Dict.get client (roster_of sid p)

-- A join adds one connection of the client in the session, and none elsewhere.
pub connections-join :
    (show : ℕ → String) (sid' client' sid client : String) (name : Option String)
    (p : PresenceRegistry)
    → connections sid' client' (join show sid client name p).1 ≡ (
        if sid' == sid && client' == client
        then connections sid' client' p + 1
        else connections sid' client' p)
unfolding connections join counts_of
connections-join show sid' client' sid client name p =
    let counts = counts_of sid p in
    let n = or_zero (Dict.get client counts) + 1 in
    ground (
      arith,
      inner-put sid' sid (Dict.put client n counts) p.conn_counts,
      get-put client' client n counts,
    )

member_of-join :
    (show : ℕ → String) (sid' client' sid client : String) (name : Option String)
    (p : PresenceRegistry)
    → member_of sid' client' (join show sid client name p).1 ≡ (
        if sid' == sid && client' == client
        then some (join show sid client name p).0
        else member_of sid' client' p)
unfolding member_of join roster_of
member_of-join show sid' client' sid client name p =
    let m = (join show sid client name p).0 in
    ground (
      arith,
      inner-put sid' sid (Dict.put client m (roster_of sid p)) p.rosters,
      get-put client' client m (roster_of sid p),
    )

-- A leave takes one connection of the client in the session away, if there is one, and none
-- elsewhere.
pub connections-leave :
    (sid' client' sid client : String) (p : PresenceRegistry)
    → connections sid' client' (leave sid client p).1 ≡ (
        if sid' == sid && client' == client
        then connections sid' client' p - 1
        else connections sid' client' p)
unfolding connections leave depart drop_count counts_of
connections-leave sid' client' sid client p =
    let counts = counts_of sid p in
    let n = or_zero (Dict.get client counts) - 1 in
    ground (
      arith,
      inner-put sid' sid (Dict.put client n counts) p.conn_counts,
      get-put client' client n counts,
      inner-store_or_pop sid' sid (Dict.remove client counts) p.conn_counts,
      get-remove client' client counts,
    )

member_of-leave :
    (sid' client' sid client : String) (p : PresenceRegistry)
    → member_of sid' client' (leave sid client p).1 ≡ (
        if sid' == sid && client' == client && leb (connections sid client p) 1
        then none
        else member_of sid' client' p)
unfolding member_of leave depart connections roster_of Dict.get
member_of-leave sid' client' sid client p = ground (
  arith,
  inner-store_or_pop sid' sid (Dict.remove client (roster_of sid p)) p.rosters,
  get-remove client' client (roster_of sid p),
  is_empty-eq_nil (roster_of sid p),
)

leave_returns :
    (sid client : String) (p : PresenceRegistry)
    → (leave sid client p).0
      ≡ (if leb (connections sid client p) 1 then member_of sid client p else none)
unfolding leave depart connections member_of Dict.get
leave_returns sid client p = ground (arith, is_empty-eq_nil (roster_of sid p))

-- A client is on the roster of a session exactly while it has a live connection there.
pub record IsConsistent (p : PresenceRegistry) : Type 0 where
  pub absent :
      (sid client : String) → (member_of sid client p ≡ none) ↔ (connections sid client p ≡ 0)

-- On a consistent registry, a leave returns the member exactly when it closes the client's last
-- connection.
pub leave_last :
    (sid client : String) (p : PresenceRegistry)
    → IsConsistent p
    → ((leave sid client p).0 ≢ none) ↔ (connections sid client p ≡ 1)
leave_last sid client p c = ground (arith, leave_returns sid client p, c.absent sid client)

-- The connections that open and close.
pub data Event : Type 0 where
  joins : String → String → Option String → Event
  leaves : String → String → Event

module _ (show : ℕ → String) where
  unfoldable pub step : PresenceRegistry → Event → PresenceRegistry
  step p (joins sid client name) = (join show sid client name p).1
  step p (leaves sid client) = (leave sid client p).1

  unfoldable pub run : PresenceRegistry → List Event → PresenceRegistry
  run p [] = p
  run p (e ∷ es) = run (step p e) es

  pub step-IsConsistent :
      (p : PresenceRegistry) (e : Event) → IsConsistent p → IsConsistent (step p e)
  unfolding step
  step-IsConsistent p (joins sid client name) c = record {
    absent = λ s k.
        rw (connections-join show s k sid client name p, member_of-join show s k sid client name p)
          (ground (arith, c.absent s k));
  }
  step-IsConsistent p (leaves sid client) c = record {
    absent = λ s k.
        rw (connections-leave s k sid client p, member_of-leave s k sid client p)
          (ground (arith, c.absent s k));
  }

  run-IsConsistent :
      (p : PresenceRegistry) (es : List Event) → IsConsistent p → IsConsistent (run p es)
  unfolding run
  run-IsConsistent p [] c = c
  run-IsConsistent p (e ∷ es) c = run-IsConsistent (step p e) es (step-IsConsistent p e c)

  pub run-init-IsConsistent : (es : List Event) → IsConsistent (run empty es)
  run-init-IsConsistent es = run-IsConsistent empty es (
      unfold empty member_of connections roster_of counts_of inner Dict.get in
      record { absent = λ sid client. (λ h. refl, λ h. refl) })
