-- ===== src/Tests/Hub.antt =====
-- The hub of backend/core/session_hub.py: claims, presence and the bus.
use community_overview.Base.{
  ℕ, ◌+◌, ◌<◌, ◌≡◌, refl, ◌≢◌, ◌↔◌, String, false, ◌&&◌, none, some, List, [], ◌∷◌, arith, ltb,
  ◌==◌, string_eq, option_eq, nat_eq, contains, length, if◌then◌else◌,
}
use community_overview.Base.Dict
use community_overview.Session.Claims.{ClaimMap, claim, release, release_all, snapshot}
use community_overview.Session.Claims.Laws.{IsWellFormed, holder}
use community_overview.Session.Claims.Effects.{
  holder-claim, holder-release, contains-release, holder-release_all, get-snapshot,
}
use community_overview.Session.Claims.Invariant
use community_overview.Session.Claims.Invariant.{Call, claims, releases}
use community_overview.Session.Presence.{
  PresenceRegistry, Member, join, leave, empty, roster_of, colors_of, presence_colors,
}
use community_overview.Session.Presence.Counts
use community_overview.Session.Presence.Counts.{
  connections, leave_last, IsConsistent, joins, leaves,
}
use community_overview.Session.Presence.Colors.{color-join}
use community_overview.Session.Bus.{
  Bus, Subscription, LoopState, same, publish, subscribers_of, init,
}
use community_overview.Session.Bus.Delivery
use community_overview.Session.Bus.Delivery.{
  Action, delivers, takes, Consumer, IsFaithful, offered, run-new-IsFaithful,
}
use community_overview.Session.Bus.Fanout
use community_overview.Session.Bus.Fanout.{object, object-publish, subscribes, publishes}

abbrev room : String
room = "s"

abbrev elem : String
elem = "e"

abbrev ann : String
ann = "ann"

abbrev bob : String
bob = "bob"

abbrev cy : String
cy = "cy"

abbrev claim_calls : List Call
claim_calls = claims 1 1 room ann (elem ∷ "f" ∷ []) ∷ releases 2 room ann ("f" ∷ []) ∷ []

abbrev held : ClaimMap
held = Invariant.run (Invariant.init 30) claim_calls

held_lem : IsWellFormed held
held_lem = Invariant.run-init-IsWellFormed 30 claim_calls

holder-claim_example : holder 9 room elem (claim 4 5 room bob (elem ∷ []) held).1 ≡ (
    if room == room && contains (elem ∷ []) elem
    then (if ltb 9 (5 + held.ttl) then some bob else none)
    else holder 9 room elem held)
holder-claim_example = holder-claim 4 5 9 room room bob elem (elem ∷ []) held held_lem (omega arith)

holder-release_example : holder 9 room elem (release 4 room ann (elem ∷ []) held).1 ≡ (
    if room == room && contains (elem ∷ []) elem && holder 9 room elem held == some ann
    then none
    else holder 9 room elem held)
holder-release_example =
    holder-release 4 9 room room ann elem (elem ∷ []) held held_lem (omega arith)

contains-release_example :
    contains (release 4 room ann (elem ∷ "g" ∷ []) held).0 elem
    ≡ (contains (elem ∷ "g" ∷ []) elem && holder 4 room elem held == some ann)
contains-release_example = contains-release 4 room ann elem (elem ∷ "g" ∷ []) held held_lem

holder-release_all_example : holder 9 room elem (release_all room ann held).1 ≡ (
    if room == room && holder 9 room elem held == some ann then none else holder 9 room elem held)
holder-release_all_example = holder-release_all 9 room room ann elem held held_lem

get-snapshot_example : Dict.get elem (snapshot 9 room held).0 ≡ holder 9 room elem held
get-snapshot_example = get-snapshot 9 room elem held held_lem

abbrev show : ℕ → String
show n = "1"

abbrev arrivals : List Counts.Event
arrivals =
    joins room ann (some "Ann") ∷ joins room ann none ∷ joins room bob none ∷ leaves room bob ∷ []

abbrev present : PresenceRegistry
present = Counts.run show empty arrivals

present_lem : IsConsistent present
present_lem = Counts.run-init-IsConsistent show arrivals

leave_last_example : ((leave room ann present).0 ≢ none) ↔ (connections room ann present ≡ 1)
leave_last_example = leave_last room ann present present_lem

color-join_example :
    (Dict.get cy (roster_of room present) ≡ none
      → length (roster_of room present) < length presence_colors
      → contains
          (colors_of (Dict.values (roster_of room present)))
          (join show room cy none present).0.color
        ≡ false)
    × ((m : Member)
        → Dict.get cy (roster_of room present) ≡ some m
        → (join show room cy none present).0.color ≡ m.color)
color-join_example = color-join show room cy none present

abbrev inbox : Subscription ℕ
inbox = record { session_id = room; sub_id = 0; maxsize = 2; queue = []; needs_resync = false }

abbrev traffic : List (Action ℕ)
traffic = delivers 1 ∷ takes ∷ delivers 2 ∷ delivers 3 ∷ delivers 4 ∷ delivers 5 ∷ takes ∷ []

run-new-IsFaithful_example :
    IsFaithful (offered traffic) (Delivery.run (record { sub = inbox; taken = [] }) traffic)
run-new-IsFaithful_example = run-new-IsFaithful inbox traffic refl

abbrev consumer : Consumer ℕ
consumer = record { sub = inbox; taken = [] }

abbrev loops : ℕ → LoopState
loops n = same

abbrev bus_calls : List (Fanout.Call ℕ)
bus_calls = subscribes room ∷ subscribes room ∷ publishes loops room 7 ∷ []

abbrev bus : Bus ℕ
bus = Fanout.run (init 8) bus_calls

object-publish_example : object 1 (publish loops room 9 bus) ≡ (
    if contains (subscribers_of room bus) 1
    then Fanout.received (loops 1) 9 (object 1 bus)
    else object 1 bus)
object-publish_example =
    object-publish loops room 9 1 bus (Fanout.run-init-IsWellFormed 8 bus_calls)
