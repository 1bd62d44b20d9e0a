-- ===== src/Session/Registry.antt =====
-- `SessionRegistry` of backend/core/session_registry.py. A queue is an object: it is an entry of a heap,
-- so that a session that is created again has another one. Times, and the hour that a session
-- lives, are in ticks of a clock.
pub mod Delivery
use community_overview.Base.{
  ℕ, ◌+◌, String, Bool, true, false, Option, none, some, List, [], ◌∷◌, ◌++◌, ltb, ◌==◌, string_eq,
  nat_eq, length, if◌then◌else◌,
}
use community_overview.Base.Dict
use community_overview.Base.Dict.{Dict}
use community_overview.Base.Dict.Bulk.{keys_where, remove_all}
use community_overview.Json.{Object}

pub record SessionEntry : Type 0 where
  pub queue : ℕ
  pub created_at : ℕ
  pub last_seen : ℕ

-- `scheduled` is what the event loop has been asked to put, in order.
pub record SessionRegistry : Type 0 where
  pub sessions : Dict String SessionEntry
  pub queues : Dict ℕ (List Object)
  pub next : ℕ
  pub scheduled : List (ℕ × Object)

-- Where `push_command_sync` is called: in the loop's thread, in another one while the stored loop runs,
-- or without a loop.
pub data Caller : Type 0 where
  in_loop other_thread no_loop : Caller

unfoldable pub get_or_create : ℕ → String → SessionRegistry → ℕ × SessionRegistry
get_or_create now sid reg = elim (Dict.get sid reg.sessions) [
  | some e ↦ (e.queue, reg)
  | none ↦ (
    reg.next,
    record reg {
      sessions =
          Dict.put sid (record { queue = reg.next; created_at = now; last_seen = now })
            reg.sessions;
      queues = Dict.put reg.next [] reg.queues;
      next = reg.next + 1;
    },
  )
]

unfoldable pub touch : ℕ → String → SessionRegistry → SessionRegistry
touch now sid reg = elim (Dict.get sid reg.sessions) [
  | none ↦ reg
  | some e ↦ record reg { sessions = Dict.put sid (record e { last_seen = now }) reg.sessions }
]

unfoldable pub session_exists : String → SessionRegistry → Bool
session_exists sid reg = elim (Dict.get sid reg.sessions) [ none ↦ false | some e ↦ true ]

unfoldable pub queue_at : ℕ → SessionRegistry → List Object
queue_at q reg = elim (Dict.get q reg.queues) [ none ↦ [] | some cs ↦ cs ]

-- `queue.put_nowait(command)` on a queue without a bound.
unfoldable pub put_nowait : ℕ → Object → SessionRegistry → SessionRegistry
put_nowait q c reg = record reg { queues = Dict.put q (queue_at q reg ++ (c ∷ [])) reg.queues }

abbrev has_loop : Caller → Bool
has_loop in_loop = true
has_loop other_thread = true
has_loop no_loop = false

unfoldable pub push_command_sync :
    Caller → ℕ → String → Object → SessionRegistry → Bool × SessionRegistry
push_command_sync caller now sid c reg = elim (Dict.get sid reg.sessions) [
  | none ↦ (false, reg)
  | some e ↦
      if has_loop caller
      then (true, touch now sid (record reg { scheduled = reg.scheduled ++ ((e.queue, c) ∷ []) }))
      else (false, reg)
]

unfoldable pub push_command : ℕ → String → Object → SessionRegistry → Bool × SessionRegistry
push_command now sid c reg = elim (Dict.get sid reg.sessions) [
  | none ↦ (false, reg)
  | some e ↦ (true, touch now sid (put_nowait e.queue c reg))
]

-- The event loop does what it has been asked to.
unfoldable pub put_scheduled : List (ℕ × Object) → SessionRegistry → SessionRegistry
put_scheduled [] reg = reg
put_scheduled ((q, c) ∷ ps) reg = put_scheduled ps (put_nowait q c reg)

unfoldable pub run_scheduled : SessionRegistry → SessionRegistry
run_scheduled reg = put_scheduled reg.scheduled (record reg { scheduled = [] })

-- The wait of `stream`: a command that is there, or a ping, `none`, after the timeout.
unfoldable pub take_from : ℕ → ℕ → String → SessionRegistry → Option Object × SessionRegistry
take_from q now sid reg = elim (queue_at q reg) [
  | [] ↦ (none, touch now sid reg)
  | c ∷ cs ↦ (some c, touch now sid (record reg { queues = Dict.put q cs reg.queues }))
]

-- One round of `stream`.
unfoldable pub next_command : ℕ → String → SessionRegistry → Option Object × SessionRegistry
next_command now sid reg = let (q, reg') = get_or_create now sid reg in take_from q now sid reg'

abbrev is_stale : ℕ → ℕ → SessionEntry → Bool
is_stale ttl now e = ltb (e.last_seen + ttl) now

unfoldable pub cleanup_stale : ℕ → ℕ → SessionRegistry → ℕ × SessionRegistry
cleanup_stale ttl now reg =
    let stale = keys_where (is_stale ttl now) reg.sessions in
    (length stale, record reg { sessions = remove_all stale reg.sessions })
