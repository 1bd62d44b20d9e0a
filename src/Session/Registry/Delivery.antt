-- ===== src/Session/Registry/Delivery.antt =====
-- A command that is pushed comes out of the stream.
use community_overview.Base.{
  ℕ, ◌+◌, String, ◌≡◌, refl, ap, ◌∙◌, true, Option, some, List, [], ◌∷◌, ◌++◌, map, arith,
  string_eq, nat_eq, length, length-append,
}
use community_overview.Base.Dict
use community_overview.Base.Dict.{Dict, get-put, get-put_self}
use community_overview.Json.{Object}
use community_overview.Session.Registry.{
  SessionEntry, SessionRegistry, Caller, has_loop, get_or_create, touch, queue_at, put_nowait,
  push_command_sync, put_scheduled, run_scheduled, take_from, next_command,
}

-- Rounds of the stream, with the time of each.
unfoldable pub stream : List ℕ → String → SessionRegistry → List (Option Object)
stream [] sid reg = []
stream (now ∷ nows) sid reg = let (c, reg') = next_command now sid reg in c ∷ stream nows sid reg'

-- A session with these commands waiting.
abbrev pub IsWaiting : String → List Object → SessionRegistry → Type 0
IsWaiting sid cs reg =
    (e : SessionEntry) × (Dict.get sid reg.sessions ≡ some e)
    × (Dict.get e.queue reg.queues ≡ some cs)

touch-IsWaiting :
    (now : ℕ) (sid : String) (cs : List Object) (reg : SessionRegistry)
    → IsWaiting sid cs reg
    → IsWaiting sid cs (touch now sid reg)
unfolding touch
touch-IsWaiting now sid cs reg (e, at, found) = (
  record e { last_seen = now },
  rw (touch, at) (get-put_self sid (record e { last_seen = now }) reg.sessions),
  rw (touch, at) found,
)

get_or_create-found :
    (now : ℕ) (sid : String) (e : SessionEntry) (reg : SessionRegistry)
    → Dict.get sid reg.sessions ≡ some e
    → get_or_create now sid reg ≡ (e.queue, reg)
unfolding get_or_create
get_or_create-found now sid e reg at = rw (get_or_create, at) refl

queue_at-found :
    (q : ℕ) (cs : List Object) (reg : SessionRegistry)
    → Dict.get q reg.queues ≡ some cs
    → queue_at q reg ≡ cs
unfolding queue_at
queue_at-found q cs reg found = rw (queue_at, found) refl

take_from-found :
    (now : ℕ) (sid : String) (c : Object) (cs : List Object) (e : SessionEntry)
    (reg : SessionRegistry)
    → Dict.get e.queue reg.queues ≡ some (c ∷ cs)
    → take_from e.queue now sid reg
      ≡ (some c, touch now sid (record reg { queues = Dict.put e.queue cs reg.queues }))
unfolding take_from queue_at
take_from-found now sid c cs e reg found = rw (take_from, queue_at, found) refl

next_command-IsWaiting :
    (now : ℕ) (sid : String) (c : Object) (cs : List Object) (reg : SessionRegistry)
    → IsWaiting sid (c ∷ cs) reg
    → (reg' : SessionRegistry) × (next_command now sid reg ≡ (some c, reg')) × IsWaiting sid cs reg'
unfolding next_command
next_command-IsWaiting now sid c cs reg (e, at, found) =
    let taken : SessionRegistry = record reg { queues = Dict.put e.queue cs reg.queues } in
    (
      touch now sid taken,
      ap (λ x. take_from x.0 now sid x.1) (get_or_create-found now sid e reg at)
          ∙ take_from-found now sid c cs e reg found,
      touch-IsWaiting now sid cs taken (e, at, get-put_self e.queue cs reg.queues),
    )

stream-IsWaiting :
    (nows : List ℕ) (sid : String) (cs : List Object) (reg : SessionRegistry)
    → IsWaiting sid cs reg
    → length nows ≡ length cs
    → stream nows sid reg ≡ map some cs
unfolding stream
stream-IsWaiting [] sid [] reg w h = refl
stream-IsWaiting [] sid (c ∷ cs) reg w h = absurd (omega (arith, h))
stream-IsWaiting (now ∷ nows) sid [] reg w h = absurd (omega (arith, h))
stream-IsWaiting (now ∷ nows) sid (c ∷ cs) reg w h =
    let (reg', step, w') = next_command-IsWaiting now sid c cs reg w in
    rw (stream, step)
      (ap (λ xs. some c ∷ xs) (stream-IsWaiting nows sid cs reg' w' (omega (arith, h))))

push_command_sync-found :
    (caller : Caller) (now : ℕ) (sid : String) (c : Object) (e : SessionEntry)
    (reg : SessionRegistry)
    → has_loop caller ≡ true
    → reg.scheduled ≡ []
    → Dict.get sid reg.sessions ≡ some e
    → (push_command_sync caller now sid c reg).1 ≡ record reg {
      sessions = Dict.put sid (record e { last_seen = now }) reg.sessions;
      scheduled = (e.queue, c) ∷ [];
    }
unfolding push_command_sync touch
push_command_sync-found caller now sid c e reg loop idle at =
    simp (push_command_sync, touch, loop, idle, at)

push_command_sync-IsWaiting :
    (caller : Caller) (now : ℕ) (sid : String) (c : Object) (cs : List Object)
    (reg : SessionRegistry)
    → has_loop caller ≡ true
    → reg.scheduled ≡ []
    → IsWaiting sid cs reg
    → IsWaiting sid (cs ++ (c ∷ [])) (run_scheduled (push_command_sync caller now sid c reg).1)
unfolding run_scheduled put_scheduled put_nowait
push_command_sync-IsWaiting caller now sid c cs reg loop idle (e, at, found) =
    let seen : SessionEntry = record e { last_seen = now } in
    rw (push_command_sync-found caller now sid c e reg loop idle at) (
      seen,
      get-put_self sid seen reg.sessions,
      ap (λ xs. Dict.get e.queue (Dict.put e.queue (xs ++ (c ∷ [])) reg.queues))
            (queue_at-found e.queue cs _ found)
          ∙ get-put_self e.queue (cs ++ (c ∷ [])) reg.queues,
    )

-- A command that is pushed to a known session, from the loop's thread or while the stored loop runs
-- and nothing else is scheduled, comes out of the session's stream once the loop has run: as many
-- rounds as commands wait yield those that waited, in order, and then this one, with no ping
-- between.
pub stream-push_command_sync :
    (caller : Caller) (now : ℕ) (nows : List ℕ) (sid : String) (c : Object) (cs : List Object)
    (reg : SessionRegistry)
    → has_loop caller ≡ true
    → reg.scheduled ≡ []
    → IsWaiting sid cs reg
    → length nows ≡ length cs + 1
    → stream nows sid (run_scheduled (push_command_sync caller now sid c reg).1)
      ≡ map some (cs ++ (c ∷ []))
stream-push_command_sync caller now nows sid c cs reg loop idle w h =
    stream-IsWaiting nows sid (cs ++ (c ∷ [])) _
      (push_command_sync-IsWaiting caller now sid c cs reg loop idle w)
      (omega (arith, h, length-append cs (c ∷ [])))
