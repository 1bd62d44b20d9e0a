-- ===== src/Tests/Registry.antt =====
-- The registry of backend/core/session_registry.py.
use community_overview.Base.{◌≡◌, refl, some, [], ◌∷◌, ◌++◌, map, arith}
use community_overview.Base.Dict
use community_overview.Json.{Object, text}
use community_overview.Session.Registry.{SessionRegistry, in_loop, push_command_sync, run_scheduled}
use community_overview.Session.Registry.Delivery.{IsWaiting, stream, stream-push_command_sync}

abbrev command : Object
command = ("type", text "focus") ∷ []

-- A session whose queue holds one command.
abbrev registry : SessionRegistry
registry = record {
  sessions = ("1234-5678", record { queue = 0; created_at = 5; last_seen = 5 }) ∷ [];
  queues = (0, command ∷ []) ∷ [];
  next = 1;
  scheduled = [];
}

registry-IsWaiting : IsWaiting "1234-5678" (command ∷ []) registry
unfolding Dict.get
registry-IsWaiting =
    (record { queue = 0; created_at = 5; last_seen = 5 }, ground arith, ground arith)

stream-push_command_sync_example :
    stream
      (7 ∷ 8 ∷ [])
      "1234-5678"
      (run_scheduled (push_command_sync in_loop 6 "1234-5678" [] registry).1)
    ≡ map some ((command ∷ []) ++ ([] ∷ []))
stream-push_command_sync_example =
    stream-push_command_sync in_loop 6 (7 ∷ 8 ∷ []) "1234-5678" [] (command ∷ []) registry refl refl
      registry-IsWaiting (omega arith)
