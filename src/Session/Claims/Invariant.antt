-- ===== src/Session/Claims/Invariant.antt =====
-- The dict of a session stays one, whatever calls are made.
use community_overview.Base.{◌+◌, ℕ, String, ◌++◌, List, [], ◌∷◌, arith, string_eq, if◌then◌else◌}
use community_overview.Base.Dict
use community_overview.Base.Dict.{Dict, NodupKeys, remove-NodupKeys}
use community_overview.Base.Dict.Bulk.{remove_all-NodupKeys}
use community_overview.Base.Dict.Nested.{inner}
use community_overview.Session.Claims.{
  Claim, ClaimMap, session_claims, prune, claim, is_held_by, release_loop, release, release_all,
  snapshot, store,
}
use community_overview.Session.Claims.Laws.{
  IsWellFormed, session_claims-store, prune-IsWellFormed, claim_all-NodupKeys,
}
use community_overview.Session.Claims.Effects.{session_claims-put}

-- A call of a public method, with the clock readings that it makes.
pub data Call : Type 0 where
  claims : ℕ → ℕ → String → String → List String → Call
  releases : ℕ → String → String → List String → Call
  releases_all : String → String → Call
  reads : ℕ → String → Call

unfoldable pub step : ClaimMap → Call → ClaimMap
step m (claims t₀ t₁ sid client eids) = (claim t₀ t₁ sid client eids m).1
step m (releases now sid client eids) = (release now sid client eids m).1
step m (releases_all sid client) = (release_all sid client m).1
step m (reads now sid) = (snapshot now sid m).1

unfoldable pub run : ClaimMap → List Call → ClaimMap
run m [] = m
run m (c ∷ cs) = run (step m c) cs

unfoldable pub init : ℕ → ClaimMap
init ttl = record { ttl = ttl; claims = [] }

release_loop-NodupKeys :
    (client : String) (eids : List String) (d : Dict String Claim) (released : List String)
    → NodupKeys d
    → NodupKeys (release_loop client eids d released).1
unfolding release_loop
release_loop-NodupKeys client [] d released h = h
release_loop-NodupKeys client (eid ∷ eids) d released h =
    let held = is_held_by client (Dict.get eid d) in
    release_loop-NodupKeys client eids (if held then Dict.remove eid d else d)
      (if held then released ++ (eid ∷ []) else released) (ground (arith, remove-NodupKeys eid d h))

store-IsWellFormed :
    (sid : String) (d : Dict String Claim) (m : ClaimMap)
    → NodupKeys d
    → IsWellFormed m
    → IsWellFormed (store sid d m)
store-IsWellFormed sid d m h wf sid' = rw session_claims-store (ground (arith, wf sid'))

step-IsWellFormed : (m : ClaimMap) (c : Call) → IsWellFormed m → IsWellFormed (step m c)
unfolding step claim release release_all snapshot
step-IsWellFormed m (claims t₀ t₁ sid client eids) wf = λ sid'.
    let c : Claim = record { client_id = client; expires_at = t₁ + (prune t₀ sid m).ttl } in
    let p = prune-IsWellFormed t₀ sid m wf in
    rw session_claims-put (
      ground
        (arith, claim_all-NodupKeys c eids (session_claims sid (prune t₀ sid m)) (p sid), p sid'))
step-IsWellFormed m (releases now sid client eids) wf =
    let p = prune-IsWellFormed now sid m wf in
    store-IsWellFormed sid _ _ (release_loop-NodupKeys client eids _ [] (p sid)) p
step-IsWellFormed m (releases_all sid client) wf =
    store-IsWellFormed sid _ m (remove_all-NodupKeys _ _ (wf sid)) wf
step-IsWellFormed m (reads now sid) wf = prune-IsWellFormed now sid m wf

run-IsWellFormed : (m : ClaimMap) (cs : List Call) → IsWellFormed m → IsWellFormed (run m cs)
unfolding run
run-IsWellFormed m [] wf = wf
run-IsWellFormed m (c ∷ cs) wf = run-IsWellFormed (step m c) cs (step-IsWellFormed m c wf)

-- After any calls on an empty map, each session's dict has each element id once.
pub run-init-IsWellFormed : (ttl : ℕ) (cs : List Call) → IsWellFormed (run (init ttl) cs)
run-init-IsWellFormed ttl cs =
    run-IsWellFormed (init ttl) cs (unfold init session_claims inner Dict.get in λ sid. tt)
