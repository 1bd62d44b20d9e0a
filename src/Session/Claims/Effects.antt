-- ===== src/Session/Claims/Effects.antt =====
-- What each operation of the claim map changes of who holds what.
use community_overview.Base.{
  ℕ, ◌+◌, ◌≤◌, String, ◌≡◌, refl, ◌&&◌, ◌||◌, none, some, List, [], ◌∷◌, ◌++◌, arith, ltb, ◌==◌,
  string_eq, option_eq, contains, contains-append, if◌then◌else◌,
}
use mathlib.Core.Option
use community_overview.Base.Dict
use community_overview.Base.Dict.{Dict, get-remove}
use community_overview.Base.Dict.Bulk.{get-drop_where}
use community_overview.Base.Dict.Nested.{inner-put}
use community_overview.Session.Claims.{
  Claim, ClaimMap, session_claims, store, is_expired, prune, claim, is_held_by, release_loop,
  release, release_all, holders, snapshot,
}
use community_overview.Session.Claims.Laws.{
  IsWellFormed, holder, session_claims-store, session_claims-prune, holder-prune, get-claim_all,
}

pub session_claims-put :
    (sid' sid : String) (d : Dict String Claim) (m : ClaimMap)
    → session_claims sid' (record m { claims = Dict.put sid d m.claims })
      ≡ (if sid' == sid then d else session_claims sid' m)
unfolding session_claims
session_claims-put sid' sid d m = inner-put sid' sid d m.claims

ttl-prune : (now : ℕ) (sid : String) (m : ClaimMap) → (prune now sid m).ttl ≡ m.ttl
unfolding prune store
ttl-prune now sid m = ground arith

-- What is left of a session's claims by the release loop.
get-release_loop :
    (client j : String) (eids : List String) (d : Dict String Claim) (released : List String)
    → Dict.get j (release_loop client eids d released).1
      ≡ (if contains eids j && is_held_by client (Dict.get j d) then none else Dict.get j d)
unfolding release_loop is_held_by
get-release_loop client j [] d released = refl
get-release_loop client j (eid ∷ eids) d released =
    let held = is_held_by client (Dict.get eid d) in
    ground (
      arith,
      get-release_loop client j eids (if held then Dict.remove eid d else d)
          (if held then released ++ (eid ∷ []) else released),
      get-remove j eid d,
    )

contains-release_loop :
    (client j : String) (eids : List String) (d : Dict String Claim) (released : List String)
    → contains (release_loop client eids d released).0 j
      ≡ (contains released j || contains eids j && is_held_by client (Dict.get j d))
unfolding release_loop is_held_by
contains-release_loop client j [] d released = ground arith
contains-release_loop client j (eid ∷ eids) d released =
    let held = is_held_by client (Dict.get eid d) in
    ground (
      arith,
      contains-release_loop client j eids (if held then Dict.remove eid d else d)
          (if held then released ++ (eid ∷ []) else released),
      contains-append j released (eid ∷ []),
      get-remove j eid d,
    )

-- On a well-formed map, seen at any time from the claim on: the named elements of the session
-- belong to the client until the time to live has passed, and all others to whom they did.
pub holder-claim :
    (t₀ t₁ now : ℕ) (sid' sid client eid : String) (eids : List String) (m : ClaimMap)
    → IsWellFormed m
    → t₀ ≤ now
    → holder now sid' eid (claim t₀ t₁ sid client eids m).1 ≡ (
        if sid' == sid && contains eids eid
        then (if ltb now (t₁ + m.ttl) then some client else none)
        else holder now sid' eid m)
unfolding claim holder is_expired
holder-claim t₀ t₁ now sid' sid client eid eids m wf h =
    let m' = prune t₀ sid m in
    let c : Claim = record { client_id = client; expires_at = t₁ + m'.ttl } in
    rw session_claims-put (
      ground (
        arith,
        ttl-prune t₀ sid m,
        get-claim_all c eid eids (session_claims sid m'),
        holder-prune t₀ now sid' sid eid m wf h,
        holder-prune t₀ now sid sid eid m wf h,
      ))

-- On a well-formed map, seen at any time from the release on: of the named elements of the session
-- those that the client held are free, and all others belong to whom they did.
pub holder-release :
    (t₀ now : ℕ) (sid' sid client eid : String) (eids : List String) (m : ClaimMap)
    → IsWellFormed m
    → t₀ ≤ now
    → holder now sid' eid (release t₀ sid client eids m).1 ≡ (
        if sid' == sid && contains eids eid && holder now sid eid m == some client
        then none
        else holder now sid' eid m)
unfolding release holder is_held_by
holder-release t₀ now sid' sid client eid eids m wf h =
    let m' = prune t₀ sid m in
    rw session_claims-store (
      ground (
        arith,
        get-release_loop client eid eids (session_claims sid m') [],
        holder-prune t₀ now sid' sid eid m wf h,
        holder-prune t₀ now sid sid eid m wf h,
      ))

-- On a well-formed map, the ids that a release returns are those of the named elements that the
-- client held then.
pub contains-release :
    (now : ℕ) (sid client eid : String) (eids : List String) (m : ClaimMap)
    → IsWellFormed m
    → contains (release now sid client eids m).0 eid
      ≡ (contains eids eid && holder now sid eid m == some client)
unfolding release holder is_held_by
contains-release now sid client eid eids m wf =
    rw (contains-release_loop, session_claims-prune)
      (ground (arith, get-drop_where (is_expired now) eid (session_claims sid m) (wf sid)))

-- On a well-formed map, what the client held in the session is free after `release_all`, and all
-- else belongs to whom it did.
pub holder-release_all :
    (now : ℕ) (sid' sid client eid : String) (m : ClaimMap)
    → IsWellFormed m
    → holder now sid' eid (release_all sid client m).1
      ≡ (if sid' == sid && holder now sid eid m == some client then none else holder now sid' eid m)
unfolding release_all holder
holder-release_all now sid' sid client eid m wf = rw session_claims-store (
    ground (arith, get-drop_where (λ c. c.client_id == client) eid (session_claims sid m) (wf sid)))

get-holders :
    (eid : String) (d : Dict String Claim)
    → Dict.get eid (holders d) ≡ Option.map (λ c. c.client_id) (Dict.get eid d)
unfolding holders Dict.get
get-holders eid [] = refl
get-holders eid ((j, c) ∷ d) = ground (arith, get-holders eid d)

-- On a well-formed map, a snapshot maps each element of the session to its holder, and no other
-- element.
pub get-snapshot :
    (now : ℕ) (sid eid : String) (m : ClaimMap)
    → IsWellFormed m
    → Dict.get eid (snapshot now sid m).0 ≡ holder now sid eid m
unfolding snapshot holder
get-snapshot now sid eid m wf =
    rw (get-holders, session_claims-prune)
      (ground (arith, get-drop_where (is_expired now) eid (session_claims sid m) (wf sid)))
