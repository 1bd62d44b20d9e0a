-- ===== src/Session/Claims.antt =====
-- `ClaimMap` of backend/core/session_hub.py: selection claims that expire after a time to live.
-- A clock reading is a number of ticks, an argument for each call of `self._time()`.
pub mod Laws
pub mod Effects
pub mod Invariant
use community_overview.Base.{
  ℕ, ◌+◌, String, Bool, false, Option, none, some, List, [], ◌∷◌, ◌++◌, leb, ◌==◌, string_eq,
  is_empty, if◌then◌else◌,
}
use community_overview.Base.Dict
use community_overview.Base.Dict.{Dict}
use community_overview.Base.Dict.Bulk.{keys_where, remove_all}
use community_overview.Base.Dict.Nested.{inner, store_or_pop}

-- The value of `claims[eid]`.
pub record Claim : Type 0 where
  pub client_id : String
  pub expires_at : ℕ

pub record ClaimMap : Type 0 where
  pub ttl : ℕ
  pub claims : Dict String (Dict String Claim)

-- `self._claims.get(session_id, {})`
unfoldable pub session_claims : String → ClaimMap → Dict String Claim
session_claims sid m = inner sid m.claims

-- The inner dict is shared with the map: what is left of it stands in the map, or is popped.
unfoldable pub store : String → Dict String Claim → ClaimMap → ClaimMap
store sid claims m = record m { claims = store_or_pop sid claims m.claims }

unfoldable pub is_expired : ℕ → Claim → Bool
is_expired now c = leb c.expires_at now

unfoldable pub prune : ℕ → String → ClaimMap → ClaimMap
prune now sid m =
    let claims = session_claims sid m in
    if is_empty claims
    then m
    else store sid (remove_all (keys_where (is_expired now) claims) claims) m

-- `for eid in element_ids: claims[eid] = …`
unfoldable pub claim_all : Claim → List String → Dict String Claim → Dict String Claim
claim_all c [] claims = claims
claim_all c (eid ∷ eids) claims = claim_all c eids (Dict.put eid c claims)

-- `t₀` is the time that `_prune` reads, `t₁` the time from which the new expiry is counted.
unfoldable pub claim : ℕ → ℕ → String → String → List String → ClaimMap → List String × ClaimMap
claim t₀ t₁ sid client eids m =
    let m' = prune t₀ sid m in
    let c : Claim = record { client_id = client; expires_at = t₁ + m'.ttl } in
    (eids, record m' { claims = Dict.put sid (claim_all c eids (session_claims sid m')) m'.claims })

unfoldable pub is_held_by : String → Option Claim → Bool
is_held_by client none = false
is_held_by client (some held) = held.client_id == client

-- The loop of `release`, over what is claimed and what has been released so far.
unfoldable pub release_loop :
    String → List String → Dict String Claim → List String → List String × Dict String Claim
unfolding is_held_by
release_loop client [] claims released = (released, claims)
release_loop client (eid ∷ eids) claims released =
    let held = is_held_by client (Dict.get eid claims) in
    release_loop client eids (if held then Dict.remove eid claims else claims)
      (if held then released ++ (eid ∷ []) else released)

unfoldable pub release : ℕ → String → String → List String → ClaimMap → List String × ClaimMap
release now sid client eids m =
    let m' = prune now sid m in
    let (released, left) = release_loop client eids (session_claims sid m') [] in
    (released, store sid left m')

-- Releases the claims of one client without a look at their expiry.
unfoldable pub release_all : String → String → ClaimMap → List String × ClaimMap
release_all sid client m =
    let claims = session_claims sid m in
    let released = keys_where (λ c. c.client_id == client) claims in
    (released, store sid (remove_all released claims) m)

unfoldable pub holders : Dict String Claim → Dict String String
holders [] = []
holders ((eid, c) ∷ claims) = (eid, c.client_id) ∷ holders claims

-- The map is pruned by a read too.
unfoldable pub snapshot : ℕ → String → ClaimMap → Dict String String × ClaimMap
snapshot now sid m = let m' = prune now sid m in (holders (session_claims sid m'), m')
