-- ===== src/Session/Claims/Laws.antt =====
-- The claim map as a client sees it: who holds an element at a time.
use community_overview.Base.{
  ℕ, ◌≤◌, String, ◌≡◌, refl, Option, none, some, List, [], ◌∷◌, arith, ◌==◌, string_eq, is_empty,
  is_empty-eq_nil, contains, Bool-cases, inl, inr, if◌then◌else◌,
}
use community_overview.Base.Dict
use community_overview.Base.Dict.{Dict, NodupKeys, get-put, put-NodupKeys}
use community_overview.Base.Dict.Bulk.{
  keys_where, remove_all, unless, get-drop_where, remove_all-NodupKeys,
}
use community_overview.Base.Dict.Nested.{inner-store_or_pop}
use community_overview.Session.Claims.{
  Claim, ClaimMap, session_claims, store, is_expired, prune, claim_all,
}

-- Each session's dict has its element ids once.
abbrev pub IsWellFormed : ClaimMap → Type 0
IsWellFormed m = (sid : String) → NodupKeys (session_claims sid m)

-- The client that holds an element now: a claim that has expired counts for nothing.
abbrev pub live_holder : ℕ → Option Claim → Option String
live_holder now none = none
live_holder now (some c) = if is_expired now c then none else some c.client_id

unfoldable pub holder : ℕ → String → String → ClaimMap → Option String
holder now sid eid m = live_holder now (Dict.get eid (session_claims sid m))

pub session_claims-store :
    (sid' sid : String) (d : Dict String Claim) (m : ClaimMap)
    → session_claims sid' (store sid d m) ≡ (if sid' == sid then d else session_claims sid' m)
unfolding session_claims store
session_claims-store sid' sid d m = inner-store_or_pop sid' sid d m.claims

-- What is left of a session's claims by the loop that drops the expired ones.
abbrev pub unexpired : ℕ → Dict String Claim → Dict String Claim
unexpired now d = remove_all (keys_where (is_expired now) d) d

pub session_claims-prune :
    (now : ℕ) (sid' sid : String) (m : ClaimMap)
    → session_claims sid' (prune now sid m)
      ≡ (if sid' == sid then unexpired now (session_claims sid m) else session_claims sid' m)
unfolding prune remove_all
session_claims-prune now sid' sid m = elim (Bool-cases (is_empty (session_claims sid m))) [
  | inl e ↦ ground (arith, is_empty-eq_nil (session_claims sid m) e)
  | inr e ↦ rw e (session_claims-store sid' sid _ m)
]

pub prune-IsWellFormed :
    (now : ℕ) (sid : String) (m : ClaimMap) → IsWellFormed m → IsWellFormed (prune now sid m)
prune-IsWellFormed now sid m h sid' = rw session_claims-prune (
    ground (
      arith,
      h sid',
      remove_all-NodupKeys (keys_where (is_expired now) (session_claims sid m)) _ (h sid),
    ))

live_holder-unless :
    (s now : ℕ) (o : Option Claim)
    → s ≤ now
    → live_holder now (unless (is_expired s) o) ≡ live_holder now o
unfolding is_expired
live_holder-unless s now none h = refl
live_holder-unless s now (some c) h = ground arith

-- To prune at an earlier time, or now, changes nothing that can be seen.
pub holder-prune :
    (s now : ℕ) (sid' sid eid : String) (m : ClaimMap)
    → IsWellFormed m
    → s ≤ now
    → holder now sid' eid (prune s sid m) ≡ holder now sid' eid m
unfolding holder
holder-prune s now sid' sid eid m wf h = rw session_claims-prune (
    ground (
      arith,
      get-drop_where (is_expired s) eid (session_claims sid m) (wf sid),
      live_holder-unless s now (Dict.get eid (session_claims sid m)) h,
    ))

pub get-claim_all :
    (c : Claim) (j : String) (eids : List String) (d : Dict String Claim)
    → Dict.get j (claim_all c eids d) ≡ (if contains eids j then some c else Dict.get j d)
unfolding claim_all
get-claim_all c j [] d = refl
get-claim_all c j (eid ∷ eids) d =
    ground (arith, get-claim_all c j eids (Dict.put eid c d), get-put j eid c d)

pub claim_all-NodupKeys :
    (c : Claim) (eids : List String) (d : Dict String Claim)
    → NodupKeys d
    → NodupKeys (claim_all c eids d)
unfolding claim_all
claim_all-NodupKeys c [] d h = h
claim_all-NodupKeys c (eid ∷ eids) d h = claim_all-NodupKeys c eids _ (put-NodupKeys eid c d h)
