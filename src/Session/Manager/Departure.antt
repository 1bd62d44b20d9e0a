-- ===== src/Session/Manager/Departure.antt =====
-- What a closed connection takes away, by `SessionManager.disconnect` of
-- backend/core/session_manager.py.
use community_overview.Base.{
  ℕ, ◌≡◌, refl, ◌≢◌, String, ◌&&◌, none, some, Option-cases, Bool-cases, inl, inr, arith, ◌==◌,
  string_eq, option_eq, nat_eq, is_empty, if◌then◌else◌,
}
use community_overview.Session.Bus.{LoopState}
use community_overview.Session.Presence.{leave}
use community_overview.Session.Presence.Counts.{connections, leave_last, IsConsistent}
use community_overview.Session.Claims.{release_all}
use community_overview.Session.Claims.Laws.{IsWellFormed, holder}
use community_overview.Session.Claims.Effects.{holder-release_all}
use community_overview.Session.Store.{Backend}
use community_overview.Session.Manager.{Manager, depart, disconnect}

module _ {B : Backend} where
  claims-depart :
      (loops : ℕ → LoopState) (sid client : String) (m : Manager B)
      → (depart loops sid client m).claims ≡ (release_all sid client m.claims).1
  unfolding depart
  claims-depart loops sid client m =
      elim (Bool-cases (is_empty (release_all sid client m.claims).0)) [
        | inl e ↦ rw e refl
        | inr e ↦ rw e refl
      ]

  -- On a consistent roster and a well-formed claim map: a disconnect frees what the client held in
  -- the session if the connection was the client's only one there, and otherwise frees nothing.
  pub holder-disconnect :
      (loops : ℕ → LoopState) (sid client : String) (sub now : ℕ) (sid' eid : String)
      (m : Manager B)
      → IsConsistent m.presence
      → IsWellFormed m.claims
      → holder now sid' eid (disconnect loops sid client sub m).claims ≡ (
          if connections sid client m.presence == 1
            && (sid' == sid && holder now sid eid m.claims == some client)
          then none
          else holder now sid' eid m.claims)
  unfolding disconnect
  holder-disconnect loops sid client sub now sid' eid m c w =
      let last = leave_last sid client m.presence c in
      elim (Option-cases (leave sid client m.presence).0) [
        | inl e ↦
            let many : connections sid client m.presence ≢ 1 = λ one. last.1 one e in
            rw (e, disconnect) (ground (arith, many))
        | inr (member, e) ↦
            let one : connections sid client m.presence ≡ 1 = last.0 (λ n. cc (n, e)) in
            rw (e, disconnect, claims-depart)
              (ground (arith, one, holder-release_all now sid' sid client eid m.claims w))
      ]
