-- ===== src/Session/Batch/Rollback.antt =====
-- A batch that fails leaves the session's value as it was.
use community_overview.Base.{
  ℕ, suc, ◌≡◌, refl, ◌∙◌, String, Bool, List, [], ◌∷◌, Option-cases, inl, inr,
}
use community_overview.Json.{Object, item}
use community_overview.Session.State.{Session}
use community_overview.Session.Ops.{Result, ok, err, claim_op_of, validate_claim_op}
use community_overview.Session.Perform.{Config, Env}
use community_overview.Session.Store.{to_dict}
use community_overview.Session.Store.Values.{annotations_of-indices}
use community_overview.Session.Apply.{Live, Outcome, applied, dropped, failed, apply_state_op}
use community_overview.Session.Apply.Sequence.{Numbers, apply_state_op-Numbers}
use community_overview.Session.Batch.{
  Progress, Run, finished, aborted, signed, after_state_op, after_claim, run_op, run_ops, start,
  roll_back,
}

-- The same session, before and after.
pub record IsSame (s s' : Session) : Type 0 where
  pub id : s'.id ≡ s.id
  pub created_at : s'.created_at ≡ s.created_at

-- The session with which the loop ends, or that it has when it raises.
abbrev pub live_of : Run → Live
live_of (finished p) = p.live
live_of (aborted e live) = live

run_op-IsSame :
    (cfg : Config) (env : Env) (client : String) (op : Object) (s : Session) (p : Progress)
    → IsSame s p.live.session
    → IsSame s (live_of (run_op cfg env client op p)).session
unfolding run_op
run_op-IsSame cfg env client op s p h = elim (Option-cases (claim_op_of (item "op" op))) [
  | inl e ↦
      rw (e, run_op)
        (state (apply_state_op cfg env (signed client op) p.live)
          (apply_state_op-Numbers cfg env (signed client op) p.live))
  | inr (claims, e) ↦ rw (e, run_op) (claim claims (validate_claim_op op))
]
  where
    state : (o : Outcome) → Numbers cfg p.live o → IsSame s (live_of (after_state_op p o)).session
    state (applied live a) n = record { id = n.0 ∙ h.id; created_at = n.2 ∙ h.created_at }
    state dropped n = h
    state (failed e live) n = record { id = n.0 ∙ h.id; created_at = n.2 ∙ h.created_at }

    claim : (c : Bool) (r : Result (List String)) → IsSame s (live_of (after_claim p c r)).session
    claim c (ok ids) = h
    claim c (err e) = h

pub run_ops-IsSame :
    (cfg : Config) (envs : ℕ → Env) (i : ℕ) (client : String) (ops : List Object) (s : Session)
    (p : Progress)
    → IsSame s p.live.session
    → IsSame s (live_of (run_ops cfg envs i client ops p)).session
unfolding run_ops
run_ops-IsSame cfg envs i client [] s p h = h
run_ops-IsSame cfg envs i client (op ∷ ops) s p h =
    next (run_op cfg (envs i) client op p) (run_op-IsSame cfg (envs i) client op s p h)
      (λ p' h'. run_ops-IsSame cfg envs (suc i) client ops s p' h')
  where
    next :
        (r : Run)
        → IsSame s (live_of r).session
        → ((p' : Progress)
            → IsSame s p'.live.session
            → IsSame s (live_of (run_ops cfg envs (suc i) client ops p')).session)
        → IsSame s
            (live_of (elim r [
              | finished p' ↦ run_ops cfg envs (suc i) client ops p'
              | aborted e live ↦ aborted e live
            ])).session
    next (finished p') same rest = rest p' same
    next (aborted e live) same rest = same

roll_back_same :
    (saved now : Live)
    → IsSame saved.session now.session
    → (to_dict (roll_back saved now).session ≡ to_dict saved.session)
      × ((roll_back saved now).ring ≡ saved.ring)
unfolding roll_back to_dict
roll_back_same saved now same = (rw (same.id, same.created_at, annotations_of-indices) refl, refl)

-- After a batch's loop, whether it ended or raised and wherever it raised, the rollback gives the
-- session the value that it had before the batch, and the ring its entries.
pub roll_back-run_ops :
    (cfg : Config) (envs : ℕ → Env) (client : String) (ops : List Object) (saved : Live)
    → let now = live_of (run_ops cfg envs 0 client ops (start saved)) in
      (to_dict (roll_back saved now).session ≡ to_dict saved.session)
      × ((roll_back saved now).ring ≡ saved.ring)
roll_back-run_ops cfg envs client ops saved = roll_back_same saved _ (
    run_ops-IsSame cfg envs 0 client ops saved.session (start saved)
      (unfold start in record { id = refl; created_at = refl }))
