-- ===== src/Session/Batch/Content.antt =====
-- The content of annotations over the loop of a batch and its rollback.
use community_overview.Base.{
  ℕ, suc, ◌≡◌, String, Bool, false, List, [], ◌∷◌, ◌++◌, Option-cases, inl, inr, All,
}
use community_overview.Json.{Object, item}
use community_overview.Session.State.{Applied, annotations_of}
use community_overview.Session.Ops.{Result, ok, err, claim_op_of, validate_claim_op}
use community_overview.Session.Perform.{Config, Env}
use community_overview.Session.Apply.{Live, Outcome, applied, dropped, failed, apply_state_op}
use community_overview.Session.Apply.Invariant.{session_after}
use community_overview.Session.Apply.Content.{
  Extends, refl-Extends, trans-Extends, append-Extends, may_rewrite, apply_state_op-Extends,
  contents, contents-append, AllNamed,
}
use community_overview.Session.Batch.Rollback.{live_of}
use community_overview.Session.Batch.{
  Progress, Run, finished, aborted, signed, after_state_op, after_claim, run_op, run_ops, start,
  roll_back,
}

-- No op of the batch, signed by the client, can rewrite an annotation in place.
abbrev pub NoneRewrites : String → List Object → Type 0
NoneRewrites client ops = All (λ op. may_rewrite (signed client op) ≡ false) ops

module _ (os : List Object) where
  RunExtends : Run → Type 0
  RunExtends r = Extends os (live_of r).session.objects

  run_op-Extends :
      (cfg : Config) (env : Env) (client : String) (op : Object) (p : Progress)
      → may_rewrite (signed client op) ≡ false
      → Extends os p.live.session.objects
      → RunExtends (run_op cfg env client op p)
  unfolding run_op RunExtends
  run_op-Extends cfg env client op p h x = elim (Option-cases (claim_op_of (item "op" op))) [
    | inl e ↦
        rw (e, run_op)
          (state (apply_state_op cfg env (signed client op) p.live)
            (apply_state_op-Extends cfg env (signed client op) p.live h))
    | inr (claims, e) ↦ rw (e, run_op) (claim claims (validate_claim_op op))
  ]
    where
      state :
          (o : Outcome)
          → Extends p.live.session.objects (session_after p.live o).objects
          → RunExtends (after_state_op p o)
      state (applied live a) y = trans-Extends os p.live.session.objects live.session.objects x y
      state dropped y = x
      state (failed e live) y = trans-Extends os p.live.session.objects live.session.objects x y

      claim : (c : Bool) (r : Result (List String)) → RunExtends (after_claim p c r)
      claim c (ok ids) = x
      claim c (err e) = x

  run_ops-Extends :
      (cfg : Config) (envs : ℕ → Env) (i : ℕ) (client : String) (ops : List Object) (p : Progress)
      → NoneRewrites client ops
      → Extends os p.live.session.objects
      → RunExtends (run_ops cfg envs i client ops p)
  unfolding run_ops RunExtends
  run_ops-Extends cfg envs i client [] p h x = x
  run_ops-Extends cfg envs i client (op ∷ ops) p h x =
      next (run_op cfg (envs i) client op p) (run_op-Extends cfg (envs i) client op p h.0 x)
        (λ p' x'. run_ops-Extends cfg envs (suc i) client ops p' h.1 x')
    where
      next :
          (r : Run)
          → RunExtends r
          → ((p' : Progress)
              → Extends os p'.live.session.objects
              → RunExtends (run_ops cfg envs (suc i) client ops p'))
          → RunExtends (elim r [
            | finished p' ↦ run_ops cfg envs (suc i) client ops p'
            | aborted e live ↦ aborted e live
          ])
      next (finished p') y rest = rest p' y
      next (aborted e live) y rest = y

-- What the entries of a ring say is the same after the loop and the rollback.
pub contents-roll_back :
    (cfg : Config) (envs : ℕ → Env) (client : String) (ops : List Object) (saved : Live)
    (ring : List Applied)
    → NoneRewrites client ops
    → AllNamed saved.session.objects ring
    → let now = live_of (run_ops cfg envs 0 client ops (start saved)) in
      contents (roll_back saved now).session.objects ring ≡ contents saved.session.objects ring
unfolding roll_back RunExtends start
contents-roll_back cfg envs client ops saved ring quiet named =
    let os = saved.session.objects in
    let end : List Object =
      (live_of (run_ops cfg envs 0 client ops (start saved))).session.objects in
    let grown : Extends os end =
      run_ops-Extends os cfg envs 0 client ops (start saved) quiet (refl-Extends os) in
    let copies : List Object = annotations_of os saved.session.state.annotations in
    let all : Extends os (end ++ copies) = append-Extends os end copies grown in
    rw all.split (contents-append os all.new ring named)
