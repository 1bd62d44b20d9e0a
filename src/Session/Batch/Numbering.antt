-- ===== src/Session/Batch/Numbering.antt =====
-- A batch numbers its state ops one after the other, and puts them into the ring.
use community_overview.Base.{
  ℕ, suc, ◌+◌, ◌≤◌, ◌≡◌, refl, ap, ◌∙◌, String, Bool, List, [], ◌∷◌, ◌++◌, arith, string_eq, length,
  length-append, Option-cases, inl, inr,
}
use mathlib.Core.List.{append_assoc, append-nil}
use community_overview.Json.{Object, item}
use community_overview.Session.State.{Applied}
use community_overview.Session.Ops.{Result, ok, err, claim_op_of, validate_claim_op}
use community_overview.Session.Perform.{Config, Env}
use community_overview.Session.Apply.{Live, Outcome, applied, dropped, failed}
use community_overview.Session.Apply.Sequence.{Numbers, apply_state_op-Numbers}
use community_overview.Session.Ring.Newest.{IsNewest, all-IsNewest, push_bounded-IsNewest}
use community_overview.Session.Ring.{IsRing, Contiguous, Contiguous-append, push_bounded-IsRing}
use community_overview.Session.Batch.Rollback.{IsSame}
use community_overview.Session.Batch.{
  Pending, state_op, claim_op, Progress, Run, finished, aborted, signed, after_state_op,
  after_claim, run_op, run_ops, start,
}

unfoldable pub state_ops_of : List Pending → List Applied
state_ops_of [] = []
state_ops_of (state_op a ∷ ps) = a ∷ state_ops_of ps
state_ops_of (claim_op claims ids ∷ ps) = state_ops_of ps

state_ops_of-state_op :
    (ps : List Pending) (a : Applied)
    → state_ops_of (ps ++ (state_op a ∷ [])) ≡ state_ops_of ps ++ (a ∷ [])
unfolding state_ops_of
state_ops_of-state_op [] a = refl
state_ops_of-state_op (state_op b ∷ ps) a = ap (◌∷◌ b) (state_ops_of-state_op ps a)
state_ops_of-state_op (claim_op claims ids ∷ ps) a = state_ops_of-state_op ps a

state_ops_of-claim_op :
    (ps : List Pending) (claims : Bool) (ids : List String)
    → state_ops_of (ps ++ (claim_op claims ids ∷ [])) ≡ state_ops_of ps
unfolding state_ops_of
state_ops_of-claim_op [] claims ids = refl
state_ops_of-claim_op (state_op b ∷ ps) claims ids =
    ap (◌∷◌ b) (state_ops_of-claim_op ps claims ids)
state_ops_of-claim_op (claim_op c js ∷ ps) claims ids = state_ops_of-claim_op ps claims ids

-- How far a batch has come that began with a session and its ring.
pub record IsNumbered (cfg : Config) (was : Live) (p : Progress) : Type 0 where
  pub same : IsSame was.session p.live.session
  pub contiguous : Contiguous (suc was.session.seq) (state_ops_of p.pending)
  pub counted : was.session.seq + length (state_ops_of p.pending) ≡ p.live.session.seq
  pub newest : IsNewest cfg.ring_size (was.ring ++ state_ops_of p.pending) p.live.ring
  pub ring : IsRing p.live.session.seq p.live.ring

abbrev pub RunIsNumbered : Config → Live → Run → Type 0
RunIsNumbered cfg was (finished p) = IsNumbered cfg was p
RunIsNumbered cfg was (aborted e live) = IsSame was.session live.session

after_state_op-IsNumbered :
    (cfg : Config) (was : Live) (p : Progress) (o : Outcome)
    → IsNumbered cfg was p
    → Numbers cfg p.live o
    → RunIsNumbered cfg was (after_state_op p o)
after_state_op-IsNumbered cfg was p (applied live a) g n = record {
  same = record { id = n.0 ∙ g.same.id; created_at = n.2 ∙ g.same.created_at };
  contiguous = rw state_ops_of-state_op (
      Contiguous-append (suc was.session.seq) (state_ops_of p.pending) a g.contiguous
        (omega (arith, n.1, n.3, g.counted)));
  counted =
      rw state_ops_of-state_op
        (omega (arith, length-append (state_ops_of p.pending) (a ∷ []), n.1, g.counted));
  newest =
      rw (n.4, state_ops_of-state_op, ← append_assoc)
        (push_bounded-IsNewest cfg.ring_size (was.ring ++ state_ops_of p.pending) p.live.ring a
          g.newest);
  ring =
      let next : live.session.seq ≡ suc p.live.session.seq = omega (arith, n.1) in
      rw (next, n.4)
        (push_bounded-IsRing p.live.session.seq cfg.ring_size p.live.ring a g.ring
          (omega (arith, n.1, n.3)));
}
after_state_op-IsNumbered cfg was p dropped g n = g
after_state_op-IsNumbered cfg was p (failed e live) g n = record {
  id = n.0 ∙ g.same.id;
  created_at = n.2 ∙ g.same.created_at;
}

after_claim-IsNumbered :
    (cfg : Config) (was : Live) (p : Progress) (claims : Bool) (r : Result (List String))
    → IsNumbered cfg was p
    → RunIsNumbered cfg was (after_claim p claims r)
after_claim-IsNumbered cfg was p claims (ok ids) g = record {
  same = g.same;
  newest = rw state_ops_of-claim_op g.newest;
  contiguous = rw state_ops_of-claim_op g.contiguous;
  counted = rw state_ops_of-claim_op g.counted;
  ring = g.ring;
}
after_claim-IsNumbered cfg was p claims (err e) g = g.same

run_op-IsNumbered :
    (cfg : Config) (env : Env) (client : String) (op : Object) (was : Live) (p : Progress)
    → IsNumbered cfg was p
    → RunIsNumbered cfg was (run_op cfg env client op p)
unfolding run_op
run_op-IsNumbered cfg env client op was p g = elim (Option-cases (claim_op_of (item "op" op))) [
  | inl e ↦
      rw (e, run_op)
        (after_state_op-IsNumbered cfg was p _ g
          (apply_state_op-Numbers cfg env (signed client op) p.live))
  | inr (claims, e) ↦
      rw (e, run_op) (after_claim-IsNumbered cfg was p claims (validate_claim_op op) g)
]

-- The loop, by its rounds.
run_ops-IsNumbered :
    (cfg : Config) (envs : ℕ → Env) (i : ℕ) (client : String) (ops : List Object) (was : Live)
    (p : Progress)
    → IsNumbered cfg was p
    → RunIsNumbered cfg was (run_ops cfg envs i client ops p)
unfolding run_ops
run_ops-IsNumbered cfg envs i client [] was p g = g
run_ops-IsNumbered cfg envs i client (op ∷ ops) was p g =
    next (run_op cfg (envs i) client op p) (run_op-IsNumbered cfg (envs i) client op was p g)
      (λ p' g'. run_ops-IsNumbered cfg envs (suc i) client ops was p' g')
  where
    next :
        (r : Run)
        → RunIsNumbered cfg was r
        → ((p' : Progress)
            → IsNumbered cfg was p'
            → RunIsNumbered cfg was (run_ops cfg envs (suc i) client ops p'))
        → RunIsNumbered cfg was (elim r [
          | finished p' ↦ run_ops cfg envs (suc i) client ops p'
          | aborted e live ↦ aborted e live
        ])
    next (finished p') h rest = rest p' h
    next (aborted e live) h rest = h

-- From a ring of consecutive ops that ends with the session's last one and is no longer than
-- `ring_size`: a batch whose loop ends has numbered its state ops one after the other from the
-- session's number on, the session has the last of these numbers, and the ring is the newest
-- `ring_size` of its old ops followed by these, in order; a batch whose loop raises leaves the
-- session's id and creation time.
pub run_ops_lem :
    (cfg : Config) (envs : ℕ → Env) (client : String) (ops : List Object) (live : Live)
    → IsRing live.session.seq live.ring
    → length live.ring ≤ cfg.ring_size
    → RunIsNumbered cfg live (run_ops cfg envs 0 client ops (start live))
run_ops_lem cfg envs client ops live r h =
    run_ops-IsNumbered cfg envs 0 client ops live (start live) (
      unfold start state_ops_of in
      record {
        same = record { id = refl; created_at = refl };
        contiguous = tt;
        counted = omega arith;
        newest = rw append-nil (all-IsNewest cfg.ring_size live.ring h);
        ring = r;
      })
