-- ===== src/Session/Apply/Sequence.antt =====
-- What every op does to a session's number, and what it leaves alone.
use community_overview.Base.{
  ℕ, ◌+◌, String, ◌≡◌, refl, ap, List, arith, string_eq, Option-cases, inl, inr,
}
use community_overview.Json.{Json, Object, item, as_text}
use community_overview.Session.State.{Session, push_bounded}
use community_overview.Session.Ops.{
  Result, ok, err, OpType, op_type_of, Payload, decode, remove_nodes, create_annotation,
  update_annotation, set_members,
}
use community_overview.Session.Perform.{
  Config, Env, Effect, changed, ignored, broken, perform, do_remove_nodes, do_create, do_update,
  do_delete, do_set_members, append_annotation, upsert_annotation, rewrite_object,
}
use community_overview.Session.Apply.{
  Live, Outcome, applied, dropped, failed, finish, apply_decoded, apply_typed, apply_state_op,
}

-- An effect keeps the identity of the session, its birth and its number.
abbrev KeepsNumber : Session → Effect → Type 0
KeepsNumber s (changed s' fields annotation) =
    (s'.id ≡ s.id) × (s'.seq ≡ s.seq) × (s'.created_at ≡ s.created_at)
KeepsNumber s ignored = Unit
KeepsNumber s (broken e s') = (s'.id ≡ s.id) × (s'.seq ≡ s.seq) × (s'.created_at ≡ s.created_at)

module _ (cfg : Config) (env : Env) (op : Object) (s : Session) where
  append_annotation-KeepsNumber :
      (a : Object) (client : Json) → KeepsNumber s (append_annotation cfg env a client op s)
  unfolding append_annotation
  append_annotation-KeepsNumber a client = ground arith

  upsert_annotation-KeepsNumber :
      (id : String) (a : Object) (client : Json)
      → KeepsNumber s (upsert_annotation cfg env id a client op s)
  unfolding upsert_annotation rewrite_object
  upsert_annotation-KeepsNumber id a client = ground (arith, append_annotation-KeepsNumber a client)

  do_create-KeepsNumber :
      (a : Object) (client : Json) → KeepsNumber s (do_create cfg env a client op s)
  unfolding do_create
  do_create-KeepsNumber a client = elim (Option-cases (as_text (item "id" a))) [
    | inl e ↦ rw (e, do_create) (append_annotation-KeepsNumber a client)
    | inr (id, e) ↦ rw (e, do_create) (upsert_annotation-KeepsNumber id a client)
  ]

  do_remove_nodes-KeepsNumber : (ids : List String) → KeepsNumber s (do_remove_nodes ids op s)
  unfolding do_remove_nodes
  do_remove_nodes-KeepsNumber ids = ground arith

  perform-KeepsNumber : (p : Payload) → KeepsNumber s (perform cfg env p op s)
  unfolding perform do_update do_delete do_set_members rewrite_object
  perform-KeepsNumber (remove_nodes ids) = do_remove_nodes-KeepsNumber ids
  perform-KeepsNumber (create_annotation a client) = do_create-KeepsNumber a client
  perform-KeepsNumber (update_annotation id a) = ground arith
  perform-KeepsNumber (set_members group_id members) = ground arith
  perform-KeepsNumber _ = (refl, refl, refl)

-- What an outcome says of numbers: an applied op has the next number, which is the session's from
-- then on, and is appended to the ring; any other op leaves the number and the ring.
abbrev pub Numbers : Config → Live → Outcome → Type 0
Numbers cfg live (applied live' a) =
    (live'.session.id ≡ live.session.id)
    × (live'.session.seq ≡ live.session.seq + 1)
    × (live'.session.created_at ≡ live.session.created_at)
    × (a.seq ≡ live'.session.seq)
    × (live'.ring ≡ push_bounded cfg.ring_size live.ring a)
Numbers cfg live dropped = Unit
Numbers cfg live (failed e live') =
    (live'.session.id ≡ live.session.id)
    × (live'.session.seq ≡ live.session.seq)
    × (live'.session.created_at ≡ live.session.created_at)
    × (live'.ring ≡ live.ring)

finish-Numbers :
    (cfg : Config) (env : Env) (t : OpType) (live : Live) (f : Effect)
    → KeepsNumber live.session f
    → Numbers cfg live (finish cfg env t live.ring f)
unfolding finish
finish-Numbers cfg env t live (changed s fields annotation) k =
    (k.0, ap (λ (n : ℕ). n + 1) k.1, k.2, refl, refl)
finish-Numbers cfg env t live ignored k = tt
finish-Numbers cfg env t live (broken e s) k = (k.0, k.1, k.2, refl)

apply_decoded-Numbers :
    (cfg : Config) (env : Env) (t : OpType) (op : Object) (live : Live) (r : Result Payload)
    → Numbers cfg live (apply_decoded cfg env t op live r)
unfolding apply_decoded
apply_decoded-Numbers cfg env t op live (err e) = (refl, refl, refl, refl)
apply_decoded-Numbers cfg env t op live (ok p) =
    finish-Numbers cfg env t live _ (perform-KeepsNumber cfg env op live.session p)

-- An op that is applied gets the session's next number, is pushed onto the bounded ring, and keeps
-- the session's id and creation time; one that fails keeps the number, these, and the ring.
pub apply_state_op-Numbers :
    (cfg : Config) (env : Env) (op : Object) (live : Live)
    → Numbers cfg live (apply_state_op cfg env op live)
unfolding apply_state_op
apply_state_op-Numbers cfg env op live = typed (op_type_of (item "op" op))
  where
    typed : (r : Result OpType) → Numbers cfg live (apply_typed cfg env op live r)
    typed (err e) = unfold apply_typed in (refl, refl, refl, refl)
    typed (ok t) = unfold apply_typed in apply_decoded-Numbers cfg env t op live (decode t op)
