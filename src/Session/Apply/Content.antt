-- ===== src/Session/Apply/Content.antt =====
-- The content of annotations, which the state and the ring share: the ops that rewrite no annotation
-- in place only add to the heap.
use community_overview.Base.{
  ℕ, zero, suc, ◌<◌, ◌≡◌, refl, sym, ap, Bool, true, false, Option, none, some, List, [], ◌∷◌, ◌++◌,
  arith, string_eq, leb, length, Bool-cases, Option-cases, inl, inr,
}
use mathlib.Core.List.{append_assoc, append-nil}
use mathlib.Core.Option
use community_overview.Json.{Json, Object, item, as_text}
use community_overview.Session.State.{Session, Applied, object_at}
use community_overview.Session.Ops.{
  Result, ok, err, OpType, op_type_of, Payload, decode, remove_nodes, create_annotation,
  update_annotation, set_members,
}
use community_overview.Session.Perform.{
  Config, Env, Effect, changed, ignored, broken, perform, do_create, do_delete, append_annotation,
}
use community_overview.Session.Apply.{Live, finish, apply_decoded, apply_typed, apply_state_op}
use community_overview.Session.Apply.Branches.{Yields}
use community_overview.Session.Apply.Invariant.{session_after}

-- Whether an op can rewrite an annotation in place: one that removes nodes from the groups, creates
-- an annotation under an id that may be there, updates one, or sets a group's members.
unfoldable pub rewrites : Payload → Bool
rewrites (remove_nodes ids) = true
rewrites (create_annotation a client) = elim (as_text (item "id" a)) [
  | none ↦ false
  | some id ↦ true
]
rewrites (update_annotation id a) = true
rewrites (set_members group_id members) = true
rewrites _ = false

unfoldable pub decoded_rewrites : Result Payload → Bool
decoded_rewrites (err e) = false
decoded_rewrites (ok p) = rewrites p

unfoldable pub typed_rewrites : Object → Result OpType → Bool
typed_rewrites op (err e) = false
typed_rewrites op (ok t) = decoded_rewrites (decode t op)

unfoldable pub may_rewrite : Object → Bool
may_rewrite op = typed_rewrites op (op_type_of (item "op" op))

-- The second heap has the objects of the first, and then others.
pub record Extends (os os' : List Object) : Type 0 where
  pub new : List Object
  pub split : os' ≡ os ++ new

pub refl-Extends : (os : List Object) → Extends os os
refl-Extends os = record { new = []; split = sym (append-nil os) }

pub append-Extends : (os os' new : List Object) → Extends os os' → Extends os (os' ++ new)
append-Extends os os' new x = record { new = x.new ++ new; split = rw (x.split, append_assoc) refl }

pub trans-Extends :
    (os os' os'' : List Object) → Extends os os' → Extends os' os'' → Extends os os''
trans-Extends os os' os'' x y = rw y.split (append-Extends os os' y.new x)

module _ (cfg : Config) (env : Env) (op : Object) (s : Session) where
  Grows : Session → Type 0
  Grows s' = Extends s.objects s'.objects

  append_annotation-Grows :
      (a : Object) (client : Json) → Yields Grows (append_annotation cfg env a client op s)
  unfolding append_annotation Grows
  append_annotation-Grows a client =
      elim (Bool-cases (leb cfg.max_annotations (length s.state.annotations))) [
        | inl full ↦ rw full (refl-Extends s.objects)
        | inr room ↦ rw room (append-Extends s.objects s.objects _ (refl-Extends s.objects))
      ]

  do_create-Grows :
      (a : Object) (client : Json)
      → rewrites (create_annotation a client) ≡ false
      → Yields Grows (do_create cfg env a client op s)
  unfolding do_create rewrites
  do_create-Grows a client h = elim (Option-cases (as_text (item "id" a))) [
    | inl e ↦ rw (e, do_create) (append_annotation-Grows a client)
    | inr (id, e) ↦ absurd (cc (rw (e, rewrites) at h))
  ]

  perform-Grows : (p : Payload) → rewrites p ≡ false → Yields Grows (perform cfg env p op s)
  unfolding perform do_delete rewrites Grows
  perform-Grows (remove_nodes ids) h = absurd cc
  perform-Grows (create_annotation a client) h = do_create-Grows a client h
  perform-Grows (update_annotation id a) h = absurd cc
  perform-Grows (set_members group_id members) h = absurd cc
  perform-Grows _ h = refl-Extends s.objects

-- An op that rewrites no annotation in place leaves every object of the heap as it is.
pub apply_state_op-Extends :
    (cfg : Config) (env : Env) (op : Object) (live : Live)
    → may_rewrite op ≡ false
    → Extends live.session.objects (session_after live (apply_state_op cfg env op live)).objects
unfolding apply_state_op may_rewrite
apply_state_op-Extends cfg env op live h = typed (op_type_of (item "op" op)) h
  where
    finished :
        (t : OpType) (f : Effect)
        → Yields (Grows cfg env op live.session) f
        → Extends live.session.objects (session_after live (finish cfg env t live.ring f)).objects
    finished t (changed s fields a) y = unfold finish Grows in y
    finished t ignored y = unfold finish in refl-Extends live.session.objects
    finished t (broken e s) y = unfold finish Grows in y

    decoded :
        (t : OpType) (r : Result Payload)
        → decoded_rewrites r ≡ false
        → Extends live.session.objects
            (session_after live (apply_decoded cfg env t op live r)).objects
    decoded t (err e) h = unfold apply_decoded in refl-Extends live.session.objects
    decoded t (ok p) h =
        unfold apply_decoded decoded_rewrites in
        finished t _ (perform-Grows cfg env op live.session p h)

    typed :
        (r : Result OpType)
        → typed_rewrites op r ≡ false
        → Extends live.session.objects (session_after live (apply_typed cfg env op live r)).objects
    typed (err e) h = unfold apply_typed in refl-Extends live.session.objects
    typed (ok t) h = unfold apply_typed typed_rewrites in decoded t (decode t op) h

-- The ring's entries by value: the number, the fields, and what the annotation's dict holds.
unfoldable pub contents : List Object → List Applied → List (ℕ × Object × Option Object)
contents os [] = []
contents os (a ∷ ring) =
    (a.seq, a.fields, Option.map (object_at os) a.annotation) ∷ contents os ring

abbrev pub Names : List Object → Option ℕ → Type 0
Names os none = Unit
Names os (some r) = r < length os

-- The annotations that the ring's entries name stand in the heap.
abbrev pub AllNamed : List Object → List Applied → Type 0
AllNamed os [] = Unit
AllNamed os (a ∷ ring) = Names os a.annotation × AllNamed os ring

object_at-append :
    (os new : List Object) (r : ℕ) → r < length os → object_at (os ++ new) r ≡ object_at os r
unfolding object_at
object_at-append [] new r h = absurd (omega arith)
object_at-append (o ∷ os) new zero h = refl
object_at-append (o ∷ os) new (suc r) h = object_at-append os new r (omega arith)

pub contents-append :
    (os new : List Object) (ring : List Applied)
    → AllNamed os ring
    → contents (os ++ new) ring ≡ contents os ring
unfolding contents
contents-append os new [] h = refl
contents-append os new (a ∷ ring) h =
    rw (contents-append os new ring h.1, named a.annotation h.0) refl
  where
    named :
        (o : Option ℕ)
        → Names os o
        → Option.map (object_at (os ++ new)) o ≡ Option.map (object_at os) o
    named none h = refl
    named (some r) h = ap some (object_at-append os new r h)
