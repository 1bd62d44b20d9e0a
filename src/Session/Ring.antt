-- ===== src/Session/Ring.antt =====
-- The ring of applied ops: `ops_since` of backend/core/session_store.py, and why what it returns
-- can be replayed.
pub mod Newest
use community_overview.Base.{
  ℕ, zero, suc, ◌+◌, ◌-◌, ◌≤◌, ◌<◌, max, ◌≡◌, refl, Option, none, some, List, [], ◌∷◌, ◌++◌, arith,
  leb, ltb, dec_lt, Bool-cases, inl, inr, sym, length, length-append, All, if◌then◌else◌,
}
use community_overview.Session.State.{Applied, drop, push_bounded}

unfoldable pub ops_from : ℕ → List Applied → List Applied
ops_from since [] = []
ops_from since (a ∷ ring) =
    let rest = ops_from since ring in if ltb since a.seq then a ∷ rest else rest

-- The part of `ops_since` that reads a ring that is there.
unfoldable pub read_ring : ℕ → List Applied → Option (List Applied)
read_ring since [] = none
read_ring since (oldest ∷ ring) =
    if ltb (since + 1) oldest.seq then none else some (ops_from since (oldest ∷ ring))

-- `ops_since`, for a session with this number and ring.
unfoldable pub ops_since : ℕ → ℕ → List Applied → Option (List Applied)
ops_since since seq ring = if leb seq since then some [] else read_ring since ring

-- The ops have the numbers from `first` on, without a gap.
abbrev pub Contiguous : ℕ → List Applied → Type 0
Contiguous first [] = Unit
Contiguous first (a ∷ ring) = (a.seq ≡ first) × Contiguous (suc first) ring

-- The ring holds the last ops of a session with this number.
pub record IsRing (seq : ℕ) (ring : List Applied) : Type 0 where
  pub first : ℕ
  pub contiguous : Contiguous first ring
  pub last : first + length ring ≡ suc seq

pub Contiguous-append :
    (first : ℕ) (ring : List Applied) (a : Applied)
    → Contiguous first ring
    → a.seq ≡ first + length ring
    → Contiguous first (ring ++ (a ∷ []))
Contiguous-append first [] a h e = (omega arith, tt)
Contiguous-append first (b ∷ ring) a h e =
    (h.0, Contiguous-append (suc first) ring a h.1 (omega arith))

drop-IsRing :
    (seq n : ℕ) (ring : List Applied) → n ≤ length ring → IsRing seq ring → IsRing seq (drop n ring)
drop-IsRing seq zero ring h r = r
drop-IsRing seq (suc n) [] h r = r
drop-IsRing seq (suc n) (a ∷ ring) h r =
    drop-IsRing seq n ring (omega arith)
      (record { first = suc r.first; contiguous = r.contiguous.1; last = omega (arith, r.last) })

-- A ring of consecutive ops that ends with the session's last one stays so when the next op is
-- pushed onto it, whatever its bound.
pub push_bounded-IsRing :
    (seq maxlen : ℕ) (ring : List Applied) (a : Applied)
    → IsRing seq ring
    → a.seq ≡ suc seq
    → IsRing (suc seq) (push_bounded maxlen ring a)
unfolding push_bounded
push_bounded-IsRing seq maxlen ring a r e =
    drop-IsRing (suc seq) (length (ring ++ (a ∷ [])) - maxlen) (ring ++ (a ∷ [])) (omega arith)
      (record {
        first = r.first;
        contiguous = Contiguous-append r.first ring a r.contiguous (omega (arith, r.last));
        last = omega (arith, r.last, length-append ring (a ∷ []));
      })

-- An answer to a client that has the ops up to `since`: the ring's ops after that, numbered without
-- a gap up to the session's number; or none, because the next one is no longer in the ring.
abbrev pub Answers : ℕ → ℕ → List Applied → Option (List Applied) → Type 0
Answers since seq ring none = (since < seq) × All (λ a. suc since < a.seq) ring
Answers since seq ring (some ops) =
    Contiguous (suc since) ops × (since + length ops ≡ max since seq) × (ops ≡ ops_from since ring)

ops_from_all :
    (since first : ℕ) (ring : List Applied)
    → Contiguous first ring
    → since < first
    → ops_from since ring ≡ ring
unfolding ops_from
ops_from_all since first [] c h = refl
ops_from_all since first (a ∷ ring) c h =
    ground (arith, c.0, ops_from_all since (suc first) ring c.1)

ops_from_none :
    (since first : ℕ) (ring : List Applied)
    → Contiguous first ring
    → first + length ring ≤ suc since
    → ops_from since ring ≡ []
unfolding ops_from
ops_from_none since first [] c h = refl
ops_from_none since first (a ∷ ring) c h =
    ground (arith, c.0, ops_from_none since (suc first) ring c.1)

ops_from-Contiguous :
    (since first : ℕ) (ring : List Applied)
    → Contiguous first ring
    → first ≤ suc since
    → suc since ≤ first + length ring
    → Contiguous (suc since) (ops_from since ring)
      × (suc since + length (ops_from since ring) ≡ first + length ring)
unfolding ops_from
ops_from-Contiguous since first [] c lo hi = (tt, omega arith)
ops_from-Contiguous since first (a ∷ ring) c lo hi = elim (dec_lt since first) [
  | yes p ↦
      let e : suc since ≡ first = omega (arith, lo, p) in
      rw (ops_from_all since first (a ∷ ring) c p, e) (c, refl)
  | no p ↦
      let skip : ops_from since (a ∷ ring) ≡ ops_from since ring = ground (arith, c.0, p) in
      let ih =
        ops_from-Contiguous since (suc first) ring c.1 (omega (arith, p)) (omega (arith, hi)) in
      rw skip (ih.0, omega (arith, ih.1))
]

after_first :
    (since first : ℕ) (ring : List Applied)
    → Contiguous first ring
    → suc since < first
    → All (λ a. suc since < a.seq) ring
after_first since first [] c h = tt
after_first since first (a ∷ ring) c h =
    (omega (arith, c.0), after_first since (suc first) ring c.1 (omega arith))

read_ring-Answers :
    (since seq : ℕ) (ring : List Applied)
    → IsRing seq ring
    → since < seq
    → Answers since seq ring (read_ring since ring)
unfolding read_ring
read_ring-Answers since seq [] r h = (h, tt)
read_ring-Answers since seq (a ∷ ring) r h = elim (Bool-cases (ltb (since + 1) a.seq)) [
  | inl gap ↦
      rw gap (h, after_first since r.first (a ∷ ring) r.contiguous (ground (arith, r.contiguous.0)))
  | inr there ↦
      let part =
        ops_from-Contiguous since r.first (a ∷ ring) r.contiguous (ground (arith, r.contiguous.0))
          (omega (arith, r.last)) in
      rw there (part.0, omega (arith, part.1, r.last), refl)
]

-- On a ring of consecutive ops that ends with the session's last one, whatever number a client
-- names: `ops_since` answers with the ops after it, all of them and in order, or with none where
-- the next one is no longer in the ring.
pub ops_since-Answers :
    (since seq : ℕ) (ring : List Applied)
    → IsRing seq ring
    → Answers since seq ring (ops_since since seq ring)
unfolding ops_since
ops_since-Answers since seq ring r = elim (Bool-cases (leb seq since)) [
  | inl done ↦
      let h : seq ≤ since = ground arith in
      rw done (
        tt,
        omega arith,
        sym (ops_from_none since r.first ring r.contiguous (omega (arith, r.last))),
      )
  | inr behind ↦ rw behind (read_ring-Answers since seq ring r (ground arith))
]
