-- ===== src/Session/Bucket/Level.antt =====
-- The bucket as its clients see it: a level for each client, which evictions do not show in.
use community_overview.Base.{
  ℕ, ◌+◌, ◌-◌, ◌*◌, ◌≤◌, ◌<◌, min, String, ◌≡◌, refl, ◌&&◌, none, some, arith, ltb, leb, ◌==◌,
  string_eq, Option-cases, Bool-cases, inl, inr, if◌then◌else◌,
}
use community_overview.Base.Dict
use community_overview.Base.Dict.{NodupKeys, get-put, put-NodupKeys}
use community_overview.Base.Dict.Bulk.{
  unless, holds, get-remove_all, contains-keys_where, remove_all-NodupKeys, get-drop_where,
}
use community_overview.Session.Bucket.{
  TokenBucket, init, get_or, stale, evict, sweep, refilled, consume,
}

sub-self_mul : (a b : ℕ) → (a - a) * b ≡ 0
sub-self_mul a b = let e : a - a ≡ 0 = omega arith in rw e (omega arith)

-- The state at a time: each client that has tokens has a last call, which is not in the future, and
-- has no more than the capacity; a client idle long enough to be evicted would be full again.
pub record IsSound (now : ℕ) (b : TokenBucket) : Type 0 where
  pub nodup : NodupKeys b.last
  pub past : (k : String) (t : ℕ) → Dict.get k b.last ≡ some t → t ≤ now
  pub paired : (k : String) → Dict.get k b.last ≡ none → Dict.get k b.tokens ≡ none
  pub bounded : (k : String) (n : ℕ) → Dict.get k b.tokens ≡ some n → n ≤ b.capacity
  pub slow : b.capacity ≤ b.idle_ttl * b.refill

mul_mono : (a b c : ℕ) → a ≤ b → a * c ≤ b * c
mul_mono a b c h = grind arith

-- The level of an entry that has been idle for the time to live is full.
idle_full :
    (cap refill ttl now t n : ℕ)
    → cap ≤ ttl * refill
    → t < now - ttl
    → min cap (n + (now - t) * refill) ≡ cap
idle_full cap refill ttl now t n h lt = omega (arith, mul_mono ttl (now - t) refill (omega arith))

tokens-evict :
    (now : ℕ) (k : String) (b : TokenBucket)
    → NodupKeys b.last
    → Dict.get k (evict now b).tokens ≡ (
        if holds (λ t. ltb t (now - b.idle_ttl)) (Dict.get k b.last)
        then none
        else Dict.get k b.tokens)
unfolding evict stale
tokens-evict now k b h = rw (get-remove_all, contains-keys_where _ k b.last h) refl

last-evict :
    (now : ℕ) (k : String) (b : TokenBucket)
    → NodupKeys b.last
    → Dict.get k (evict now b).last ≡ unless (λ t. ltb t (now - b.idle_ttl)) (Dict.get k b.last)
unfolding evict stale
last-evict now k b h = get-drop_where _ k b.last h

config-evict :
    (now : ℕ) (b : TokenBucket)
    → ((evict now b).capacity ≡ b.capacity)
      × ((evict now b).refill ≡ b.refill)
      × ((evict now b).idle_ttl ≡ b.idle_ttl)
unfolding evict
config-evict now b = (refl, refl, refl)

refilled-evict :
    (now : ℕ) (k : String) (b : TokenBucket)
    → IsSound now b
    → refilled now k (evict now b) ≡ refilled now k b
unfolding refilled
refilled-evict now k b s = elim (Option-cases (Dict.get k b.last)) [
  | inl e ↦
      ground
        (arith, tokens-evict now k b s.nodup, last-evict now k b s.nodup, config-evict now b, e)
  | inr (t, e) ↦ ground (
    arith,
    tokens-evict now k b s.nodup,
    last-evict now k b s.nodup,
    config-evict now b,
    e,
    s.slow,
    idle_full b.capacity b.refill b.idle_ttl now t (get_or (Dict.get k b.tokens) b.capacity),
  )
]

evict-IsSound : (now : ℕ) (b : TokenBucket) → IsSound now b → IsSound now (evict now b)
evict-IsSound now b s = record {
  nodup = unfold evict in remove_all-NodupKeys _ b.last s.nodup;
  past = λ k t h. ground (arith, last-evict now k b s.nodup, s.past k t, h);
  paired = λ k h.
      ground (arith, last-evict now k b s.nodup, tokens-evict now k b s.nodup, s.paired k, h);
  bounded =
      λ k n h. ground (arith, config-evict now b, tokens-evict now k b s.nodup, s.bounded k n, h);
  slow = unfold evict in s.slow;
}

sweep-IsSound : (now : ℕ) (b : TokenBucket) → IsSound now b → IsSound now (sweep now b)
unfolding sweep
sweep-IsSound now b s = elim (Bool-cases (leb b.sweep_interval (now - b.last_sweep))) [
  | inl e ↦ rw e (evict-IsSound now b s)
  | inr e ↦ rw e s
]

refilled-sweep :
    (now : ℕ) (k : String) (b : TokenBucket)
    → IsSound now b
    → refilled now k (sweep now b) ≡ refilled now k b
unfolding sweep
refilled-sweep now k b s = elim (Bool-cases (leb b.sweep_interval (now - b.last_sweep))) [
  | inl e ↦ rw e (refilled-evict now k b s)
  | inr e ↦ rw e refl
]

pub config-sweep :
    (now : ℕ) (b : TokenBucket)
    → ((sweep now b).capacity ≡ b.capacity)
      × ((sweep now b).refill ≡ b.refill)
      × ((sweep now b).idle_ttl ≡ b.idle_ttl)
unfolding sweep evict
config-sweep now b = ground arith

pub refilled-le-capacity : (now : ℕ) (k : String) (b : TokenBucket) → refilled now k b ≤ b.capacity
unfolding refilled
refilled-le-capacity now k b = omega arith

-- What a call leaves: the client's tokens, as of now.
abbrev settle : ℕ → String → ℕ → TokenBucket → TokenBucket
settle now client n b = record b {
  tokens = Dict.put client n b.tokens;
  last = Dict.put client now b.last;
}

refilled-settle :
    (now : ℕ) (client k : String) (n : ℕ) (b : TokenBucket)
    → n ≤ b.capacity
    → refilled now k (settle now client n b) ≡ (if k == client then n else refilled now k b)
unfolding refilled
refilled-settle now client k n b h =
    ground
      (arith, get-put k client n b.tokens, get-put k client now b.last, sub-self_mul now b.refill)

settle-IsSound :
    (now : ℕ) (client : String) (n : ℕ) (b : TokenBucket)
    → n ≤ b.capacity
    → IsSound now b
    → IsSound now (settle now client n b)
settle-IsSound now client n b h s = record {
  nodup = put-NodupKeys client now b.last s.nodup;
  past = λ k t e. ground (arith, get-put k client now b.last, s.past k t, e);
  paired = λ k e.
      ground (arith, get-put k client now b.last, get-put k client n b.tokens, s.paired k, e);
  bounded = λ k m e. ground (arith, get-put k client n b.tokens, s.bounded k m, e);
  slow = s.slow;
}

-- On a sound bucket a call is granted exactly if the client's level covers the amount, which is
-- then taken from the level; a refused call leaves the level as it is, and so does any call the
-- levels of other clients.
pub consume_lem :
    (now : ℕ) (client : String) (amount : ℕ) (b : TokenBucket)
    → IsSound now b
    → ((consume now client amount b).0 ≡ leb amount (refilled now client b))
      × ((k : String)
          → refilled now k (consume now client amount b).1 ≡ (
              if k == client && leb amount (refilled now client b)
              then refilled now client b - amount
              else refilled now k b))
unfolding consume
consume_lem now client amount b s =
    let swept = sweep now b in
    let n = refilled now client swept in
    let fits : n ≤ swept.capacity = refilled-le-capacity now client swept in
    (
      ground (arith, refilled-sweep now client b s),
      λ k. ground (
        arith,
        refilled-sweep now client b s,
        refilled-sweep now k b s,
        refilled-settle now client k n swept fits,
        refilled-settle now client k (n - amount) swept (omega (arith, fits)),
      ),
    )

pub consume-IsSound :
    (now : ℕ) (client : String) (amount : ℕ) (b : TokenBucket)
    → IsSound now b
    → IsSound now (consume now client amount b).1
unfolding consume
consume-IsSound now client amount b s =
    let swept = sweep now b in
    let n = refilled now client swept in
    let fits : n ≤ swept.capacity = refilled-le-capacity now client swept in
    let sound = sweep-IsSound now b s in
    elim (Bool-cases (ltb n amount)) [
      | inl e ↦ rw e (settle-IsSound now client n swept fits sound)
      | inr e ↦ rw e (settle-IsSound now client (n - amount) swept (omega (arith, fits)) sound)
    ]

-- Time passes: soundness stays, and the level rises with the refill up to the capacity.
pub later-IsSound : (now d : ℕ) (b : TokenBucket) → IsSound now b → IsSound (now + d) b
later-IsSound now d b s = record {
  nodup = s.nodup;
  past = λ k t h. omega (arith, s.past k t h);
  paired = s.paired;
  bounded = s.bounded;
  slow = s.slow;
}

-- As time passes a client's level rises by the refill, up to the capacity, where the bucket is
-- sound.
pub refilled-later :
    (now d : ℕ) (k : String) (b : TokenBucket)
    → IsSound now b
    → refilled (now + d) k b ≡ min b.capacity (refilled now k b + d * b.refill)
unfolding refilled
refilled-later now d k b s = elim (Option-cases (Dict.get k b.last)) [
  | inl e ↦ rw (e, s.paired k e) (omega arith)
  | inr (t, e) ↦
      let split : (now + d - t) ≡ (now - t) + d = omega (arith, s.past k t e) in
      rw e (rw split (omega arith))
]

-- A new bucket, where an idle client is evicted only once it would be full again.
pub init-IsSound :
    (now capacity refill idle_ttl sweep_interval : ℕ)
    → capacity ≤ idle_ttl * refill
    → IsSound now (init capacity refill idle_ttl sweep_interval)
unfolding init Dict.get
init-IsSound now capacity refill idle_ttl sweep_interval h = record {
  nodup = tt;
  past = λ k t e. cc e;
  paired = λ k e. refl;
  bounded = λ k n e. cc e;
  slow = h;
}
