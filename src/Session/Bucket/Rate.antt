-- ===== src/Session/Bucket/Rate.antt =====
-- The bound that the bucket is for: how much one client can be granted in a stretch of time.
use community_overview.Base.{
  ℕ, ◌+◌, ◌*◌, ◌≤◌, String, ◌≡◌, ◌&&◌, List, [], ◌∷◌, arith, ◌==◌, string_eq, if◌then◌else◌,
}
use community_overview.Session.Bucket.{TokenBucket, refilled, consume}
use community_overview.Session.Bucket.Level.{
  IsSound, consume_lem, consume-IsSound, later-IsSound, refilled-later, refilled-le-capacity,
  config-sweep,
}

-- A call: the time since the one before, who asks and for how much.
pub record Call : Type 0 where
  pub wait : ℕ
  pub client : String
  pub amount : ℕ

unfoldable pub elapsed : List Call → ℕ
elapsed [] = 0
elapsed (c ∷ cs) = c.wait + elapsed cs

-- What the calls grant to a client in all.
unfoldable pub granted : ℕ → String → TokenBucket → List Call → ℕ
granted now k b [] = 0
granted now k b (c ∷ cs) =
    let (ok, b') = consume (now + c.wait) c.client c.amount b in
    (if k == c.client && ok then c.amount else 0) + granted (now + c.wait) k b' cs

config-consume :
    (now : ℕ) (client : String) (amount : ℕ) (b : TokenBucket)
    → ((consume now client amount b).1.capacity ≡ b.capacity)
      × ((consume now client amount b).1.refill ≡ b.refill)
unfolding consume
config-consume now client amount b = ground (arith, config-sweep now b)

-- One call takes what it grants from the level.
granted_once :
    (now : ℕ) (k client : String) (amount : ℕ) (b : TokenBucket)
    → IsSound now b
    → (if k == client && (consume now client amount b).0 then amount else 0)
        + refilled now k (consume now client amount b).1
      ≡ refilled now k b
granted_once now k client amount b s =
    let l = consume_lem now client amount b s in ground (arith, l.0, l.1 k)

granted-le-level :
    (now : ℕ) (k : String) (b : TokenBucket) (cs : List Call)
    → IsSound now b
    → granted now k b cs ≤ refilled now k b + elapsed cs * b.refill
unfolding granted elapsed
granted-le-level now k b [] s = omega arith
granted-le-level now k b (c ∷ cs) s =
    let now' = now + c.wait in
    let s' = later-IsSound now c.wait b s in
    let b' = (consume now' c.client c.amount b).1 in
    let ih = granted-le-level now' k b' cs (consume-IsSound now' c.client c.amount b s') in
    let conf = config-consume now' c.client c.amount b in
    omega (
      arith,
      rw conf.1 at ih,
      granted_once now' k c.client c.amount b s',
      refilled-later now c.wait k b s,
    )

-- From a sound bucket, whatever is asked for and when, one client is granted at most the capacity
-- and what the time brings back.
pub granted-le :
    (now : ℕ) (k : String) (b : TokenBucket) (cs : List Call)
    → IsSound now b
    → granted now k b cs ≤ b.capacity + elapsed cs * b.refill
granted-le now k b cs s = omega (arith, granted-le-level now k b cs s, refilled-le-capacity now k b)
