-- ===== src/Session/Bucket.antt =====
-- `_TokenBucket` of backend/core/session_manager.py. Times are numbers of clock ticks and amounts
-- numbers of a token's smallest share, so small that `refill` shares come back in a tick: exact
-- where the source rounds floats. The clock is monotonic, so no difference of times is negative.
pub mod Level
pub mod Rate
use community_overview.Base.{
  ℕ, ◌+◌, ◌-◌, ◌*◌, min, String, Bool, true, false, Option, none, some, List, [], ltb, leb,
  string_eq, if◌then◌else◌,
}
use community_overview.Base.Dict
use community_overview.Base.Dict.{Dict}
use community_overview.Base.Dict.Bulk.{keys_where, remove_all}

pub record TokenBucket : Type 0 where
  pub capacity : ℕ
  pub refill : ℕ
  pub idle_ttl : ℕ
  pub sweep_interval : ℕ
  pub tokens : Dict String ℕ
  pub last : Dict String ℕ
  pub last_sweep : ℕ

unfoldable pub init : ℕ → ℕ → ℕ → ℕ → TokenBucket
init capacity refill idle_ttl sweep_interval = record {
  capacity = capacity;
  refill = refill;
  idle_ttl = idle_ttl;
  sweep_interval = sweep_interval;
  tokens = [];
  last = [];
  last_sweep = 0;
}

-- `d.get(k, default)`
abbrev pub get_or {ℓ} : {A : Type ℓ} → Option A → A → A
get_or none default = default
get_or (some a) default = a

-- The clients whose last call lies before `now - idle_ttl`.
unfoldable pub stale : ℕ → TokenBucket → List String
stale now b = keys_where (λ t. ltb t (now - b.idle_ttl)) b.last

unfoldable pub evict : ℕ → TokenBucket → TokenBucket
evict now b = record b {
  tokens = remove_all (stale now b) b.tokens;
  last = remove_all (stale now b) b.last;
  last_sweep = now;
}

unfoldable pub sweep : ℕ → TokenBucket → TokenBucket
sweep now b = if leb b.sweep_interval (now - b.last_sweep) then evict now b else b

-- The tokens that a client has at a time.
unfoldable pub refilled : ℕ → String → TokenBucket → ℕ
refilled now client b =
    let tokens = get_or (Dict.get client b.tokens) b.capacity in
    let last = get_or (Dict.get client b.last) now in
    min b.capacity (tokens + (now - last) * b.refill)

-- The clock is read once.
unfoldable pub consume : ℕ → String → ℕ → TokenBucket → Bool × TokenBucket
consume now client amount b =
    let swept = sweep now b in
    let tokens = refilled now client swept in
    let last = Dict.put client now swept.last in
    if ltb tokens amount
    then (false, record swept { tokens = Dict.put client tokens swept.tokens; last = last })
    else (
      true,
      record swept { tokens = Dict.put client (tokens - amount) swept.tokens; last = last },
    )
