-- ===== src/Session/Manager.antt =====
-- `SessionManager` of backend/core/session_manager.py: sessions, connections and catch-up. Each call
-- is one step; the asyncio locks let no other call on the session in between.
pub mod Departure
use community_overview.Base.{
  ℕ, String, Bool, true, false, Option, none, some, List, leb, string_eq, is_empty, if◌then◌else◌,
}
use community_overview.Base.Dict.{Dict, keys}
use community_overview.Json.{Json}
use community_overview.Session.State.{Session, Applied}
use community_overview.Session.Ops.{OpError}
use community_overview.Session.Bus
use community_overview.Session.Bus.{Bus, LoopState}
use community_overview.Session.Presence
use community_overview.Session.Presence.{Member, PresenceRegistry}
use community_overview.Session.Claims
use community_overview.Session.Claims.{ClaimMap}
use community_overview.Session.Bucket
use community_overview.Session.Bucket.{TokenBucket}
use community_overview.Session.Store
use community_overview.Session.Store.{Backend, SessionStore, Saved, to_dict}

-- The events of the bus, by their "type"; an op is a state op or a claim (true) or a release.
pub data SessionEvent : Type 0 where
  op_applied : String → Applied → SessionEvent
  selection : Bool → String → List String → SessionEvent
  presence_joined : Member → SessionEvent
  presence_left : String → SessionEvent
  session_deleted : Option String → SessionEvent
  command : Json → SessionEvent

pub data ManagerError : Type 0 where
  session_not_found rate_limited batch_too_large session_limit persist_failed : ManagerError
  op_error : OpError → ManagerError

pub data Reply {ℓ} (A : Type ℓ) : Type ℓ where
  ok : A → Reply A
  err : ManagerError → Reply A

-- `token_shares` is the number of a token's shares in which the buckets count.
pub record Manager (B : Backend) : Type 0 where
  pub store : SessionStore B
  pub bus : Bus SessionEvent
  pub presence : PresenceRegistry
  pub claims : ClaimMap
  pub max_ops : ℕ
  pub max_sessions : ℕ
  pub max_op_batch_bytes : ℕ
  pub token_shares : ℕ
  pub bucket : TokenBucket
  pub lookup_bucket : TokenBucket

-- The first payload of a connecting stream.
pub data InitialPayload : Type 0 where
  catch_up_ops : ℕ → List Applied → List Member → Dict String String → InitialPayload
  snapshot : ℕ → Saved → List Member → Dict String String → InitialPayload

abbrev created : Option Session → Reply Session
created none = err persist_failed
created (some s) = ok s

abbrev opened : Option (Session × Bool) → Reply (Session × Bool)
opened none = err persist_failed
opened (some r) = ok r

module _ {B : Backend} where
  abbrev with_store : Manager B → SessionStore B → Manager B
  with_store m st = record m { store = st }

  abbrev pub announce : (ℕ → LoopState) → String → SessionEvent → Manager B → Manager B
  announce loops sid e m = record m { bus = Bus.publish loops sid e m.bus }

  unfoldable pub check_lookup_rate : ℕ → String → Manager B → Reply (Unit {0}) × Manager B
  check_lookup_rate clock key m =
      let (granted, bucket) = Bucket.consume clock key m.token_shares m.lookup_bucket in
      (if granted then ok tt else err rate_limited, record m { lookup_bucket = bucket })

  -- `candidates` and `now` are what the id generator and the clock yield.
  unfoldable pub create_session :
      List String → String → Option String → Manager B → Reply Session × Manager B
  create_session candidates now name m =
      let (count, st) = Store.session_count m.store in
      let (s, st') = Store.create candidates now name st in
      if leb m.max_sessions count
      then (err session_limit, with_store m st)
      else (created s, with_store m st')

  unfoldable pub get_or_create : String → String → Manager B → Reply (Session × Bool) × Manager B
  get_or_create now sid m =
      let (found, st) = Store.get now sid m.store in
      let (count, st₁) = Store.session_count st in
      let (r, st₂) = Store.get_or_create now sid st₁ in
      elim found [
        | some s ↦ (ok (s, false), with_store m st)
        | none ↦
            if leb m.max_sessions count
            then (err session_limit, with_store m st₁)
            else (opened r, with_store m st₂)
      ]

  unfoldable pub delete_session :
      (ℕ → LoopState) → String → Option String → Manager B → Bool × Manager B
  delete_session loops sid deleted_by m =
      let (existed, st) = Store.delete sid m.store in
      let m' = with_store m st in
      (existed, if existed then announce loops sid (session_deleted deleted_by) m' else m')

  unfoldable pub claimed_elements : ℕ → String → Manager B → List String × Manager B
  claimed_elements now sid m =
      let (held, claims) = Claims.snapshot now sid m.claims in
      (keys held, record m { claims = claims })

  -- The subscription comes before the announcement, so that the newcomer hears of itself.
  unfoldable pub connect :
      (ℕ → String)
      → (ℕ → LoopState)
      → String
      → String
      → Option String
      → Manager B
      → (ℕ × Member) × Manager B
  connect show loops sid client name m =
      let (sub, bus) = Bus.subscribe sid m.bus in
      let (member, presence) = Presence.join show sid client name m.presence in
      (
        (sub, member),
        announce loops sid (presence_joined member) (record m { bus = bus; presence = presence }),
      )

  -- A client's last connection has gone: its claims end, and then its presence.
  unfoldable pub depart : (ℕ → LoopState) → String → String → Manager B → Manager B
  depart loops sid client m =
      let (released, claims) = Claims.release_all sid client m.claims in
      let m' = record m { claims = claims } in
      announce loops sid (presence_left client)
        (if is_empty released then m' else announce loops sid (selection false client released) m')

  unfoldable pub disconnect : (ℕ → LoopState) → String → String → ℕ → Manager B → Manager B
  disconnect loops sid client sub m =
      let (left, presence) = Presence.leave sid client m.presence in
      let m' = record m { bus = Bus.unsubscribe sid sub m.bus; presence = presence } in
      elim left [ none ↦ m' | some member ↦ depart loops sid client m' ]

  -- `since_seq` may be missing.
  unfoldable pub missed_ops : String → Option ℕ → SessionStore B → Option (List Applied)
  missed_ops sid none st = none
  missed_ops sid (some since) st = Store.ops_since sid since st

  unfoldable pub catch_up :
      String → ℕ → String → Option ℕ → Manager B → Reply InitialPayload × Manager B
  catch_up now clock sid since m =
      let (found, st) = Store.get now sid m.store in
      let roster = Presence.roster sid m.presence in
      let (held, claims) = Claims.snapshot clock sid m.claims in
      let m' = record m { store = st; claims = claims } in
      elim found [
        | none ↦ (err session_not_found, with_store m st)
        | some s ↦ elim (missed_ops sid since st) [
          | some ops ↦ (ok (catch_up_ops s.seq ops roster held), m')
          | none ↦ (ok (snapshot s.seq (to_dict s) roster held), m')
        ]
      ]

  unfoldable pub push_command :
      (ℕ → LoopState) → String → String → Json → Manager B → Bool × Manager B
  push_command loops now sid cmd m =
      let (found, st) = Store.get now sid m.store in
      let m' = with_store m st in
      elim found [ none ↦ (false, m') | some s ↦ (true, announce loops sid (command cmd) m') ]
