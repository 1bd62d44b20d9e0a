-- ===== src/Tests/Limits.antt =====
-- The token bucket of backend/core/session_manager.py, and the ids of sessions.
use community_overview.Base.{
  ℕ, ◌+◌, ◌-◌, ◌*◌, ◌≤◌, ◌≡◌, refl, String, Bool, true, ◌&&◌, List, [], ◌∷◌, arith, leb, ◌==◌,
  string_eq, nat_eq, ℕ_discrete, All, if◌then◌else◌,
}
use community_overview.Session.Bucket.{TokenBucket, init, refilled, consume}
use community_overview.Session.Bucket.Level.{IsSound, init-IsSound, consume_lem}
use community_overview.Session.Bucket.Rate.{Call, granted, elapsed, granted-le}
use community_overview.Session.Ids.{
  codes, is_valid_session_id, is_valid_session_id-IsPlain, IsPlain, matches, four_digits, dash,
  tail_groups, at_end,
}

abbrev ann : String
ann = "ann"

abbrev full : TokenBucket
full = init 100 2 600 60

full_lem : IsSound 5 full
full_lem = init-IsSound 5 100 2 600 60 (omega arith)

consume_lem_example :
    ((consume 5 ann 30 full).0 ≡ leb 30 (refilled 5 ann full))
    × ((k : String)
        → refilled 5 k (consume 5 ann 30 full).1 ≡ (
            if k == ann && leb 30 (refilled 5 ann full)
            then refilled 5 ann full - 30
            else refilled 5 k full))
consume_lem_example = consume_lem 5 ann 30 full full_lem

abbrev asked : List Call
asked =
    record { wait = 0; client = ann; amount = 90 }
    ∷ record { wait = 3; client = ann; amount = 20 }
    ∷ []

granted-le_example : granted 5 ann full asked ≤ full.capacity + elapsed asked * full.refill
granted-le_example = granted-le 5 ann full asked full_lem

abbrev is_digit : ℕ → Bool
is_digit c = leb 48 c && leb c 57

abbrev room : String
room = "1234-5678"

room_lem : is_valid_session_id is_digit room ≡ true
unfolding is_valid_session_id matches four_digits codes dash nat_eq ℕ_discrete tail_groups at_end
room_lem = refl

is_valid_session_id-IsPlain_example : All (IsPlain is_digit) (codes room)
is_valid_session_id-IsPlain_example = is_valid_session_id-IsPlain is_digit room room_lem
