-- ===== src/Event/Delivery/Story.antt =====
-- From the queue to the last result: an event is tried until one attempt succeeds or is given up.
use community_overview.Base.{ℕ, zero, suc, ◌+◌, ◌<◌, ◌≡◌, ◌⊎◌, List, [], ◌∷◌, ◌++◌}
use community_overview.Event.Models.{Event, success, retrying, dropped, DeliveryResult}
use community_overview.Event.Url.{Net}
use community_overview.Event.Redirect.{Web}
use community_overview.Event.Delivery.{DeliveryWorker, Shown, process_next}

-- Rounds of the worker's loop, each in a world of its own: the results in order, and the worker.
unfoldable pub rounds :
    (ℕ → Net) → (ℕ → Web) → ℕ → ℕ → DeliveryWorker → List DeliveryResult × DeliveryWorker
rounds nets webs j zero w = ([], w)
rounds nets webs j (suc n) w =
    let (on, shown, w') = process_next (nets j) (webs j) w in
    let (rest, w'') = rounds nets webs (suc j) n w' in (shown.results ++ rest, w'')

-- Results of attempts that follow one another, from some attempt on: each but the last announces a
-- retry, and the last is a success or gives up.
pub data IsStory (max_attempts : ℕ) : ℕ → List DeliveryResult → Type 0 where
  last :
      (r : DeliveryResult)
      → (r.status ≡ success) ⊎ (r.status ≡ dropped)
      → IsStory max_attempts r.attempt (r ∷ [])
  next :
      (r : DeliveryResult) (rs : List DeliveryResult)
      → r.status ≡ retrying
      → r.attempt < max_attempts
      → IsStory max_attempts (r.attempt + 1) rs
      → IsStory max_attempts r.attempt (r ∷ rs)

module _ (nets : ℕ → Net) (webs : ℕ → Web) where
  -- What `n` rounds after a first attempt, whose results are given, make of an item.
  abbrev Told : ℕ → ℕ → ℕ → DeliveryWorker → Shown × DeliveryWorker → Type 0
  Told j n attempt idle d =
      let r = rounds nets webs j n d.1 in
      IsStory idle.max_attempts attempt (d.0.results ++ r.0) × (r.1 ≡ idle)
