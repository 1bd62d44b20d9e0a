-- ===== src/Event/Delivery.antt =====
-- `DeliveryWorker` of backend/core/events/delivery.py: its queue, an attempt, and the retry of a failed
-- one. The pause before a retry is recorded; the result callback's own exceptions are caught, so it
-- is no more than the list of results it gets.
pub mod Attempt
pub mod Story
use community_overview.Base.{
  ℕ, zero, suc, ◌+◌, ◌-◌, min, String, Bool, true, false, ◌&&◌, Option, none, some, List, [], ◌∷◌,
  ◌++◌, length, is_empty, leb, ltb, if◌then◌else◌,
}
use community_overview.Event.Models.{
  Event, DeliveryStatus, success, retrying, dropped, DeliveryResult,
}
use community_overview.Event.Url.{Net, is_safe_url}
use community_overview.Event.Redirect.{
  Request, Outcome, responded, redirect_blocked, too_many_redirects, broken, Web,
  post_with_redirect_ssrf_check,
}

pub record DeliveryItem : Type 0 where
  pub event : Event
  pub webhook_url : String
  pub attempt : ℕ

-- Times are in tenths of a second. `none` in the queue is the sentinel.
pub record DeliveryWorker : Type 0 where
  pub queue : List (Option DeliveryItem)
  pub max_attempts : ℕ
  pub backoff_times : List ℕ
  pub has_callback : Bool
  pub running : Bool

abbrev default_backoff_times : List ℕ
default_backoff_times = 5 ∷ 20 ∷ 50 ∷ []

unfoldable pub new_worker : ℕ → Option (List ℕ) → Bool → DeliveryWorker
new_worker max_attempts backoff_times has_callback = record {
  queue = [];
  max_attempts = max_attempts;
  backoff_times = elim backoff_times [
    | none ↦ default_backoff_times
    | some ts ↦ if is_empty ts then default_backoff_times else ts
  ];
  has_callback = has_callback;
  running = false;
}

unfoldable pub start : DeliveryWorker → DeliveryWorker
start w = if w.running then w else record w { running = true }

unfoldable pub stop : DeliveryWorker → DeliveryWorker
stop w = if w.running then record w { running = false; queue = w.queue ++ (none ∷ []) } else w

unfoldable pub put : DeliveryItem → DeliveryWorker → DeliveryWorker
put i w = record w { queue = w.queue ++ (some i ∷ []) }

unfoldable pub enqueue : Event → String → DeliveryWorker → DeliveryWorker
enqueue e url w = put (record { event = e; webhook_url = url; attempt = 1 }) w

-- What an attempt shows: its requests, the results for the callback, and the pauses.
pub record Shown : Type 0 where
  pub requests : List Request
  pub results : List DeliveryResult
  pub pauses : List ℕ

abbrev pub nothing : Shown
nothing = record { requests = []; results = []; pauses = [] }

unfoldable pub result_of :
    DeliveryItem → DeliveryStatus → Option ℕ → DeliveryWorker → DeliveryResult
result_of i status code w = record {
  event_id = i.event.event_id;
  subscription_id = elim i.event.subscription [ none ↦ "" | some s ↦ s.id ];
  webhook_url = i.webhook_url;
  status = status;
  attempt = i.attempt;
  max_attempts = w.max_attempts;
  status_code = code;
}

-- `if self._on_result:`
unfoldable pub report :
    DeliveryItem → DeliveryStatus → Option ℕ → DeliveryWorker → List DeliveryResult
report i status code w = if w.has_callback then result_of i status code w ∷ [] else []

unfoldable pub get_elem? {ℓ} : {A : Type ℓ} → List A → ℕ → Option A
get_elem? [] n = none
get_elem? (x ∷ xs) zero = some x
get_elem? (x ∷ xs) (suc n) = get_elem? xs n

-- Where the list of pauses is empty the index is out of range: the exception ends the attempt.
unfoldable pub handle_failure :
    List Request → DeliveryItem → Option ℕ → DeliveryWorker → Shown × DeliveryWorker
handle_failure requests i code w =
    if ltb i.attempt w.max_attempts
    then elim (get_elem? w.backoff_times (min (i.attempt - 1) (length w.backoff_times - 1))) [
      | none ↦ (record { requests = requests; results = []; pauses = [] }, w)
      | some pause ↦ (
        record { requests = requests; results = report i retrying code w; pauses = pause ∷ [] },
        put (record i { attempt = i.attempt + 1 }) w,
      )
    ]
    else (record { requests = requests; results = report i dropped code w; pauses = [] }, w)

unfoldable pub after_post :
    DeliveryItem → DeliveryWorker → List Request → Outcome → Shown × DeliveryWorker
after_post i w requests (responded r) =
    if leb 200 r.status_code && ltb r.status_code 300
    then (
      record {
        requests = requests;
        results = report i success (some r.status_code) w;
        pauses = [];
      },
      w,
    )
    else handle_failure requests i (some r.status_code) w
after_post i w requests redirect_blocked =
    (record { requests = requests; results = report i dropped none w; pauses = [] }, w)
after_post i w requests too_many_redirects =
    (record { requests = requests; results = report i dropped none w; pauses = [] }, w)
after_post i w requests (broken e) = handle_failure requests i none w

-- `_deliver`: the resolver for the first test, and the world of the attempt.
unfoldable pub deliver : Net → Web → DeliveryItem → DeliveryWorker → Shown × DeliveryWorker
deliver net web i w =
    let (requests, outcome) = post_with_redirect_ssrf_check web i.webhook_url in
    if is_safe_url net i.webhook_url
    then after_post i w requests outcome
    else (record { requests = []; results = report i dropped none w; pauses = [] }, w)

-- A round of `_process_queue`, with an empty queue a timeout; the flag says whether the loop goes on.
unfoldable pub process_next : Net → Web → DeliveryWorker → Bool × Shown × DeliveryWorker
process_next net web w =
    if w.running
    then elim w.queue [
      | [] ↦ (true, nothing, w)
      | none ∷ rest ↦ (false, nothing, record w { queue = rest })
      | some i ∷ rest ↦
          let (shown, w') = deliver net web i (record w { queue = rest }) in (true, shown, w')
    ]
    else (false, nothing, w)
