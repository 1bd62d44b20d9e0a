-- ===== src/Event/Redirect.antt =====
-- `DeliveryWorker._post_with_redirect_ssrf_check` of backend/core/events/delivery.py. The web, the
-- resolver at each hop and `urljoin` are arguments; the requests that are sent are recorded.
pub mod Safety
use community_overview.Base.{
  ℕ, zero, suc, String, Bool, ◌||◌, Option, none, some, List, [], ◌∷◌, ◌==◌, nat_eq, if◌then◌else◌,
}
use community_overview.Event.Url.{Net, is_safe_url}

pub data Method : Type 0 where
  post : Method
  get : Method

pub record Request : Type 0 where
  pub method : Method
  pub url : String

-- `httpx.Response`; `location` is "" where the header is missing.
pub record Response : Type 0 where
  pub status_code : ℕ
  pub is_redirect : Bool
  pub location : String

-- What the `httpx` client raises, and any other exception.
pub data HttpError : Type 0 where
  timeout : HttpError
  request_error : HttpError
  unexpected : HttpError

pub data Answer : Type 0 where
  answered : Response → Answer
  raised : HttpError → Answer

pub data Outcome : Type 0 where
  responded : Response → Outcome
  redirect_blocked : Outcome
  too_many_redirects : Outcome
  broken : HttpError → Outcome

-- The world of one attempt: at each hop, the answer to the request and the resolver after it.
pub record Web : Type 0 where
  pub send : ℕ → Request → Answer
  pub net : ℕ → Net
  pub urljoin : String → String → Option String

unfoldable pub next_method : ℕ → Method → Method
next_method status m = if status == 301 || (status == 302 || status == 303) then get else m

-- The loop, with the rounds that are left and the number of the round.
unfoldable pub follow : Web → ℕ → ℕ → Method → String → List Request × Outcome
follow w zero i m url = ([], too_many_redirects)
follow w (suc n) i m url =
    let request : Request = record { method = m; url = url } in
    elim (w.send i request) [
      | raised e ↦ (request ∷ [], broken e)
      | answered r ↦
          if r.is_redirect
          then elim (w.urljoin url r.location) [
            | none ↦ (request ∷ [], broken unexpected)
            | some next_url ↦
                let (rest, outcome) = follow w n (suc i) (next_method r.status_code m) next_url in
                if is_safe_url (w.net i) next_url
                then (request ∷ rest, outcome)
                else (request ∷ [], redirect_blocked)
          ]
          else (request ∷ [], responded r)
    ]

abbrev pub max_redirects : ℕ
max_redirects = 10

unfoldable pub post_with_redirect_ssrf_check : Web → String → List Request × Outcome
post_with_redirect_ssrf_check w url = follow w max_redirects 0 post url
