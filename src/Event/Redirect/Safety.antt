-- ===== src/Event/Redirect/Safety.antt =====
-- The requests that follow redirects go to checked addresses, and there are few of them.
use community_overview.Base.{
  ℕ, zero, suc, ◌≤◌, ◌≡◌, refl, String, true, Bool-cases, inl, inr, ◌⊎◌, ◌∙◌, Option-cases, List,
  [], ◌∷◌, arith, length, All, ap,
}
use community_overview.Event.Url.{is_safe_url}
use community_overview.Event.Redirect.{
  Method, get, Request, Response, Answer, answered, raised, Outcome, Web, next_method, follow,
  HttpError, too_many_redirects,
}

-- Request number j + 1 goes to a url that passed the test after the answer to request number j.
abbrev pub Checked : Web → ℕ → List Request → Type 0
Checked w i [] = Unit
Checked w i (r ∷ rs) = (is_safe_url (w.net i) r.url ≡ true) × Checked w (suc i) rs

-- The first request goes to the url given, the others to checked ones.
abbrev pub Follows : Web → ℕ → String → List Request → Type 0
Follows w i url [] = Unit
Follows w i url (r ∷ rs) = (r.url ≡ url) × Checked w i rs

Follows-Checked :
    (w : Web) (i : ℕ) (url : String) (rs : List Request)
    → is_safe_url (w.net i) url ≡ true
    → Follows w (suc i) url rs
    → Checked w i rs
Follows-Checked w i url [] safe h = tt
Follows-Checked w i url (r ∷ rs) safe h = (ap (is_safe_url (w.net i)) h.0 ∙ safe, h.1)

Answer-cases :
    (a : Answer) → ((e : HttpError) × (a ≡ raised e)) ⊎ ((r : Response) × (a ≡ answered r))
Answer-cases (raised e) = inl (e, refl)
Answer-cases (answered r) = inr (r, refl)

-- A property of the requests and the outcome of a loop, for which each of its ends is shown.
follow-ind :
    (w : Web) (P : ℕ → ℕ → Method → String → List Request × Outcome → Type 0)
    → ((i : ℕ) (m : Method) (url : String) → P zero i m url ([], too_many_redirects))
    → ((n i : ℕ) (m : Method) (url : String) (o : Outcome)
        → P (suc n) i m url (record { method = m; url = url } ∷ [], o))
    → ((n i : ℕ) (m : Method) (url next_url : String) (status : ℕ) (rest : List Request × Outcome)
        → is_safe_url (w.net i) next_url ≡ true
        → P n (suc i) (next_method status m) next_url rest
        → P (suc n) i m url (record { method = m; url = url } ∷ rest.0, rest.1))
    → (n i : ℕ) (m : Method) (url : String) → P n i m url (follow w n i m url)
unfolding follow
follow-ind w P none_left ends goes_on zero i m url = none_left i m url
follow-ind w P none_left ends goes_on (suc n) i m url =
    elim (Answer-cases (w.send i (record { method = m; url = url }))) [
      | inl (e, a) ↦ rw (a, follow) (ends n i m url _)
      | inr (r, a) ↦ elim (Bool-cases r.is_redirect) [
        | inr final ↦ rw (a, final, follow) (ends n i m url _)
        | inl moved ↦ elim (Option-cases (w.urljoin url r.location)) [
          | inl bad ↦ rw (a, moved, bad, follow) (ends n i m url _)
          | inr (next_url, joined) ↦ elim (Bool-cases (is_safe_url (w.net i) next_url)) [
            | inr unsafe ↦ rw (a, moved, joined, unsafe, follow) (ends n i m url _)
            | inl safe ↦
                rw (a, moved, joined, safe, follow)
                  (goes_on n i m url next_url r.status_code _ safe (
                    follow-ind w P none_left ends goes_on n (suc i) (next_method r.status_code m)
                      next_url))
          ]
        ]
      ]
    ]

pub follow-Follows :
    (w : Web) (n i : ℕ) (m : Method) (url : String) → Follows w i url (follow w n i m url).0
follow-Follows w =
    follow-ind w (λ n i m url r. Follows w i url r.0) (λ i m url. tt) (λ n i m url o. (refl, tt))
      (λ n i m url next_url status rest safe h. (refl, Follows-Checked w i next_url rest.0 safe h))

-- The loop over redirects sends at most as many requests as it has rounds.
pub length-follow :
    (w : Web) (n i : ℕ) (m : Method) (url : String) → length (follow w n i m url).0 ≤ n
length-follow w =
    follow-ind w (λ n i m url r. length r.0 ≤ n) (λ i m url. omega arith)
      (λ n i m url o. omega arith) (λ n i m url next_url status rest safe h. omega (arith, h))

next_method-get : (status : ℕ) → next_method status get ≡ get
unfolding next_method
next_method-get status = ground arith

-- Once a redirect has turned the request into a GET, no later one is a POST.
pub follow-get :
    (w : Web) (n i : ℕ) (m : Method) (url : String)
    → m ≡ get
    → All (λ r. r.method ≡ get) (follow w n i m url).0
follow-get w =
    follow-ind w (λ n i m url r. m ≡ get → All (λ r. r.method ≡ get) r.0) (λ i m url e. tt)
      (λ n i m url o e. (e, tt))
      (λ n i m url next_url status rest safe h e.
        (e, h (ap (next_method status) e ∙ next_method-get status)))
