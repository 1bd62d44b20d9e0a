-- ===== src/Event/Delivery/Attempt.antt =====
-- What one attempt of the delivery worker sends and leaves.
use community_overview.Base.{
  ℕ, zero, suc, ◌+◌, ◌-◌, ◌≤◌, ◌<◌, min, ◌≡◌, refl, ap, ◌∙◌, ◌⊎◌, inl, inr, String, true, false,
  ◌&&◌, Bool-cases, Option, none, some, List, [], ◌∷◌, arith, length, is_empty, leb, ltb,
  if◌then◌else◌,
}
use community_overview.Event.Models.{DeliveryStatus, success, retrying, dropped}
use community_overview.Event.Url.{Net, is_safe_url}
use community_overview.Event.Redirect.{
  Request, Outcome, responded, redirect_blocked, too_many_redirects, broken, Web, post,
  post_with_redirect_ssrf_check,
}
use community_overview.Event.Redirect.Safety.{Checked, Follows, follow-Follows}
use community_overview.Event.Delivery.{
  DeliveryItem, DeliveryWorker, Shown, result_of, report, get_elem?, handle_failure, after_post,
  deliver, put,
}

-- Each request goes to a url that has passed the test since the last one.
abbrev pub AllChecked : Net → Web → List Request → Type 0
AllChecked net web [] = Unit
AllChecked net web (r ∷ rs) = (is_safe_url net r.url ≡ true) × Checked web 0 rs

requests-handle_failure :
    (rs : List Request) (i : DeliveryItem) (code : Option ℕ) (w : DeliveryWorker)
    → (handle_failure rs i code w).0.requests ≡ rs
unfolding handle_failure
requests-handle_failure rs i code w = ground arith

requests-after_post :
    (i : DeliveryItem) (w : DeliveryWorker) (rs : List Request) (o : Outcome)
    → (after_post i w rs o).0.requests ≡ rs
unfolding after_post
requests-after_post i w rs (responded r) =
    ground (arith, requests-handle_failure rs i (some r.status_code) w)
requests-after_post i w rs redirect_blocked = refl
requests-after_post i w rs too_many_redirects = refl
requests-after_post i w rs (broken e) = requests-handle_failure rs i none w

first_checked :
    (net : Net) (web : Web) (url : String) (rs : List Request)
    → Follows web 0 url rs
    → is_safe_url net url ≡ true
    → AllChecked net web rs
first_checked net web url [] h safe = tt
first_checked net web url (r ∷ rs) h safe = (ap (is_safe_url net) h.0 ∙ safe, h.1)

-- The first request of an attempt goes to a url that `is_safe_url` accepts, and each further one,
-- after a redirect, to a url that it accepts after the answer before.
pub deliver-AllChecked :
    (net : Net) (web : Web) (i : DeliveryItem) (w : DeliveryWorker)
    → AllChecked net web (deliver net web i w).0.requests
unfolding deliver post_with_redirect_ssrf_check
deliver-AllChecked net web i w = elim (Bool-cases (is_safe_url net i.webhook_url)) [
  | inr unsafe ↦ rw unsafe tt
  | inl safe ↦
      rw (safe, requests-after_post)
        (first_checked net web i.webhook_url _ (follow-Follows web 10 0 post i.webhook_url) safe)
]

-- An attempt ends the item's story, or queues it once more.
pub data Step (i : DeliveryItem) (w : DeliveryWorker) (r : Shown × DeliveryWorker) : Type 0 where
  ends :
      (status : DeliveryStatus) (code : Option ℕ)
      → (status ≡ success) ⊎ (status ≡ dropped)
      → r.0.results ≡ result_of i status code w ∷ []
      → r.1 ≡ w
      → Step i w r
  again :
      (code : Option ℕ)
      → i.attempt < w.max_attempts
      → r.0.results ≡ result_of i retrying code w ∷ []
      → r.1 ≡ put (record i { attempt = i.attempt + 1 }) w
      → Step i w r

get_elem?-some :
    {A : Type 0} (x : A) (xs : List A) (n : ℕ)
    → n ≤ length xs
    → (a : A) × (get_elem? (x ∷ xs) n ≡ some a)
unfolding get_elem?
get_elem?-some x xs zero h = (x, refl)
get_elem?-some x [] (suc n) h = absurd (omega (arith, h))
get_elem?-some x (y ∷ xs) (suc n) h = get_elem?-some y xs n (omega (arith, h))

-- Where there are pauses, each failed attempt has one.
pause_after :
    (bs : List ℕ) (n : ℕ)
    → is_empty bs ≡ false
    → (t : ℕ) × (get_elem? bs (min n (length bs - 1)) ≡ some t)
pause_after [] n h = cc
pause_after (b ∷ bs) n h = get_elem?-some b bs (min n (length (b ∷ bs) - 1)) (ground arith)

report-called :
    (i : DeliveryItem) (status : DeliveryStatus) (code : Option ℕ) (w : DeliveryWorker)
    → w.has_callback ≡ true
    → report i status code w ≡ result_of i status code w ∷ []
unfolding report
report-called i status code w called =
    ap (λ b. if b then result_of i status code w ∷ [] else []) called

module _ (i : DeliveryItem) (w : DeliveryWorker) (called : w.has_callback ≡ true)
    (pauses : is_empty w.backoff_times ≡ false) where
  dropped-Step :
      (rs : List Request) (code : Option ℕ)
      → Step i w (record { requests = rs; results = report i dropped code w; pauses = [] }, w)
  dropped-Step rs code = ends dropped code (inr refl) (report-called i dropped code w called) refl

  handle_failure-Step :
      (rs : List Request) (code : Option ℕ) → Step i w (handle_failure rs i code w)
  unfolding handle_failure
  handle_failure-Step rs code = elim (Bool-cases (ltb i.attempt w.max_attempts)) [
    | inr last ↦ rw last (dropped-Step rs code)
    | inl more ↦
        let (pause, e) = pause_after w.backoff_times (i.attempt - 1) pauses in
        rw (more, e)
          (again code (ground (arith, more)) (report-called i retrying code w called) refl)
  ]

  after_post-Step : (rs : List Request) (o : Outcome) → Step i w (after_post i w rs o)
  unfolding after_post
  after_post-Step rs (responded r) =
      elim (Bool-cases (leb 200 r.status_code && ltb r.status_code 300)) [
        | inl good ↦ rw good (
            ends success (some r.status_code) (inl refl)
              (report-called i success (some r.status_code) w called) refl)
        | inr bad ↦ rw bad (handle_failure-Step rs (some r.status_code))
      ]
  after_post-Step rs redirect_blocked = dropped-Step rs none
  after_post-Step rs too_many_redirects = dropped-Step rs none
  after_post-Step rs (broken e) = handle_failure-Step rs none

  pub deliver-Step : (net : Net) (web : Web) → Step i w (deliver net web i w)
  unfolding deliver
  deliver-Step net web = elim (Bool-cases (is_safe_url net i.webhook_url)) [
    | inr unsafe ↦ rw unsafe (dropped-Step [] none)
    | inl safe ↦ rw safe (after_post-Step _ _)
  ]
