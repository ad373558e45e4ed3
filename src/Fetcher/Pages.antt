-- ===== src/Fetcher/Pages.antt =====
-- The pages that the Cloud Controller hands out one after the other, as a relation, and the fetch
-- that they make (desiredstatefetcher/desired_state_fetcher.go).
use hm.Prelude.{
  ℕ, zero, suc, ◌+◌, ◌<◌, ◌≡◌, refl, ap, inl, inr, false, some, List, [], ◌∷◌, length, map, arith,
  Bool-cases, Option-cases, List-cases,
}
use hm.Prelude.Text.{GoString}
use hm.Prelude.Map.{Map}
use hm.Models.Desired.{DesiredAppState}
use hm.Prelude.Int.{ℤ}
use hm.Config.{Config}
use hm.Fetcher.{
  World, FetchError, failure, DesiredStateServerResponse, Fetched, success, not_analyzing, batch_of,
  page_at, fetch_batch,
}

-- The number of results on all pages.
abbrev pub total_results : List DesiredStateServerResponse → ℕ
total_results [] = 0
total_results (page ∷ pages) = length page.results + total_results pages

module _ (w : World) (conf : Config) (authorization : GoString) where
  -- From the nth request with this token, the pages with results, up to one without.
  pub data Pages : ℕ → GoString → List DesiredStateServerResponse → Type 0 where
    last :
        {n : ℕ} {token : GoString} (response : DesiredStateServerResponse)
        → (page_at w conf authorization n token).1 ≡ some response
        → response.results ≡ []
        → Pages n token []
    next :
        {n : ℕ} {token : GoString} (response : DesiredStateServerResponse)
        {later : List DesiredStateServerResponse}
        → (page_at w conf authorization n token).1 ≡ some response
        → 0 < length response.results
        → w.is_done_analyzing n ≡ false
        → Pages (suc n) (w.token_json response.bulk_token) later
        → Pages n token (response ∷ later)

  abbrev pub whole : List DesiredStateServerResponse → ℕ → Fetched
  whole pages n = record {
    batches = map batch_of pages;
    result = some (success (n + total_results pages));
  }

  abbrev pub after : DesiredStateServerResponse → Fetched → Fetched
  after response rest = record rest { batches = batch_of response ∷ rest.batches }

  pub fetch_batch-after :
      (fuel n : ℕ) (token : GoString) (seen : ℕ) (response : DesiredStateServerResponse)
      → (page_at w conf authorization n token).1 ≡ some response
      → 0 < length response.results
      → w.is_done_analyzing n ≡ false
      → fetch_batch w conf (suc fuel) authorization n token seen
        ≡ after response (
            fetch_batch w conf fuel authorization
              (suc n)
              (w.token_json response.bulk_token)
              (seen + length response.results))
  unfolding fetch_batch
  fetch_batch-after fuel n token seen response = by_results response.results response.bulk_token
    where
      by_results :
          (results : Map GoString DesiredAppState) (id : ℤ)
          → (page_at w conf authorization n token).1
            ≡ some (record { results = results; bulk_token = id })
          → 0 < length results
          → w.is_done_analyzing n ≡ false
          → fetch_batch w conf (suc fuel) authorization n token seen
            ≡ after
                (record { results = results; bulk_token = id })
                (fetch_batch w conf fuel authorization
                  (suc n)
                  (w.token_json id)
                  (seen + length results))
      by_results [] id got full on = absurd (omega (arith, full))
      by_results (first ∷ more) id got full on = rw (fetch_batch, got, on) refl

  pub Pages-fetch_batch :
      (fuel n : ℕ) (token : GoString) (seen : ℕ) (pages : List DesiredStateServerResponse)
      → Pages n token pages
      → length pages < fuel
      → fetch_batch w conf fuel authorization n token seen ≡ whole pages seen
  unfolding fetch_batch
  Pages-fetch_batch zero n token seen pages p h = ground arith
  Pages-fetch_batch (suc fuel) n token seen _ (last response got empty) h =
      rw (fetch_batch, got, empty)
        (ap (λ k. record { batches = []; result = some (success k) }) (omega arith))
  Pages-fetch_batch (suc fuel) n token seen (_ ∷ _) (next response {later = later} got full on p)
        h =
      rw
        (
          fetch_batch-after fuel n token seen response got full on,
          Pages-fetch_batch fuel (suc n) (w.token_json response.bulk_token)
              (seen + length response.results) later p (omega arith),
        )
        (ap (λ k. record { batches = map batch_of (response ∷ later); result = some (success k) })
          (omega arith))

  not-success : (error : FetchError) (total : ℕ) → some (failure error) ≡ some (success total) → ⊥
  not-success error total h = ground arith

  -- A fetch that ends with success was given pages: those whose batches it has queued.
  pub fetch_batch-Pages :
      (fuel n : ℕ) (token : GoString) (seen total : ℕ)
      → (fetch_batch w conf fuel authorization n token seen).result ≡ some (success total)
      → (pages : List DesiredStateServerResponse) × Pages n token pages
        × (fetch_batch w conf fuel authorization n token seen ≡ whole pages seen)
  unfolding fetch_batch
  fetch_batch-Pages zero n token seen total h = ground arith
  fetch_batch-Pages (suc fuel) n token seen total h =
      let error = (page_at w conf authorization n token).0 in
      elim (Option-cases (page_at w conf authorization n token).1) [
        | inl e ↦ absurd (not-success error total (rw (fetch_batch, e) at h))
        | inr (response, e) ↦ elim (List-cases response.results) [
          | inl empty ↦ (
            [],
            last response e empty,
            Pages-fetch_batch (suc fuel) n token seen [] (last response e empty) (omega arith),
          )
          | inr (first, more, full) ↦ elim (Bool-cases (w.is_done_analyzing n)) [
            | inl off ↦
                absurd (not-success not_analyzing total (rw (fetch_batch, e, full, off) at h))
            | inr on ↦ longer response e (rw full (omega arith)) on (
                fetch_batch-Pages fuel (suc n) (w.token_json response.bulk_token)
                  (seen + length response.results) total
                  (rw (fetch_batch-after fuel n token seen response e (rw full (omega arith)) on) at
                    h))
          ]
        ]
      ]
    where
      longer :
          (response : DesiredStateServerResponse)
          → (page_at w conf authorization n token).1 ≡ some response
          → 0 < length response.results
          → w.is_done_analyzing n ≡ false
          → (pages : List DesiredStateServerResponse) × Pages
              (suc n)
              (w.token_json response.bulk_token)
              pages
            × (fetch_batch w conf fuel authorization
                  (suc n)
                  (w.token_json response.bulk_token)
                  (seen + length response.results)
                ≡ whole pages (seen + length response.results))
          → (pages : List DesiredStateServerResponse) × Pages n token pages
            × (fetch_batch w conf (suc fuel) authorization n token seen ≡ whole pages seen)
      longer response got full on (pages, p, q) =
          let all = next response got full on p in
          (
            response ∷ pages,
            all,
            rw (fetch_batch-after fuel n token seen response got full on, q)
                (ap
                  (λ k. record {
                    batches = map batch_of (response ∷ pages);
                    result = some (success k);
                  })
                  (omega arith)),
          )
