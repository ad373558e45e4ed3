-- ===== src/Fetcher/Runs.antt =====
-- What a fetch queues and when it ends (desiredstatefetcher/desired_state_fetcher.go, Fetch).
use hm.Prelude.{
  ℕ, zero, suc, ◌+◌, ◌<◌, ◌≤◌, ◌≡◌, refl, sym, ap, ◌∙◌, inl, inr, some, List, [], length, map,
  arith, Bool-cases, Option-cases, List-cases, ◌⊎◌, All,
}
use hm.Prelude.Text.{GoString, string_eq}
use hm.Models.Auth.{encode}
use hm.Config.{Config}
use hm.Fetcher.{
  World, DesiredStateServerResponse, FetchResult, success, batch_of, page_at, fetch_batch, fetch,
  initial_bulk_token,
}
use hm.Fetcher.Wanted.{IsWanted, batch_of-IsWanted}
use hm.Fetcher.Pages.{
  total_results, Pages, whole, Pages-fetch_batch, fetch_batch-Pages, fetch_batch-after,
}

module _ (w : World) (conf : Config) where
  abbrev pub authorization : GoString
  authorization =
      encode w.base64 (record { user = conf.cc_auth_user; password = conf.cc_auth_password })

  fetch_batch-IsWanted :
      (fuel n : ℕ) (token : GoString) (seen : ℕ)
      → All (All IsWanted) (fetch_batch w conf fuel authorization n token seen).batches
  unfolding fetch_batch
  fetch_batch-IsWanted zero n token seen = tt
  fetch_batch-IsWanted (suc fuel) n token seen =
      elim (Option-cases (page_at w conf authorization n token).1) [
        | inl e ↦ rw (fetch_batch, e) tt
        | inr (response, e) ↦ elim (List-cases response.results) [
          | inl empty ↦ rw (fetch_batch, e, empty) tt
          | inr (first, more, full) ↦ elim (Bool-cases (w.is_done_analyzing n)) [
            | inl off ↦ rw (fetch_batch, e, full, off) tt
            | inr on ↦
                rw
                  (fetch_batch-after w conf authorization fuel n token seen response e
                    (rw full (omega arith)) on)
                  (
                    batch_of-IsWanted response,
                    fetch_batch-IsWanted fuel (suc n) (w.token_json response.bulk_token)
                        (seen + length response.results),
                  )
          ]
        ]
      ]

  module _ (limit : ℕ)
      (ends : (token : GoString) (response : DesiredStateServerResponse)
        → (page_at w conf authorization limit token).1 ≡ some response
        → response.results ≡ []) where
    fetch_batch-ends :
        (fuel n : ℕ) (token : GoString) (seen : ℕ)
        → n ≤ limit
        → limit < n + fuel
        → (r : FetchResult) × ((fetch_batch w conf fuel authorization n token seen).result ≡ some r)
    unfolding fetch_batch
    fetch_batch-ends zero n token seen low high = absurd (omega arith)
    fetch_batch-ends (suc fuel) n token seen low high =
        elim (Option-cases (page_at w conf authorization n token).1) [
          | inl e ↦ rw (fetch_batch, e) (_, refl)
          | inr (response, e) ↦ elim (List-cases response.results) [
            | inl empty ↦ rw (fetch_batch, e, empty) (_, refl)
            | inr (first, more, full) ↦ elim (Bool-cases (w.is_done_analyzing n)) [
              | inl off ↦ rw (fetch_batch, e, full, off) (_, refl)
              | inr on ↦
                  rw
                    (fetch_batch-after w conf authorization fuel n token seen response e
                      (rw full (omega arith)) on)
                    (fetch_batch-ends fuel (suc n) (w.token_json response.bulk_token)
                      (seen + length response.results) (sooner response e (rw full (omega arith)))
                      (omega arith))
            ]
          ]
        ]
      where
        equal_or_less : (a b : ℕ) → a ≤ b → (a ≡ b) ⊎ (a < b)
        equal_or_less a b h = omega arith

        sooner :
            (response : DesiredStateServerResponse)
            → (page_at w conf authorization n token).1 ≡ some response
            → 0 < length response.results
            → n < limit
        sooner response e full = elim (equal_or_less n limit low) [
          | inl same ↦
              absurd
                (let empty = ends token response (rw (← same) e) in omega (arith, rw empty at full))
          | inr less ↦ less
        ]

    -- If the answer to the request numbered `limit` has no results, whatever the token, or is no
    -- answer, then a fetch on any fuel beyond `limit` ends with a result.
    pub fetch-ends :
        (fuel : ℕ) → limit < fuel → (r : FetchResult) × ((fetch w conf fuel).result ≡ some r)
    unfolding fetch
    fetch-ends fuel h = fetch_batch-ends fuel 0 initial_bulk_token 0 (omega arith) (omega arith)

  -- If the server has pages with results followed by one without, and the analyzer takes each batch,
  -- then a fetch on any fuel beyond the number of pages succeeds, has queued the batch of each page in
  -- order, and reports the number of results on all pages.
  pub fetch-of-Pages :
      (pages : List DesiredStateServerResponse) (fuel : ℕ)
      → Pages w conf authorization 0 initial_bulk_token pages
      → length pages < fuel
      → fetch w conf fuel
        ≡ record { batches = map batch_of pages; result = some (success (total_results pages)) }
  unfolding fetch
  fetch-of-Pages pages fuel p h =
      Pages-fetch_batch w conf authorization fuel 0 initial_bulk_token 0 pages p h
      ∙ ap (λ n. record { batches = map batch_of pages; result = some (success n) }) (omega arith)

  -- If a fetch ends with success, then the server had pages with results followed by one without, and
  -- the fetch has queued the batch of each page in order and reports the number of their results.
  pub fetch-success :
      (fuel total : ℕ)
      → (fetch w conf fuel).result ≡ some (success total)
      → (pages : List DesiredStateServerResponse) × Pages w conf authorization 0 initial_bulk_token
          pages
        × ((fetch w conf fuel).batches ≡ map batch_of pages)
        × (total ≡ total_results pages)
  unfolding fetch
  fetch-success fuel total h =
      let (pages, p, e) =
        fetch_batch-Pages w conf authorization fuel 0 initial_bulk_token 0 total h in
      (pages, p, ap (λ f. f.batches) e, reported pages e)
    where
      reported :
          (pages : List DesiredStateServerResponse)
          → fetch_batch w conf fuel authorization 0 initial_bulk_token 0
            ≡ whole w conf authorization pages 0
          → total ≡ total_results pages
      reported pages e = ground (
        arith,
        (let r : some (success total) ≡ some (success (0 + total_results pages)) =
              sym h ∙ ap (λ f. f.result) e in
            r),
      )

  -- Every app that a fetch queues, also one that fails or is still going on, has the state "STARTED",
  -- and its package has the state "PENDING" or "STAGED".
  pub fetch-IsWanted : (fuel : ℕ) → All (All IsWanted) (fetch w conf fuel).batches
  unfolding fetch
  fetch-IsWanted fuel = fetch_batch-IsWanted fuel 0 initial_bulk_token 0
