-- ===== src/Manage/Threads/Fetching.antt =====
-- What the fetcher of hm/manage_desired_state.go has queued, wherever it is.
use mathlib.Core.List.{append-nil, append_assoc}
use hm.Prelude.{
  ℕ, zero, suc, ◌+◌, ◌<◌, ◌≡◌, refl, sym, ap, ◌∙◌, inl, inr, Bool, true, false, List, [], ◌∷◌, ◌++◌,
  none, some, length, arith, Option-cases, List-cases,
}
use hm.Prelude.Text.{GoString}
use hm.Fetcher.{
  World, Fetched, success, failure, page_at, batch_of, fetch, fetch_batch, initial_bulk_token,
}
use hm.Fetcher.Pages.{fetch_batch-after}
use hm.Manage.{Parts}
use hm.Manage.Threads.State.{
  Batch, FetcherAt, asking, queueing, fetched, reporting, closing, fetcher_ended,
}
use hm.Manage.Threads.{auth_header, ask_page}

-- The same world, where the analyzer takes every batch.
abbrev pub unhurried : World → World
unhurried w = record w { is_done_analyzing = λ n. false }

abbrev pub prepend : List Batch → Fetched → Fetched
prepend batches rest = record rest { batches = batches ++ rest.batches }

prepend-prepend :
    (bs : List Batch) (b : Batch) (rest : Fetched)
    → prepend bs (prepend (b ∷ []) rest) ≡ prepend (bs ++ (b ∷ [])) rest
prepend-prepend bs b rest =
    λ i. record rest { batches = sym (append_assoc bs (b ∷ []) rest.batches) i }

module _ {S : Type 0} (p : Parts S) where
  abbrev pub whole_fetch : ℕ → Fetched
  whole_fetch fuel = fetch (unhurried p.world) p.analyzer.conf fuel

  -- The fetch from its nth request on.
  abbrev pub fetch_from : ℕ → ℕ → GoString → ℕ → Fetched
  fetch_from fuel n token seen =
      fetch_batch (unhurried p.world) p.analyzer.conf fuel (auth_header p) n token seen

  -- A fetch by itself queues these batches, and goes on like this from here.
  abbrev GoesOn : List Batch → ℕ → GoString → ℕ → Type 0
  GoesOn batches n token seen =
      (fuel : ℕ) → (k : ℕ) × (whole_fetch k ≡ prepend batches (fetch_from fuel n token seen))

  -- A fetch by itself succeeds with these batches.
  abbrev pub Succeeds : List Batch → Type 0
  Succeeds batches =
      (fuel : ℕ) × (total : ℕ) × (whole_fetch fuel
        ≡ record { batches = batches; result = some (success total) })

  abbrev pub IsOpen : Bool → Bool → Type 0
  IsOpen flag is_closed = (flag ≡ false) × (is_closed ≡ false)

  -- By the place of the fetcher: the batches that it has queued, the success flag, and whether the
  -- queue is closed.
  abbrev pub Fetching : FetcherAt → List Batch → Bool → Bool → Type 0
  Fetching (asking n token seen) bs flag is_closed = IsOpen flag is_closed × GoesOn bs n token seen
  Fetching (queueing n response seen) bs flag is_closed =
      IsOpen flag is_closed
      × GoesOn (bs ++ (batch_of response ∷ [])) (suc n) (p.world.token_json response.bulk_token)
          (seen + length response.results)
  Fetching (fetched (success total)) bs flag is_closed = IsOpen flag is_closed × Succeeds bs
  Fetching (fetched (failure f)) bs flag is_closed = IsOpen flag is_closed
  Fetching (reporting none) bs flag is_closed = (flag ≡ true) × (is_closed ≡ false) × Succeeds bs
  Fetching (reporting (some f)) bs flag is_closed = IsOpen flag is_closed
  Fetching closing bs flag is_closed = (is_closed ≡ false) × (flag ≡ true → Succeeds bs)
  Fetching fetcher_ended bs flag is_closed = (is_closed ≡ true) × (flag ≡ true → Succeeds bs)

  pub start-Fetching : Fetching (asking 0 initial_bulk_token 0) [] false false
  unfolding fetch
  start-Fetching = ((refl, refl), λ fuel. (fuel, refl))

  same_page :
      (n : ℕ) (token : GoString)
      → page_at (unhurried p.world) p.analyzer.conf (auth_header p) n token
        ≡ page_at p.world p.analyzer.conf (auth_header p) n token
  unfolding page_at
  same_page n token = refl

  positive : {A : Type 0} (x : A) (xs : List A) → 0 < length (x ∷ xs)
  positive x xs = omega arith

  pub ask_page-Fetching :
      (n : ℕ) (token : GoString) (seen : ℕ) (bs : List Batch) (flag is_closed : Bool)
      → Fetching (asking n token seen) bs flag is_closed
      → Fetching (ask_page p n token seen) bs flag is_closed
  unfolding ask_page fetch_batch
  ask_page-Fetching n token seen bs flag is_closed (closed, goes_on) =
      elim (Option-cases (page_at p.world p.analyzer.conf (auth_header p) n token).1) [
        | inl e ↦ rw (ask_page, e) closed
        | inr (response, e) ↦ elim (List-cases response.results) [
          | inl empty ↦
              let (k, same) = goes_on (suc zero) in
              rw (ask_page, e, empty)
                (
                  closed,
                  (
                    k,
                    seen,
                    same
                        ∙ ap (prepend bs) (rw (fetch_batch, same_page n token, e, empty) (refl))
                        ∙ (λ i. record { batches = append-nil bs i; result = some (success seen) }),
                  ),
                )
          | inr (first, more, full) ↦
              rw (ask_page, e, full)
                (
                  closed,
                  λ fuel.
                      let (k, same) = goes_on (suc fuel) in
                      (
                        k,
                        same
                            ∙ ap (prepend bs) (
                                fetch_batch-after (unhurried p.world) p.analyzer.conf
                                  (auth_header p) fuel n token seen response
                                  (ap (λ page. page.1) (same_page n token) ∙ e)
                                  (rw full (positive first more)) refl)
                            ∙ prepend-prepend bs (batch_of response) _,
                      ),
                )
        ]
      ]
