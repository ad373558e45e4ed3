-- ===== src/Manage/Threads/Decrease.antt =====
-- Each turn of a goroutine of `analyze` in hm/manage_desired_state.go changes nothing or leaves less to do.
use hm.Prelude.{
  ℕ, ◌+◌, ◌-◌, ◌*◌, ◌≤◌, ◌<◌, ◌≡◌, refl, sym, ap, subst, ◌⊎◌, inl, inr, Bool, List, [], ◌∷◌, some,
  Result, ok, err, length, length-append, arith, Option-cases, List-cases,
}
use hm.Prelude.Text.{GoString}
use hm.Prelude.Map.{Map}
use hm.Store.Interface.{StoreError}
use hm.Models.Pending.{PendingStartMessage, PendingStopMessage}
use hm.Fetcher.{DesiredStateServerResponse, page_at, batch_of, success, failure}
use hm.Analyzer.Analyze.{Analyzing, analyzing}
use hm.Manage.{Parts}
use hm.Manage.Threads.State.{
  Batch, FetcherAt, asking, queueing, fetched, reporting, closing, fetcher_ended, AnalyzerAt,
  verifying, getting_apps, getting_starts, getting_stops, draining, analyzed, reported,
  analyzer_ended, MainAt, selecting, sending, returned, System, Case, of_fetch, of_analysis,
  of_output, ThreadTurn, fetcher_moves, analyzer_moves, main_moves,
}
use hm.Manage.Threads.{
  auth_header, fetcher_turn, ask_page, next_page, analyzer_turn, analysis_returns, after_read,
  after_check, drain, main_turn, receive_fetch, receive_analysis, receive_output, turn,
}
use hm.Manage.Threads.Moves.{queue_batch-cases}
use hm.Manage.Threads.Measure.{
  fetcher_left, IsWithin, Falls, analyzer-Falls, main-Falls, unread_bound,
}

module _ {S : Type 0} (p : Parts S) (limit : ℕ) where
  after_read-fetcher :
      {A : Type 0} (o : Result StoreError A) (go_on : A → AnalyzerAt) (s : S) (t : System S)
      → (after_read p o go_on s t).fetcher ≡ t.fetcher
  unfolding after_read analysis_returns
  after_read-fetcher (err e) go_on s t = refl
  after_read-fetcher (ok a) go_on s t = refl

  drain-fetcher :
      (starts : Map GoString PendingStartMessage) (stops : Map GoString PendingStopMessage)
      → (z : Analyzing) (batches : List Batch) (t : System S)
      → (drain p starts stops z batches t).fetcher ≡ t.fetcher
  unfolding drain analysis_returns
  drain-fetcher starts stops z (b ∷ bs) t = refl
  drain-fetcher starts stops z [] t = ground arith

  analyzer_turn-fetcher :
      (at : AnalyzerAt) (t : System S) → (analyzer_turn p at t).fetcher ≡ t.fetcher
  unfolding analyzer_turn after_check analysis_returns
  analyzer_turn-fetcher verifying t = ground arith
  analyzer_turn-fetcher getting_apps t = after_read-fetcher _ getting_starts _ t
  analyzer_turn-fetcher (getting_starts apps) t = after_read-fetcher _ (getting_stops apps) _ t
  analyzer_turn-fetcher (getting_stops apps starts) t =
      after_read-fetcher _ (λ found. draining starts found (analyzing p.analyzer starts found apps))
        _ t
  analyzer_turn-fetcher (draining starts stops z) t = drain-fetcher starts stops z t.desired_apps t
  analyzer_turn-fetcher (analyzed r) t = refl
  analyzer_turn-fetcher (reported r) t = refl
  analyzer_turn-fetcher analyzer_ended t = refl

  main_turn-fetcher :
      (main : MainAt) (c : Case) (t : System S) → (main_turn p main c t).fetcher ≡ t.fetcher
  unfolding main_turn receive_fetch receive_analysis receive_output
  main_turn-fetcher selecting of_fetch t = ground arith
  main_turn-fetcher selecting of_analysis t = ground arith
  main_turn-fetcher selecting of_output t = ground arith
  main_turn-fetcher (sending (apps, starts, stops)) c t = refl
  main_turn-fetcher (returned error) c t = refl

  module _
      (ends : (token : GoString) (response : DesiredStateServerResponse)
        → (page_at p.world p.analyzer.conf (auth_header p) limit token).1 ≡ some response
        → response.results ≡ []) where
    before_limit :
        (n : ℕ) (token : GoString) (response : DesiredStateServerResponse)
        → n ≤ limit
        → (page_at p.world p.analyzer.conf (auth_header p) n token).1 ≡ some response
        → 0 < length response.results
        → n < limit
    before_limit n token response low got full = elim (equal_or_less n limit low) [
      | inl same ↦
          absurd
            (let empty = ends token response (rw (← same) got) in omega (arith, rw empty at full))
      | inr less ↦ less
    ]
      where
        equal_or_less : (a b : ℕ) → a ≤ b → (a ≡ b) ⊎ (a < b)
        equal_or_less a b h = omega arith

    positive : {A : Type 0} (x : A) (xs : List A) → 0 < length (x ∷ xs)
    positive x xs = omega arith

    ask_page-Falls :
        (n : ℕ) (token : GoString) (seen : ℕ)
        → n ≤ limit
        → IsWithin p limit (ask_page p n token seen)
          × (fetcher_left p limit (ask_page p n token seen) < 4 * (limit - n) + 8)
    unfolding ask_page
    ask_page-Falls n token seen low =
        elim (Option-cases (page_at p.world p.analyzer.conf (auth_header p) n token).1) [
          | inl e ↦ rw (ask_page, e) (tt, omega arith)
          | inr (response, e) ↦ elim (List-cases response.results) [
            | inl empty ↦ rw (ask_page, e, empty) (tt, omega arith)
            | inr (first, more, full) ↦
                rw (ask_page, e, full)
                  (before_limit n token response low e (rw full (positive first more)), omega arith)
          ]
        ]

    pub fetcher-Falls :
        (b : Bool) (at : FetcherAt) (t : System S)
        → t.fetcher ≡ at
        → IsWithin p limit at
        → IsWithin p limit (fetcher_turn p b at t).fetcher × Falls p limit t (fetcher_turn p b at t)
    unfolding fetcher_turn next_page
    fetcher-Falls b (asking n token seen) t e low =
        let (within, less) = ask_page-Falls n token seen low in
        (within, inr (omega (arith, ap (fetcher_left p limit) e, less)))
    fetcher-Falls b (queueing n response seen) t e low =
        elim (queue_batch-cases p t.state b n response seen t) [
          | inl stopped ↦ rw stopped (tt, inr (omega (arith, ap (fetcher_left p limit) e)))
          | inr (inl queued) ↦
              subst (λ u. IsWithin p limit u.fetcher × Falls p limit t u) (sym queued)
                (
                  omega (arith, low),
                  inr (
                      omega (
                        arith,
                        ap (fetcher_left p limit) e,
                        length-append {0} t.desired_apps (batch_of response ∷ []),
                        low,
                      )),
                )
          | inr (inr blocked) ↦ (rw (blocked, e) low, inl blocked)
        ]
    fetcher-Falls b (fetched (success total)) t e low =
        (tt, inr (omega (arith, ap (fetcher_left p limit) e)))
    fetcher-Falls b (fetched (failure f)) t e low =
        (tt, inr (omega (arith, ap (fetcher_left p limit) e)))
    fetcher-Falls b (reporting error) t e low = (
      tt,
      inr (omega (arith, ap (fetcher_left p limit) e, unread_bound p limit t.fetch_desired_err)),
    )
    fetcher-Falls b closing t e low = (tt, inr (omega (arith, ap (fetcher_left p limit) e)))
    fetcher-Falls b fetcher_ended t e low = (rw e tt, inl refl)

    pub turn-Falls :
        (m : ThreadTurn) (t : System S)
        → IsWithin p limit t.fetcher
        → IsWithin p limit (turn p m t).fetcher × Falls p limit t (turn p m t)
    unfolding turn
    turn-Falls (fetcher_moves b) t low = fetcher-Falls b t.fetcher t refl low
    turn-Falls analyzer_moves t low = (
      subst (IsWithin p limit) (sym (analyzer_turn-fetcher t.analyzer t)) low,
      analyzer-Falls p limit t.analyzer t refl,
    )
    turn-Falls (main_moves c) t low = (
      subst (IsWithin p limit) (sym (main_turn-fetcher t.main c t)) low,
      main-Falls p limit t.main c t refl,
    )
