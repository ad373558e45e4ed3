-- ===== src/Manage/Endings.antt =====
-- How a run of `analyze` in hm/manage_desired_state.go ends: what it does when the fetch fails, and what
-- has happened when the sender has run.
use hm.Prelude.{
  ℕ, ◌≡◌, refl, sym, ap, subst, ◌∙◌, ◌⊎◌, Bool, true, List, [], Option, none, some, Result, ok, err,
  inl, inr, map, arith,
}
use hm.Prelude.Text.{GoString}
use hm.Prelude.Map.{Map}
use hm.Models.App.{App}
use hm.Models.Desired.{DesiredAppState}
use hm.Models.Pending.{PendingStartMessage, PendingStopMessage}
use hm.Fetcher.{
  FetchError, FetchResult, DesiredStateServerResponse, success, failure, fetch, batch_of,
  initial_bulk_token,
}
use hm.Fetcher.Pages.{Pages}
use hm.Fetcher.Runs.{fetch-success, authorization}
use hm.Analyzer.Analyze.{analyze, Analyzed, AnalyzeError}
use hm.Analyzer.Analyze.Removal.{failed_fetch_saves_nothing}
use hm.Sender.{Request, new_sending, send, SendError}
use hm.Manage.{
  Parts, ManageError, run_analyze, after_fetch, queue_of, sender_for, first_error, send_error_of,
  send_error,
}

Result-cases : {E A : Type 0} (r : Result E A) → ((e : E) × (r ≡ err e)) ⊎ ((a : A) × (r ≡ ok a))
Result-cases (err e) = inl (e, refl)
Result-cases (ok a) = inr (a, refl)

module _ {S : Type 0} (p : Parts S) where
  abbrev Ended : Type 0
  Ended = S × List Request × Option ManageError

  abbrev error_of : Option Ended → Option ManageError
  error_of none = none
  error_of (some (s, requests, e)) = e

  abbrev requests_of : Option Ended → List Request
  requests_of none = []
  requests_of (some (s, requests, e)) = requests

  pub no_error : (e : ManageError) → ◌≡◌ {A = Option ManageError} (some e) none → ⊥
  no_error e q = ground (arith, q)

  not_none : (t : Ended) → ◌≡◌ {A = Option Ended} none (some t) → ⊥
  not_none t q = ground (arith, q)

  pub no_send_error : (o : Option SendError) → send_error_of p o ≡ none → o ≡ none
  unfolding send_error_of
  no_send_error none q = refl
  no_send_error (some e) q = absurd (no_error (send_error e) q)

  -- If the fetch fails, then the run makes no request and reports an error, and the store is as it was
  -- after one of the four reads that the analyzer begins with: nothing has been saved.
  run_analyze-failed :
      (fuel : ℕ) (fetch_first : Bool) (s : S) (f : FetchError)
      → (fetch p.world p.analyzer.conf fuel).result ≡ some (failure f)
      → let s1 = (p.store.verify_freshness (p.analyzer.clock 0) s).0 in
        let s2 = (p.store.get_apps s1).0 in
        let s3 = (p.store.get_pending_start_messages s2).0 in
        let s4 = (p.store.get_pending_stop_messages s3).0 in
        (s' : S) × (e : ManageError) × (run_analyze p fuel fetch_first s ≡ some (s', [], some e))
        × (s' ≡ s1 ⊎ s' ≡ s2 ⊎ s' ≡ s3 ⊎ s' ≡ s4)
  unfolding run_analyze after_fetch queue_of
  run_analyze-failed fuel fetch_first s f failed =
      let queue = queue_of p (fetch p.world p.analyzer.conf fuel).batches (failure f) in
      let (kept, no_result) = failed_fetch_saves_nothing p.store p.analyzer queue s refl in
      elim (Result-cases (analyze p.store p.analyzer queue s).1) [
        | inl (e, analyzed) ↦ (
          (analyze p.store p.analyzer queue s).0,
          first_error p fetch_first (failure f) e,
          rw (run_analyze, failed, after_fetch, analyzed) refl,
          kept,
        )
        | inr (r, analyzed) ↦ absurd (no_result r analyzed)
      ]

  module _ (s : S) (pages : List DesiredStateServerResponse) where
    -- The Cloud Controller had these pages with results, and then one without.
    abbrev pub WerePages : Type 0
    WerePages =
        Pages p.world p.analyzer.conf (authorization p.world p.analyzer.conf) 0 initial_bulk_token
          pages

    abbrev pub analysis : S × Result AnalyzeError (Analyzed p.store p.analyzer)
    analysis =
        analyze p.store p.analyzer
          (record { desired_apps = map batch_of pages; fetch_desired_apps_success = true }) s

    -- The analysis of all pages gave these, with which the sender then made the requests and gave the
    -- error.
    abbrev pub HasSent :
        Map GoString App
        → List PendingStartMessage
        → List PendingStopMessage
        → List Request
        → Option ManageError
        → Type 0
    HasSent apps starts stops requests error =
        let sent =
          send p.store p.add_to_counter p.sorting (sender_for p apps) starts stops new_sending
            analysis.0 in
        WerePages
        × (analysis.1 ≡ ok (apps, starts, stops))
        × (sent.1.requests ≡ requests)
        × (send_error_of p sent.2 ≡ error)

  abbrev pub SomeSent : S → List Request → Option ManageError → Type 0
  SomeSent s requests error =
      (pages : List DesiredStateServerResponse) × (apps : Map GoString App) × (starts : List
        PendingStartMessage)
      × (stops : List PendingStopMessage) × HasSent s pages apps starts stops requests error

  -- A run that has ended has sent, or has made no request and reports an error.
  pub run_analyze-cases :
      (fuel : ℕ) (fetch_first : Bool) (s s' : S) (requests : List Request)
      (error : Option ManageError)
      → run_analyze p fuel fetch_first s ≡ some (s', requests, error)
      → ((e : ManageError) × (error ≡ some e) × (requests ≡ [])) ⊎ SomeSent s requests error
  unfolding run_analyze after_fetch queue_of
  run_analyze-cases fuel fetch_first s s' requests error done =
      by_result (fetch p.world p.analyzer.conf fuel).result refl
    where
      batches : List (List DesiredAppState)
      batches = (fetch p.world p.analyzer.conf fuel).batches

      Conclusion : Type 0
      Conclusion =
          ((e : ManageError) × (error ≡ some e) × (requests ≡ [])) ⊎ SomeSent s requests error

      by_analysis :
          (n : ℕ)
          → (fetch p.world p.analyzer.conf fuel).result ≡ some (success n)
          → (pages : List DesiredStateServerResponse) → WerePages s pages
          → batches ≡ map batch_of pages
          → (r : Result AnalyzeError (Analyzed p.store p.analyzer))
          → (analyze p.store p.analyzer (queue_of p batches (success n)) s).1 ≡ r
          → Conclusion
      by_analysis n ended pages got same (err e) analyzed = inl (
        first_error p fetch_first (success n) e,
        sym (rw (run_analyze, ended, after_fetch, analyzed) at (ap error_of done)),
        sym (rw (run_analyze, ended, after_fetch, analyzed) at (ap requests_of done)),
      )
      by_analysis n ended pages got same (ok (apps, starts, stops)) analyzed = inr (
        pages,
        apps,
        starts,
        stops,
        subst
            (λ bs.
              let (s1, r) =
                analyze p.store p.analyzer
                  (record { desired_apps = bs; fetch_desired_apps_success = true }) s in
              let sent =
                send p.store p.add_to_counter p.sorting (sender_for p apps) starts stops new_sending
                  s1 in
              WerePages s pages
              × (r ≡ ok (apps, starts, stops))
              × (sent.1.requests ≡ requests)
              × (send_error_of p sent.2 ≡ error))
            same
            (
              got,
              analyzed,
              rw (run_analyze, ended, after_fetch, analyzed) at (ap requests_of done),
              rw (run_analyze, ended, after_fetch, analyzed) at (ap error_of done),
            ),
      )

      by_result :
          (o : Option FetchResult) → (fetch p.world p.analyzer.conf fuel).result ≡ o → Conclusion
      by_result none ended = absurd (not_none _ (rw (run_analyze, ended) at done))
      by_result (some (failure f)) ended =
          let (s'', e, run, kept) = run_analyze-failed fuel fetch_first s f ended in
          inl (e, ap error_of (sym done ∙ run), ap requests_of (sym done ∙ run))
      by_result (some (success n)) ended =
          let (pages, got, same, total) = fetch-success p.world p.analyzer.conf fuel n ended in
          by_analysis n ended pages got same
            (analyze p.store p.analyzer (queue_of p batches (success n)) s).1 refl
