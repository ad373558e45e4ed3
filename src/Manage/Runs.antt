-- ===== src/Manage/Runs.antt =====
-- What a run of `analyze` in hm/manage_desired_state.go has done when it reports no error, and what it
-- makes requests for.
use hm.Prelude.{
  In, All, All-In, ℕ, ◌≡◌, sym, subst, Bool, true, List, Option, none, some, ok, inl, inr, map,
}
use hm.Prelude.Text.{GoString}
use hm.Prelude.Map.{Map}
use hm.Models.App.{App}
use hm.Models.Pending.{PendingStartMessage, PendingStopMessage}
use hm.Fetcher.{DesiredStateServerResponse, batch_of, initial_bulk_token}
use hm.Fetcher.Pages.{Pages}
use hm.Fetcher.Runs.{authorization}
use hm.Analyzer.Analyze.{analyze}
use hm.Sender.{Request}
use hm.Sender.Requests.{IsCalledFor, send-IsCalledFor}
use hm.Sender.Success.{AllAccepted, send-success}
use hm.Manage.{Parts, ManageError, run_analyze, sender_for}
use hm.Manage.Endings.{analysis, no_error, no_send_error, run_analyze-cases}

module _ {S : Type 0} (p : Parts S) where
  -- If the run ends without an error, then the Cloud Controller had pages with results followed by one
  -- without, the analysis of the batches of exactly these pages succeeded, and every request that the
  -- sender made was answered with status 200.
  pub run_analyze-success :
      (fuel : ℕ) (fetch_first : Bool) (s s' : S) (requests : List Request)
      → run_analyze p fuel fetch_first s ≡ some (s', requests, none)
      → (pages : List DesiredStateServerResponse) × (apps : Map GoString App) × (starts : List
          PendingStartMessage)
        × (stops : List PendingStopMessage) × Pages p.world p.analyzer.conf
            (authorization p.world p.analyzer.conf)
            0
            initial_bulk_token
            pages
        × ((analyze p.store p.analyzer
              (record { desired_apps = map batch_of pages; fetch_desired_apps_success = true })
              s).1
            ≡ ok (apps, starts, stops))
        × AllAccepted (sender_for p apps) requests
  run_analyze-success fuel fetch_first s s' requests done =
      elim (run_analyze-cases p fuel fetch_first s s' requests none done) [
        | inl (e, failed, nothing) ↦ absurd (no_error p e (sym failed))
        | inr (pages, apps, starts, stops, (got, analyzed, made, fine)) ↦
            let accepted =
              send-success p.store p.add_to_counter p.sorting (sender_for p apps) starts stops
                (analysis p s pages).0 (no_send_error p _ fine) in
            (
              pages,
              apps,
              starts,
              stops,
              got,
              analyzed,
              subst (AllAccepted (sender_for p apps)) made accepted.1,
            )
      ]

  -- Every request that a run makes, whatever error it may report, is the start or the stop of a message
  -- of the analysis of the pages of the Cloud Controller, which are all that come before one without
  -- results: a message that is due when the sender runs, and that skips verification or starts an index
  -- of the app where the snapshot of this analysis has a gap, or that stops an instance which is not
  -- desired there, is being evacuated, or is one of several at its index.
  pub run_analyze-IsCalledFor :
      (fuel : ℕ) (fetch_first : Bool) (s s' : S) (requests : List Request)
      (error : Option ManageError) (q : Request)
      → run_analyze p fuel fetch_first s ≡ some (s', requests, error)
      → In q requests
      → (pages : List DesiredStateServerResponse) × (apps : Map GoString App) × (starts : List
          PendingStartMessage)
        × (stops : List PendingStopMessage) × Pages p.world p.analyzer.conf
            (authorization p.world p.analyzer.conf)
            0
            initial_bulk_token
            pages
        × ((analyze p.store p.analyzer
              (record { desired_apps = map batch_of pages; fetch_desired_apps_success = true })
              s).1
            ≡ ok (apps, starts, stops))
        × IsCalledFor (sender_for p apps) starts stops q
  run_analyze-IsCalledFor fuel fetch_first s s' requests error q done made =
      elim (run_analyze-cases p fuel fetch_first s s' requests error done) [
        | inl (e, failed, nothing) ↦ absurd (subst (In q) nothing made)
        | inr (pages, apps, starts, stops, (got, analyzed, same, outcome)) ↦
            let called =
              send-IsCalledFor p.store p.add_to_counter p.sorting (sender_for p apps) starts stops
                (analysis p s pages).0 in
            (
              pages,
              apps,
              starts,
              stops,
              got,
              analyzed,
              All-In (IsCalledFor (sender_for p apps) starts stops) requests q
                  (subst (All (IsCalledFor (sender_for p apps) starts stops)) same called) made,
            )
      ]
