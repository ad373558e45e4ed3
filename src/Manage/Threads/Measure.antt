-- ===== src/Manage/Threads/Measure.antt =====
-- How much is left to do for the goroutines of `analyze` in hm/manage_desired_state.go, if the Cloud
-- Controller has no results from some request on.
use hm.Prelude.{
  ℕ, ◌+◌, ◌-◌, ◌*◌, ◌≤◌, ◌<◌, ◌≡◌, refl, ap, ◌⊎◌, inl, inr, Bool, true, false, List, [], ◌∷◌,
  Option, none, some, Result, ok, err, length, arith, if◌then◌else◌,
}
use hm.Prelude.Text.{GoString}
use hm.Prelude.Map.{Map}
use hm.Store.Interface.{StoreError, Outcome}
use hm.Models.Pending.{PendingStartMessage, PendingStopMessage}
use hm.Fetcher.{FetchError}
use hm.Analyzer.Analyze.{AnalyzeError, Analyzing, analyzing}
use hm.Manage.{Parts}
use hm.Manage.Threads.State.{
  Batch, AnalyzeOutput, FetcherAt, asking, queueing, fetched, reporting, closing, fetcher_ended,
  AnalyzerAt, verifying, getting_apps, getting_starts, getting_stops, draining, analyzed, reported,
  analyzer_ended, MainAt, selecting, sending, returned, System, Case, of_fetch, of_analysis,
  of_output,
}
use hm.Manage.Threads.{
  analyzer_turn, analysis_returns, after_read, after_check, drain, conclude, main_turn,
  receive_fetch, receive_analysis, receive_output,
}

abbrev pub analyzer_left : AnalyzerAt → ℕ
analyzer_left verifying = 9
analyzer_left getting_apps = 8
analyzer_left (getting_starts apps) = 7
analyzer_left (getting_stops apps starts) = 6
analyzer_left (draining starts stops z) = 5
analyzer_left (analyzed r) = 4
analyzer_left (reported r) = 2
analyzer_left analyzer_ended = 0

abbrev pub main_left : MainAt → ℕ
main_left selecting = 2
main_left (sending out) = 1
main_left (returned error) = 0

abbrev pub unread {ℓ} : {A : Type ℓ} → Option A → ℕ
unread none = 0
unread (some a) = 1

module _ {S : Type 0} (p : Parts S) (limit : ℕ) where
  abbrev pub fetcher_left : FetcherAt → ℕ
  fetcher_left (asking n token seen) = 4 * (limit - n) + 8
  fetcher_left (queueing n response seen) = 4 * (limit - n) + 7
  fetcher_left (fetched r) = 5
  fetcher_left (reporting e) = 4
  fetcher_left closing = 1
  fetcher_left fetcher_ended = 0

  -- The fetcher has not passed the request that ends it.
  abbrev pub IsWithin : FetcherAt → Type 0
  IsWithin (asking n token seen) = n ≤ limit
  IsWithin (queueing n response seen) = n < limit
  IsWithin (fetched r) = Unit
  IsWithin (reporting e) = Unit
  IsWithin closing = Unit
  IsWithin fetcher_ended = Unit

  abbrev pub left : System S → ℕ
  left t =
      fetcher_left t.fetcher
      + length t.desired_apps
      + analyzer_left t.analyzer
      + main_left t.main
      + unread t.fetch_desired_err
      + unread t.analyze_state_err
      + unread t.analyze_state_output

  -- A turn changes nothing, or leaves less to do.
  abbrev pub Falls : System S → System S → Type 0
  Falls t u = u ≡ t ⊎ left u < left t

  pub unread_bound {ℓ} : {A : Type ℓ} (o : Option A) → unread o ≤ 1
  unread_bound none = omega arith
  unread_bound (some a) = omega arith

  returns-Falls :
      (s : S) (r : Result AnalyzeError AnalyzeOutput) (t : System S)
      → 4 < analyzer_left t.analyzer
      → Falls t (analysis_returns p s r t)
  unfolding analysis_returns
  returns-Falls s r t more = inr (omega (arith, more))

  after_read-Falls :
      {A : Type 0} (o : Result StoreError A) (go_on : A → AnalyzerAt) (s : S) (t : System S)
      → 4 < analyzer_left t.analyzer
      → ((a : A) → analyzer_left (go_on a) < analyzer_left t.analyzer)
      → Falls t (after_read p o go_on s t)
  unfolding after_read
  after_read-Falls (err e) go_on s t more less = returns-Falls s _ t more
  after_read-Falls (ok a) go_on s t more less = inr (omega (arith, less a))

  after_check-Falls :
      (o : Outcome) (s : S) (t : System S)
      → 8 < analyzer_left t.analyzer
      → Falls t (after_check p o s t)
  unfolding after_check
  after_check-Falls (some e) s t more = returns-Falls s _ t (omega (arith, more))
  after_check-Falls none s t more = inr (omega (arith, more))

  drain-Falls :
      (starts : Map GoString PendingStartMessage) (stops : Map GoString PendingStopMessage)
      → (z : Analyzing) (batches : List Batch) (t : System S) → t.analyzer ≡ draining starts stops z
      → t.desired_apps ≡ batches
      → Falls t (drain p starts stops z batches t)
  unfolding drain
  drain-Falls starts stops z (b ∷ bs) t e same =
      inr (omega (arith, ap analyzer_left e, ap (length {A = Batch}) same))
  drain-Falls starts stops z [] t e same = once_closed t.is_closed
    where
      finished : System S
      finished =
          analysis_returns p (conclude p starts stops t.fetch_desired_apps_success z t.state).0
            (conclude p starts stops t.fetch_desired_apps_success z t.state).1 t

      once_closed : (b : Bool) → Falls t (if b then finished else t)
      once_closed true = returns-Falls _ _ t (omega (arith, ap analyzer_left e))
      once_closed false = inl refl

  pub analyzer-Falls :
      (at : AnalyzerAt) (t : System S) → t.analyzer ≡ at → Falls t (analyzer_turn p at t)
  unfolding analyzer_turn
  analyzer-Falls verifying t e =
      let read = p.store.verify_freshness (p.analyzer.clock 0) t.state in
      after_check-Falls read.1 read.0 t (omega (arith, ap analyzer_left e))
  analyzer-Falls getting_apps t e =
      let read = p.store.get_apps t.state in
      after_read-Falls read.1 getting_starts read.0 t (omega (arith, ap analyzer_left e))
        (λ a. omega (arith, ap analyzer_left e))
  analyzer-Falls (getting_starts apps) t e =
      let read = p.store.get_pending_start_messages t.state in
      after_read-Falls read.1 (getting_stops apps) read.0 t (omega (arith, ap analyzer_left e))
        (λ a. omega (arith, ap analyzer_left e))
  analyzer-Falls (getting_stops apps starts) t e =
      let read = p.store.get_pending_stop_messages t.state in
      after_read-Falls read.1
        (λ found. draining starts found (analyzing p.analyzer starts found apps)) read.0 t
        (omega (arith, ap analyzer_left e)) (λ a. omega (arith, ap analyzer_left e))
  analyzer-Falls (draining starts stops z) t e = drain-Falls starts stops z t.desired_apps t e refl
  analyzer-Falls (analyzed r) t e =
      inr (omega (arith, ap analyzer_left e, unread_bound t.analyze_state_err))
  analyzer-Falls (reported r) t e =
      inr (omega (arith, ap analyzer_left e, unread_bound t.analyze_state_output))
  analyzer-Falls analyzer_ended t e = inl refl

  pub main-Falls :
      (main : MainAt) (c : Case) (t : System S) → t.main ≡ main → Falls t (main_turn p main c t)
  unfolding main_turn
  main-Falls selecting of_fetch t e = by_mail t.fetch_desired_err refl
    where
      by_mail :
          (mail : Option (Option FetchError))
          → t.fetch_desired_err ≡ mail
          → Falls t (receive_fetch p mail t)
      by_mail none same = inl refl
      by_mail (some none) same = inr (omega (arith, ap (unread {A = Option FetchError}) same))
      by_mail (some (some f)) same =
          inr (omega (arith, ap main_left e, ap (unread {A = Option FetchError}) same))
  main-Falls selecting of_analysis t e = by_mail t.analyze_state_err refl
    where
      by_mail :
          (mail : Option (Option AnalyzeError))
          → t.analyze_state_err ≡ mail
          → Falls t (receive_analysis p mail t)
      by_mail none same = inl refl
      by_mail (some none) same = inr (omega (arith, ap (unread {A = Option AnalyzeError}) same))
      by_mail (some (some f)) same =
          inr (omega (arith, ap main_left e, ap (unread {A = Option AnalyzeError}) same))
  main-Falls selecting of_output t e = by_mail t.analyze_state_output refl
    where
      by_mail :
          (mail : Option (Option AnalyzeOutput))
          → t.analyze_state_output ≡ mail
          → Falls t (receive_output p mail t)
      by_mail none same = inl refl
      by_mail (some none) same = inr (omega (arith, ap (unread {A = Option AnalyzeOutput}) same))
      by_mail (some (some out)) same =
          inr (omega (arith, ap main_left e, ap (unread {A = Option AnalyzeOutput}) same))
  main-Falls (sending (apps, starts, stops)) c t e = inr (omega (arith, ap main_left e))
  main-Falls (returned error) c t e = inl refl
