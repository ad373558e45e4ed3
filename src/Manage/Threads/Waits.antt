-- ===== src/Manage/Threads/Waits.antt =====
-- Where the goroutines of `analyze` in hm/manage_desired_state.go cannot move.
use hm.Prelude.{
  ℕ, ◌≡◌, refl, ap, ◌∙◌, ◌⊎◌, inl, inr, Bool, true, false, List, [], ◌∷◌, ◌++◌, Option, none, some,
  Result, ok, err, length, arith, Option-cases, List-cases, if◌then◌else◌,
}
use hm.Prelude.Text.{GoString}
use hm.Prelude.Map.{Map}
use hm.Store.Interface.{StoreError, Outcome}
use hm.Models.Pending.{PendingStartMessage, PendingStopMessage}
use hm.Fetcher.{page_at, batch_of, not_analyzing, success, failure}
use hm.Analyzer.Analyze.{AnalyzeError, Analyzing, analyzing}
use hm.Manage.{Parts, ManageError}
use hm.Manage.Threads.State.{
  Batch, AnalyzeOutput, FetcherAt, asking, queueing, fetched, reporting, closing, fetcher_ended,
  AnalyzerAt, verifying, getting_apps, getting_starts, getting_stops, draining, analyzed, reported,
  analyzer_ended, MainAt, selecting, sending, returned, System, of_analysis, of_output, has_room,
}
use hm.Manage.Threads.{
  auth_header, fetcher_turn, ask_page, next_page, queue_batch, analyzer_turn, analysis_returns,
  after_read, after_check, drain, conclude, main_turn, receive_analysis, receive_output,
}
use hm.Manage.Threads.Live.{HasError, HasOutput}

module _ {S : Type 0} (p : Parts S) where
  ask_page-moves :
      (n : ℕ) (token : GoString) (seen : ℕ) → ask_page p n token seen ≡ asking n token seen → ⊥
  unfolding ask_page
  ask_page-moves n token seen k =
      elim (Option-cases (page_at p.world p.analyzer.conf (auth_header p) n token).1) [
        | inl e ↦ absurd (ground (arith, (rw (ask_page, e) at k)))
        | inr (response, e) ↦ elim (List-cases response.results) [
          | inl empty ↦ absurd (ground (arith, (rw (ask_page, e, empty) at k)))
          | inr (first, more, full) ↦ absurd (ground (arith, (rw (ask_page, e, full) at k)))
        ]
      ]

  -- A fetcher that cannot move has ended, or waits for room while the analyzer is at work.
  pub fetcher_waits :
      (b : Bool) (at : FetcherAt) (t : System S)
      → t.fetcher ≡ at
      → fetcher_turn p b at t ≡ t
      → at ≡ fetcher_ended ⊎ ((has_room t.desired_apps ≡ false) × (t.done_analyzing ≡ false))
  unfolding fetcher_turn queue_batch next_page
  fetcher_waits b (asking n token seen) t e k =
      absurd (ask_page-moves n token seen (ap (λ u. u.fetcher) k ∙ e))
  fetcher_waits b (queueing n response seen) t e k =
      inr (by_room (has_room t.desired_apps) t.done_analyzing b k)
    where
      stopped : System S
      stopped = record t { fetcher = fetched (failure not_analyzing) }

      queued : System S
      queued = record t {
        fetcher = next_page p n response seen;
        desired_apps = t.desired_apps ++ (batch_of response ∷ []);
      }

      is_queueing : (u : System S) → u ≡ t → u.fetcher ≡ queueing n response seen
      is_queueing u k = ap (λ v. v.fetcher) k ∙ e

      by_room :
          (room done prefers : Bool)
          → (if room
              then (if done then (if prefers then stopped else queued) else queued)
              else if done
              then stopped
              else t)
            ≡ t
          → (room ≡ false) × (done ≡ false)
      by_room true true true k = absurd (ground (arith, is_queueing stopped k))
      by_room true true false k = absurd (ground (arith, is_queueing queued k))
      by_room true false prefers k = absurd (ground (arith, is_queueing queued k))
      by_room false true prefers k = absurd (ground (arith, is_queueing stopped k))
      by_room false false prefers k = (refl, refl)
  fetcher_waits b (fetched (success total)) t e k =
      absurd (ground (arith, ap (λ u. u.fetcher) k, e))
  fetcher_waits b (fetched (failure f)) t e k = absurd (ground (arith, ap (λ u. u.fetcher) k, e))
  fetcher_waits b (reporting f) t e k = absurd (ground (arith, ap (λ u. u.fetcher) k, e))
  fetcher_waits b closing t e k = absurd (ground (arith, ap (λ u. u.fetcher) k, e))
  fetcher_waits b fetcher_ended t e k = inl refl

  returns-moves :
      (s : S) (r : Result AnalyzeError AnalyzeOutput) (t : System S)
      → analysis_returns p s r t ≡ t
      → analyzed r ≡ t.analyzer
  unfolding analysis_returns
  returns-moves s r t k = ap (λ u. u.analyzer) k

  after_read-moves :
      {A : Type 0} (o : Result StoreError A) (go_on : A → AnalyzerAt) (s : S) (t : System S)
      → after_read p o go_on s t ≡ t
      → ((r : Result AnalyzeError AnalyzeOutput) × (analyzed r ≡ t.analyzer))
        ⊎ ((a : A) × (go_on a ≡ t.analyzer))
  unfolding after_read
  after_read-moves (err e) go_on s t k = inl (_, returns-moves s _ t k)
  after_read-moves (ok a) go_on s t k = inr (a, ap (λ u. u.analyzer) k)

  after_check-moves :
      (o : Outcome) (s : S) (t : System S)
      → after_check p o s t ≡ t
      → ((r : Result AnalyzeError AnalyzeOutput) × (analyzed r ≡ t.analyzer))
        ⊎ (getting_apps ≡ t.analyzer)
  unfolding after_check
  after_check-moves (some e) s t k = inl (_, returns-moves s _ t k)
  after_check-moves none s t k = inr (ap (λ u. u.analyzer) k)

  shorter : (b : Batch) (bs : List Batch) → bs ≡ b ∷ bs → ⊥
  shorter b bs k = omega (arith, ap (length {A = Batch}) k)

  drain_waits :
      (starts : Map GoString PendingStartMessage) (stops : Map GoString PendingStopMessage)
      → (z : Analyzing) (batches : List Batch) (t : System S) → t.analyzer ≡ draining starts stops z
      → t.desired_apps ≡ batches
      → drain p starts stops z batches t ≡ t
      → (t.desired_apps ≡ []) × (t.is_closed ≡ false)
  unfolding drain
  drain_waits starts stops z (b ∷ bs) t e same k =
      absurd (shorter b bs (ap (λ u. u.desired_apps) k ∙ same))
  drain_waits starts stops z [] t e same k = (same, once_open t.is_closed k)
    where
      finished : System S
      finished =
          analysis_returns p (conclude p starts stops t.fetch_desired_apps_success z t.state).0
            (conclude p starts stops t.fetch_desired_apps_success z t.state).1 t

      once_open : (b : Bool) → (if b then finished else t) ≡ t → b ≡ false
      once_open true k = absurd (ground (arith, returns-moves _ _ t k, e))
      once_open false k = refl

  -- An analyzer that cannot move has ended, or waits for a batch of an open queue.
  pub analyzer_waits :
      (at : AnalyzerAt) (t : System S)
      → t.analyzer ≡ at
      → analyzer_turn p at t ≡ t
      → at ≡ analyzer_ended ⊎ ((t.desired_apps ≡ []) × (t.is_closed ≡ false))
  unfolding analyzer_turn
  analyzer_waits verifying t e k =
      let read = p.store.verify_freshness (p.analyzer.clock 0) t.state in
      elim (after_check-moves read.1 read.0 t k) [
        | inl (r, m) ↦ absurd (ground (arith, m, e))
        | inr m ↦ absurd (ground (arith, m, e))
      ]
  analyzer_waits getting_apps t e k =
      let read = p.store.get_apps t.state in
      elim (after_read-moves read.1 getting_starts read.0 t k) [
        | inl (r, m) ↦ absurd (ground (arith, m, e))
        | inr (a, m) ↦ absurd (ground (arith, m, e))
      ]
  analyzer_waits (getting_starts apps) t e k =
      let read = p.store.get_pending_start_messages t.state in
      elim (after_read-moves read.1 (getting_stops apps) read.0 t k) [
        | inl (r, m) ↦ absurd (ground (arith, m, e))
        | inr (a, m) ↦ absurd (ground (arith, m, e))
      ]
  analyzer_waits (getting_stops apps starts) t e k =
      let read = p.store.get_pending_stop_messages t.state in
      elim (after_read-moves read.1
        (λ found. draining starts found (analyzing p.analyzer starts found apps)) read.0 t k) [
          | inl (r, m) ↦ absurd (ground (arith, m, e))
          | inr (a, m) ↦ absurd (ground (arith, m, e))
        ]
  analyzer_waits (draining starts stops z) t e k =
      inr (drain_waits starts stops z t.desired_apps t e refl k)
  analyzer_waits (analyzed r) t e k = absurd (ground (arith, ap (λ u. u.analyzer) k, e))
  analyzer_waits (reported r) t e k = absurd (ground (arith, ap (λ u. u.analyzer) k, e))
  analyzer_waits analyzer_ended t e k = inl refl

  -- A loop that cannot move is back, if what it waits for is there.
  pub main_waits :
      (main : MainAt) (t : System S)
      → t.main ≡ main
      → HasError t.analyze_state_err ⊎ HasOutput t.analyze_state_output ⊎ (main ≡ selecting → ⊥)
      → main_turn p main of_analysis t ≡ t
      → main_turn p main of_output t ≡ t
      → (error : Option ManageError) × (main ≡ returned error)
  unfolding main_turn
  main_waits selecting t e (inl (f, mail)) k l = absurd (moves t.analyze_state_err mail k)
    where
      moves :
          (m : Option (Option AnalyzeError)) → m ≡ some (some f) → receive_analysis p m t ≡ t → ⊥
      moves none same k = ground (arith, same)
      moves (some none) same k = ground (arith, same)
      moves (some (some g)) same k = ground (arith, ap (λ u. u.main) k, e)
  main_waits selecting t e (inr (inl (out, mail))) k l =
      absurd (moves t.analyze_state_output mail l)
    where
      moves :
          (m : Option (Option AnalyzeOutput)) → m ≡ some (some out) → receive_output p m t ≡ t → ⊥
      moves none same k = ground (arith, same)
      moves (some none) same k = ground (arith, same)
      moves (some (some o)) same k = ground (arith, ap (λ u. u.main) k, e)
  main_waits selecting t e (inr (inr off)) k l = absurd (off refl)
  main_waits (sending (apps, starts, stops)) t e there k l =
      absurd (ground (arith, ap (λ u. u.main) k, e))
  main_waits (returned error) t e there k l = (error, refl)
