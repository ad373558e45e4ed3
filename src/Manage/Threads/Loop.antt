-- ===== src/Manage/Threads/Loop.antt =====
-- The loop of `analyze` in hm/manage_desired_state.go, which waits for the fetcher and the analyzer, and
-- any sequence of turns.
use hm.Prelude.{
  ℕ, ◌≡◌, refl, sym, ap, subst, ◌∙◌, ◌⊎◌, inl, inr, Bool, true, List, Option, none, some, ok, arith,
}
use hm.Prelude.Map.{Map}
use hm.Prelude.Text.{GoString}
use hm.Models.App.{App}
use hm.Models.Pending.{PendingStartMessage, PendingStopMessage}
use hm.Fetcher.{FetchError, Fetched, success, failure}
use hm.Analyzer.Analyze.{AnalyzeError, analyze}
use hm.Sender.{Request, new_sending, send}
use hm.Manage.{
  Parts, ManageError, fetch_error, analyze_error, run_analyze, after_fetch, queue_of, sender_for,
  send_error_of,
}
use hm.Manage.Threads.State.{
  Batch, AnalyzeOutput, FetcherAt, asking, queueing, fetched, reporting, closing, fetcher_ended,
  MainAt, selecting, sending, returned, System,
}
use hm.Manage.Threads.{receive_fetch, receive_analysis, receive_output}
use hm.Manage.Threads.Fetching.{unhurried, Fetching, Succeeds, whole_fetch}
use hm.Manage.Threads.Sound.{IsSound, Holds, Waiting, HasFailed, analysis}

module _ {S : Type 0} (p : Parts S) where
  abbrev pub alone : Parts S
  alone = record p { world = unhurried p.world }

  -- The run by itself, once its fetch has succeeded and its analysis too.
  pub run_analyze-sends :
      (fuel total : ℕ) (batches : List Batch) (apps : Map GoString App)
      → (starts : List PendingStartMessage) (stops : List PendingStopMessage) (s s1 : S)
      → whole_fetch p fuel ≡ record { batches = batches; result = some (success total) }
      → analysis p s batches ≡ (s1, ok (apps, starts, stops))
      → let sent =
          send p.store p.add_to_counter p.sorting (sender_for p apps) starts stops new_sending s1 in
        run_analyze alone fuel true s ≡ some (sent.0, sent.1.requests, send_error_of p sent.2)
  unfolding run_analyze after_fetch queue_of sender_for send_error_of
  run_analyze-sends fuel total batches apps starts stops s s1 got done =
      let there : analyze alone.store alone.analyzer (queue_of alone batches (success total)) s
          ≡ (s1, ok (apps, starts, stops)) =
        done in
      let analyzed : run_analyze alone fuel true s
          ≡ some (after_fetch alone true batches (success total) s) =
        rw (run_analyze, got)
          (ap (λ bs. some (after_fetch alone true bs (success total) s))
            (ap (λ (r : Fetched). r.batches) got)) in
      analyzed ∙ (rw (after_fetch, there) (ap finished (ap (λ r. r.0) there)))
    where
      finished : S → Option (S × List Request × Option ManageError)
      finished s' =
          let sent =
            send p.store p.add_to_counter p.sorting (sender_for p apps) starts stops new_sending
              s' in
          some (sent.0, sent.1.requests, send_error_of p sent.2)

  pub closed-Succeeds :
      (at : FetcherAt) (batches : List Batch) (flag is_closed : Bool)
      → Fetching p at batches flag is_closed
      → is_closed ≡ true
      → flag ≡ true
      → Succeeds p batches
  closed-Succeeds (asking n token seen) batches flag is_closed f c up =
      absurd (ground (arith, f.0.1, c))
  closed-Succeeds (queueing n response seen) batches flag is_closed f c up =
      absurd (ground (arith, f.0.1, c))
  closed-Succeeds (fetched (success total)) batches flag is_closed f c up = f.1
  closed-Succeeds (fetched (failure e)) batches flag is_closed f c up =
      absurd (ground (arith, f.1, c))
  closed-Succeeds (reporting none) batches flag is_closed f c up = f.2
  closed-Succeeds (reporting (some e)) batches flag is_closed f c up =
      absurd (ground (arith, f.1, c))
  closed-Succeeds closing batches flag is_closed f c up = f.1 up
  closed-Succeeds fetcher_ended batches flag is_closed f c up = f.1 up

  module _ (s0 : S) where
    pub main-IsSound :
        (t : System S) (h : IsSound p s0 t)
        → (main : MainAt) (of_f : Option (Option FetchError)) (of_a : Option (Option AnalyzeError))
        → (of_o : Option (Option AnalyzeOutput))
        → ((f : FetchError)
            → of_f ≡ some (some f) ⊎ main ≡ returned (some (fetch_error f))
            → HasFailed p s0 t)
        → ((o : Option AnalyzeOutput) → of_o ≡ some o → t.analyze_state_output ≡ some o)
        → ((out : AnalyzeOutput) → main ≡ sending out → Holds p s0 t out)
        → Waiting p s0 main t.state t.requests t.analyzer of_o
        → IsSound p s0 (record t {
          main = main;
          fetch_desired_err = of_f;
          analyze_state_err = of_a;
          analyze_state_output = of_o;
        })
    main-IsSound t h main of_f of_a of_o failed fewer held waiting = record {
      taken = h.taken;
      fetching = h.fetching;
      reading = h.reading;
      unsaved = h.unsaved;
      whole = λ out holds.
          let w = h.whole out (elim holds [
            | inl a ↦ inl a
            | inr (inl b) ↦ inr (inl b)
            | inr (inr (inl c)) ↦ inr (inr (inl (fewer (some out) c)))
            | inr (inr (inr d)) ↦ held out d
          ]) in
          record { succeeded = w.succeeded; closed = w.closed; empty = w.empty; same = w.same };
      mailed = λ o e. h.mailed o (fewer o e);
      failed = failed;
      waiting = waiting;
    }

    pub Waiting-at :
        (t : System S) (h : IsSound p s0 t) (main : MainAt)
        → t.main ≡ main
        → Waiting p s0 main t.state t.requests t.analyzer t.analyze_state_output
    Waiting-at t h main e =
        subst (λ m. Waiting p s0 m t.state t.requests t.analyzer t.analyze_state_output) e h.waiting

    pub receive_fetch-IsSound :
        (mail : Option (Option FetchError)) (t : System S)
        → t.fetch_desired_err ≡ mail
        → t.main ≡ selecting
        → IsSound p s0 t
        → IsSound p s0 (receive_fetch p mail t)
    unfolding receive_fetch
    receive_fetch-IsSound none t e at h = h
    receive_fetch-IsSound (some none) t e at h =
        main-IsSound t h t.main none t.analyze_state_err t.analyze_state_output
          (λ f m. elim m [ inl k ↦ absurd (ground (arith, k)) | inr k ↦ h.failed f (inr k) ])
          (λ o k. k) (λ out k. inr (inr (inr k))) h.waiting
    receive_fetch-IsSound (some (some f)) t e at h =
        main-IsSound t h (returned (some (fetch_error f))) none t.analyze_state_err
          t.analyze_state_output (λ g m. h.failed f (inl e)) (λ o k. k) (λ out k. cc)
          (Waiting-at t h _ at)

    pub receive_analysis-IsSound :
        (mail : Option (Option AnalyzeError)) (t : System S)
        → t.main ≡ selecting
        → IsSound p s0 t
        → IsSound p s0 (receive_analysis p mail t)
    unfolding receive_analysis
    receive_analysis-IsSound none t at h = h
    receive_analysis-IsSound (some none) t at h =
        main-IsSound t h t.main t.fetch_desired_err none t.analyze_state_output h.failed (λ o k. k)
          (λ out k. inr (inr (inr k))) h.waiting
    receive_analysis-IsSound (some (some e)) t at h =
        main-IsSound t h (returned (some (analyze_error e))) t.fetch_desired_err none
          t.analyze_state_output
          (λ f m. elim m [ inl k ↦ h.failed f (inl k) | inr k ↦ absurd (ground (arith, k)) ])
          (λ o k. k) (λ out k. cc) (Waiting-at t h _ at)

    pub receive_output-IsSound :
        (mail : Option (Option AnalyzeOutput)) (t : System S)
        → t.analyze_state_output ≡ mail
        → t.main ≡ selecting
        → IsSound p s0 t
        → IsSound p s0 (receive_output p mail t)
    unfolding receive_output
    receive_output-IsSound none t e at h = h
    receive_output-IsSound (some none) t e at h =
        main-IsSound t h t.main t.fetch_desired_err t.analyze_state_err none h.failed
          (λ o k. absurd (ground (arith, k))) (λ out k. inr (inr (inr k)))
          (subst (λ m. Waiting p s0 m t.state t.requests t.analyzer none) (sym at)
            (Waiting-at t h _ at))
    receive_output-IsSound (some (some out)) t e at h =
        main-IsSound t h (sending out) t.fetch_desired_err t.analyze_state_err none
          (λ f m. elim m [ inl k ↦ h.failed f (inl k) | inr k ↦ absurd (ground (arith, k)) ])
          (λ o k. absurd (ground (arith, k)))
          (λ o k. inr (inr (inl (e ∙ ap (λ x. some (some x)) (sending_is out o k)))))
          (Waiting-at t h _ at, h.mailed (some out) e, refl)
      where
        sending_is : (a b : AnalyzeOutput) → sending a ≡ sending b → a ≡ b
        sending_is a b k = cc
