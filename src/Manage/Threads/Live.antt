-- ===== src/Manage/Threads/Live.antt =====
-- What the loop of `analyze` in hm/manage_desired_state.go can still expect of the analyzer.
use hm.Prelude.{
  ◌≡◌, refl, sym, subst, ◌⊎◌, inl, inr, Bool, true, false, List, [], ◌∷◌, Option, none, some,
  Result, ok, err, arith, if◌then◌else◌,
}
use hm.Store.Interface.{StoreError, Outcome}
use hm.Analyzer.Analyze.{AnalyzeError, Analyzing, store_failed, analyzing}
use hm.Manage.{Parts}
use hm.Manage.Threads.State.{
  Batch, AnalyzeOutput, FetcherAt, asking, queueing, fetched, reporting, closing, fetcher_ended,
  AnalyzerAt, verifying, getting_apps, getting_starts, getting_stops, draining, analyzed, reported,
  analyzer_ended, MainAt, selecting, sending, returned, System, Case, of_fetch, of_analysis,
  of_output, ThreadTurn, fetcher_moves, analyzer_moves, main_moves, analysis_error,
}
use hm.Fetcher.{FetchError, success, failure}
use hm.Manage.Threads.{
  start_system, fetcher_turn, analyzer_turn, analysis_returns, after_read, after_check, drain,
  conclude, main_turn, receive_fetch, receive_analysis, receive_output, turn, run_turns,
}
use hm.Manage.Threads.Moves.{queue_batch-cases}

-- Analyze has returned.
abbrev pub IsBack : AnalyzerAt → Type 0
IsBack verifying = ⊥
IsBack getting_apps = ⊥
IsBack (getting_starts apps) = ⊥
IsBack (getting_stops apps starts) = ⊥
IsBack (draining starts stops z) = ⊥
IsBack (analyzed r) = Unit
IsBack (reported r) = Unit
IsBack analyzer_ended = Unit

abbrev pub HasError : Option (Option AnalyzeError) → Type 0
HasError mail = (e : AnalyzeError) × (mail ≡ some (some e))

abbrev pub HasOutput : Option (Option AnalyzeOutput) → Type 0
HasOutput mail = (out : AnalyzeOutput) × (mail ≡ some (some out))

module _ {S : Type 0} (p : Parts S) where
  pub record IsLive (t : System S) : Type 0 where
    pub told : IsBack t.analyzer → t.done_analyzing ≡ true
    -- A failed analysis has left its error.
    pub failing :
        t.main ≡ selecting
        → (e : AnalyzeError) → t.analyzer ≡ reported (err e)
        → HasError t.analyze_state_err
    pub answered :
        t.main ≡ selecting
        → t.analyzer ≡ analyzer_ended
        → HasError t.analyze_state_err ⊎ HasOutput t.analyze_state_output

  fetcher_turn-IsLive :
      (b : Bool) (at : FetcherAt) (t : System S) → IsLive t → IsLive (fetcher_turn p b at t)
  unfolding fetcher_turn
  fetcher_turn-IsLive b (asking n token seen) t h = record {
    told = h.told;
    failing = h.failing;
    answered = h.answered;
  }
  fetcher_turn-IsLive b (queueing n response seen) t h =
      elim (queue_batch-cases p t.state b n response seen t) [
        | inl stopped ↦
            subst IsLive (sym stopped)
              (record { told = h.told; failing = h.failing; answered = h.answered })
        | inr (inl queued) ↦
            subst IsLive (sym queued)
              (record { told = h.told; failing = h.failing; answered = h.answered })
        | inr (inr blocked) ↦ subst IsLive (sym blocked) h
      ]
  fetcher_turn-IsLive b (fetched (success total)) t h = record {
    told = h.told;
    failing = h.failing;
    answered = h.answered;
  }
  fetcher_turn-IsLive b (fetched (failure f)) t h = record {
    told = h.told;
    failing = h.failing;
    answered = h.answered;
  }
  fetcher_turn-IsLive b (reporting e) t h = record {
    told = h.told;
    failing = h.failing;
    answered = h.answered;
  }
  fetcher_turn-IsLive b closing t h = record {
    told = h.told;
    failing = h.failing;
    answered = h.answered;
  }
  fetcher_turn-IsLive b fetcher_ended t h = h

  returns-IsLive :
      (s : S) (r : Result AnalyzeError AnalyzeOutput) (t : System S)
      → IsLive (analysis_returns p s r t)
  unfolding analysis_returns
  returns-IsLive s r t = record { told = λ k. refl; failing = λ m e k. cc; answered = λ m k. cc }

  after_read-IsLive :
      {A : Type 0} (o : Result StoreError A) (go_on : A → AnalyzerAt) (s : S) (t : System S)
      → ((a : A) → IsBack (go_on a) → ⊥)
      → IsLive (after_read p o go_on s t)
  unfolding after_read
  after_read-IsLive (err e) go_on s t busy = returns-IsLive s (err (store_failed e)) t
  after_read-IsLive (ok a) go_on s t busy = record {
    told = λ k. absurd (busy a k);
    failing = λ m e k. absurd (busy a (subst IsBack (sym k) tt));
    answered = λ m k. absurd (busy a (subst IsBack (sym k) tt));
  }

  after_check-IsLive : (o : Outcome) (s : S) (t : System S) → IsLive (after_check p o s t)
  unfolding after_check
  after_check-IsLive (some e) s t = returns-IsLive s (err (store_failed e)) t
  after_check-IsLive none s t = record {
    told = λ k. absurd k;
    failing = λ m e k. cc;
    answered = λ m k. cc;
  }

  drain-IsLive :
      (starts : _) (stops : _) (z : Analyzing) (batches : List Batch) (t : System S)
      → IsLive t
      → IsLive (drain p starts stops z batches t)
  unfolding drain
  drain-IsLive starts stops z (b ∷ bs) t h = record {
    told = λ k. absurd k;
    failing = λ m e k. cc;
    answered = λ m k. cc;
  }
  drain-IsLive starts stops z [] t h = once_closed t.is_closed
    where
      finished : System S
      finished =
          analysis_returns p (conclude p starts stops t.fetch_desired_apps_success z t.state).0
            (conclude p starts stops t.fetch_desired_apps_success z t.state).1 t

      once_closed : (b : Bool) → IsLive (if b then finished else t)
      once_closed true = returns-IsLive _ _ t
      once_closed false = h

  error_is :
      (r : Result AnalyzeError AnalyzeOutput) (f : AnalyzeError)
      → reported r ≡ reported (err f)
      → ◌≡◌ {A = Option (Option AnalyzeError)} (some (analysis_error r)) (some (some f))
  error_is (ok out) f k = absurd (ground (arith, k))
  error_is (err g) f k = cc

  no_mail :
      {A B : Type 0} (mail : Option (Option A)) (a : A)
      → mail ≡ some none
      → mail ≡ some (some a)
      → B
  no_mail mail a d k = absurd (ground (arith, d, k))

  analyzer_turn-IsLive :
      (at : AnalyzerAt) (t : System S) → t.analyzer ≡ at → IsLive t → IsLive (analyzer_turn p at t)
  unfolding analyzer_turn
  analyzer_turn-IsLive verifying t e h =
      let read = p.store.verify_freshness (p.analyzer.clock 0) t.state in
      after_check-IsLive read.1 read.0 t
  analyzer_turn-IsLive getting_apps t e h =
      let read = p.store.get_apps t.state in
      after_read-IsLive read.1 getting_starts read.0 t (λ a k. k)
  analyzer_turn-IsLive (getting_starts apps) t e h =
      let read = p.store.get_pending_start_messages t.state in
      after_read-IsLive read.1 (getting_stops apps) read.0 t (λ a k. k)
  analyzer_turn-IsLive (getting_stops apps starts) t e h =
      let read = p.store.get_pending_stop_messages t.state in
      after_read-IsLive read.1
        (λ found. draining starts found (analyzing p.analyzer starts found apps)) read.0 t
        (λ a k. k)
  analyzer_turn-IsLive (draining starts stops z) t e h =
      drain-IsLive starts stops z t.desired_apps t h
  analyzer_turn-IsLive (analyzed r) t e h = record {
    told = λ k. h.told (subst IsBack (sym e) tt);
    failing = λ m f k. (f, error_is r f k);
    answered = λ m k. cc;
  }
  analyzer_turn-IsLive (reported (ok out)) t e h = record {
    told = λ k. h.told (subst IsBack (sym e) tt);
    failing = λ m f k. cc;
    answered = λ m k. inr (out, refl);
  }
  analyzer_turn-IsLive (reported (err f)) t e h = record {
    told = λ k. h.told (subst IsBack (sym e) tt);
    failing = λ m g k. cc;
    answered = λ m k. inl (h.failing m f e);
  }
  analyzer_turn-IsLive analyzer_ended t e h = h

  main_turn-IsLive :
      (main : MainAt) (c : Case) (t : System S)
      → t.main ≡ main
      → IsLive t
      → IsLive (main_turn p main c t)
  unfolding main_turn
  main_turn-IsLive selecting of_fetch t e h = by_mail t.fetch_desired_err
    where
      by_mail : (mail : Option (Option FetchError)) → IsLive (receive_fetch p mail t)
      by_mail none = h
      by_mail (some none) = record { told = h.told; failing = h.failing; answered = h.answered }
      by_mail (some (some f)) = record { told = h.told; failing = λ m. cc; answered = λ m. cc }
  main_turn-IsLive selecting of_analysis t e h = by_mail t.analyze_state_err refl
    where
      by_mail :
          (mail : Option (Option AnalyzeError))
          → t.analyze_state_err ≡ mail
          → IsLive (receive_analysis p mail t)
      by_mail none same = h
      by_mail (some none) same = record {
        told = h.told;
        failing = λ m f k. let (g, left) = h.failing m f k in no_mail _ g same left;
        answered = λ m k. elim (h.answered m k) [
          | inl (g, left) ↦ no_mail _ g same left
          | inr there ↦ inr there
        ];
      }
      by_mail (some (some f)) same = record { told = h.told; failing = λ m. cc; answered = λ m. cc }
  main_turn-IsLive selecting of_output t e h = by_mail t.analyze_state_output refl
    where
      by_mail :
          (mail : Option (Option AnalyzeOutput))
          → t.analyze_state_output ≡ mail
          → IsLive (receive_output p mail t)
      by_mail none same = h
      by_mail (some none) same = record {
        told = h.told;
        failing = h.failing;
        answered = λ m k. elim (h.answered m k) [
          | inl there ↦ inl there
          | inr (out, left) ↦ no_mail _ out same left
        ];
      }
      by_mail (some (some out)) same = record {
        told = h.told;
        failing = λ m. cc;
        answered = λ m. cc;
      }
  main_turn-IsLive (sending (apps, starts, stops)) c t e h = record {
    told = h.told;
    failing = λ m. cc;
    answered = λ m. cc;
  }
  main_turn-IsLive (returned error) c t e h = h

  pub turn-IsLive : (m : ThreadTurn) (t : System S) → IsLive t → IsLive (turn p m t)
  unfolding turn
  turn-IsLive (fetcher_moves b) t h = fetcher_turn-IsLive b t.fetcher t h
  turn-IsLive analyzer_moves t h = analyzer_turn-IsLive t.analyzer t refl h
  turn-IsLive (main_moves c) t h = main_turn-IsLive t.main c t refl h

  pub run_turns-IsLive :
      (turns : List ThreadTurn) (t : System S) → IsLive t → IsLive (run_turns p turns t)
  unfolding run_turns
  run_turns-IsLive [] t h = h
  run_turns-IsLive (m ∷ turns) t h = run_turns-IsLive turns (turn p m t) (turn-IsLive m t h)

  pub start-IsLive : (s : S) → IsLive (start_system p s)
  unfolding start_system
  start-IsLive s = record { told = λ k. absurd k; failing = λ m e k. cc; answered = λ m k. cc }
