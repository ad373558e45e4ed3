-- ===== src/Manage/Threads/Draining.antt =====
-- The loop of the analyzer over the queue, in hm/manage_desired_state.go and analyzer/analyzer.go, and
-- all its turns.
use mathlib.Core.List.{append_assoc}
use hm.Prelude.{
  ◌≡◌, refl, sym, ap, subst, ◌∙◌, inl, inr, true, false, List, [], ◌∷◌, ◌++◌, some, Result, ok, err,
  Bool-cases,
}
use hm.Prelude.Map.{Map}
use hm.Prelude.Text.{GoString}
use hm.Models.App.{App}
use hm.Models.Pending.{PendingStartMessage, PendingStopMessage}
use hm.Analyzer.Analyze.{
  Analyzing, AnalyzeError, fetcher_failed, analyzing, analyze_batch, analyze_queue, analyze,
  analyze_with,
}
use hm.Manage.{Parts}
use hm.Manage.Threads.State.{
  Batch, AnalyzeOutput, AnalyzerAt, draining, analyzed, analyzer_ended, System,
}
use hm.Manage.Threads.{analysis_returns, drain, conclude}
use hm.Manage.Threads.Sound.{
  IsSound, Reading, IsFresh, AppsAre, StartsAre, StopsAre, analysis, stops_read,
}
use hm.Manage.Threads.Analysis.{
  for_each-last, analyzer-IsSound, early-IsSound, failed-IsSound, not_mailed,
}

module _ {S : Type 0} (p : Parts S) (s0 : S) where
  -- The analysis by itself reads the store, goes over all batches and concludes.
  analysis-conclude :
      (apps : Map GoString App) (starts : Map GoString PendingStartMessage)
      → (stops : Map GoString PendingStopMessage) (batches : List Batch) → IsFresh p s0
      → AppsAre p s0 apps
      → StartsAre p s0 starts
      → StopsAre p s0 stops
      → analysis p s0 batches
        ≡ conclude p starts stops true
            (analyze_queue p.analyzer starts stops batches (analyzing p.analyzer starts stops apps))
            (stops_read p s0)
  unfolding analyze analyze_with conclude
  analysis-conclude apps starts stops batches fresh got_apps got_starts got_stops =
      rw (analyze, fresh, got_apps, got_starts, got_stops) refl

  conclude_failed :
      (starts : Map GoString PendingStartMessage) (stops : Map GoString PendingStopMessage)
      → (z : Analyzing) (s : S) → conclude p starts stops false z s ≡ (s, err fetcher_failed)
  unfolding conclude
  conclude_failed starts stops z s = refl

  pub Reading-at :
      (t : System S) (h : IsSound p s0 t) (at : AnalyzerAt)
      → t.analyzer ≡ at
      → Reading p s0 at h.taken t.state
  Reading-at t h at e = subst (λ a. Reading p s0 a h.taken t.state) e h.reading

  pub take_batch-IsSound :
      (starts : Map GoString PendingStartMessage) (stops : Map GoString PendingStopMessage)
      → (z : Analyzing) (b : Batch) (bs : List Batch) (t : System S)
      → t.analyzer ≡ draining starts stops z
      → t.desired_apps ≡ b ∷ bs
      → IsSound p s0 t
      → IsSound p s0 (drain p starts stops z (b ∷ bs) t)
  unfolding drain analyze_queue
  take_batch-IsSound starts stops z b bs t e full h =
      let (apps, at_end, fresh, got_apps, got_starts, got_stops, so_far) = Reading-at t h _ e in
      early-IsSound p s0 t h (λ k. cc) t.state
        (draining starts stops (analyze_batch p.analyzer starts stops b z)) (h.taken ++ (b ∷ [])) bs
        t.done_analyzing (append_assoc h.taken (b ∷ []) bs ∙ ap (λ xs. h.taken ++ xs) (sym full))
        (λ out held. elim held [ inl a ↦ cc | inr c ↦ cc ])
        (
          apps,
          at_end,
          fresh,
          got_apps,
          got_starts,
          got_stops,
          ap (analyze_batch p.analyzer starts stops b) so_far
              ∙ sym (
                  for_each-last (analyze_batch p.analyzer starts stops) h.taken b
                    (analyzing p.analyzer starts stops apps)),
        )
        (inr (inr (inr (inr at_end))))

  ok_is :
      (r : Result AnalyzeError AnalyzeOutput) (out : AnalyzeOutput)
      → analyzed r ≡ analyzed (ok out)
      → r ≡ ok out
  ok_is r out e = cc

  pub finish-IsSound :
      (starts : Map GoString PendingStartMessage) (stops : Map GoString PendingStopMessage)
      → (z : Analyzing) (t : System S) → t.analyzer ≡ draining starts stops z
      → t.desired_apps ≡ []
      → t.is_closed ≡ true
      → (h : IsSound p s0 t)
      → IsSound p s0 (
          analysis_returns p
            (conclude p starts stops t.fetch_desired_apps_success z t.state).0
            (conclude p starts stops t.fetch_desired_apps_success z t.state).1
            t)
  unfolding analysis_returns
  finish-IsSound starts stops z t e empty closed h =
      let (apps, at_end, fresh, got_apps, got_starts, got_stops, so_far) = Reading-at t h _ e in
      let busy : (t.analyzer ≡ analyzer_ended → ⊥) = λ k. cc in
      elim (Bool-cases t.fetch_desired_apps_success) [
        | inl succeeded ↦
            let given : analysis p s0 h.taken
                ≡ conclude p starts stops t.fetch_desired_apps_success z t.state =
              analysis-conclude apps starts stops h.taken fresh got_apps got_starts got_stops
              ∙ (λ i. conclude p starts stops (sym succeeded i) (sym so_far i) (sym at_end i)) in
            analyzer-IsSound p s0 t h busy
              (conclude p starts stops t.fetch_desired_apps_success z t.state).0
              (analyzed (conclude p starts stops t.fetch_desired_apps_success z t.state).1) h.taken
              t.desired_apps true t.analyze_state_err t.analyze_state_output refl tt (inl succeeded)
              (λ out held. elim held [
                | inl a ↦ record {
                  succeeded = succeeded;
                  closed = closed;
                  empty = empty;
                  same = given ∙ (λ i. (
                    (conclude p starts stops t.fetch_desired_apps_success z t.state).0,
                    ok_is _ out a i,
                  ));
                }
                | inr (inl b) ↦ cc
                | inr (inr c) ↦ absurd (not_mailed p s0 t h busy (some out) c)
              ])
              (λ o k. absurd (not_mailed p s0 t h busy o k))
        | inr unsuccessful ↦
            subst
              (λ (r : S × Result AnalyzeError AnalyzeOutput).
                IsSound p s0 (analysis_returns p r.0 r.1 t))
              (sym (
                ap (λ flag. conclude p starts stops flag z t.state) unsuccessful
                ∙ conclude_failed starts stops z t.state))
              (failed-IsSound p s0 t h busy t.state fetcher_failed (inr (inr (inr (inr at_end)))))
      ]
