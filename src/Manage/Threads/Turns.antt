-- ===== src/Manage/Threads/Turns.antt =====
-- Every turn of a goroutine of `analyze` in hm/manage_desired_state.go keeps what is sound.
use hm.Prelude.{
  ◌≡◌, refl, sym, ap, ◌∙◌, inl, inr, Bool, true, false, List, [], ◌∷◌, Option, some, Result, ok,
  err, arith, if◌then◌else◌,
}
use hm.Prelude.Map.{Map}
use hm.Models.Pending.{PendingStartMessage, PendingStopMessage}
use hm.Analyzer.Analyze.{Analyzing, AnalyzeError, analyzing, analyze_queue}
use hm.Manage.{Parts}
use hm.Manage.Threads.State.{
  Batch, AnalyzeOutput, AnalyzerAt, verifying, getting_apps, getting_starts, getting_stops,
  draining, analyzed, reported, analyzer_ended, System, analysis_error, output_of,
}
use hm.Manage.Threads.{analyzer_turn, drain, conclude, analysis_returns}
use hm.Manage.Threads.Sound.{IsSound}
use hm.Manage.Threads.Analysis.{
  analyzer-IsSound, after_read-IsSound, after_check-IsSound, not_mailed,
}
use hm.Manage.Threads.Draining.{Reading-at, take_batch-IsSound, finish-IsSound}

module _ {S : Type 0} (p : Parts S) (s0 : S) where
  drain-IsSound :
      (starts : Map _ PendingStartMessage) (stops : Map _ PendingStopMessage)
      → (z : Analyzing) (batches : List Batch) (t : System S) → t.analyzer ≡ draining starts stops z
      → t.desired_apps ≡ batches
      → IsSound p s0 t
      → IsSound p s0 (drain p starts stops z batches t)
  unfolding drain
  drain-IsSound starts stops z (b ∷ bs) t e same h =
      take_batch-IsSound p s0 starts stops z b bs t e same h
  drain-IsSound starts stops z [] t e same h = once_closed t.is_closed refl
    where
      finished : System S
      finished =
          analysis_returns p (conclude p starts stops t.fetch_desired_apps_success z t.state).0
            (conclude p starts stops t.fetch_desired_apps_success z t.state).1 t

      once_closed : (b : Bool) → t.is_closed ≡ b → IsSound p s0 (if b then finished else t)
      once_closed true closed = finish-IsSound p s0 starts stops z t e same closed h
      once_closed false is_open = h

  reported_is :
      (r : Result AnalyzeError AnalyzeOutput) (out : AnalyzeOutput)
      → reported r ≡ reported (ok out)
      → r ≡ ok out
  reported_is r out e = cc

  output_is :
      (r : Result AnalyzeError AnalyzeOutput) (out : AnalyzeOutput)
      → ◌≡◌ {A = Option (Option AnalyzeOutput)} (some (output_of r)) (some (some out))
      → r ≡ ok out
  output_is (ok found) out e = cc
  output_is (err f) out e = absurd (ground (arith, e))

  analyze_queue-nil :
      (starts : Map _ PendingStartMessage) (stops : Map _ PendingStopMessage) (z : Analyzing)
      → analyze_queue p.analyzer starts stops [] z ≡ z
  unfolding analyze_queue
  analyze_queue-nil starts stops z = refl

  pub analyzer_turn-IsSound :
      (at : AnalyzerAt) (t : System S)
      → t.analyzer ≡ at
      → IsSound p s0 t
      → IsSound p s0 (analyzer_turn p at t)
  unfolding analyzer_turn
  analyzer_turn-IsSound verifying t e h =
      let (here, taken) = Reading-at p s0 t h _ e in
      let check = λ (s : S). p.store.verify_freshness (p.analyzer.clock 0) s in
      let there : (check t.state).0 ≡ (check s0).0 = ap (λ s. (check s).0) here in
      after_check-IsSound p s0 t h (λ k. cc) (check t.state).1 (check t.state).0 (inr (inl there))
        (λ fresh. (there, taken, sym (ap (λ s. (check s).1) here) ∙ fresh))
  analyzer_turn-IsSound getting_apps t e h =
      let (here, taken, fresh) = Reading-at p s0 t h _ e in
      after_read-IsSound p s0 t h (λ k. cc) (p.store.get_apps t.state).1 getting_starts
        (p.store.get_apps t.state).0 (inr (inr (inl (ap (λ s. (p.store.get_apps s).0) here))))
        (λ apps out held. elim held [ inl a ↦ cc | inr b ↦ cc ])
        (λ apps got. (
          ap (λ s. (p.store.get_apps s).0) here,
          taken,
          fresh,
          sym (ap (λ s. (p.store.get_apps s).1) here) ∙ got,
        ))
  analyzer_turn-IsSound (getting_starts apps) t e h =
      let (here, taken, fresh, got_apps) = Reading-at p s0 t h _ e in
      let get = p.store.get_pending_start_messages in
      after_read-IsSound p s0 t h (λ k. cc) (get t.state).1 (getting_stops apps) (get t.state).0
        (inr (inr (inr (inl (ap (λ s. (get s).0) here)))))
        (λ starts out held. elim held [ inl a ↦ cc | inr b ↦ cc ])
        (λ starts got.
          (ap (λ s. (get s).0) here, taken, fresh, got_apps, sym (ap (λ s. (get s).1) here) ∙ got))
  analyzer_turn-IsSound (getting_stops apps starts) t e h =
      let (here, taken, fresh, got_apps, got_starts) = Reading-at p s0 t h _ e in
      let get = p.store.get_pending_stop_messages in
      after_read-IsSound p s0 t h (λ k. cc) (get t.state).1
        (λ found. draining starts found (analyzing p.analyzer starts found apps)) (get t.state).0
        (inr (inr (inr (inr (ap (λ s. (get s).0) here)))))
        (λ stops out held. elim held [ inl a ↦ cc | inr b ↦ cc ])
        (λ stops got. (
          apps,
          ap (λ s. (get s).0) here,
          fresh,
          got_apps,
          got_starts,
          sym (ap (λ s. (get s).1) here) ∙ got,
          sym (
              ap
                (λ bs.
                  analyze_queue p.analyzer starts stops bs (analyzing p.analyzer starts stops apps))
                taken
              ∙ analyze_queue-nil starts stops (analyzing p.analyzer starts stops apps)),
        ))
  analyzer_turn-IsSound (draining starts stops z) t e h =
      drain-IsSound starts stops z t.desired_apps t e refl h
  analyzer_turn-IsSound (analyzed r) t e h =
      let busy : (t.analyzer ≡ analyzer_ended → ⊥) = λ k. cc in
      analyzer-IsSound p s0 t h busy t.state (reported r) h.taken t.desired_apps t.done_analyzing
        (some (analysis_error r)) t.analyze_state_output refl tt h.unsaved
        (λ out held. elim held [
          | inl a ↦ cc
          | inr (inl b) ↦
              let w = h.whole out (inl (e ∙ ap analyzed (reported_is r out b))) in
              record { succeeded = w.succeeded; closed = w.closed; empty = w.empty; same = w.same }
          | inr (inr c) ↦ absurd (not_mailed p s0 t h busy (some out) c)
        ])
        (λ o k. absurd (not_mailed p s0 t h busy o k))
  analyzer_turn-IsSound (reported r) t e h =
      let busy : (t.analyzer ≡ analyzer_ended → ⊥) = λ k. cc in
      analyzer-IsSound p s0 t h busy t.state analyzer_ended h.taken t.desired_apps t.done_analyzing
        t.analyze_state_err (some (output_of r)) refl tt h.unsaved
        (λ out held. elim held [
          | inl a ↦ cc
          | inr (inl b) ↦ cc
          | inr (inr c) ↦
              let w = h.whole out (inr (inl (e ∙ ap reported (output_is r out c)))) in
              record { succeeded = w.succeeded; closed = w.closed; empty = w.empty; same = w.same }
        ])
        (λ o k. refl)
  analyzer_turn-IsSound analyzer_ended t e h = h
