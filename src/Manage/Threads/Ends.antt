-- ===== src/Manage/Threads/Ends.antt =====
-- How `analyze` in hm/manage_desired_state.go ends, however its goroutines interleave.
use mathlib.Core.List.{append-nil}
use hm.Prelude.{
  ℕ, ◌≡◌, refl, sym, ap, subst, ◌∙◌, inl, inr, true, List, [], ◌∷◌, ◌++◌, Option, none, some, arith,
}
use hm.Prelude.Map.{Map}
use hm.Prelude.Text.{GoString}
use hm.Models.App.{App}
use hm.Models.Pending.{PendingStartMessage, PendingStopMessage}
use hm.Fetcher.{FetchError, Fetched, success}
use hm.Sender.{SendError, Request, new_sending, send}
use hm.Manage.{
  Parts, ManageError, fetch_error, analyze_error, send_error, run_analyze, sender_for,
  send_error_of,
}
use hm.Manage.Threads.State.{
  AnalyzeOutput, AnalyzerAt, analyzer_ended, MainAt, selecting, sending, returned, System, Case,
  of_fetch, of_analysis, of_output, ThreadTurn, fetcher_moves, analyzer_moves, main_moves,
}
use hm.Manage.Threads.{start_system, main_turn, turn, run_turns}
use hm.Manage.Threads.Fetching.{start-Fetching}
use hm.Manage.Threads.Sound.{IsSound, Waiting, Reading, IsUnsaved}
use hm.Manage.Threads.Moves.{fetcher_turn-IsSound}
use hm.Manage.Threads.Turns.{analyzer_turn-IsSound}
use hm.Manage.Threads.Loop.{
  alone, run_analyze-sends, closed-Succeeds, Waiting-at, receive_fetch-IsSound,
  receive_analysis-IsSound, receive_output-IsSound,
}

module _ {S : Type 0} (p : Parts S) (s0 : S) where
  sent-Waiting :
      (outcome : Option SendError) (s : S) (requests : List Request) (at : AnalyzerAt)
      → (output : Option (Option AnalyzeOutput)) → at ≡ analyzer_ended
      → output ≡ none
      → (fuel : ℕ)
      → run_analyze (alone p) fuel true s0 ≡ some (s, requests, send_error_of p outcome)
      → Waiting p s0 (returned (send_error_of p outcome)) s requests at output
  unfolding send_error_of
  sent-Waiting none s requests at output ended mailed fuel same = (ended, mailed, fuel, same)
  sent-Waiting (some e) s requests at output ended mailed fuel same = (ended, mailed, fuel, same)

  not_fetch_error :
      (outcome : Option SendError) (f : FetchError)
      → returned (send_error_of p outcome) ≡ returned (some (fetch_error f))
      → ⊥
  unfolding send_error_of
  not_fetch_error none f e = ground (arith, e)
  not_fetch_error (some g) f e = ground (arith, e)

  send-IsSound :
      (apps : Map GoString App) (starts : List PendingStartMessage)
      → (stops : List PendingStopMessage) (c : Case) (t : System S)
      → t.main ≡ sending (apps, starts, stops)
      → IsSound p s0 t
      → IsSound p s0 (main_turn p (sending (apps, starts, stops)) c t)
  unfolding main_turn
  send-IsSound apps starts stops c t e h =
      let w = h.whole (apps, starts, stops) (inr (inr (inr e))) in
      let (requests, ended, mailed) = Waiting-at p s0 t h _ e in
      let (fuel, total, got) =
        closed-Succeeds p t.fetcher (h.taken ++ t.desired_apps) t.fetch_desired_apps_success
          t.is_closed h.fetching w.closed w.succeeded in
      let all_taken : h.taken ++ t.desired_apps ≡ h.taken =
        ap (λ bs. h.taken ++ bs) w.empty ∙ append-nil h.taken in
      let sent =
        send p.store p.add_to_counter p.sorting (sender_for p apps) starts stops new_sending
          t.state in
      record {
        taken = h.taken;
        fetching = h.fetching;
        reading = subst (λ a. Reading p s0 a h.taken sent.0) (sym ended) tt;
        unsaved = inl w.succeeded;
        whole = λ out holds. elim holds [
          | inl a ↦ cc
          | inr (inl b) ↦ cc
          | inr (inr (inl d)) ↦ cc
          | inr (inr (inr d)) ↦ cc
        ];
        mailed = h.mailed;
        failed = λ f m. elim m [
          | inl k ↦ h.failed f (inl k)
          | inr k ↦ absurd (not_fetch_error sent.2 f k)
        ];
        waiting =
            sent-Waiting sent.2 sent.0 sent.1.requests t.analyzer t.analyze_state_output ended
              mailed fuel
              (run_analyze-sends p fuel total h.taken apps starts stops s0 t.state
                (got
                  ∙ ap {B = Fetched} (λ bs. record { batches = bs; result = some (success total) })
                      all_taken)
                w.same);
      }

  main_turn-IsSound :
      (main : MainAt) (c : Case) (t : System S)
      → t.main ≡ main
      → IsSound p s0 t
      → IsSound p s0 (main_turn p main c t)
  unfolding main_turn
  main_turn-IsSound selecting of_fetch t e h =
      receive_fetch-IsSound p s0 t.fetch_desired_err t refl e h
  main_turn-IsSound selecting of_analysis t e h =
      receive_analysis-IsSound p s0 t.analyze_state_err t e h
  main_turn-IsSound selecting of_output t e h =
      receive_output-IsSound p s0 t.analyze_state_output t refl e h
  main_turn-IsSound (sending (apps, starts, stops)) c t e h = send-IsSound apps starts stops c t e h
  main_turn-IsSound (returned error) c t e h = h

  pub turn-IsSound : (m : ThreadTurn) (t : System S) → IsSound p s0 t → IsSound p s0 (turn p m t)
  unfolding turn
  turn-IsSound (fetcher_moves b) t h = fetcher_turn-IsSound p s0 b t.fetcher t refl h
  turn-IsSound analyzer_moves t h = analyzer_turn-IsSound p s0 t.analyzer t refl h
  turn-IsSound (main_moves c) t h = main_turn-IsSound t.main c t refl h

  pub start-IsSound : IsSound p s0 (start_system p s0)
  unfolding start_system
  start-IsSound = record {
    taken = [];
    fetching = start-Fetching p;
    reading = (refl, refl);
    unsaved = inr (inl refl);
    whole = λ out holds. elim holds [
      | inl a ↦ cc
      | inr (inl b) ↦ cc
      | inr (inr (inl d)) ↦ cc
      | inr (inr (inr d)) ↦ cc
    ];
    mailed = λ o e. cc;
    failed = λ f m. elim m [ inl k ↦ cc | inr k ↦ cc ];
    waiting = refl;
  }

  pub run_turns-IsSound :
      (turns : List ThreadTurn) (t : System S) → IsSound p s0 t → IsSound p s0 (run_turns p turns t)
  unfolding run_turns
  run_turns-IsSound [] t h = h
  run_turns-IsSound (m ∷ turns) t h = run_turns-IsSound turns (turn p m t) (turn-IsSound m t h)

  -- The sender has been reached: there is no error, or it is the sender's.
  abbrev pub IsOfSender : Option ManageError → Type 0
  IsOfSender none = Unit
  IsOfSender (some (send_error e)) = Unit
  IsOfSender (some (fetch_error f)) = ⊥
  IsOfSender (some (analyze_error e)) = ⊥

  sent_as_alone :
      (error : Option ManageError) (s : S) (requests : List Request) (at : AnalyzerAt)
      → (output : Option (Option AnalyzeOutput)) → IsOfSender error
      → Waiting p s0 (returned error) s requests at output
      → (fuel : ℕ) × (run_analyze (alone p) fuel true s0 ≡ some (s, requests, error))
  sent_as_alone none s requests at output k (ended, mailed, fuel, same) = (fuel, same)
  sent_as_alone (some (send_error e)) s requests at output k (ended, mailed, fuel, same) =
      (fuel, same)
  sent_as_alone (some (fetch_error f)) s requests at output k w = absurd k
  sent_as_alone (some (analyze_error e)) s requests at output k w = absurd k

  -- However the fetcher, the analyzer and the loop interleave: if the run has returned without an
  -- error or with one of the sender, then the state, the requests and the error are those of the run
  -- in sequence, where all batches are fetched, then analyzed, then the messages are sent.
  pub any_interleaving-run_analyze :
      (turns : List ThreadTurn) (error : Option ManageError)
      → IsOfSender error
      → (run_turns p turns (start_system p s0)).main ≡ returned error
      → (fuel : ℕ) × (run_analyze (alone p) fuel true s0
          ≡ some (
            (run_turns p turns (start_system p s0)).state,
            (run_turns p turns (start_system p s0)).requests,
            error,
          ))
  any_interleaving-run_analyze turns error reached e =
      let t = run_turns p turns (start_system p s0) in
      sent_as_alone error t.state t.requests t.analyzer t.analyze_state_output reached
        (Waiting-at p s0 t (run_turns-IsSound turns _ start-IsSound) _ e)

  -- However they interleave: whenever the run has returned the error of the fetcher, also while the
  -- analyzer goes on, it has made no request, and the store is as it was at the start or after one of
  -- the four reads that the analyzer begins with: nothing has been saved.
  pub fetch_error-saves_nothing :
      (turns : List ThreadTurn) (f : FetchError)
      → (run_turns p turns (start_system p s0)).main ≡ returned (some (fetch_error f))
      → ((run_turns p turns (start_system p s0)).requests ≡ [])
        × IsUnsaved p s0 (run_turns p turns (start_system p s0)).state
  fetch_error-saves_nothing turns f e =
      let h = run_turns-IsSound turns (start_system p s0) start-IsSound in
      let (failed, place) = h.failed f (inr e) in
      (
        Waiting-at p s0 _ h _ e,
        elim h.unsaved [ inl up ↦ absurd (ground (arith, failed, up)) | inr kept ↦ kept ],
      )
