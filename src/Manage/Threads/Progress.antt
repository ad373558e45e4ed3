-- ===== src/Manage/Threads/Progress.antt =====
-- The goroutines of `analyze` in hm/manage_desired_state.go never wait for one another for ever.
use hm.Prelude.{◌≡◌, refl, sym, subst, ◌⊎◌, inl, inr, Bool, false, List, ◌++◌, Option, arith}
use hm.Manage.{Parts, ManageError}
use hm.Manage.Threads.State.{
  fetcher_ended, analyzer_ended, MainAt, selecting, sending, returned, System, of_analysis,
  of_output, ThreadTurn, fetcher_moves, analyzer_moves, main_moves, has_room,
}
use hm.Manage.Threads.{start_system, turn, run_turns}
use hm.Manage.Threads.Fetching.{Fetching}
use hm.Manage.Threads.Sound.{IsSound}
use hm.Manage.Threads.Ends.{run_turns-IsSound, start-IsSound}
use hm.Manage.Threads.Live.{IsLive, IsBack, HasError, HasOutput, run_turns-IsLive, start-IsLive}
use hm.Manage.Threads.Waits.{fetcher_waits, analyzer_waits, main_waits}

module _ {S : Type 0} (p : Parts S) where
  -- No turn changes anything.
  abbrev pub IsStuck : System S → Type 0
  IsStuck t = (m : ThreadTurn) → turn p m t ≡ t

  -- The run has returned, and both goroutines have ended.
  abbrev pub HasEnded : System S → Type 0
  HasEnded t =
      ((error : Option ManageError) × (t.main ≡ returned error))
      × (t.fetcher ≡ fetcher_ended)
      × (t.analyzer ≡ analyzer_ended)

  mail_or_off :
      (t : System S) (main : MainAt)
      → IsLive p t
      → t.main ≡ main
      → t.analyzer ≡ analyzer_ended
      → HasError t.analyze_state_err ⊎ HasOutput t.analyze_state_output ⊎ (main ≡ selecting → ⊥)
  mail_or_off t selecting l e ended = elim (l.answered e ended) [
    | inl mail ↦ inl mail
    | inr mail ↦ inr (inl mail)
  ]
  mail_or_off t (sending out) l e ended = inr (inr (λ k. cc))
  mail_or_off t (returned error) l e ended = inr (inr (λ k. cc))

  pub stuck_there :
      (t : System S) (s0 : S)
      → IsSound p s0 t
      → IsLive p t
      → (b : Bool) → turn p (fetcher_moves b) t ≡ t
      → turn p analyzer_moves t ≡ t
      → turn p (main_moves of_analysis) t ≡ t
      → turn p (main_moves of_output) t ≡ t
      → HasEnded t
  unfolding turn
  stuck_there t s0 h l b no_fetch no_analysis no_error no_output =
      elim (analyzer_waits p t.analyzer t refl no_analysis) [
        | inl ended ↦
            let told = l.told (subst IsBack (sym ended) tt) in
            (
              main_waits p t.main t refl (mail_or_off t t.main l refl ended) no_error no_output,
              elim fetcher_state [
                | inl gone ↦ gone
                | inr (full, busy) ↦ absurd (ground (arith, told, busy))
              ],
              ended,
            )
        | inr (empty, is_open) ↦ elim fetcher_state [
          | inl gone ↦
              let closed =
                (subst
                  (λ a.
                    Fetching p a (h.taken ++ t.desired_apps) t.fetch_desired_apps_success
                      t.is_closed)
                  gone h.fetching).0 in
              absurd (ground (arith, closed, is_open))
          | inr (full, busy) ↦ absurd (ground (arith, (rw empty at full)))
        ]
      ]
    where
      fetcher_state :
          t.fetcher ≡ fetcher_ended
          ⊎ ((has_room t.desired_apps ≡ false) × (t.done_analyzing ≡ false))
      fetcher_state = fetcher_waits p b t.fetcher t refl no_fetch

  -- However the fetcher, the analyzer and the loop interleave: where no turn of any of them changes
  -- anything, the run has returned and both goroutines have ended. So none of them ever waits for
  -- another for ever, and none is left behind.
  pub stuck-ended :
      (turns : List ThreadTurn) (s0 : S)
      → IsStuck (run_turns p turns (start_system p s0))
      → HasEnded (run_turns p turns (start_system p s0))
  stuck-ended turns s0 stuck =
      stuck_there (run_turns p turns (start_system p s0)) s0
        (run_turns-IsSound p s0 turns (start_system p s0) (start-IsSound p s0))
        (run_turns-IsLive p turns (start_system p s0) (start-IsLive p s0)) false
        (stuck (fetcher_moves false)) (stuck analyzer_moves) (stuck (main_moves of_analysis))
        (stuck (main_moves of_output))
