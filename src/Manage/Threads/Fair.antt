-- ===== src/Manage/Threads/Fair.antt =====
-- A run of `analyze` in hm/manage_desired_state.go ends, if every goroutine moves again and again.
use hm.Prelude.{
  ℕ, ◌+◌, ◌*◌, ◌<◌, ◌≡◌, refl, sym, ap, subst, ◌∙◌, ◌⊎◌, inl, inr, Bool, List, [], ◌∷◌, some,
  length, for_each, All, In, arith,
}
use hm.Prelude.Text.{GoString}
use hm.Fetcher.{DesiredStateServerResponse, page_at}
use hm.Manage.{Parts}
use hm.Manage.Threads.State.{
  System, of_analysis, of_output, ThreadTurn, fetcher_moves, analyzer_moves, main_moves,
}
use hm.Manage.Threads.{
  auth_header, start_system, turn, run_turns, fetcher_turn, analyzer_turn, main_turn,
}
use hm.Manage.Threads.Sound.{IsSound}
use hm.Manage.Threads.Ends.{run_turns-IsSound, start-IsSound}
use hm.Manage.Threads.Live.{IsLive, run_turns-IsLive, start-IsLive}
use hm.Manage.Threads.Progress.{HasEnded, stuck_there}
use hm.Manage.Threads.Measure.{IsWithin, left}
use hm.Manage.Threads.Decrease.{turn-Falls}

-- Turns in which each thread moves, and the loop looks for the error and the output of the analysis.
abbrev pub IsFair : List ThreadTurn → Type 0
IsFair turns =
    (b : Bool) × In (fetcher_moves b) turns
    × In analyzer_moves turns
    × In (main_moves of_analysis) turns
    × In (main_moves of_output) turns

abbrev pub run_rounds : {S : Type 0} → Parts S → List (List ThreadTurn) → System S → System S
run_rounds p rounds t = for_each (run_turns p) rounds t

module _ {S : Type 0} (p : Parts S) (limit : ℕ)
    (ends : (token : GoString) (response : DesiredStateServerResponse)
      → (page_at p.world p.analyzer.conf (auth_header p) limit token).1 ≡ some response
      → response.results ≡ []) where
  -- Turns that change nothing, one by one.
  abbrev AreIdle : List ThreadTurn → System S → Type 0
  AreIdle turns t = (m : ThreadTurn) → In m turns → turn p m t ≡ t

  AreIdle-run : (turns : List ThreadTurn) (t : System S) → AreIdle turns t → run_turns p turns t ≡ t
  unfolding run_turns
  AreIdle-run [] t idle = refl
  AreIdle-run (m ∷ turns) t idle =
      ap (λ u. for_each (turn p) turns u) (idle m (inl refl))
      ∙ AreIdle-run turns t (λ n k. idle n (inr k))

  run-Falls :
      (turns : List ThreadTurn) (t : System S)
      → IsWithin p limit t.fetcher
      → IsWithin p limit (run_turns p turns t).fetcher
        × (AreIdle turns t ⊎ left p limit (run_turns p turns t) < left p limit t)
  unfolding run_turns
  run-Falls [] t low = (low, inl (λ m k. absurd k))
  run-Falls (m ∷ turns) t low =
      let (within, fall) = turn-Falls p limit ends m t low in
      let (later, rest) = run-Falls turns (turn p m t) within in
      (
        later,
        elim fall [
          | inl same ↦ elim rest [
            | inl idle ↦ inl (λ n k. elim k [
              | inl e ↦ subst (λ x. turn p x t ≡ t) (sym e) same
              | inr k' ↦ subst (λ u. turn p n u ≡ u) same (idle n k')
            ])
            | inr less ↦ inr (omega (arith, less, ap (left p limit) same))
          ]
          | inr less ↦ elim rest [
            | inl idle ↦
                inr (omega (arith, less, ap (left p limit) (AreIdle-run turns (turn p m t) idle)))
            | inr more ↦ inr (omega (arith, less, more))
          ]
        ],
      )

  HasEnded-idle : (t : System S) → HasEnded p t → (m : ThreadTurn) → turn p m t ≡ t
  unfolding turn fetcher_turn analyzer_turn main_turn
  HasEnded-idle t ((error, back), no_fetch, no_analysis) (fetcher_moves b) =
      ap (λ at. fetcher_turn p b at t) no_fetch
  HasEnded-idle t ((error, back), no_fetch, no_analysis) analyzer_moves =
      ap (λ at. analyzer_turn p at t) no_analysis
  HasEnded-idle t ((error, back), no_fetch, no_analysis) (main_moves c) =
      ap (λ at. main_turn p at c t) back

  HasEnded-stays :
      (rounds : List (List ThreadTurn)) (t : System S) → HasEnded p t → run_rounds p rounds t ≡ t
  HasEnded-stays [] t ended = refl
  HasEnded-stays (turns ∷ rounds) t ended =
      ap (run_rounds p rounds) (AreIdle-run turns t (λ m k. HasEnded-idle t ended m))
      ∙ HasEnded-stays rounds t ended

  rounds-HasEnded :
      (rounds : List (List ThreadTurn)) (s0 : S) (t : System S)
      → All IsFair rounds
      → IsSound p s0 t
      → IsLive p t
      → IsWithin p limit t.fetcher
      → left p limit t < length rounds
      → HasEnded p (run_rounds p rounds t)
  rounds-HasEnded [] s0 t fair h l low less = absurd (omega (arith, less))
  rounds-HasEnded (turns ∷ rounds) s0 t ((b, f, a, e, o), fair) h l low less =
      let (within, fall) = run-Falls turns t low in
      elim fall [
        | inl idle ↦
            let ended = stuck_there p t s0 h l b (idle _ f) (idle _ a) (idle _ e) (idle _ o) in
            subst (HasEnded p) (sym (HasEnded-stays (turns ∷ rounds) t ended)) ended
        | inr fewer ↦
            rounds-HasEnded rounds s0 (run_turns p turns t) fair (run_turns-IsSound p s0 turns t h)
              (run_turns-IsLive p turns t l) within (omega (arith, less, fewer))
      ]

  start-left : (s : S) → left p limit (start_system p s) ≡ 4 * limit + 19
  unfolding start_system
  start-left s = omega arith

  start-IsWithin : (s : S) → IsWithin p limit (start_system p s).fetcher
  unfolding start_system
  start-IsWithin s = omega arith

  -- If the answer to the request numbered `limit` has no results, whatever the token, or is no
  -- answer, then after more than 4 * limit + 19 rounds of turns, in each of which the fetcher and the
  -- analyzer move and the loop looks for the analyzer's error and output, in any order and with any
  -- other turns between, the run has returned and both goroutines have ended.
  pub fair_run-HasEnded :
      (rounds : List (List ThreadTurn)) (s : S)
      → All IsFair rounds
      → 4 * limit + 19 < length rounds
      → HasEnded p (run_rounds p rounds (start_system p s))
  fair_run-HasEnded rounds s fair enough =
      rounds-HasEnded rounds s (start_system p s) fair (start-IsSound p s) (start-IsLive p s)
        (start-IsWithin s) (omega (arith, start-left s, enough))
