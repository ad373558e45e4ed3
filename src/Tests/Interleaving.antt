-- ===== src/Tests/Interleaving.antt =====
-- Runs of `analyze` whose goroutines interleave.
use hm.Prelude.{
  ℕ, zero, suc, arith, ◌≡◌, refl, ◌⊎◌, inl, inr, Bool, All, List, [], ◌∷◌, Option, none, some, true,
  false,
}
use hm.Models.Priority.Insertion.{by_insertion}
use hm.Fetcher.{bad_url, page_at}
use hm.Sender.{new_sending}
use hm.Metrics.{increment_sent_message_metrics}
use hm.Prelude.Time.{unix}
use hm.Prelude.Map.{lookup}
use hm.Manage.{ManageError, run_analyze, fetch_error}
use hm.Manage.Threads.State.{
  ThreadTurn, fetcher_moves, analyzer_moves, main_moves, of_fetch, of_analysis, of_output, returned,
  fetcher_ended, analyzer_ended,
}
use hm.Manage.Threads.{start_system, run_turns, turn}
use hm.Manage.Threads.Sound.{IsUnsaved}
use hm.Manage.Threads.Loop.{alone}
use hm.Manage.Threads.Ends.{any_interleaving-run_analyze, fetch_error-saves_nothing}
use hm.Manage.Threads.Progress.{HasEnded, IsStuck, stuck-ended}
use hm.Manage.Threads.Fair.{IsFair, run_rounds, fair_run-HasEnded}
use hm.Tests.Parts.{parts_in, lost_world, whole_run}

-- The analyzer waits for a batch while the fetcher and the loop move.
abbrev pub whole_turns : List ThreadTurn
whole_turns =
    analyzer_moves
    ∷ fetcher_moves false
    ∷ analyzer_moves
    ∷ analyzer_moves
    ∷ analyzer_moves
    ∷ fetcher_moves false
    ∷ main_moves of_output
    ∷ analyzer_moves
    ∷ fetcher_moves true
    ∷ fetcher_moves false
    ∷ fetcher_moves false
    ∷ analyzer_moves
    ∷ fetcher_moves false
    ∷ main_moves of_fetch
    ∷ analyzer_moves
    ∷ analyzer_moves
    ∷ analyzer_moves
    ∷ main_moves of_analysis
    ∷ main_moves of_output
    ∷ main_moves of_output
    ∷ []

whole_end : (run_turns whole_run whole_turns (start_system whole_run 7)).main ≡ returned none
unfolding run_turns start_system hm.Prelude.Text.str_eqb increment_sent_message_metrics
    hm.Prelude.Map.insert lookup hm.Models.App.heartbeats_by_index hm.Models.App.new_app
    hm.Models.App.is_staged hm.Models.App.has_starting_or_running_instance_at_index
    hm.Models.App.instance_heartbeats_at_index hm.Models.App.has_crashed_instance_at_index
    hm.Models.App.has_evacuating_instance_at_index hm.Models.App.evacuating_instances_at_index
    hm.Prelude.Map.has hm.Models.Pending.start_store_key hm.Prelude.Text.itoa by_insertion
    hm.Models.Priority.less hm.Models.Pending.is_time_to_send unix hm.Prelude.Int.◌+ℤ◌
    hm.Prelude.Time.seconds hm.Config.grace_period hm.Models.Pending.is_expired new_sending
whole_end = refl

any_interleaving-run_analyze_example :
    (fuel : ℕ) × (run_analyze (alone whole_run) fuel true 7
      ≡ some (
        (run_turns whole_run whole_turns (start_system whole_run 7)).state,
        (run_turns whole_run whole_turns (start_system whole_run 7)).requests,
        none,
      ))
any_interleaving-run_analyze_example =
    any_interleaving-run_analyze whole_run 7 whole_turns none tt whole_end

-- The error is returned before the analyzer has begun.
abbrev lost_turns : List ThreadTurn
lost_turns =
    fetcher_moves false
    ∷ fetcher_moves false
    ∷ fetcher_moves false
    ∷ main_moves of_fetch
    ∷ analyzer_moves
    ∷ []

lost_end :
    (run_turns (parts_in lost_world) lost_turns (start_system (parts_in lost_world) 7)).main
    ≡ returned (some (fetch_error bad_url))
unfolding run_turns start_system
lost_end = refl

fetch_error-saves_nothing_example :
    ((run_turns (parts_in lost_world) lost_turns (start_system (parts_in lost_world) 7)).requests
      ≡ [])
    × IsUnsaved
        (parts_in lost_world)
        7
        (run_turns (parts_in lost_world) lost_turns (start_system (parts_in lost_world) 7)).state
fetch_error-saves_nothing_example =
    fetch_error-saves_nothing (parts_in lost_world) 7 lost_turns bad_url lost_end

-- The rest of the turns after the error.
abbrev all_lost_turns : List ThreadTurn
all_lost_turns =
    fetcher_moves false
    ∷ fetcher_moves false
    ∷ fetcher_moves false
    ∷ main_moves of_fetch
    ∷ fetcher_moves false
    ∷ analyzer_moves
    ∷ analyzer_moves
    ∷ analyzer_moves
    ∷ analyzer_moves
    ∷ analyzer_moves
    ∷ analyzer_moves
    ∷ analyzer_moves
    ∷ []

lost-IsStuck :
    IsStuck
      (parts_in lost_world)
      (run_turns (parts_in lost_world) all_lost_turns (start_system (parts_in lost_world) 7))
unfolding run_turns turn start_system
lost-IsStuck (fetcher_moves b) = refl
lost-IsStuck analyzer_moves = refl
lost-IsStuck (main_moves c) = refl

stuck-ended_example :
    let t = run_turns (parts_in lost_world) all_lost_turns (start_system (parts_in lost_world) 7) in
    ((error : Option ManageError) × (t.main ≡ returned error))
    × (t.fetcher ≡ fetcher_ended)
    × (t.analyzer ≡ analyzer_ended)
stuck-ended_example = stuck-ended (parts_in lost_world) all_lost_turns 7 lost-IsStuck

-- Each thread moves once, the fetcher last.
abbrev fair_round : List ThreadTurn
fair_round =
    main_moves of_output ∷ main_moves of_analysis ∷ analyzer_moves ∷ fetcher_moves false ∷ []

fair_round-IsFair : IsFair fair_round
fair_round-IsFair =
    (false, inr (inr (inr (inl refl))), inr (inr (inl refl)), inr (inl refl), inl refl)

abbrev rounds_of : ℕ → List (List ThreadTurn)
rounds_of zero = []
rounds_of (suc n) = fair_round ∷ rounds_of n

rounds_of-AreFair : (n : ℕ) → All IsFair (rounds_of n)
rounds_of-AreFair zero = tt
rounds_of-AreFair (suc n) = (fair_round-IsFair, rounds_of-AreFair n)

fair_run-HasEnded_example :
    HasEnded
      (parts_in lost_world)
      (run_rounds (parts_in lost_world) (rounds_of 20) (start_system (parts_in lost_world) 7))
unfolding page_at
fair_run-HasEnded_example =
    fair_run-HasEnded (parts_in lost_world) 0 (λ token response e. absurd (ground (arith, e)))
      (rounds_of 20) 7 (rounds_of-AreFair 20) (omega arith)
