-- ===== src/Manage/Threads/Requests.antt =====
-- What the goroutines of `analyze` in hm/manage_desired_state.go make requests for.
use hm.Prelude.{◌≡◌, subst, List, Option, none, some, ok, true, map, In}
use hm.Prelude.Text.{GoString}
use hm.Prelude.Map.{Map}
use hm.Models.App.{App}
use hm.Models.Pending.{PendingStartMessage, PendingStopMessage}
use hm.Fetcher.{DesiredStateServerResponse, batch_of, initial_bulk_token}
use hm.Fetcher.Pages.{Pages}
use hm.Fetcher.Runs.{authorization}
use hm.Analyzer.Analyze.{analyze}
use hm.Sender.{Request}
use hm.Sender.Requests.{IsCalledFor}
use hm.Manage.{Parts, fetch_error, analyze_error, send_error, sender_for}
use hm.Manage.Runs.{run_analyze-IsCalledFor}
use hm.Manage.Threads.State.{
  AnalyzeOutput, AnalyzerAt, MainAt, selecting, sending, returned, ThreadTurn,
}
use hm.Manage.Threads.{start_system, run_turns}
use hm.Manage.Threads.Fetching.{unhurried}
use hm.Manage.Threads.Sound.{Waiting}
use hm.Manage.Threads.Loop.{alone}
use hm.Manage.Threads.Ends.{run_turns-IsSound, start-IsSound}

module _ {S : Type 0} (p : Parts S) (s0 : S) where
  -- The request is the start or the stop of a message of the analysis of all pages, as the sender's
  -- snapshot warrants.
  abbrev pub IsWarranted : Request → Type 0
  IsWarranted q =
      (pages : List DesiredStateServerResponse) × (apps : Map GoString App) × (starts : List
        PendingStartMessage)
      × (stops : List PendingStopMessage) × Pages (unhurried p.world) p.analyzer.conf
          (authorization (unhurried p.world) p.analyzer.conf) 0 initial_bulk_token pages
      × ((analyze p.store p.analyzer
            (record { desired_apps = map batch_of pages; fetch_desired_apps_success = true }) s0).1
          ≡ ok (apps, starts, stops))
      × IsCalledFor (sender_for p apps) starts stops q

  Waiting-IsWarranted :
      (at : MainAt) (s : S) (requests : List Request) (analyzer : AnalyzerAt)
      → (output : Option (Option AnalyzeOutput)) (q : Request)
      → Waiting p s0 at s requests analyzer output
      → In q requests
      → IsWarranted q
  unfolding sender_for
  Waiting-IsWarranted selecting s requests analyzer output q idle made =
      absurd (subst (In q) idle made)
  Waiting-IsWarranted (sending out) s requests analyzer output q (idle, ended, mailed) made =
      absurd (subst (In q) idle made)
  Waiting-IsWarranted (returned none) s requests analyzer output q (ended, mailed, fuel, same)
        made =
      run_analyze-IsCalledFor (alone p) fuel true s0 s requests none q same made
  Waiting-IsWarranted (returned (some (fetch_error f))) s requests analyzer output q idle made =
      absurd (subst (In q) idle made)
  Waiting-IsWarranted (returned (some (analyze_error e))) s requests analyzer output q idle made =
      absurd (subst (In q) idle made)
  Waiting-IsWarranted (returned (some (send_error e))) s requests analyzer output q
        (ended, mailed, fuel, same) made =
      run_analyze-IsCalledFor (alone p) fuel true s0 s requests (some (send_error e)) q same made

  -- However the fetcher, the analyzer and the loop interleave, at any moment, whatever error the run may
  -- report: every request that has been made is the start or the stop of a message which the analysis
  -- gave of all pages that the Cloud Controller has before one without results, a message that is due
  -- when the sender runs. A start skips verification, or its index is desired in the snapshot of this
  -- analysis and nothing starts or runs there; a stop is for an instance that is not desired in it, is
  -- being evacuated, or is one of several at its index.
  pub run_turns-IsWarranted :
      (turns : List ThreadTurn) (q : Request)
      → In q (run_turns p turns (start_system p s0)).requests
      → IsWarranted q
  run_turns-IsWarranted turns q made =
      let t = run_turns p turns (start_system p s0) in
      Waiting-IsWarranted t.main t.state t.requests t.analyzer t.analyze_state_output q
        (run_turns-IsSound p s0 turns (start_system p s0) (start-IsSound p s0)).waiting made
