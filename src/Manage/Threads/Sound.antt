-- ===== src/Manage/Threads/Sound.antt =====
-- What holds of the goroutines of `analyze` in hm/manage_desired_state.go at any time.
use hm.Prelude.{ℕ, ◌≡◌, ◌⊎◌, true, false, List, [], ◌++◌, Option, none, some, Result, ok}
use hm.Prelude.Map.{Map}
use hm.Prelude.Text.{GoString}
use hm.Models.App.{App}
use hm.Models.Pending.{PendingStartMessage, PendingStopMessage}
use hm.Fetcher.{FetchError}
use hm.Analyzer.Analyze.{AnalyzeError, analyzing, analyze_queue, analyze}
use hm.Sender.{Request}
use hm.Manage.{Parts, ManageError, fetch_error, analyze_error, send_error, run_analyze}
use hm.Manage.Threads.State.{
  Batch, AnalyzeOutput, closing, fetcher_ended, AnalyzerAt, verifying, getting_apps, getting_starts,
  getting_stops, draining, analyzed, reported, analyzer_ended, MainAt, selecting, sending, returned,
  System,
}
use hm.Manage.Threads.Fetching.{unhurried, Fetching}

module _ {S : Type 0} (p : Parts S) (s0 : S) where
  -- The store after each of the reads of Analyze.
  abbrev pub verified : S
  verified = (p.store.verify_freshness (p.analyzer.clock 0) s0).0

  abbrev pub apps_read : S
  apps_read = (p.store.get_apps verified).0

  abbrev pub starts_read : S
  starts_read = (p.store.get_pending_start_messages apps_read).0

  abbrev pub stops_read : S
  stops_read = (p.store.get_pending_stop_messages starts_read).0

  -- Nothing has been saved.
  abbrev pub IsUnsaved : S → Type 0
  IsUnsaved s = s ≡ s0 ⊎ s ≡ verified ⊎ s ≡ apps_read ⊎ s ≡ starts_read ⊎ s ≡ stops_read

  abbrev pub IsFresh : Type 0
  IsFresh = (p.store.verify_freshness (p.analyzer.clock 0) s0).1 ≡ none

  abbrev pub AppsAre : Map GoString App → Type 0
  AppsAre apps = (p.store.get_apps verified).1 ≡ ok apps

  abbrev pub StartsAre : Map GoString PendingStartMessage → Type 0
  StartsAre starts = (p.store.get_pending_start_messages apps_read).1 ≡ ok starts

  abbrev pub StopsAre : Map GoString PendingStopMessage → Type 0
  StopsAre stops = (p.store.get_pending_stop_messages starts_read).1 ≡ ok stops

  -- By the place of the analyzer: the batches that it has taken, and the store.
  abbrev pub Reading : AnalyzerAt → List Batch → S → Type 0
  Reading verifying taken s = (s ≡ s0) × (taken ≡ [])
  Reading getting_apps taken s = (s ≡ verified) × (taken ≡ []) × IsFresh
  Reading (getting_starts apps) taken s = (s ≡ apps_read) × (taken ≡ []) × IsFresh × AppsAre apps
  Reading (getting_stops apps starts) taken s =
      (s ≡ starts_read) × (taken ≡ []) × IsFresh × AppsAre apps × StartsAre starts
  Reading (draining starts stops z) taken s =
      (apps : Map GoString App) × (s ≡ stops_read)
      × IsFresh
      × AppsAre apps
      × StartsAre starts
      × StopsAre stops
      × (z ≡ analyze_queue p.analyzer starts stops taken (analyzing p.analyzer starts stops apps))
  Reading (analyzed r) taken s = Unit
  Reading (reported r) taken s = Unit
  Reading analyzer_ended taken s = Unit

  -- The analysis by itself, of all these batches and a fetch that has succeeded.
  abbrev pub analysis : List Batch → S × Result AnalyzeError AnalyzeOutput
  analysis batches =
      analyze p.store p.analyzer
        (record { desired_apps = batches; fetch_desired_apps_success = true }) s0

  -- The output is on its way to the sender.
  abbrev pub Holds : System S → AnalyzeOutput → Type 0
  Holds t out =
      t.analyzer ≡ analyzed (ok out)
      ⊎ t.analyzer ≡ reported (ok out)
      ⊎ t.analyze_state_output ≡ some (some out)
      ⊎ t.main ≡ sending out

  pub record IsWhole (taken : List Batch) (t : System S) (out : AnalyzeOutput) : Type 0 where
    pub succeeded : t.fetch_desired_apps_success ≡ true
    pub closed : t.is_closed ≡ true
    pub empty : t.desired_apps ≡ []
    pub same : analysis taken ≡ (t.state, ok out)

  -- The loop has sent, and returns what the run by itself returns, where the analyzer takes every
  -- batch. The analyzer has nothing left to do.
  abbrev pub HasSent :
      S → List Request → AnalyzerAt → Option (Option AnalyzeOutput) → Option ManageError → Type 0
  HasSent s requests analyzer output error =
      (analyzer ≡ analyzer_ended)
      × (output ≡ none)
      × (fuel : ℕ) × (run_analyze (record p { world = unhurried p.world }) fuel true s0
          ≡ some (s, requests, error))

  -- By the place of the loop.
  abbrev pub Waiting :
      MainAt → S → List Request → AnalyzerAt → Option (Option AnalyzeOutput) → Type 0
  Waiting selecting s requests analyzer output = requests ≡ []
  Waiting (sending out) s requests analyzer output =
      (requests ≡ []) × (analyzer ≡ analyzer_ended) × (output ≡ none)
  Waiting (returned none) s requests analyzer output = HasSent s requests analyzer output none
  Waiting (returned (some (fetch_error f))) s requests analyzer output = requests ≡ []
  Waiting (returned (some (analyze_error e))) s requests analyzer output = requests ≡ []
  Waiting (returned (some (send_error e))) s requests analyzer output =
      HasSent s requests analyzer output (some (send_error e))

  -- The fetch has failed for good.
  abbrev pub HasFailed : System S → Type 0
  HasFailed t =
      (t.fetch_desired_apps_success ≡ false) × (t.fetcher ≡ closing ⊎ t.fetcher ≡ fetcher_ended)

  pub record IsSound (t : System S) : Type 0 where
    pub taken : List Batch
    pub fetching :
        Fetching p t.fetcher (taken ++ t.desired_apps) t.fetch_desired_apps_success t.is_closed
    pub reading : Reading t.analyzer taken t.state
    pub unsaved : t.fetch_desired_apps_success ≡ true ⊎ IsUnsaved t.state
    pub whole : (out : AnalyzeOutput) → Holds t out → IsWhole taken t out
    pub mailed :
        (o : Option AnalyzeOutput) → t.analyze_state_output ≡ some o → t.analyzer ≡ analyzer_ended
    pub failed :
        (f : FetchError)
        → t.fetch_desired_err ≡ some (some f) ⊎ t.main ≡ returned (some (fetch_error f))
        → HasFailed t
    pub waiting : Waiting t.main t.state t.requests t.analyzer t.analyze_state_output
