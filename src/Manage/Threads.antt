-- ===== src/Manage/Threads.antt =====
-- The goroutines of `analyze` in hm/manage_desired_state.go: the fetcher and the analyzer, which share
-- the channel and the flag of models/app_queue.go, and the loop that waits for both. Any thread may move
-- next, by one turn; a thread that is blocked stays where it is. A read of a closed channel of errors
-- tells the loop nothing, so it is no turn.
pub mod State
pub mod Fetching
pub mod Sound
pub mod Moves
pub mod Analysis
pub mod Draining
pub mod Turns
pub mod Loop
pub mod Ends
pub mod Live
pub mod Waits
pub mod Progress
pub mod Measure
pub mod Decrease
pub mod Fair
pub mod Requests
use hm.Prelude.{
  ℕ, suc, ◌+◌, Bool, true, false, List, [], ◌∷◌, ◌++◌, Option, none, some, Result, ok, err,
  if◌then◌else◌, for_each, length,
}
use hm.Prelude.Text.{GoString}
use hm.Prelude.Map.{Map, values}
use hm.Config.{Config}
use hm.Models.App.{App}
use hm.Models.Desired.{DesiredAppState}
use hm.Models.Pending.{PendingStartMessage, PendingStopMessage}
use hm.Models.Auth.{encode}
use hm.Fetcher.{
  World, FetchResult, FetchError, DesiredStateServerResponse, success, failure, page_at, batch_of,
  initial_bulk_token, not_analyzing,
}
use hm.Analyzer.Analyze.{
  Analyzer, Analyzing, AnalyzeError, store_failed, fetcher_failed, analyzing, analyze_batch,
  analyze_removed, save_analysis,
}
use hm.Store.Interface.{StoreError, Outcome}
use hm.Sender.{Request, new_sending, send}
use hm.Manage.Threads.State.{
  Batch, AnalyzeOutput, FetcherAt, asking, queueing, fetched, reporting, closing, fetcher_ended,
  AnalyzerAt, verifying, getting_apps, getting_starts, getting_stops, draining, analyzed, reported,
  analyzer_ended, MainAt, selecting, sending, returned, System, Case, of_fetch, of_analysis,
  of_output, ThreadTurn, fetcher_moves, analyzer_moves, main_moves, analysis_error, output_of,
  has_room,
}
use hm.Manage.{Parts, ManageError, fetch_error, analyze_error, sender_for, send_error_of}

module _ {S : Type 0} (p : Parts S) where
  abbrev pub auth_header : GoString
  auth_header =
      encode p.world.base64 (record {
        user = p.analyzer.conf.cc_auth_user;
        password = p.analyzer.conf.cc_auth_password;
      })

  -- newAppQueue, and the threads as they are made.
  unfoldable pub start_system : S → System S
  start_system s = record {
    state = s;
    requests = [];
    fetcher = asking 0 initial_bulk_token 0;
    analyzer = verifying;
    main = selecting;
    desired_apps = [];
    is_closed = false;
    fetch_desired_apps_success = false;
    done_analyzing = false;
    fetch_desired_err = none;
    analyze_state_err = none;
    analyze_state_output = none;
  }

  -- The nth request of fetchBatch, up to the batch or the result.
  unfoldable pub ask_page : ℕ → GoString → ℕ → FetcherAt
  unfolding page_at
  ask_page n token num_results =
      let (error, page) = page_at p.world p.analyzer.conf auth_header n token in
      elim page [
        | none ↦ fetched (failure error)
        | some response ↦ elim response.results [
          | [] ↦ fetched (success num_results)
          | first ∷ more ↦ queueing n response num_results
        ]
      ]

  -- Where fetchBatch goes on once the batch has been queued.
  unfoldable pub next_page : ℕ → DesiredStateServerResponse → ℕ → FetcherAt
  next_page n response num_results =
      asking (suc n) (p.world.token_json response.bulk_token)
        (num_results + length response.results)

  -- The select of sendBatch: blocked while there is no room and the analyzer is at work.
  unfoldable pub queue_batch : Bool → ℕ → DesiredStateServerResponse → ℕ → System S → System S
  unfolding batch_of next_page
  queue_batch prefers_done n response num_results t =
      let stopped = record t { fetcher = fetched (failure not_analyzing) } in
      let queued = record t {
        fetcher = next_page n response num_results;
        desired_apps = t.desired_apps ++ (batch_of response ∷ []);
      } in
      if has_room t.desired_apps
      then (if t.done_analyzing then (if prefers_done then stopped else queued) else queued)
      else if t.done_analyzing
      then stopped
      else t

  unfoldable pub fetcher_turn : Bool → FetcherAt → System S → System S
  unfolding ask_page queue_batch
  fetcher_turn prefers_done (asking n token num_results) t = record t {
    fetcher = ask_page n token num_results;
  }
  fetcher_turn prefers_done (queueing n response num_results) t =
      queue_batch prefers_done n response num_results t
  fetcher_turn prefers_done (fetched (success n)) t = record t {
    fetcher = reporting none;
    fetch_desired_apps_success = true;
  }
  fetcher_turn prefers_done (fetched (failure f)) t = record t { fetcher = reporting (some f) }
  fetcher_turn prefers_done (reporting error) t = record t {
    fetcher = closing;
    fetch_desired_err = some error;
  }
  fetcher_turn prefers_done closing t = record t { fetcher = fetcher_ended; is_closed = true }
  fetcher_turn prefers_done fetcher_ended t = t

  -- Analyze returns, and closes DoneAnalyzing.
  unfoldable pub analysis_returns : S → Result AnalyzeError AnalyzeOutput → System S → System S
  analysis_returns s result t = record t {
    state = s;
    analyzer = analyzed result;
    done_analyzing = true;
  }

  -- What Analyze does once the queue is closed.
  unfoldable pub conclude :
      Map GoString PendingStartMessage
      → Map GoString PendingStopMessage
      → Bool
      → Analyzing
      → S
      → S × Result AnalyzeError AnalyzeOutput
  unfolding analyze_removed save_analysis
  conclude starts stops fetch_succeeded claimed s =
      let z =
        for_each (analyze_removed p.analyzer starts stops) (values claimed.apps_pending_removal)
          claimed in
      let (s', outcome) = save_analysis p.store p.analyzer z s in
      if fetch_succeeded
      then elim outcome [
        | some e ↦ (s', err (store_failed e))
        | none ↦ (s', ok (z.actual_apps, z.all_start_messages, z.all_stop_messages))
      ]
      else (s, err fetcher_failed)

  -- A read of the store, after which Analyze goes on or returns the error.
  unfoldable pub after_read :
      {A : Type 0} → Result StoreError A → (A → AnalyzerAt) → S → System S → System S
  unfolding analysis_returns
  after_read (err e) go_on s t = analysis_returns s (err (store_failed e)) t
  after_read (ok a) go_on s t = record t { state = s; analyzer = go_on a }

  unfoldable pub after_check : Outcome → S → System S → System S
  unfolding analysis_returns
  after_check (some e) s t = analysis_returns s (err (store_failed e)) t
  after_check none s t = record t { state = s; analyzer = getting_apps }

  -- The loop over the queue, which waits while the queue is empty and open.
  unfoldable pub drain :
      Map GoString PendingStartMessage
      → Map GoString PendingStopMessage
      → Analyzing
      → List Batch
      → System S
      → System S
  unfolding conclude analysis_returns analyze_batch
  drain starts stops z (b ∷ bs) t = record t {
    analyzer = draining starts stops (analyze_batch p.analyzer starts stops b z);
    desired_apps = bs;
  }
  drain starts stops z [] t =
      let (s', result) = conclude starts stops t.fetch_desired_apps_success z t.state in
      if t.is_closed then analysis_returns s' result t else t

  unfoldable pub analyzer_turn : AnalyzerAt → System S → System S
  unfolding after_read after_check drain analyzing
  analyzer_turn verifying t =
      let (s, fresh) = p.store.verify_freshness (p.analyzer.clock 0) t.state in
      after_check fresh s t
  analyzer_turn getting_apps t =
      let (s, apps) = p.store.get_apps t.state in after_read apps getting_starts s t
  analyzer_turn (getting_starts apps) t =
      let (s, starts) = p.store.get_pending_start_messages t.state in
      after_read starts (getting_stops apps) s t
  analyzer_turn (getting_stops apps starts) t =
      let (s, stops) = p.store.get_pending_stop_messages t.state in
      after_read stops (λ found. draining starts found (analyzing p.analyzer starts found apps)) s t
  analyzer_turn (draining starts stops z) t = drain starts stops z t.desired_apps t
  analyzer_turn (analyzed result) t = record t {
    analyzer = reported result;
    analyze_state_err = some (analysis_error result);
  }
  analyzer_turn (reported result) t = record t {
    analyzer = analyzer_ended;
    analyze_state_output = some (output_of result);
  }
  analyzer_turn analyzer_ended t = t

  -- What the loop does with what a case of its select receives, if there is anything.
  unfoldable pub receive_fetch : Option (Option FetchError) → System S → System S
  receive_fetch none t = t
  receive_fetch (some none) t = record t { fetch_desired_err = none }
  receive_fetch (some (some f)) t = record t {
    fetch_desired_err = none;
    main = returned (some (fetch_error f));
  }

  unfoldable pub receive_analysis : Option (Option AnalyzeError) → System S → System S
  receive_analysis none t = t
  receive_analysis (some none) t = record t { analyze_state_err = none }
  receive_analysis (some (some e)) t = record t {
    analyze_state_err = none;
    main = returned (some (analyze_error e));
  }

  unfoldable pub receive_output : Option (Option AnalyzeOutput) → System S → System S
  receive_output none t = t
  receive_output (some none) t = record t { analyze_state_output = none }
  receive_output (some (some out)) t = record t { analyze_state_output = none; main = sending out }

  unfoldable pub main_turn : MainAt → Case → System S → System S
  unfolding receive_fetch receive_analysis receive_output send sender_for send_error_of
  main_turn selecting of_fetch t = receive_fetch t.fetch_desired_err t
  main_turn selecting of_analysis t = receive_analysis t.analyze_state_err t
  main_turn selecting of_output t = receive_output t.analyze_state_output t
  main_turn (sending (apps, starts, stops)) any t =
      let (s, sent, outcome) =
        send p.store p.add_to_counter p.sorting (sender_for p apps) starts stops new_sending
          t.state in
      record t { state = s; requests = sent.requests; main = returned (send_error_of p outcome) }
  main_turn (returned error) any t = t

  unfoldable pub turn : ThreadTurn → System S → System S
  unfolding fetcher_turn analyzer_turn main_turn
  turn (fetcher_moves prefers_done) t = fetcher_turn prefers_done t.fetcher t
  turn analyzer_moves t = analyzer_turn t.analyzer t
  turn (main_moves c) t = main_turn t.main c t

  unfoldable pub run_turns : List ThreadTurn → System S → System S
  unfolding turn
  run_turns turns t = for_each turn turns t
