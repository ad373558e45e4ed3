-- ===== src/Manage.antt =====
-- hm/manage_desired_state.go: one run of the command `analyze`, which fetches the desired state,
-- analyzes it and sends what is due. The fetcher and the analyzer run side by side, on a queue that is
-- closed when the fetch has ended: the analyzer sees all batches, and whether the fetch succeeded. The
-- gauges that are sent after the analysis are those of Analyzer.AppMetrics; logging is left out.
pub mod Endings
pub mod Runs
pub mod Threads
use hm.Prelude.{ℕ, Bool, true, false, List, [], Option, none, some, ok, err, if◌then◌else◌}
use hm.Prelude.Text.{GoString}
use hm.Prelude.Time.{Time}
use hm.Prelude.Map.{Map}
use hm.Models.App.{App}
use hm.Models.Desired.{DesiredAppState}
use hm.Models.Priority.{Sorting}
use hm.Store.Interface.{StoreOps, Outcome}
use hm.Fetcher.{World, Fetched, FetchResult, FetchError, success, failure, fetch}
use hm.Analyzer.Analyze.{Analyzer, AppQueue, AnalyzeError, analyze}
use hm.Sender.{Sender, Request, Response, SendError, new_sending, send}

pub data ManageError : Type 0 where
  fetch_error : FetchError → ManageError
  analyze_error : AnalyzeError → ManageError
  send_error : SendError → ManageError

abbrev pub is_success : FetchResult → Bool
is_success (success n) = true
is_success (failure e) = false

-- What the run is made with: the fetcher's world, the analyzer with its configuration, and the
-- sender's store, metrics, clock and client.
pub record Parts (S : Type 0) : Type 1 where
  pub world : World
  pub analyzer : Analyzer
  pub store : StoreOps S
  pub add_to_counter : GoString → ℕ → S → S × Outcome
  pub sorting : Sorting
  pub respond : List Request → Request → Response
  pub sent_at : Time

module _ {S : Type 0} (p : Parts S) where
  -- The error that is returned: select takes either of two that are there.
  unfoldable pub first_error : Bool → FetchResult → AnalyzeError → ManageError
  first_error fetch_first (success n) e = analyze_error e
  first_error fetch_first (failure f) e = if fetch_first then fetch_error f else analyze_error e

  unfoldable pub sender_for : Map GoString App → Sender
  sender_for apps = record {
    conf = p.analyzer.conf;
    apps = apps;
    current_time = p.sent_at;
    respond = p.respond;
  }

  unfoldable pub send_error_of : Option SendError → Option ManageError
  send_error_of none = none
  send_error_of (some e) = some (send_error e)

  unfoldable pub queue_of : List (List DesiredAppState) → FetchResult → AppQueue
  queue_of batches result = record {
    desired_apps = batches;
    fetch_desired_apps_success = is_success result;
  }

  -- The state, the requests of the sender (the last one first) and the error, once the fetch has ended.
  unfoldable pub after_fetch :
      Bool → List (List DesiredAppState) → FetchResult → S → S × List Request × Option ManageError
  unfolding analyze send sender_for first_error send_error_of queue_of
  after_fetch fetch_first batches result s =
      let (s1, analyzed) = analyze p.store p.analyzer (queue_of batches result) s in
      elim analyzed [
        | err e ↦ (s1, [], some (first_error fetch_first result e))
        | ok (apps, starts, stops) ↦
            let (s2, sent, outcome) =
              send p.store p.add_to_counter p.sorting (sender_for apps) starts stops new_sending
                s1 in
            (s2, sent.requests, send_error_of outcome)
      ]

  -- Nothing, while the fetch goes on.
  unfoldable pub run_analyze : ℕ → Bool → S → Option (S × List Request × Option ManageError)
  unfolding fetch after_fetch
  run_analyze fuel fetch_first s =
      let fetched = fetch p.world p.analyzer.conf fuel in
      elim fetched.result [
        | none ↦ none
        | some result ↦ some (after_fetch fetch_first fetched.batches result s)
      ]
