-- ===== src/Manage/Threads/State.antt =====
-- Where the goroutines of `analyze` in hm/manage_desired_state.go can be, and what they share.
use hm.Prelude.{ℕ, Bool, true, false, List, [], ◌∷◌, Option, none, some, Result, ok, err}
use hm.Prelude.Text.{GoString}
use hm.Prelude.Map.{Map}
use hm.Models.App.{App}
use hm.Models.Desired.{DesiredAppState}
use hm.Models.Pending.{PendingStartMessage, PendingStopMessage}
use hm.Fetcher.{FetchResult, FetchError, DesiredStateServerResponse}
use hm.Analyzer.Analyze.{Analyzing, AnalyzeError}
use hm.Sender.{Request}
use hm.Manage.{ManageError}

abbrev pub Batch : Type 0
Batch = List DesiredAppState

-- analyzeOutput
abbrev pub AnalyzeOutput : Type 0
AnalyzeOutput = Map GoString App × List PendingStartMessage × List PendingStopMessage

-- Where the fetcher is: before its nth request, with the token and the number of results so far; in
-- the select of sendBatch; back from Fetch; before it reports its error; before it closes the queue.
pub data FetcherAt : Type 0 where
  asking : ℕ → GoString → ℕ → FetcherAt
  queueing : ℕ → DesiredStateServerResponse → ℕ → FetcherAt
  fetched : FetchResult → FetcherAt
  reporting : Option FetchError → FetcherAt
  closing : FetcherAt
  fetcher_ended : FetcherAt

-- Where the analyzer is: before each of its reads; in the loop over the queue; back from Analyze;
-- past the report of its error.
pub data AnalyzerAt : Type 0 where
  verifying : AnalyzerAt
  getting_apps : AnalyzerAt
  getting_starts : Map GoString App → AnalyzerAt
  getting_stops : Map GoString App → Map GoString PendingStartMessage → AnalyzerAt
  draining :
      Map GoString PendingStartMessage → Map GoString PendingStopMessage → Analyzing → AnalyzerAt
  analyzed : Result AnalyzeError AnalyzeOutput → AnalyzerAt
  reported : Result AnalyzeError AnalyzeOutput → AnalyzerAt
  analyzer_ended : AnalyzerAt

-- Where the function itself is: in its select, before it sends, or back.
pub data MainAt : Type 0 where
  selecting : MainAt
  sending : AnalyzeOutput → MainAt
  returned : Option ManageError → MainAt

-- The threads and what they share; a channel of errors or of output holds what is not yet received.
pub record System (S : Type 0) : Type 0 where
  pub state : S
  pub requests : List Request
  pub fetcher : FetcherAt
  pub analyzer : AnalyzerAt
  pub main : MainAt
  pub desired_apps : List Batch
  pub is_closed : Bool
  pub fetch_desired_apps_success : Bool
  pub done_analyzing : Bool
  pub fetch_desired_err : Option (Option FetchError)
  pub analyze_state_err : Option (Option AnalyzeError)
  pub analyze_state_output : Option (Option AnalyzeOutput)

-- The cases of the select in the loop.
pub data Case : Type 0 where
  of_fetch of_analysis of_output : Case

-- Who moves, and which case is taken where a select has several: for the fetcher, whether it takes
-- DoneAnalyzing.
pub data ThreadTurn : Type 0 where
  fetcher_moves : Bool → ThreadTurn
  analyzer_moves : ThreadTurn
  main_moves : Case → ThreadTurn

abbrev pub analysis_error : Result AnalyzeError AnalyzeOutput → Option AnalyzeError
analysis_error (ok out) = none
analysis_error (err e) = some e

-- Its apps are nil if the analysis failed.
abbrev pub output_of : Result AnalyzeError AnalyzeOutput → Option AnalyzeOutput
output_of (ok out) = some out
output_of (err e) = none

-- The channel has room for one batch.
abbrev pub has_room : List Batch → Bool
has_room [] = true
has_room (b ∷ bs) = false
