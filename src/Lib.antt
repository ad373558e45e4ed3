-- ===== src/Lib.antt =====
-- HM9000, the health manager of Cloud Foundry: it compares the apps that the Cloud Controller wants
-- with the instances that the DEAs report, and asks for the starts and stops that bring them together.
--
-- The parts and how they interact. Listeners (actualstatelisteners/) pass heartbeats to the store
-- (store/), which keeps them in an etcd-like adapter behind a cache. The analyzer (analyzer/) takes the
-- desired apps from a fetcher and the actual apps from the store, and saves pending starts and stops.
-- The sender (sender/) takes the same apps and the pending messages, and sends those that are due.
--
-- Which file models which part:
--   Prelude      Shared notation, and Go's int, strings, maps, times and floats. An `int` is an integer
--                with its wrap-around written out (Prelude.Int.wrap), a string its bytes, a map an
--                association list whose order is the order of a `range` loop, an error a Result or an
--                Option, and a float64 the rank of its value, where arithmetic on it is an argument.
--   Config       config/config.go: defaults and derived durations.
--   Models       models/*.go: heartbeats (Instance), desired states (Desired), pending messages (Pending)
--                and their order (Priority), apps with the memo of their heartbeats (App), and
--                the authorization header (Auth).
--   Analyzer     analyzer/app_analyzer.go (AppAnalyzer), crash_delay.go (CrashDelay), analyzer.go
--                (Analyze) and app_metrics.go (AppMetrics).
--   Metrics      helpers/metricsaccountant/metrics_accountant.go: the counts of sent messages.
--   Sender       sender/sender.go: decisions, requests, bookkeeping, writes, and a start over the message bus (Bus).
--   Store        store/: the interface that the analyzer and the sender use (Interface), the adapter
--                (Adapter), freshness.go (Freshness), actual_state.go: its reads (ActualState) and
--                SyncHeartbeats (Sync), store.go (Base), the pending messages (Messages), crash_count.go
--                (CrashCounts), metrics.go (SavedMetrics), apps.go (Apps), compact.go with
--                shredder/shredder.go (Compaction), and RealStore as the interface (Real).
--   Fetcher      desiredstatefetcher/*.go: the pages of the Cloud Controller and the batches made of them.
--   Listeners    actualstatelisteners/*.go: heartbeats that come in, and the turns of the syncer.
--   Manage       hm/manage_desired_state.go: one run of fetch, analysis and send, in sequence, and
--                its goroutines with the queue of models/app_queue.go, in any order (Threads).
--   Evacuator    evacuator/evacuator.go: an instance that exits with its DEA is started again, and a run
--                on the messages of the bus until a signal comes.
--   ApiServer    apiserver/handlers/bulk_app_state.go: the states of the apps that are asked for.
--   Commands     hm/ifrit.go and hm/store.go: the loop of a component, the walk of a raw
--                dump, and the structured dump (Dump).
--   Tests        Runs on small inputs.
-- A function keeps its name in snake case; a method takes the struct that it reads as an argument, and
-- gives back the state that it changes.
--
-- Bounds and fuel. The fetcher's recursion over pages, which only the server's answers end, is on fuel,
-- and its result is absent where the fuel has run out: one more than the number of an answer that ends
-- it is enough. A loop `for index := 0; IsIndexDesired(index)` runs over the list of its indices.
-- Statements on sums of int values bound them by 2 ^ 62, which leaves room for one addition or
-- subtraction. The logarithm of the crash delay and its sum with the threshold are float64 arithmetic, an
-- argument, whose truncation is taken to be that of the exact sum for a maximum below 2 ^ 31 and a
-- threshold below 2 ^ 20, for the reason that Analyzer.CrashDelay.Exact gives.
-- The store's times to live are the adapter's: a theorem on freshness takes what it documents of them.
--
-- Arguments of the model, since their code is not in the repository: sort.Sort (Models.Priority.Sorting),
-- identifiers from gouuid, float arithmetic and formats (Prelude.Float.FloatOps), the order in which
-- Go visits a map, the HTTP client and its answers (Sender.Sender.respond, Fetcher.World), Base64, URLs,
-- the counters of dropsonde, the store adapter, the clock, what a select finds first, and the JSON form
-- of what is stored, sent or received. Not modelled: logging, the command line and the connections that
-- it sets up (hm9000.go, hm/common.go), the printing of a raw dump, the usage tracker, whose figures nothing
-- reads, process groups and locks, TLS, the wrapper around HTTP authentication, and the reading of the
-- configuration file.
pub mod Prelude
pub mod Config
pub mod Models
pub mod Analyzer
pub mod Store
pub mod Metrics
pub mod Sender
pub mod Fetcher
pub mod Listeners
pub mod Manage
pub mod Evacuator
pub mod ApiServer
pub mod Commands
pub mod Tests
