-- ===== src/Analyzer/Analyze.antt =====
-- analyzer/analyzer.go: one analysis of all apps. The queue of desired apps is the list of the batches
-- that the channel delivers, each in the order in which the map is visited; what the store does is an
-- argument. The app of a loop is shared by two maps, of which the second forgets it when it changes.
pub mod Removal
use hm.Prelude.{
  ℕ, suc, Bool, true, false, List, [], ◌∷◌, ◌++◌, Option, none, some, Result, ok, err,
  if◌then◌else◌, for_each,
}
use hm.Prelude.Int.{ℤ}
use hm.Prelude.Text.{GoString, string_eq}
use hm.Prelude.Time.{Time}
use hm.Prelude.Float.{FloatOps}
use hm.Prelude.Map.{Map, lookup, insert, delete, values}
use hm.Config.{Config}
use hm.Models.Instance.{CrashCount}
use hm.Models.Desired.{DesiredAppState, desired_store_key}
use hm.Models.Pending.{PendingStartMessage, PendingStopMessage}
use hm.Models.App.{App, new_app}
use hm.Store.Interface.{StoreOps, StoreError, Outcome}
use hm.Analyzer.AppAnalyzer.{AppAnalyzer, Analysis, nothing_yet, analyze_app}

pub record AppQueue : Type 0 where
  pub desired_apps : List (List DesiredAppState)
  pub fetch_desired_apps_success : Bool

pub record Analyzer : Type 0 where
  pub conf : Config
  pub guid : ℕ → GoString
  pub floats : FloatOps
  pub visit : List ℤ → List ℤ
  -- clock.Now(), by the number of times it has been asked.
  pub clock : ℕ → Time

pub data AnalyzeError : Type 0 where
  store_failed : StoreError → AnalyzeError
  -- "Desired State Fetcher exited unsuccessfully."
  fetcher_failed : AnalyzeError

-- The local variables of Analyze.
pub record Analyzing : Type 0 where
  pub actual_apps : Map GoString App
  pub apps_pending_removal : Map GoString App
  pub all_start_messages : List PendingStartMessage
  pub all_stop_messages : List PendingStopMessage
  pub new_start_messages : List PendingStartMessage
  pub new_stop_messages : List PendingStopMessage
  pub all_crash_counts : List CrashCount
  pub drawn : ℕ
  pub ticks : ℕ

module _ (an : Analyzer) (existing_starts : Map GoString PendingStartMessage)
    (existing_stops : Map GoString PendingStopMessage) where
  unfoldable pub analyzing : Map GoString App → Analyzing
  analyzing apps = record {
    actual_apps = apps;
    apps_pending_removal = apps;
    all_start_messages = values existing_starts;
    all_stop_messages = values existing_stops;
    new_start_messages = [];
    new_stop_messages = [];
    all_crash_counts = [];
    drawn = 0;
    ticks = 1;
  }

  -- newAppAnalyzer(app, clock.Now(), ...).analyzeApp()
  unfoldable pub analysis_of : App → Analyzing → Analysis
  unfolding analyze_app nothing_yet
  analysis_of app z =
      analyze_app
        (record {
          app = app;
          conf = an.conf;
          existing_pending_start_messages = existing_starts;
          existing_pending_stop_messages = existing_stops;
          current_time = an.clock z.ticks;
          guid = an.guid;
          floats = an.floats;
          visit = an.visit;
        })
        (nothing_yet z.drawn)

  -- The messages and crash counts of an analysis are appended.
  unfoldable pub collect_stops : Analysis → Analyzing → Analyzing
  collect_stops r z = record z {
    all_stop_messages = z.all_stop_messages ++ values r.stop_messages;
    new_stop_messages = z.new_stop_messages ++ values r.stop_messages;
    all_crash_counts = z.all_crash_counts ++ r.crash_counts;
    drawn = r.drawn;
    ticks = suc z.ticks;
  }

  unfoldable pub collect_starts : Analysis → Analyzing → Analyzing
  collect_starts r z = record z {
    all_start_messages = z.all_start_messages ++ values r.start_messages;
    new_start_messages = z.new_start_messages ++ values r.start_messages;
  }

  -- The app for a desired state: the actual one with it, or a new one.
  unfoldable pub claim_app : DesiredAppState → Analyzing → App × Analyzing
  claim_app desired z =
      let key = desired_store_key desired in
      elim (lookup key z.actual_apps) [
        | none ↦
            let app = new_app desired.app_guid desired.app_version desired [] [] in
            (app, record z { actual_apps = insert key app z.actual_apps })
        | some found ↦
            let app = record found { desired = desired } in
            (
              app,
              record z {
                actual_apps = insert key app z.actual_apps;
                apps_pending_removal = delete key z.apps_pending_removal;
              },
            )
      ]

  unfoldable pub analyze_desired : DesiredAppState → Analyzing → Analyzing
  unfolding claim_app analysis_of collect_stops collect_starts
  analyze_desired desired z =
      let (app, claimed) = claim_app desired z in
      let r = analysis_of app z in collect_stops r (collect_starts r claimed)

  unfoldable pub analyze_batch : List DesiredAppState → Analyzing → Analyzing
  unfolding analyze_desired
  analyze_batch batch z = for_each analyze_desired batch z

  unfoldable pub analyze_queue : List (List DesiredAppState) → Analyzing → Analyzing
  unfolding analyze_batch
  analyze_queue batches z = for_each analyze_batch batches z

  -- An app that no batch claimed: its starts are dropped.
  unfoldable pub analyze_removed : App → Analyzing → Analyzing
  unfolding analysis_of collect_stops
  analyze_removed app z = collect_stops (analysis_of app z) z

module _ {S : Type 0} (store : StoreOps S) (an : Analyzer) where
  -- The three writes, which end at the first error.
  unfoldable pub save_analysis : Analyzing → S → S × Outcome
  save_analysis z s =
      let (s1, e1) = store.save_crash_counts z.all_crash_counts s in
      let (s2, e2) = store.save_pending_start_messages z.new_start_messages s1 in
      let (s3, e3) = store.save_pending_stop_messages z.new_stop_messages s2 in
      elim e1 [ some e ↦ (s1, some e) | none ↦ elim e2 [ some e ↦ (s2, some e) | none ↦ (s3, e3) ] ]

  -- What is returned besides the apps: all pending messages, old and new.
  abbrev pub Analyzed : Type 0
  Analyzed = Map GoString App × List PendingStartMessage × List PendingStopMessage

  unfoldable pub analyze_with :
      AppQueue
      → Map GoString App
      → Map GoString PendingStartMessage
      → Map GoString PendingStopMessage
      → S
      → S × Result AnalyzeError Analyzed
  unfolding analyzing analyze_queue analyze_removed save_analysis
  analyze_with queue apps starts stops s =
      let claimed =
        analyze_queue an starts stops queue.desired_apps (analyzing an starts stops apps) in
      let z =
        for_each (analyze_removed an starts stops) (values claimed.apps_pending_removal) claimed in
      let (s', outcome) = save_analysis z s in
      if queue.fetch_desired_apps_success
      then elim outcome [
        | some e ↦ (s', err (store_failed e))
        | none ↦ (s', ok (z.actual_apps, z.all_start_messages, z.all_stop_messages))
      ]
      else (s, err fetcher_failed)

  unfoldable pub analyze : AppQueue → S → S × Result AnalyzeError Analyzed
  unfolding analyze_with
  analyze queue s =
      let (s1, fresh) = store.verify_freshness (an.clock 0) s in
      let (s2, apps) = store.get_apps s1 in
      let (s3, starts) = store.get_pending_start_messages s2 in
      let (s4, stops) = store.get_pending_stop_messages s3 in
      elim fresh [
        | some e ↦ (s1, err (store_failed e))
        | none ↦ elim apps [
          | err e ↦ (s2, err (store_failed e))
          | ok found ↦ elim starts [
            | err e ↦ (s3, err (store_failed e))
            | ok queued ↦ elim stops [
              | err e ↦ (s4, err (store_failed e))
              | ok stopping ↦ analyze_with queue found queued stopping s4
            ]
          ]
        ]
      ]
