-- ===== src/Tests/Components.antt =====
-- The analyzer, the sender and the store on the shared inputs.
use hm.Prelude.{
  ℕ, ◌≡◌, ◌≢◌, refl, inl, inr, Bool, true, false, List, [], ◌∷◌, ◌++◌, Option, none, some, map, All,
  In, arith, select, not, if◌then◌else◌, ok, ◌⊎◌, suc, ◌≤◌, ◌<◌,
}
use hm.Prelude.Int.{pos, ◌≤ℤ◌}
use hm.Prelude.Text.{GoString, codes, string_eq}
use hm.Prelude.Map.{Map, lookup, values}
use hm.Config.{defaults}
use hm.Models.App.{App}
use hm.Models.Instance.{InstanceHeartbeat}
use hm.Models.Pending.{PendingStartMessage, PendingStopMessage, StartMessage, is_time_to_send}
use hm.Models.Priority.Insertion.{by_insertion}
use hm.Store.Interface.{StoreOps}
use hm.Analyzer.AppAnalyzer.{analyze_app, nothing_yet, missing_at}
use hm.Analyzer.AppAnalyzer.Sound.{IsSound}
use hm.Analyzer.AppAnalyzer.Justified.{analyze_app-IsSound}
use hm.Analyzer.AppAnalyzer.Complete.{slot, every_gap_is_queued}
use hm.Analyzer.AppAnalyzer.Grows.{StartQueued}
use hm.Analyzer.Analyze.{Analyzer, AppQueue, analyze_queue, analyzing}
use hm.Analyzer.Analyze.Removal.{pending_removal, queue_has}
use hm.Analyzer.AppMetrics.{gauges}
use hm.Analyzer.AppMetrics.Totals.{gauges-AddsUp, AddsUp}
use hm.Analyzer.CrashDelay.{compute_crash_delay}
use hm.Analyzer.CrashDelay.Exact.{IsExact, exact_log2_sum-IsExact}
use hm.Analyzer.CrashDelay.Bounds.{compute_crash_delay-eq, compute_crash_delay_bounds, backoff}
use hm.Sender.{new_sending, deliver, start_message_to_send, stop_message_to_send}
use hm.Sender.Decisions.{
  start_message_to_send_iff, stop_message_to_send_iff, MayStart, MaySendStop, names_of,
}
use hm.Sender.Sound.{deliver-IsRight, IsRight}
use hm.Sender.Settled.{nothing_due_is_forgotten, StartSettled, StopSettled}
use hm.Store.Sync.{Syncing, sync_instances, is_unchanged, store_node_for_instance_heartbeat}
use hm.Store.Sync.Changes.{sync_instances-changes, IsCached, evacuates}
use hm.Tests.Data.{
  sample_app, sample_analyzer, sample_sender, start_1, stop_b, three_wanted, plain_floats,
  first_running, one_evacuating, numbered, in_order, noon,
}

analyze_app-IsSound_example : IsSound sample_analyzer (analyze_app sample_analyzer (nothing_yet 0))
analyze_app-IsSound_example = analyze_app-IsSound sample_analyzer tt 0

every_gap_is_queued_example :
    StartQueued sample_analyzer
      (slot sample_app (pos 1))
      (analyze_app sample_analyzer (nothing_yet 0))
unfolding hm.Models.App.is_staged hm.Models.App.is_index_desired
    hm.Models.App.has_starting_or_running_instance_at_index
    hm.Models.App.instance_heartbeats_at_index hm.Models.App.index_of hm.Models.App.at_index_or_nil
    hm.Models.App.group_onto hm.Models.App.verify_instance_heartbeats_by_index_is_ready
    hm.Prelude.Map.insert lookup hm.Models.Instance.is_starting_or_running
    hm.Models.Instance.is_starting hm.Models.Instance.is_running missing_at
    hm.Models.App.has_crashed_instance_at_index hm.Models.Instance.is_crashed
    hm.Models.App.has_evacuating_instance_at_index hm.Models.App.evacuating_instances_at_index
    hm.Models.Instance.is_evacuating hm.Prelude.Text.str_eqb
every_gap_is_queued_example = every_gap_is_queued sample_analyzer 1 0 refl refl refl (inl refl)

deliver-IsRight_example :
    IsRight sample_sender
      (deliver by_insertion sample_sender (start_1 ∷ []) (stop_b ∷ []) new_sending)
deliver-IsRight_example = deliver-IsRight by_insertion sample_sender (start_1 ∷ []) (stop_b ∷ [])

start_message_to_send_iff_example :
    (MayStart sample_sender start_1
      → start_message_to_send sample_sender start_1 ≡ some (names_of start_1))
    × ((sent : StartMessage)
        → start_message_to_send sample_sender start_1 ≡ some sent
        → MayStart sample_sender start_1 × (sent ≡ names_of start_1))
start_message_to_send_iff_example = start_message_to_send_iff sample_sender start_1

stop_message_to_send_iff_example :
    (stop_message_to_send sample_sender stop_b ≢ none → MaySendStop sample_sender stop_b)
    × (MaySendStop sample_sender stop_b → stop_message_to_send sample_sender stop_b ≢ none)
stop_message_to_send_iff_example = stop_message_to_send_iff sample_sender stop_b

nothing_due_is_forgotten_example :
    let sent = deliver by_insertion sample_sender (start_1 ∷ []) (stop_b ∷ []) new_sending in
    ((m : PendingStartMessage)
      → In m (start_1 ∷ [])
      → is_time_to_send m.pending noon ≡ true
      → StartSettled sample_sender m sent)
    × ((m : PendingStopMessage)
        → In m (stop_b ∷ [])
        → is_time_to_send m.pending noon ≡ true
        → StopSettled sample_sender m sent)
nothing_due_is_forgotten_example =
    nothing_due_is_forgotten by_insertion sample_sender (start_1 ∷ []) (stop_b ∷ []) new_sending

abbrev pub whole_analyzer : Analyzer
whole_analyzer = record {
  conf = defaults;
  guid = numbered;
  floats = plain_floats;
  visit = in_order;
  clock = λ n. noon;
}

abbrev two_apps : Map GoString App
two_apps = (codes "app,v1", sample_app) ∷ (codes "old,v0", sample_app) ∷ []

pending_removal_example :
    lookup
      (codes "app,v1")
      (analyze_queue whole_analyzer [] []
        ((three_wanted ∷ []) ∷ [])
        (analyzing whole_analyzer [] [] two_apps)).apps_pending_removal
    ≡ (if queue_has (codes "app,v1") ((three_wanted ∷ []) ∷ [])
        then none
        else lookup (codes "app,v1") two_apps)
pending_removal_example =
    pending_removal whole_analyzer [] [] two_apps ((three_wanted ∷ []) ∷ []) (codes "app,v1")

-- A store that is fresh and holds two apps, and whose state is the number of writes.
abbrev pub counting_store : StoreOps ℕ
counting_store = record {
  verify_freshness = λ t n. (n, none);
  get_apps = λ n. (n, ok two_apps);
  get_pending_start_messages = λ n. (n, ok []);
  get_pending_stop_messages = λ n. (n, ok []);
  save_crash_counts = λ cs n. (suc n, none);
  save_pending_start_messages = λ ms n. (suc n, none);
  save_pending_stop_messages = λ ms n. (suc n, none);
  delete_pending_start_messages = λ ms n. (suc n, none);
  delete_pending_stop_messages = λ ms n. (suc n, none);
}

abbrev half_queue : AppQueue
half_queue = record { desired_apps = (three_wanted ∷ []) ∷ []; fetch_desired_apps_success = false }

gauges-AddsUp_example : AddsUp 2 (gauges (sample_app ∷ sample_app ∷ []) none)
gauges-AddsUp_example = gauges-AddsUp (sample_app ∷ sample_app ∷ []) (omega arith)

plain_floats-IsExact : IsExact plain_floats
plain_floats-IsExact = exact_log2_sum-IsExact plain_floats refl

compute_crash_delay-eq_example :
    compute_crash_delay plain_floats (pos 5) (pos 3) (pos 30) (pos 960) ≡ pos (backoff 5 3 30 960)
compute_crash_delay-eq_example =
    compute_crash_delay-eq plain_floats 5 3 30 960 plain_floats-IsExact (omega arith) (omega arith)
      (omega arith) (omega arith) (omega arith)

compute_crash_delay_bounds_example :
    let delay = λ (k : ℕ). compute_crash_delay plain_floats (pos k) (pos 3) (pos 30) (pos 960) in
    (delay 5 ≤ℤ pos 960)
    × (delay 5 ≤ℤ delay 6)
    × (3 ≤ 5 → pos 30 ≤ℤ delay 5)
    × (delay 3 ≡ pos 30)
    × (5 < 3 → delay 5 ≡ pos 0)
compute_crash_delay_bounds_example =
    compute_crash_delay_bounds plain_floats 5 3 30 960 plain_floats-IsExact (omega arith)
      (omega arith) (omega arith) (omega arith) (omega arith)

-- The cache has one instance as running; that one is still running and another one is evacuated.
abbrev begun : Syncing
begun = record {
  nodes_to_save = [];
  heartbeats_to_evac = [];
  keys_to_delete = [];
  heartbeat_cache = [];
  instance_heartbeat_cache = (codes "a", first_running) ∷ [];
  dea_heartbeat = [];
}

abbrev reported : List InstanceHeartbeat
reported = first_running ∷ one_evacuating ∷ []

sync_instances-changes_example :
    let m = begun.instance_heartbeat_cache in
    let after = sync_instances defaults plain_floats reported begun in
    (after.nodes_to_save
      ≡ map
          (store_node_for_instance_heartbeat defaults plain_floats)
          (select (λ i. not (is_unchanged i m)) reported))
    × (after.heartbeats_to_evac ≡ select (evacuates m) reported)
    × All (IsCached after.instance_heartbeat_cache) reported
unfolding hm.Prelude.Text.str_eqb
sync_instances-changes_example =
    sync_instances-changes defaults plain_floats reported begun ((refl, tt), (tt, tt))
