-- ===== src/Tests/Running.antt =====
-- The listeners, a whole run of `analyze`, the evacuator and the bulk handler on small inputs.
use hm.Prelude.{
  select, ℕ, suc, ◌+◌, ◌≡◌, refl, sym, ap, ◌⊎◌, inl, inr, Bool, true, false, not, List, [], ◌∷◌,
  ◌++◌, Option, none, some, Result, ok, err, map, arith, if◌then◌else◌, ◌==◌, ◌||◌, length,
}
use hm.Prelude.Int.{ℤ, pos, leb_ℤ, ltb_ℤ}
use hm.Prelude.Text.{GoString, codes, string_eq}
use hm.Prelude.Time.{unix}
use hm.Prelude.Map.{Map, lookup}
use hm.Config.{defaults}
use hm.Models.Instance.{Heartbeat, DropletExited, reason_dea_shutdown}
use hm.Models.Pending.{PendingStartMessage, PendingStopMessage}
use hm.Models.App.{App}
use hm.Models.Priority.Insertion.{by_insertion}
use hm.Metrics.{increment_sent_message_metrics}
use hm.Store.Interface.{Outcome}
use hm.Sender.{new_sending, send, deliver}
use hm.Sender.Success.{AllAccepted, AllWritten, send-success}
use hm.Listeners.{Surroundings, Syncer, Clock, receive_heartbeat, sync_turn}
use hm.Listeners.Turns.{start, received, turned}
use hm.Listeners.Exhaustion.{spent_sender-is_silent}
use hm.Fetcher.{DesiredStateServerResponse, batch_of, initial_bulk_token}
use hm.Fetcher.Pages.{Pages}
use hm.Fetcher.Runs.{authorization}
use hm.Analyzer.Analyze.{analyze}
use hm.Manage.{run_analyze, sender_for}
use hm.Manage.Runs.{run_analyze-success}
use hm.Evacuator.Service.{run_evacuator-requests}
use hm.Evacuator.{Delivery, BusEvent, delivered, signalled, run_evacuator, Evacuator, handle_exited}
use hm.Evacuator.Restart.{handle_exited-requests, its_request}
use hm.ApiServer.{Handler, AppStateRequest, requested_apps}
use hm.ApiServer.Answers.{last_app, given_apps, requested_apps-last_app}
use hm.Tests.Components.{counting_store, whole_analyzer}
use hm.Tests.Parts.{count_up, bare_store, light_world, whole_run}
use hm.Tests.Data.{
  sample_app, sample_sender, start_1, all_accepted, one_evacuating, first_running, numbered, noon,
  app_name, version,
}

abbrev at_once : PendingStartMessage
at_once = record start_1 { skip_verification = true }

send-success_example :
    let sent = deliver by_insertion sample_sender (at_once ∷ []) [] new_sending in
    let counted =
      increment_sent_message_metrics count_up sent.sent_start_messages sent.sent_stop_messages 0 in
    (◌≡◌ {A = Outcome} none none)
    × AllAccepted sample_sender
        (send counting_store count_up by_insertion sample_sender
          (at_once ∷ [])
          []
          new_sending
          0).1.requests
    × (counted.1 ≡ none)
    × AllWritten counting_store count_up by_insertion sample_sender sent counted.0
unfolding send new_sending by_insertion increment_sent_message_metrics
    hm.Models.Pending.is_time_to_send unix hm.Prelude.Map.insert
send-success_example =
    send-success counting_store count_up by_insertion sample_sender (at_once ∷ []) [] 0 refl

-- A store that reports every heartbeat as one to evacuate.
abbrev around : Surroundings ℕ
around = record {
  store = counting_store;
  sync_heartbeats = λ hs s. (suc s, one_evacuating ∷ [], none);
  bump_actual_freshness = λ t s. (suc s, none);
  revoke_actual_freshness = λ s. (suc s, none);
  track_saved_heartbeats = λ n s. s;
  track_received_heartbeats = λ n s. s;
  add_to_counter = count_up;
  sorting = by_insertion;
  respond = all_accepted;
  guid = numbered;
}

abbrev idle : Syncer ℕ
idle = record { heartbeats_to_save = []; sender = new_sending; world = 0; drawn = 0 }

abbrev pub beat : Heartbeat
beat = record { dea_guid = codes "dea"; instance_heartbeats = first_running ∷ [] }

abbrev pub ticking : Clock
ticking = record { save_duration = pos 1; bumped = noon; started = λ n. noon; sent = noon }

abbrev spent : Syncer ℕ
spent = record idle { sender = record new_sending { number_of_start_messages_sent = 60 } }

spent_sender-is_silent_example :
    (receive_heartbeat beat
      (sync_turn defaults around ticking (receive_heartbeat beat spent))).sender.requests
    ≡ []
unfolding new_sending
spent_sender-is_silent_example =
    spent_sender-is_silent defaults around {s = spent} refl
      (received beat (turned ticking (received beat start)))

-- The starts that the analysis queues are saved, and are due after the grace period.
nothing_sent : run_analyze whole_run 2 true 7 ≡ some (14, [], none)
unfolding run_analyze hm.Prelude.Text.str_eqb increment_sent_message_metrics hm.Prelude.Map.insert
    lookup hm.Models.App.heartbeats_by_index hm.Models.App.new_app hm.Models.App.is_staged
    hm.Models.App.has_starting_or_running_instance_at_index
    hm.Models.App.instance_heartbeats_at_index hm.Models.App.has_crashed_instance_at_index
    hm.Models.App.has_evacuating_instance_at_index hm.Models.App.evacuating_instances_at_index
    hm.Prelude.Map.has hm.Models.Pending.start_store_key hm.Prelude.Text.itoa by_insertion
    hm.Models.Priority.less hm.Models.Pending.is_time_to_send unix hm.Prelude.Int.◌+ℤ◌
    hm.Prelude.Time.seconds hm.Config.grace_period hm.Models.Pending.is_expired new_sending
nothing_sent = refl

run_analyze-success_example :
    (pages : List DesiredStateServerResponse) × (apps : Map GoString App) × (starts : List
      PendingStartMessage)
    × (stops : List PendingStopMessage) × Pages light_world defaults
        (authorization light_world defaults)
        0
        initial_bulk_token
        pages
    × ((analyze bare_store whole_analyzer
          (record { desired_apps = map batch_of pages; fetch_desired_apps_success = true })
          7).1
        ≡ ok (apps, starts, stops))
    × AllAccepted (sender_for whole_run apps) []
run_analyze-success_example = run_analyze-success whole_run 2 true 7 14 [] nothing_sent

abbrev shut_down : DropletExited
shut_down = record {
  app_guid = app_name;
  app_version = version;
  instance_guid = codes "a";
  instance_index = pos 0;
  reason = reason_dea_shutdown;
}

abbrev evacuator : Evacuator ℕ
evacuator = record {
  conf = defaults;
  store = counting_store;
  add_to_counter = count_up;
  sorting = by_insertion;
  respond = all_accepted;
}

handle_exited-requests_example :
    ((handle_exited evacuator (codes "1") noon noon shut_down 0).1
      ≡ its_request evacuator (codes "1") noon noon shut_down ∷ [])
    × (true ≡ false → (handle_exited evacuator (codes "1") noon noon shut_down 0).0 ≡ 0)
unfolding hm.Prelude.Text.str_eqb unix
handle_exited-requests_example =
    handle_exited-requests evacuator (codes "1") noon noon shut_down 0 refl refl

abbrev delivery_of : GoString → Delivery
delivery_of body = record { body = body; guid = codes "1"; created_at = noon; sent_at = noon }

abbrev read_exited : GoString → Option DropletExited
read_exited body = if body == codes "exited" then some shut_down else none

abbrev bus_events : List BusEvent
bus_events =
    delivered (delivery_of (codes "{"))
    ∷ delivered (delivery_of (codes "exited"))
    ∷ signalled
    ∷ delivered (delivery_of (codes "exited"))
    ∷ []

run_evacuator-requests_example :
    (run_evacuator evacuator read_exited none bus_events 0).1
    ≡ its_request evacuator (codes "1") noon noon shut_down ∷ []
unfolding hm.Prelude.Text.str_eqb unix
run_evacuator-requests_example =
    run_evacuator-requests evacuator read_exited (λ now s. refl) refl bus_events 0
      (refl, (refl, (refl, (refl, tt))))

abbrev handler : Handler ℕ
handler = record {
  verify_freshness = λ t s. (s, none);
  get_app = λ guid v s. (suc s, ok sample_app);
  parse = λ body. none;
  marshal = λ apps. none;
}

abbrev asked : List AppStateRequest
asked = record { app_guid = app_name; app_version = version } ∷ []

requested_apps-last_app_example :
    lookup app_name (requested_apps handler asked 0).1
    ≡ last_app none (select (λ app. app.app_guid == app_name) (given_apps handler 0 asked))
requested_apps-last_app_example =
    requested_apps-last_app handler 0 (λ guid v s. refl) app_name asked
