-- ===== src/Tests/Listening.antt =====
-- A syncer whose state is the list of the heartbeats that SyncHeartbeats was given.
use hm.Prelude.{◌≡◌, refl, List, [], ◌∷◌, ◌++◌, none, ok}
use hm.Config.{defaults}
use hm.Models.Instance.{Heartbeat}
use hm.Models.Priority.Insertion.{by_insertion}
use hm.Store.Interface.{StoreOps}
use hm.Sender.{new_sending}
use hm.Listeners.{Surroundings, Syncer, receive_heartbeat, sync_turn}
use hm.Listeners.Turns.{Trace, IsLogged, start, received, turned, Trace-conserves}
use hm.Tests.Data.{all_accepted, one_evacuating, numbered}
use hm.Tests.Running.{beat, ticking}

abbrev quiet_store : StoreOps (List Heartbeat)
quiet_store = record {
  verify_freshness = λ t s. (s, none);
  get_apps = λ s. (s, ok []);
  get_pending_start_messages = λ s. (s, ok []);
  get_pending_stop_messages = λ s. (s, ok []);
  save_crash_counts = λ cs s. (s, none);
  save_pending_start_messages = λ ms s. (s, none);
  save_pending_stop_messages = λ ms s. (s, none);
  delete_pending_start_messages = λ ms s. (s, none);
  delete_pending_stop_messages = λ ms s. (s, none);
}

-- Every heartbeat is reported as one to evacuate.
abbrev recording : Surroundings (List Heartbeat)
recording = record {
  store = quiet_store;
  sync_heartbeats = λ hs s. (s ++ hs, one_evacuating ∷ [], none);
  bump_actual_freshness = λ t s. (s, none);
  revoke_actual_freshness = λ s. (s, none);
  track_saved_heartbeats = λ n s. s;
  track_received_heartbeats = λ n s. s;
  add_to_counter = λ key n s. (s, none);
  sorting = by_insertion;
  respond = all_accepted;
  guid = numbered;
}

abbrev whole_log : List Heartbeat → List Heartbeat
whole_log hs = hs

recording-IsLogged : IsLogged recording whole_log
recording-IsLogged = record {
  sync = λ hs s. refl;
  bump = λ t s. refl;
  revoke = λ s. refl;
  saved = λ n s. refl;
  received_count = λ n s. refl;
  counter = λ key n s. refl;
  verify = λ t s. refl;
  save_starts = λ ms s. refl;
  delete_starts = λ ms s. refl;
  save_stops = λ ms s. refl;
  delete_stops = λ ms s. refl;
}

abbrev unheard : Syncer (List Heartbeat)
unheard = record { heartbeats_to_save = []; sender = new_sending; world = []; drawn = 0 }

-- A heartbeat comes in, is saved, and another one comes in.
abbrev heard : Syncer (List Heartbeat)
heard =
    receive_heartbeat beat (sync_turn defaults recording ticking (receive_heartbeat beat unheard))

beats : Trace defaults recording unheard (beat ∷ beat ∷ []) ((beat ∷ []) ∷ []) heard
unfolding receive_heartbeat
beats = received beat (turned ticking (received beat start))

Trace-conserves_example : beat ∷ beat ∷ [] ≡ heard.world ++ heard.heartbeats_to_save
Trace-conserves_example = Trace-conserves defaults recording whole_log recording-IsLogged beats
