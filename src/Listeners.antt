-- ===== src/Listeners.antt =====
-- actualstatelisteners/*.go: heartbeats come in by HTTP and by NATS, and the syncer saves them in
-- batches. The lock around the pending heartbeats makes each step below one: a heartbeat that is added,
-- or a turn of the loop, which takes all that are pending. The sender is made once and kept.
pub mod Turns
pub mod Exhaustion
use hm.Prelude.{
  ℕ, suc, ◌+◌, Bool, true, false, List, [], ◌∷◌, ◌++◌, Option, none, some, if◌then◌else◌, length,
}
use hm.Prelude.Int.{ℤ, pos, ltb_ℤ}
use hm.Prelude.Text.{GoString}
use hm.Prelude.Time.{Time}
use hm.Prelude.Float.{two}
use hm.Config.{Config, heartbeat_duration, grace_period}
use hm.Models.Instance.{InstanceHeartbeat, Heartbeat, stamp_dea}
use hm.Models.Pending.{PendingStartMessage, new_pending_start_message, start_evacuating}
use hm.Models.Priority.{Sorting}
use hm.Store.Interface.{StoreOps, Outcome}
use hm.Sender.{Sender, Sending, Request, Response, SendError, send}

-- What the syncer calls: the store, the metrics, and what its sender needs.
pub record Surroundings (S : Type 0) : Type 1 where
  pub store : StoreOps S
  pub sync_heartbeats : List Heartbeat → S → S × List InstanceHeartbeat × Outcome
  pub bump_actual_freshness : Time → S → S × Outcome
  pub revoke_actual_freshness : S → S × Outcome
  pub track_saved_heartbeats : ℕ → S → S
  pub track_received_heartbeats : ℕ → S → S
  pub add_to_counter : GoString → ℕ → S → S × Outcome
  pub sorting : Sorting
  pub respond : List Request → Request → Response
  pub guid : ℕ → GoString

-- actualStateSyncer, with the state of what it calls and the number of GUIDs that have been drawn.
pub record Syncer (S : Type 0) : Type 0 where
  pub heartbeats_to_save : List Heartbeat
  pub sender : Sending
  pub world : S
  pub drawn : ℕ

-- The times that one turn of the loop reads from the clock: how long the save took, and the instants
-- of the bump, of each start message and of the sender.
pub record Clock : Type 0 where
  pub save_duration : ℤ
  pub bumped : Time
  pub started : ℕ → Time
  pub sent : Time

-- Heartbeat
unfoldable pub receive_heartbeat : {S : Type 0} → Heartbeat → Syncer S → Syncer S
receive_heartbeat h s = record s { heartbeats_to_save = s.heartbeats_to_save ++ (h ∷ []) }

module _ (conf : Config) (guid : ℕ → GoString) (started : ℕ → Time) where
  -- A start that is due at once and sent without a look at the app.
  unfoldable pub evacuating_start : InstanceHeartbeat → ℕ → PendingStartMessage
  unfolding new_pending_start_message
  evacuating_start h n =
      record (new_pending_start_message (guid n) (started n) (pos 0) (grace_period conf) h.app_guid
        h.app_version h.instance_index two start_evacuating) { skip_verification = true }

  unfoldable pub evacuating_starts : List InstanceHeartbeat → ℕ → List PendingStartMessage
  unfolding evacuating_start
  evacuating_starts [] n = []
  evacuating_starts (h ∷ hs) n = evacuating_start h n ∷ evacuating_starts hs (suc n)

module _ {S : Type 0} (conf : Config) (around : Surroundings S) where
  -- What follows the save: freshness goes after a failure, and is bumped after a save in time.
  unfoldable pub after_save : Clock → ℕ → Outcome → S → S
  unfolding heartbeat_duration
  after_save clock n (some e) s = (around.revoke_actual_freshness s).0
  after_save clock n none s =
      let bumped = (around.bump_actual_freshness clock.bumped s).0 in
      around.track_saved_heartbeats n
        (if ltb_ℤ clock.save_duration (heartbeat_duration conf) then bumped else s)

  unfoldable pub sender_at : Time → Sender
  sender_at now = record { conf = conf; apps = []; current_time = now; respond = around.respond }

  unfoldable pub send_starts : Time → List PendingStartMessage → Syncer S → Syncer S
  unfolding send sender_at
  send_starts now [] s = s
  send_starts now (m ∷ ms) s =
      let (world', sender', outcome) =
        send around.store around.add_to_counter around.sorting (sender_at now) (m ∷ ms) [] s.sender
          s.world in
      record s { world = world'; sender = sender' }

  unfoldable pub save_batch : Clock → List Heartbeat → Syncer S → Syncer S
  unfolding after_save evacuating_starts send_starts
  save_batch clock [] s = s
  save_batch clock (h ∷ hs) s =
      let (world', evacuating, outcome) = around.sync_heartbeats (h ∷ hs) s.world in
      let saved = record s {
        world = after_save clock (length (h ∷ hs)) outcome world';
        drawn = s.drawn + length evacuating;
      } in
      send_starts clock.sent (evacuating_starts conf around.guid clock.started evacuating s.drawn)
        saved

  -- One turn of the loop in syncHeartbeats, up to the wait for the next tick.
  unfoldable pub sync_turn : Clock → Syncer S → Syncer S
  unfolding save_batch
  sync_turn clock s =
      let batch = s.heartbeats_to_save in
      let done = save_batch clock batch (record s { heartbeats_to_save = [] }) in
      record done { world = around.track_received_heartbeats (length batch) done.world }

-- heartbeatListener.ServeHTTP and the callback of NatsListener: a message that is a heartbeat goes to
-- the syncer, and nothing else does.
module _ (parse : GoString → Option Heartbeat) where
  -- NewHeartbeatFromJSON, where json.Unmarshal is an argument
  unfoldable pub heartbeat_from_json : GoString → Option Heartbeat
  unfolding stamp_dea
  heartbeat_from_json encoded = elim (parse encoded) [ none ↦ none | some h ↦ some (stamp_dea h) ]

  unfoldable pub serve_http : {S : Type 0} → Option GoString → Syncer S → ℕ × Syncer S
  unfolding heartbeat_from_json receive_heartbeat
  serve_http none s = (400, s)
  serve_http (some []) s = (400, s)
  serve_http (some (b ∷ bs)) s = elim (heartbeat_from_json (b ∷ bs)) [
    | none ↦ (400, s)
    | some h ↦ (202, receive_heartbeat h s)
  ]

  unfoldable pub nats_heartbeat : {S : Type 0} → GoString → Syncer S → Syncer S
  unfolding heartbeat_from_json receive_heartbeat
  nats_heartbeat encoded s = elim (heartbeat_from_json encoded) [
    | none ↦ s
    | some h ↦ receive_heartbeat h s
  ]
