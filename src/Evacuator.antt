-- ===== src/Evacuator.antt =====
-- evacuator/evacuator.go: an instance that exits because its DEA shuts down or is evacuated is started
-- again at once. The message bus calls back for one message after the other; json.Unmarshal is an argument.
pub mod Restart
pub mod Service
use hm.Prelude.{
  ℕ, Bool, true, false, ◌||◌, List, [], ◌∷◌, ◌++◌, Option, none, some, ◌==◌, if◌then◌else◌,
}
use hm.Prelude.Int.{ℤ, pos}
use hm.Prelude.Text.{GoString, string_eq}
use hm.Prelude.Time.{Time}
use hm.Prelude.Float.{two}
use hm.Config.{Config, grace_period}
use hm.Models.Instance.{DropletExited, reason_dea_shutdown, reason_dea_evacuation}
use hm.Models.Pending.{PendingStartMessage, new_pending_start_message, start_evacuating}
use hm.Models.Priority.{Sorting}
use hm.Store.Interface.{StoreOps, Outcome}
use hm.Sender.{Sender, Request, Response, new_sending, send}

-- A message on droplet.exited, with the GUID that is drawn for it and the times that the clock then
-- gives to the start message and to the sender.
pub record Delivery : Type 0 where
  pub body : GoString
  pub guid : GoString
  pub created_at : Time
  pub sent_at : Time

-- What comes while the evacuator runs.
pub data BusEvent : Type 0 where
  delivered : Delivery → BusEvent
  signalled : BusEvent

pub record Evacuator (S : Type 0) : Type 1 where
  pub conf : Config
  pub store : StoreOps S
  pub add_to_counter : GoString → ℕ → S → S × Outcome
  pub sorting : Sorting
  pub respond : List Request → Request → Response

module _ {S : Type 0} (e : Evacuator S) where
  -- With the GUID that is drawn, and the time.
  unfoldable pub restart_message : GoString → Time → DropletExited → PendingStartMessage
  unfolding new_pending_start_message
  restart_message guid now exited =
      record (new_pending_start_message guid now (pos 0) (grace_period e.conf) exited.app_guid
        exited.app_version exited.instance_index two start_evacuating) { skip_verification = true }

  unfoldable pub evacuator_sender : Time → Sender
  evacuator_sender now = record {
    conf = e.conf;
    apps = [];
    current_time = now;
    respond = e.respond;
  }

  -- The message is saved, and then sent by a new sender; errors of both are ignored. The sender reads
  -- the clock again. What is given back is the state and the requests.
  unfoldable pub handle_exited : GoString → Time → Time → DropletExited → S → S × List Request
  unfolding restart_message evacuator_sender send
  handle_exited guid now sent_at exited s =
      let m = restart_message guid now exited in
      let (saved, ignored) = e.store.save_pending_start_messages (m ∷ []) s in
      let (s', sent, outcome) =
        send e.store e.add_to_counter e.sorting (evacuator_sender sent_at) (m ∷ []) [] new_sending
          saved in
      if exited.reason == reason_dea_shutdown || exited.reason == reason_dea_evacuation
      then (s', sent.requests)
      else (s, [])

  module _ (parse : GoString → Option DropletExited) where
    -- The function that listen subscribes: a message that cannot be parsed is dropped.
    unfoldable pub receive_exited : Delivery → S → S × List Request
    unfolding handle_exited
    receive_exited d s = elim (parse d.body) [
      | none ↦ (s, [])
      | some exited ↦ handle_exited d.guid d.created_at d.sent_at exited s
    ]

    -- Run, given the error of Subscribe and what comes then: the state, the requests, and what Run
    -- returns, unless it waits for a signal.
    unfoldable pub run_evacuator : Outcome → List BusEvent → S → S × List Request × Option Outcome
    unfolding receive_exited
    run_evacuator (some error) events s = (s, [], some (some error))
    run_evacuator none [] s = (s, [], none)
    run_evacuator none (signalled ∷ events) s = (s, [], some none)
    run_evacuator none (delivered d ∷ events) s =
        let (s', requests) = receive_exited d s in
        let (s'', later, exit) = run_evacuator none events s' in (s'', requests ++ later, exit)
