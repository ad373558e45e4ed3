-- ===== src/Sender.antt =====
-- sender/sender.go: which due messages are sent, and what becomes of them in the store. The struct
-- `sender` is split into what stays fixed (`Sender`) and what the methods change (`Sending`). Logging
-- and the headers of the requests are left out; the HTTP client and the message bus are arguments,
-- whose answer may depend on all earlier requests.
pub mod Bus
pub mod Decisions
pub mod Sound
pub mod Settled
pub mod Requests
pub mod Success
use hm.Prelude.{
  ℕ, suc, Bool, true, false, not, ◌&&◌, List, [], ◌∷◌, ◌++◌, Option, none, some, ◌==◌,
  if◌then◌else◌, length, ltb, eqb, for_each,
}
use hm.Prelude.Int.{ℤ, pos, int_eq, ltb_ℤ}
use hm.Prelude.Text.{GoString, codes, string_eq}
use hm.Prelude.Time.{Time, unix}
use hm.Prelude.Map.{Map, lookup}
use hm.Config.{Config}
use hm.Models.Instance.{state_evacuating}
use hm.Models.Pending.{
  PendingStartMessage, PendingStopMessage, StartMessage, StopMessage, is_time_to_send, is_expired,
}
use hm.Models.App.{
  App, is_desired, is_index_desired, has_starting_or_running_instance_at_index, instance_with_guid,
  starting_or_running_instances_at_index,
}
use hm.Models.Priority.{Sorting, sort_start_messages_by_priority}
use hm.Store.Interface.{StoreOps, StoreError, Outcome, app_key}
use hm.Metrics.{increment_sent_message_metrics}

-- A request to the Cloud Controller: its URL and the message in its body.
pub data Request : Type 0 where
  start_request : GoString → StartMessage → Request
  stop_request : GoString → StopMessage → Request

-- What the client gets: an error, or the status of the response.
pub data Response : Type 0 where
  failed : Response
  status : ℕ → Response

pub record Sender : Type 0 where
  pub conf : Config
  pub apps : Map GoString App
  pub current_time : Time
  -- The answer to a request, after the earlier ones.
  pub respond : List Request → Request → Response

pub record Sending : Type 0 where
  pub number_of_start_messages_sent : ℕ
  pub sent_start_messages : List PendingStartMessage
  pub start_messages_to_save : List PendingStartMessage
  pub start_messages_to_delete : List PendingStartMessage
  pub sent_stop_messages : List PendingStopMessage
  pub stop_messages_to_save : List PendingStopMessage
  pub stop_messages_to_delete : List PendingStopMessage
  pub did_succeed : Bool
  -- The requests made so far, the last one first.
  pub requests : List Request

-- New
unfoldable pub new_sending : Sending
new_sending = record {
  number_of_start_messages_sent = 0;
  sent_start_messages = [];
  start_messages_to_save = [];
  start_messages_to_delete = [];
  sent_stop_messages = [];
  stop_messages_to_save = [];
  stop_messages_to_delete = [];
  did_succeed = true;
  requests = [];
}

-- err == nil && resp.StatusCode == 200
unfoldable pub accepted : Response → Bool
accepted failed = false
accepted (status code) = eqb code 200

module _ (d : Sender) where
  unfoldable pub app_of : GoString → GoString → Option App
  unfolding app_key
  app_of app_guid app_version = lookup (app_key app_guid app_version) d.apps

  unfoldable pub start_message_for : PendingStartMessage → StartMessage
  start_message_for message = record {
    message_id = message.message_id;
    app_guid = message.app_guid;
    app_version = message.app_version;
    instance_index = message.index_to_start;
  }

  -- startMessageToSend for an app that is in the snapshot.
  unfoldable pub start_in_app : PendingStartMessage → App → Option StartMessage
  unfolding start_message_for
  start_in_app message app =
      if not (is_desired app)
      then none
      else if not (is_index_desired message.index_to_start app)
      then none
      else if has_starting_or_running_instance_at_index message.index_to_start app
      then none
      else some (start_message_for message)

  -- The message to send, if it should be sent.
  unfoldable pub start_message_to_send : PendingStartMessage → Option StartMessage
  unfolding app_of start_message_for start_in_app
  start_message_to_send message =
      if message.skip_verification
      then some (start_message_for message)
      else elim (app_of message.app_guid message.app_version) [
        | none ↦ none
        | some app ↦ start_in_app message app
      ]

  unfoldable pub stop_message_for : PendingStopMessage → ℤ → Bool → StopMessage
  stop_message_for message index is_duplicate = record {
    message_id = message.message_id;
    app_guid = message.app_guid;
    app_version = message.app_version;
    instance_guid = message.instance_guid;
    instance_index = index;
    is_duplicate = is_duplicate;
  }

  -- stopMessageToSend for an app that is in the snapshot.
  unfoldable pub stop_in_app : PendingStopMessage → App → Option StopMessage
  unfolding stop_message_for
  stop_in_app message app =
      let instance_to_stop = instance_with_guid message.instance_guid app in
      let index = instance_to_stop.instance_index in
      if not (is_desired app)
      then some (stop_message_for message index false)
      else if not (is_index_desired index app)
      then some (stop_message_for message index false)
      else if instance_to_stop.state == state_evacuating
      then some (stop_message_for message index true)
      else if ltb 1 (length (starting_or_running_instances_at_index index app))
      then some (stop_message_for message index true)
      else none

  unfoldable pub stop_message_to_send : PendingStopMessage → Option StopMessage
  unfolding app_of stop_in_app
  stop_message_to_send message = elim (app_of message.app_guid message.app_version) [
    | none ↦ none
    | some app ↦ stop_in_app message app
  ]

  unfoldable pub mark_start_message_sent : PendingStartMessage → Sending → Sending
  mark_start_message_sent m s = record s {
    start_messages_to_save =
        s.start_messages_to_save
        ++ (record m { pending = record m.pending { sent_on = unix d.current_time } } ∷ []);
  }

  unfoldable pub mark_stop_message_sent : PendingStopMessage → Sending → Sending
  mark_stop_message_sent m s = record s {
    stop_messages_to_save =
        s.stop_messages_to_save
        ++ (record m { pending = record m.pending { sent_on = unix d.current_time } } ∷ []);
  }

  unfoldable pub queue_start_message_for_deletion : PendingStartMessage → Sending → Sending
  queue_start_message_for_deletion m s = record s {
    start_messages_to_delete = s.start_messages_to_delete ++ (m ∷ []);
  }

  unfoldable pub queue_stop_message_for_deletion : PendingStopMessage → Sending → Sending
  queue_stop_message_for_deletion m s = record s {
    stop_messages_to_delete = s.stop_messages_to_delete ++ (m ∷ []);
  }

  unfoldable pub start_url : PendingStartMessage → GoString
  start_url m = d.conf.cc_internal_url ++ (codes "/internal/dea/hm9000/start/" ++ m.app_guid)

  unfoldable pub stop_url : PendingStopMessage → GoString
  stop_url m = d.conf.cc_internal_url ++ (codes "/internal/dea/hm9000/stop/" ++ m.app_guid)

  -- client.Do
  unfoldable pub ask : Request → Sending → Response
  ask request s = d.respond s.requests request

  -- The start has been accepted.
  unfoldable pub start_sent : PendingStartMessage → Sending → Sending
  unfolding queue_start_message_for_deletion mark_start_message_sent
  start_sent m s =
      let sent = record s {
        sent_start_messages = s.sent_start_messages ++ (m ∷ []);
        number_of_start_messages_sent = suc s.number_of_start_messages_sent;
      } in
      if m.keep_alive == pos 0
      then queue_start_message_for_deletion m sent
      else mark_start_message_sent m sent

  unfoldable pub stop_sent : PendingStopMessage → Sending → Sending
  unfolding queue_stop_message_for_deletion mark_stop_message_sent
  stop_sent m s =
      let sent = record s { sent_stop_messages = s.sent_stop_messages ++ (m ∷ []) } in
      if m.keep_alive == pos 0
      then queue_stop_message_for_deletion m sent
      else mark_stop_message_sent m sent

  unfoldable pub send_start_message_http : PendingStartMessage → Sending → Sending
  unfolding start_message_to_send start_url ask start_sent queue_start_message_for_deletion accepted
  send_start_message_http m s = elim (start_message_to_send m) [
    | none ↦ queue_start_message_for_deletion m s
    | some message_to_send ↦
        let request = start_request (start_url m) message_to_send in
        let asked = record s { requests = request ∷ s.requests } in
        if ltb_ℤ (pos s.number_of_start_messages_sent) d.conf.sender_message_limit
        then (if accepted (ask request s)
            then start_sent m asked
            else record asked { did_succeed = false })
        else s
  ]

  unfoldable pub send_stop_message_http : PendingStopMessage → Sending → Sending
  unfolding stop_message_to_send stop_url ask stop_sent queue_stop_message_for_deletion accepted
  send_stop_message_http m s = elim (stop_message_to_send m) [
    | none ↦ queue_stop_message_for_deletion m s
    | some message_to_send ↦
        let request = stop_request (stop_url m) message_to_send in
        let asked = record s { requests = request ∷ s.requests } in
        if accepted (ask request s) then stop_sent m asked else record asked { did_succeed = false }
  ]

  unfoldable pub process_start : PendingStartMessage → Sending → Sending
  unfolding send_start_message_http queue_start_message_for_deletion
  process_start m s =
      if is_time_to_send m.pending d.current_time
      then send_start_message_http m s
      else if is_expired m.pending d.current_time
      then queue_start_message_for_deletion m s
      else s

  unfoldable pub process_stop : PendingStopMessage → Sending → Sending
  unfolding send_stop_message_http queue_stop_message_for_deletion
  process_stop m s =
      if is_time_to_send m.pending d.current_time
      then send_stop_message_http m s
      else if is_expired m.pending d.current_time
      then queue_stop_message_for_deletion m s
      else s

  unfoldable pub send_start_messages : Sorting → List PendingStartMessage → Sending → Sending
  unfolding process_start sort_start_messages_by_priority
  send_start_messages sorting messages s =
      for_each process_start (sort_start_messages_by_priority sorting messages) s

  unfoldable pub send_stop_messages : List PendingStopMessage → Sending → Sending
  unfolding process_stop
  send_stop_messages messages s = for_each process_stop messages s

-- Everything that is sent, before the store is written.
unfoldable pub deliver :
    Sorting → Sender → List PendingStartMessage → List PendingStopMessage → Sending → Sending
unfolding send_start_messages send_stop_messages
deliver sorting d starts stops t =
    send_stop_messages d stops (send_start_messages d sorting starts t)

pub data SendError : Type 0 where
  store_error : StoreError → SendError
  -- "Sender failed. See logs for details."
  sender_failed : SendError

-- if err != nil { sender.didSucceed = false }
abbrev pub note_error : Outcome → Sending → Sending
note_error none t = t
note_error (some e) t = record t { did_succeed = false }

module _ {S : Type 0} (store : StoreOps S) (add_to_counter : GoString → ℕ → S → S × Outcome)
    (sorting : Sorting) (d : Sender) where
  -- The four writes of Send, each of which goes ahead whatever became of the others.
  unfoldable pub write_back : Sending → S → S × Sending
  write_back t s =
      let (s1, e1) = store.save_pending_start_messages t.start_messages_to_save s in
      let (s2, e2) = store.delete_pending_start_messages t.start_messages_to_delete s1 in
      let (s3, e3) = store.save_pending_stop_messages t.stop_messages_to_save s2 in
      let (s4, e4) = store.delete_pending_stop_messages t.stop_messages_to_delete s3 in
      (s4, note_error e4 (note_error e3 (note_error e2 (note_error e1 t))))

  unfoldable pub send :
      List PendingStartMessage
      → List PendingStopMessage
      → Sending
      → S
      → S × Sending × Option SendError
  unfolding write_back deliver
  send starts stops t s =
      let (s1, fresh) = store.verify_freshness d.current_time s in
      let delivered = deliver sorting d starts stops t in
      let (s2, counted) =
        increment_sent_message_metrics add_to_counter delivered.sent_start_messages
          delivered.sent_stop_messages s1 in
      let (s3, written) = write_back (note_error counted delivered) s2 in
      elim fresh [
        | some e ↦ (s1, t, some (store_error e))
        | none ↦ (s3, written, if written.did_succeed then none else some sender_failed)
      ]
