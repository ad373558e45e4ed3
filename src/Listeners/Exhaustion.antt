-- ===== src/Listeners/Exhaustion.antt =====
-- The syncer keeps one sender (actualstatelisteners/actual_state_syncer.go), whose number of sent
-- starts only grows (sender/sender.go).
use hm.Prelude.{
  ℕ, ◌≡◌, refl, false, List, [], ◌∷◌, Option, none, some, if-has, Option-cases, inl, inr,
  for_each-keeps,
}
use hm.Prelude.Int.{pos, ltb_ℤ}
use hm.Prelude.Text.{GoString}
use hm.Prelude.Time.{Time}
use hm.Config.{Config}
use hm.Models.Instance.{Heartbeat}
use hm.Models.Pending.{PendingStartMessage, StartMessage, is_time_to_send, is_expired}
use hm.Models.Priority.{Sorting, sort_start_messages_by_priority}
use hm.Store.Interface.{StoreOps, Outcome}
use hm.Metrics.{increment_sent_message_metrics}
use hm.Sender.{
  Sender, Sending, Request, process_start, send_start_message_http,
  queue_start_message_for_deletion, send_start_messages, send_stop_messages, deliver, write_back,
  note_error, send, start_message_to_send,
}
use hm.Listeners.{
  Surroundings, Syncer, Clock, receive_heartbeat, sender_at, send_starts, save_batch, sync_turn,
}
use hm.Listeners.Turns.{Trace, start, received, turned}

-- The sender has sent so many starts, and has made these requests.
unfoldable pub HasSent : ℕ → List Request → Sending → Type 0
HasSent n made t = (t.number_of_start_messages_sent ≡ n) × (t.requests ≡ made)

module _ (d : Sender) (n : ℕ) (made : List Request)
    (spent : ltb_ℤ (pos n) d.conf.sender_message_limit ≡ false) where
  send_start-HasSent :
      (m : PendingStartMessage) (t : Sending)
      → HasSent n made t
      → HasSent n made (send_start_message_http d m t)
  unfolding send_start_message_http queue_start_message_for_deletion HasSent
  send_start-HasSent m t (count, asked) = by_message (start_message_to_send d m) refl
    where
      by_message :
          (o : Option StartMessage)
          → start_message_to_send d m ≡ o
          → HasSent n made (send_start_message_http d m t)
      by_message none e = rw (send_start_message_http, e) (count, asked)
      by_message (some message) e =
          let limit : ltb_ℤ (pos t.number_of_start_messages_sent) d.conf.sender_message_limit
              ≡ false =
            rw (count) spent in
          rw (send_start_message_http, e, limit) (count, asked)

  process_start-HasSent :
      (m : PendingStartMessage) (t : Sending)
      → HasSent n made t
      → HasSent n made (process_start d m t)
  unfolding process_start queue_start_message_for_deletion HasSent
  process_start-HasSent m t h =
      if-has (HasSent n made) (is_time_to_send m.pending d.current_time)
        (λ _. send_start-HasSent m t h)
        (λ _. if-has (HasSent n made) (is_expired m.pending d.current_time) (λ _. h) (λ _. h))

  note_error-HasSent :
      (o : Outcome) (t : Sending) → HasSent n made t → HasSent n made (note_error o t)
  unfolding HasSent
  note_error-HasSent none t h = h
  note_error-HasSent (some e) t h = h

  module _ {S : Type 0} (store : StoreOps S) (add_to_counter : GoString → ℕ → S → S × Outcome)
      (sorting : Sorting) where
    write_back-HasSent :
        (t : Sending) (s : S)
        → HasSent n made t
        → HasSent n made (write_back store add_to_counter sorting d t s).1
    unfolding write_back
    write_back-HasSent t s h =
        let (s1, e1) = store.save_pending_start_messages t.start_messages_to_save s in
        let (s2, e2) = store.delete_pending_start_messages t.start_messages_to_delete s1 in
        let (s3, e3) = store.save_pending_stop_messages t.stop_messages_to_save s2 in
        let (s4, e4) = store.delete_pending_stop_messages t.stop_messages_to_delete s3 in
        let t1 = note_error e1 t in
        let t2 = note_error e2 t1 in
        let t3 = note_error e3 t2 in
        note_error-HasSent e4 t3
          (note_error-HasSent e3 t2 (note_error-HasSent e2 t1 (note_error-HasSent e1 t h)))

    send-HasSent :
        (starts : List PendingStartMessage) (t : Sending) (s : S)
        → HasSent n made t
        → HasSent n made (send store add_to_counter sorting d starts [] t s).1
    unfolding send deliver send_start_messages send_stop_messages
    send-HasSent starts t s h = elim (Option-cases (store.verify_freshness d.current_time s).1) [
      | inl fresh ↦
          rw (send, fresh)
            (let sent = send_start_messages d sorting starts t in
              let (counted_state, counted) =
                increment_sent_message_metrics add_to_counter sent.sent_start_messages
                  sent.sent_stop_messages (store.verify_freshness d.current_time s).0 in
              write_back-HasSent (note_error counted sent) counted_state (
                note_error-HasSent counted sent (
                  for_each-keeps (process_start d) (HasSent n made)
                    (sort_start_messages_by_priority sorting starts)
                    (λ m u _ k. process_start-HasSent m u k) t h)))
      | inr (e, stale) ↦ rw (send, stale) h
    ]

module _ {S : Type 0} (conf : Config) (around : Surroundings S) (n : ℕ) (made : List Request)
    (spent : ltb_ℤ (pos n) conf.sender_message_limit ≡ false) where
  send_starts-HasSent :
      (now : Time) (ms : List PendingStartMessage) (t : Syncer S)
      → HasSent n made t.sender
      → HasSent n made (send_starts conf around now ms t).sender
  unfolding send_starts sender_at
  send_starts-HasSent now [] t h = h
  send_starts-HasSent now (m ∷ ms) t h =
      send-HasSent (sender_at conf around now) n made spent around.store around.add_to_counter
        around.sorting (m ∷ ms) t.sender t.world h

  sync_turn-HasSent :
      (clock : Clock) (t : Syncer S)
      → HasSent n made t.sender
      → HasSent n made (sync_turn conf around clock t).sender
  unfolding sync_turn save_batch
  sync_turn-HasSent clock t h = by_batch t.heartbeats_to_save
    where
      by_batch :
          (hs : List Heartbeat)
          → HasSent n made
              (save_batch conf around clock hs (record t { heartbeats_to_save = [] })).sender
      by_batch [] = h
      by_batch (x ∷ hs) = send_starts-HasSent clock.sent _ _ h

  Trace-HasSent :
      {s t : Syncer S} {hs : List Heartbeat} {batches : List (List Heartbeat)}
      → HasSent n made s.sender
      → Trace conf around s hs batches t
      → HasSent n made t.sender
  unfolding receive_heartbeat
  Trace-HasSent h start = h
  Trace-HasSent h (received x trace) = Trace-HasSent h trace
  Trace-HasSent h (turned {t} clock trace) = sync_turn-HasSent clock t (Trace-HasSent h trace)

-- Once the syncer's sender has sent as many starts as the limit allows, no request is ever made again,
-- whatever heartbeats come in and however often the loop turns: the count is not begun anew.
pub spent_sender-is_silent :
    {S : Type 0} (conf : Config) (around : Surroundings S) {s t : Syncer S} {hs : List Heartbeat}
    {batches : List (List Heartbeat)}
    → ltb_ℤ (pos s.sender.number_of_start_messages_sent) conf.sender_message_limit ≡ false
    → Trace conf around s hs batches t
    → t.sender.requests ≡ s.sender.requests
unfolding HasSent
spent_sender-is_silent conf around {s} spent trace =
    (Trace-HasSent conf around s.sender.number_of_start_messages_sent s.sender.requests spent
      (refl, refl) trace).1
