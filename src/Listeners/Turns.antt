-- ===== src/Listeners/Turns.antt =====
-- Interleavings of incoming heartbeats and turns of the loop (actualstatelisteners/*.go).
use mathlib.Core.List.{append-nil, append_assoc}
use hm.Prelude.{
  ℕ, ◌≡◌, refl, sym, ap, ◌∙◌, inl, inr, List, [], ◌∷◌, ◌++◌, none, some, length, if-has,
  Option-cases,
}
use hm.Prelude.Int.{ltb_ℤ}
use hm.Prelude.Text.{GoString}
use hm.Prelude.Time.{Time}
use hm.Prelude.Map.{Map}
use hm.Store.Interface.{Outcome}
use hm.Metrics.{add_counts, increment_sent_message_metrics}
use hm.Sender.{Sender, Sending, send, deliver, write_back, note_error}
use hm.Config.{Config, heartbeat_duration}
use hm.Models.Instance.{Heartbeat}
use hm.Models.Pending.{PendingStartMessage, PendingStopMessage}
use hm.Listeners.{
  Surroundings, Syncer, Clock, receive_heartbeat, send_starts, save_batch, sync_turn, after_save,
  sender_at,
}

-- The state records what SyncHeartbeats is given, and no other call changes the record.
pub record IsLogged {S : Type 0} (around : Surroundings S) (log : S → List Heartbeat) : Type 0 where
  pub sync : (hs : List Heartbeat) (s : S) → log (around.sync_heartbeats hs s).0 ≡ log s ++ hs
  pub bump : (t : Time) (s : S) → log (around.bump_actual_freshness t s).0 ≡ log s
  pub revoke : (s : S) → log (around.revoke_actual_freshness s).0 ≡ log s
  pub saved : (n : ℕ) (s : S) → log (around.track_saved_heartbeats n s) ≡ log s
  pub received_count : (n : ℕ) (s : S) → log (around.track_received_heartbeats n s) ≡ log s
  pub counter : (key : GoString) (n : ℕ) (s : S) → log (around.add_to_counter key n s).0 ≡ log s
  pub verify : (t : Time) (s : S) → log (around.store.verify_freshness t s).0 ≡ log s
  pub save_starts :
      (ms : List PendingStartMessage) (s : S)
      → log (around.store.save_pending_start_messages ms s).0 ≡ log s
  pub delete_starts :
      (ms : List PendingStartMessage) (s : S)
      → log (around.store.delete_pending_start_messages ms s).0 ≡ log s
  pub save_stops :
      (ms : List PendingStopMessage) (s : S)
      → log (around.store.save_pending_stop_messages ms s).0 ≡ log s
  pub delete_stops :
      (ms : List PendingStopMessage) (s : S)
      → log (around.store.delete_pending_stop_messages ms s).0 ≡ log s

module _ {S : Type 0} (conf : Config) (around : Surroundings S) where
  -- `Trace s received saved t`: from s to t, these heartbeats have come in, and the turns have handed
  -- these batches to the store, both in order.
  pub data Trace (s : Syncer S) : List Heartbeat → List (List Heartbeat) → Syncer S → Type 0 where
    start : Trace s [] [] s
    received :
        {hs : List Heartbeat} {batches : List (List Heartbeat)} {t : Syncer S} (h : Heartbeat)
        → Trace s hs batches t
        → Trace s (hs ++ (h ∷ [])) batches (receive_heartbeat h t)
    turned :
        {hs : List Heartbeat} {batches : List (List Heartbeat)} {t : Syncer S} (clock : Clock)
        → Trace s hs batches t
        → Trace s hs (batches ++ (t.heartbeats_to_save ∷ [])) (sync_turn conf around clock t)

  abbrev pub concat : List (List Heartbeat) → List Heartbeat
  concat [] = []
  concat (hs ∷ rest) = hs ++ concat rest

  concat-last :
      (batches : List (List Heartbeat)) (batch : List Heartbeat)
      → concat (batches ++ (batch ∷ [])) ≡ concat batches ++ batch
  concat-last [] batch = append-nil batch
  concat-last (hs ∷ rest) batch =
      ap (λ xs. hs ++ xs) (concat-last rest batch) ∙ sym (append_assoc hs (concat rest) batch)

  send_starts-pending :
      (now : Time) (ms : List PendingStartMessage) (t : Syncer S)
      → (send_starts conf around now ms t).heartbeats_to_save ≡ t.heartbeats_to_save
  unfolding send_starts
  send_starts-pending now [] t = refl
  send_starts-pending now (m ∷ ms) t = refl

  sync_turn-pending :
      (clock : Clock) (t : Syncer S) → (sync_turn conf around clock t).heartbeats_to_save ≡ []
  unfolding sync_turn save_batch
  sync_turn-pending clock t = pending t.heartbeats_to_save
    where
      pending :
          (hs : List Heartbeat)
          → (save_batch conf around clock hs
              (record t { heartbeats_to_save = [] })).heartbeats_to_save
            ≡ []
      pending [] = refl
      pending (h ∷ hs) = send_starts-pending clock.sent _ _

  -- What has come in and what was pending is in the batches or still pending.
  pending-conserved :
      {s : Syncer S} {hs : List Heartbeat} {batches : List (List Heartbeat)} {t : Syncer S}
      → Trace s hs batches t
      → s.heartbeats_to_save ++ hs ≡ concat batches ++ t.heartbeats_to_save
  unfolding receive_heartbeat
  pending-conserved {s} start = append-nil s.heartbeats_to_save
  pending-conserved {s} (received {hs} {batches} {t} h trace) =
      sym (append_assoc s.heartbeats_to_save hs (h ∷ []))
      ∙ ap (λ xs. xs ++ (h ∷ [])) (pending-conserved trace)
      ∙ append_assoc (concat batches) t.heartbeats_to_save (h ∷ [])
  pending-conserved {s} (turned {hs} {batches} {t} clock trace) =
      pending-conserved trace
      ∙ sym (concat-last batches t.heartbeats_to_save)
      ∙ sym (append-nil _)
      ∙ ap (λ xs. concat (batches ++ (t.heartbeats_to_save ∷ [])) ++ xs)
          (sym (sync_turn-pending clock t))

  module _ (log : S → List Heartbeat) (logged : IsLogged around log) where
    add_counts-log :
        (m : Map GoString ℕ) (s : S) → log (add_counts around.add_to_counter m s).0 ≡ log s
    unfolding add_counts
    add_counts-log [] s = refl
    add_counts-log ((key, n) ∷ m) s = elim (Option-cases (around.add_to_counter key n s).1) [
      | inl done ↦
          rw (add_counts, done)
            (add_counts-log m (around.add_to_counter key n s).0 ∙ logged.counter key n s)
      | inr (e, stopped) ↦ rw (add_counts, stopped) (logged.counter key n s)
    ]

    increment-log :
        (starts : List PendingStartMessage) (stops : List PendingStopMessage) (s : S)
        → log (increment_sent_message_metrics around.add_to_counter starts stops s).0 ≡ log s
    unfolding increment_sent_message_metrics
    increment-log starts stops s = add_counts-log _ s

    write_back-log :
        (d : Sender) (t : Sending) (s : S)
        → log (write_back around.store around.add_to_counter around.sorting d t s).0 ≡ log s
    unfolding write_back
    write_back-log d t s =
        let s1 = (around.store.save_pending_start_messages t.start_messages_to_save s).0 in
        let s2 = (around.store.delete_pending_start_messages t.start_messages_to_delete s1).0 in
        let s3 = (around.store.save_pending_stop_messages t.stop_messages_to_save s2).0 in
        logged.delete_stops t.stop_messages_to_delete s3
        ∙ logged.save_stops t.stop_messages_to_save s2
        ∙ logged.delete_starts t.start_messages_to_delete s1
        ∙ logged.save_starts t.start_messages_to_save s

    send-log :
        (d : Sender) (starts : List PendingStartMessage) (t : Sending) (s : S)
        → log (send around.store around.add_to_counter around.sorting d starts [] t s).0 ≡ log s
    unfolding send
    send-log d starts t s =
        let s1 = (around.store.verify_freshness d.current_time s).0 in
        let sent = deliver around.sorting d starts [] t in
        let (s2, counted) =
          increment_sent_message_metrics around.add_to_counter sent.sent_start_messages
            sent.sent_stop_messages s1 in
        elim (Option-cases (around.store.verify_freshness d.current_time s).1) [
          | inl fresh ↦
              rw (send, fresh)
                (write_back-log d (note_error counted sent) s2
                  ∙ increment-log sent.sent_start_messages sent.sent_stop_messages s1
                  ∙ logged.verify d.current_time s)
          | inr (e, stale) ↦ rw (send, stale) (logged.verify d.current_time s)
        ]

    send_starts-log :
        (now : Time) (ms : List PendingStartMessage) (t : Syncer S)
        → log (send_starts conf around now ms t).world ≡ log t.world
    unfolding send_starts
    send_starts-log now [] t = refl
    send_starts-log now (m ∷ ms) t = send-log (sender_at conf around now) (m ∷ ms) t.sender t.world

    after_save-log :
        (clock : Clock) (n : ℕ) (o : Outcome) (s : S)
        → log (after_save conf around clock n o s) ≡ log s
    unfolding after_save
    after_save-log clock n (some e) s = logged.revoke s
    after_save-log clock n none s =
        logged.saved n _
        ∙ if-has (λ u. log u ≡ log s) (ltb_ℤ clock.save_duration (heartbeat_duration conf))
            (λ _. logged.bump clock.bumped s) (λ _. refl)

    save_batch-log :
        (clock : Clock) (hs : List Heartbeat) (t : Syncer S)
        → log (save_batch conf around clock hs t).world ≡ log t.world ++ hs
    unfolding save_batch
    save_batch-log clock [] t = sym (append-nil (log t.world))
    save_batch-log clock (h ∷ hs) t =
        let (s', evacuating, outcome) = around.sync_heartbeats (h ∷ hs) t.world in
        send_starts-log clock.sent _ _
        ∙ after_save-log clock (length (h ∷ hs)) outcome s'
        ∙ logged.sync (h ∷ hs) t.world

    sync_turn-log :
        (clock : Clock) (t : Syncer S)
        → log (sync_turn conf around clock t).world ≡ log t.world ++ t.heartbeats_to_save
    unfolding sync_turn
    sync_turn-log clock t =
        logged.received_count (length t.heartbeats_to_save) _
        ∙ save_batch-log clock t.heartbeats_to_save (record t { heartbeats_to_save = [] })

    Trace-log :
        {s : Syncer S} {hs : List Heartbeat} {batches : List (List Heartbeat)} {t : Syncer S}
        → Trace s hs batches t
        → log t.world ≡ log s.world ++ concat batches
    unfolding receive_heartbeat
    Trace-log {s} start = sym (append-nil (log s.world))
    Trace-log {s} (received h trace) = Trace-log trace
    Trace-log {s} (turned {hs} {batches} {t} clock trace) =
        sync_turn-log clock t
        ∙ ap (λ xs. xs ++ t.heartbeats_to_save) (Trace-log trace)
        ∙ append_assoc (log s.world) (concat batches) t.heartbeats_to_save
        ∙ ap (λ xs. log s.world ++ xs) (sym (concat-last batches t.heartbeats_to_save))

    -- If the state records the heartbeats that SyncHeartbeats is given, and nothing else changes this record,
    -- then however heartbeats and turns of the loop interleave, what was recorded, was pending
    -- and has come in since is, in order, what is recorded and then what is pending: each heartbeat is
    -- handed to SyncHeartbeats once and in its turn, or is still pending.
    pub Trace-conserves :
        {s : Syncer S} {hs : List Heartbeat} {batches : List (List Heartbeat)} {t : Syncer S}
        → Trace s hs batches t
        → log s.world ++ (s.heartbeats_to_save ++ hs) ≡ log t.world ++ t.heartbeats_to_save
    Trace-conserves {s} {hs} {batches} {t} trace =
        ap (λ xs. log s.world ++ xs) (pending-conserved trace)
        ∙ sym (append_assoc (log s.world) (concat batches) t.heartbeats_to_save)
        ∙ ap (λ xs. xs ++ t.heartbeats_to_save) (sym (Trace-log trace))
