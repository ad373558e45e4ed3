-- ===== src/Sender/Success.antt =====
-- What it means that Send in sender/sender.go reports no error.
use hm.Prelude.{
  ℕ, ◌≡◌, refl, sym, ap, subst, ◌∙◌, Bool, true, false, List, [], ◌∷◌, Option, none, some, if-has,
  Option-cases, inl, inr, if◌then◌else◌, for_each-keeps, ◌==◌, arith,
}
use hm.Prelude.Int.{pos, int_eq, ltb_ℤ}
use hm.Prelude.Text.{GoString}
use hm.Models.Pending.{
  PendingStartMessage, PendingStopMessage, StartMessage, StopMessage, is_time_to_send, is_expired,
}
use hm.Models.Priority.{Sorting, sort_start_messages_by_priority}
use hm.Metrics.{increment_sent_message_metrics}
use hm.Store.Interface.{StoreOps, Outcome, StoreError}
use hm.Sender.{
  Sender, Sending, new_sending, Request, process_start, process_stop, send_start_message_http,
  send_stop_message_http, queue_start_message_for_deletion, queue_stop_message_for_deletion,
  mark_start_message_sent, mark_stop_message_sent, send_start_messages, send_stop_messages, deliver,
  write_back, note_error, send, start_message_to_send, stop_message_to_send, accepted, ask,
  start_sent, stop_sent, start_url, stop_url, start_request, stop_request, SendError, store_error,
  sender_failed,
}

module _ (d : Sender) where
  -- Every request was answered with status 200, each after the ones before it.
  abbrev pub AllAccepted : List Request → Type 0
  AllAccepted [] = Unit
  AllAccepted (q ∷ earlier) = (accepted (d.respond earlier q) ≡ true) × AllAccepted earlier

  -- If nothing has failed, every request was accepted.
  unfoldable pub IsHonest : Sending → Type 0
  IsHonest t = t.did_succeed ≡ true → AllAccepted t.requests

  start_sent-IsHonest :
      (m : PendingStartMessage) (t : Sending) → IsHonest t → IsHonest (start_sent d m t)
  unfolding start_sent queue_start_message_for_deletion mark_start_message_sent IsHonest
  start_sent-IsHonest m t h = if-has IsHonest (m.keep_alive == pos 0) (λ _. h) (λ _. h)

  stop_sent-IsHonest :
      (m : PendingStopMessage) (t : Sending) → IsHonest t → IsHonest (stop_sent d m t)
  unfolding stop_sent queue_stop_message_for_deletion mark_stop_message_sent IsHonest
  stop_sent-IsHonest m t h = if-has IsHonest (m.keep_alive == pos 0) (λ _. h) (λ _. h)

  asked-IsHonest :
      (q : Request) (t : Sending)
      → IsHonest t
      → accepted (ask d q t) ≡ true
      → IsHonest (record t { requests = q ∷ t.requests })
  unfolding IsHonest ask
  asked-IsHonest q t h answered fine = (answered, h fine)

  refused-IsHonest :
      (q : Request) (t : Sending)
      → IsHonest (record t { requests = q ∷ t.requests; did_succeed = false })
  unfolding IsHonest
  refused-IsHonest q t fine = absurd (ground (arith, fine))

  send_start-IsHonest :
      (m : PendingStartMessage) (t : Sending)
      → IsHonest t
      → IsHonest (send_start_message_http d m t)
  unfolding send_start_message_http queue_start_message_for_deletion IsHonest
  send_start-IsHonest m t h = by_message (start_message_to_send d m) refl
    where
      by_message :
          (o : Option StartMessage)
          → start_message_to_send d m ≡ o
          → IsHonest (send_start_message_http d m t)
      by_message none e = rw (send_start_message_http, e) h
      by_message (some message) e =
          let q = start_request (start_url d m) message in
          rw (send_start_message_http, e)
            (if-has IsHonest
              (ltb_ℤ (pos t.number_of_start_messages_sent) d.conf.sender_message_limit)
              (λ _.
                if-has IsHonest (accepted (ask d q t))
                  (λ answered. start_sent-IsHonest m _ (asked-IsHonest q t h answered))
                  (λ _. refused-IsHonest q t))
              (λ _. h))

  send_stop-IsHonest :
      (m : PendingStopMessage) (t : Sending) → IsHonest t → IsHonest (send_stop_message_http d m t)
  unfolding send_stop_message_http queue_stop_message_for_deletion IsHonest
  send_stop-IsHonest m t h = by_message (stop_message_to_send d m) refl
    where
      by_message :
          (o : Option StopMessage)
          → stop_message_to_send d m ≡ o
          → IsHonest (send_stop_message_http d m t)
      by_message none e = rw (send_stop_message_http, e) h
      by_message (some message) e =
          let q = stop_request (stop_url d m) message in
          rw (send_stop_message_http, e)
            (if-has IsHonest (accepted (ask d q t))
              (λ answered. stop_sent-IsHonest m _ (asked-IsHonest q t h answered))
              (λ _. refused-IsHonest q t))

  process_start-IsHonest :
      (m : PendingStartMessage) (t : Sending) → IsHonest t → IsHonest (process_start d m t)
  unfolding process_start queue_start_message_for_deletion IsHonest
  process_start-IsHonest m t h =
      if-has IsHonest (is_time_to_send m.pending d.current_time) (λ _. send_start-IsHonest m t h)
        (λ _. if-has IsHonest (is_expired m.pending d.current_time) (λ _. h) (λ _. h))

  process_stop-IsHonest :
      (m : PendingStopMessage) (t : Sending) → IsHonest t → IsHonest (process_stop d m t)
  unfolding process_stop queue_stop_message_for_deletion IsHonest
  process_stop-IsHonest m t h =
      if-has IsHonest (is_time_to_send m.pending d.current_time) (λ _. send_stop-IsHonest m t h)
        (λ _. if-has IsHonest (is_expired m.pending d.current_time) (λ _. h) (λ _. h))

  deliver-IsHonest :
      (sorting : Sorting) (starts : List PendingStartMessage) (stops : List PendingStopMessage)
      (t : Sending)
      → IsHonest t
      → IsHonest (deliver sorting d starts stops t)
  unfolding deliver send_start_messages send_stop_messages
  deliver-IsHonest sorting starts stops t h =
      for_each-keeps (process_stop d) IsHonest stops (λ m u _ k. process_stop-IsHonest m u k) _
        (for_each-keeps (process_start d) IsHonest (sort_start_messages_by_priority sorting starts)
          (λ m u _ k. process_start-IsHonest m u k) t h)

note_error-none :
    (o : Outcome) (t : Sending)
    → (note_error o t).did_succeed ≡ true
    → (o ≡ none) × (t.did_succeed ≡ true) × ((note_error o t).requests ≡ t.requests)
note_error-none none t h = (refl, h, refl)
note_error-none (some e) t h = absurd (ground (arith, h))

module _ {S : Type 0} (store : StoreOps S) (add_to_counter : GoString → ℕ → S → S × Outcome)
    (sorting : Sorting) (d : Sender) where
  -- Each of the four writes has succeeded, in its turn.
  abbrev pub AllWritten : Sending → S → Type 0
  AllWritten t s =
      let (s1, e1) = store.save_pending_start_messages t.start_messages_to_save s in
      let (s2, e2) = store.delete_pending_start_messages t.start_messages_to_delete s1 in
      let (s3, e3) = store.save_pending_stop_messages t.stop_messages_to_save s2 in
      let (s4, e4) = store.delete_pending_stop_messages t.stop_messages_to_delete s3 in
      (e1 ≡ none) × (e2 ≡ none) × (e3 ≡ none) × (e4 ≡ none)

  write_back-done :
      (t : Sending) (s : S)
      → (write_back store add_to_counter sorting d t s).1.did_succeed ≡ true
      → AllWritten t s
        × (t.did_succeed ≡ true)
        × ((write_back store add_to_counter sorting d t s).1.requests ≡ t.requests)
  unfolding write_back
  write_back-done t s h =
      let (s1, e1) = store.save_pending_start_messages t.start_messages_to_save s in
      let (s2, e2) = store.delete_pending_start_messages t.start_messages_to_delete s1 in
      let (s3, e3) = store.save_pending_stop_messages t.stop_messages_to_save s2 in
      let (s4, e4) = store.delete_pending_stop_messages t.stop_messages_to_delete s3 in
      let t1 = note_error e1 t in
      let t2 = note_error e2 t1 in
      let t3 = note_error e3 t2 in
      let (n4, fine4, same4) = note_error-none e4 t3 h in
      let (n3, fine3, same3) = note_error-none e3 t2 fine4 in
      let (n2, fine2, same2) = note_error-none e2 t1 fine3 in
      let (n1, fine1, same1) = note_error-none e1 t fine2 in
      ((n1, n2, n3, n4), fine1, same4 ∙ same3 ∙ same2 ∙ same1)

  succeeded :
      (b : Bool)
      → ◌≡◌ {A = Option SendError} (if b then none else some sender_failed) none
      → b ≡ true
  succeeded true h = refl
  succeeded false h = absurd (ground (arith, h))

  -- If a new sender's Send reports no error, then the actual state was fresh, every request that was
  -- made was answered with status 200, the messages sent were counted, and each of the four writes of
  -- what had been queued succeeded.
  pub send-success :
      (starts : List PendingStartMessage) (stops : List PendingStopMessage) (s : S)
      → (send store add_to_counter sorting d starts stops new_sending s).2 ≡ none
      → let fresh = store.verify_freshness d.current_time s in
        let sent = deliver sorting d starts stops new_sending in
        let counted =
          increment_sent_message_metrics add_to_counter sent.sent_start_messages
            sent.sent_stop_messages fresh.0 in
        (fresh.1 ≡ none)
        × AllAccepted d (send store add_to_counter sorting d starts stops new_sending s).1.requests
        × (counted.1 ≡ none)
        × AllWritten sent counted.0
  unfolding send IsHonest new_sending
  send-success starts stops s h = elim (Option-cases (store.verify_freshness d.current_time s).1) [
    | inr (e, stale) ↦ absurd (reported e (rw (send, stale) at h))
    | inl fresh ↦
        let sent = deliver sorting d starts stops new_sending in
        let counted =
          increment_sent_message_metrics add_to_counter sent.sent_start_messages
            sent.sent_stop_messages (store.verify_freshness d.current_time s).0 in
        let (written, fine, same) =
          write_back-done (note_error counted.1 sent) counted.0
            (succeeded _ (rw (send, fresh) at h)) in
        let (no_error, still_fine, same_requests) = note_error-none counted.1 sent fine in
        (
          fresh,
          rw (send, fresh)
              (subst (AllAccepted d) (sym (same ∙ same_requests))
                (deliver-IsHonest d sorting starts stops new_sending (λ _. tt) still_fine)),
          no_error,
          subst (λ t. AllWritten t counted.0) (ap (λ o. note_error o sent) no_error) written,
        )
  ]
    where
      reported : (e : StoreError) → ◌≡◌ {A = Option SendError} (some (store_error e)) none → ⊥
      reported e q = ground (arith, q)
