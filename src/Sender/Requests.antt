-- ===== src/Sender/Requests.antt =====
-- What sender.go makes requests for, whether they succeed or not.
use hm.Prelude.{
  ℕ, ◌≡◌, refl, sym, subst, ap, ◌∙◌, ◌⊎◌, inl, inr, true, List, [], ◌∷◌, none, some, if-has,
  Option-cases, In, All, All-In, All-mono, for_each-keeps, ◌==◌,
}
use hm.Prelude.Int.{pos, int_eq, ltb_ℤ}
use hm.Prelude.Text.{GoString}
use hm.Models.Pending.{
  PendingStartMessage, PendingStopMessage, StopMessage, is_time_to_send, is_expired,
}
use hm.Models.Priority.{Sorting, less, sort_start_messages_by_priority}
use hm.Models.Priority.Order.{Permᴰ-All}
use hm.Metrics.{increment_sent_message_metrics}
use hm.Store.Interface.{StoreOps, Outcome}
use hm.Sender.{
  Sender, Sending, new_sending, Request, process_start, process_stop, send_start_message_http,
  send_stop_message_http, queue_start_message_for_deletion, queue_stop_message_for_deletion,
  mark_start_message_sent, mark_stop_message_sent, send_start_messages, send_stop_messages, deliver,
  write_back, note_error, send, start_message_to_send, stop_message_to_send, accepted, ask,
  start_sent, stop_sent, start_url, stop_url, start_request, stop_request,
}
use hm.Sender.Decisions.{
  MayStart, MaySendStop, names_of, start_message_to_send_iff, stop_message_to_send_iff,
}

module _ (d : Sender) (starts : List PendingStartMessage) (stops : List PendingStopMessage) where
  -- The start of one of the messages, which is due and may be sent.
  abbrev pub IsStartFor : Request → Type 0
  IsStartFor q =
      (m : PendingStartMessage) × In m starts
      × (is_time_to_send m.pending d.current_time ≡ true)
      × MayStart d m
      × (q ≡ start_request (start_url d m) (names_of m))

  abbrev pub IsStopFor : Request → Type 0
  IsStopFor q =
      (m : PendingStopMessage) × (sent : StopMessage) × In m stops
      × (is_time_to_send m.pending d.current_time ≡ true)
      × MaySendStop d m
      × (stop_message_to_send d m ≡ some sent)
      × (q ≡ stop_request (stop_url d m) sent)

  abbrev pub IsCalledFor : Request → Type 0
  IsCalledFor q = IsStartFor q ⊎ IsStopFor q

  unfoldable AreCalledFor : Sending → Type 0
  AreCalledFor t = All IsCalledFor t.requests

  start_sent-AreCalledFor :
      (m : PendingStartMessage) (t : Sending) → AreCalledFor t → AreCalledFor (start_sent d m t)
  unfolding start_sent queue_start_message_for_deletion mark_start_message_sent AreCalledFor
  start_sent-AreCalledFor m t h = if-has AreCalledFor (m.keep_alive == pos 0) (λ _. h) (λ _. h)

  stop_sent-AreCalledFor :
      (m : PendingStopMessage) (t : Sending) → AreCalledFor t → AreCalledFor (stop_sent d m t)
  unfolding stop_sent queue_stop_message_for_deletion mark_stop_message_sent AreCalledFor
  stop_sent-AreCalledFor m t h = if-has AreCalledFor (m.keep_alive == pos 0) (λ _. h) (λ _. h)

  send_start-AreCalledFor :
      (m : PendingStartMessage) (t : Sending)
      → In m starts
      → is_time_to_send m.pending d.current_time ≡ true
      → AreCalledFor t
      → AreCalledFor (send_start_message_http d m t)
  unfolding send_start_message_http queue_start_message_for_deletion AreCalledFor
  send_start-AreCalledFor m t given due h = elim (Option-cases (start_message_to_send d m)) [
    | inl never ↦ rw (send_start_message_http, never) h
    | inr (sent, chosen) ↦
        let (may, same) = (start_message_to_send_iff d m).1 sent chosen in
        let q = start_request (start_url d m) sent in
        let called : IsCalledFor q =
          inl (m, given, due, may, ap (start_request (start_url d m)) same) in
        rw (send_start_message_http, chosen)
          (if-has AreCalledFor
            (ltb_ℤ (pos t.number_of_start_messages_sent) d.conf.sender_message_limit)
            (λ _.
              if-has AreCalledFor (accepted (ask d q t))
                (λ _. start_sent-AreCalledFor m _ (called, h)) (λ _. (called, h)))
            (λ _. h))
  ]

  send_stop-AreCalledFor :
      (m : PendingStopMessage) (t : Sending)
      → In m stops
      → is_time_to_send m.pending d.current_time ≡ true
      → AreCalledFor t
      → AreCalledFor (send_stop_message_http d m t)
  unfolding send_stop_message_http queue_stop_message_for_deletion AreCalledFor
  send_stop-AreCalledFor m t given due h = elim (Option-cases (stop_message_to_send d m)) [
    | inl never ↦ rw (send_stop_message_http, never) h
    | inr (sent, chosen) ↦
        let may = (stop_message_to_send_iff d m).0 (λ e. some-none (sym chosen ∙ e)) in
        let q = stop_request (stop_url d m) sent in
        let called : IsCalledFor q = inr (m, sent, given, due, may, chosen, refl) in
        rw (send_stop_message_http, chosen)
          (if-has AreCalledFor (accepted (ask d q t)) (λ _. stop_sent-AreCalledFor m _ (called, h))
            (λ _. (called, h)))
  ]
    where
      some-none : {message : StopMessage} → some message ≡ none → ⊥
      some-none q = cc

  process_start-AreCalledFor :
      (m : PendingStartMessage) (t : Sending)
      → In m starts
      → AreCalledFor t
      → AreCalledFor (process_start d m t)
  unfolding process_start queue_start_message_for_deletion AreCalledFor
  process_start-AreCalledFor m t given h =
      if-has AreCalledFor (is_time_to_send m.pending d.current_time)
        (λ due. send_start-AreCalledFor m t given due h)
        (λ _. if-has AreCalledFor (is_expired m.pending d.current_time) (λ _. h) (λ _. h))

  process_stop-AreCalledFor :
      (m : PendingStopMessage) (t : Sending)
      → In m stops
      → AreCalledFor t
      → AreCalledFor (process_stop d m t)
  unfolding process_stop queue_stop_message_for_deletion AreCalledFor
  process_stop-AreCalledFor m t given h =
      if-has AreCalledFor (is_time_to_send m.pending d.current_time)
        (λ due. send_stop-AreCalledFor m t given due h)
        (λ _. if-has AreCalledFor (is_expired m.pending d.current_time) (λ _. h) (λ _. h))

  All-itself : (xs : List PendingStartMessage) → All (λ m. In m xs) xs
  All-itself [] = tt
  All-itself (x ∷ xs) =
      (inl refl, All-mono (λ m. In m xs) (λ m. In m (x ∷ xs)) xs (λ m i. inr i) (All-itself xs))

  sorted-In :
      (sorting : Sorting) (m : PendingStartMessage)
      → In m (sort_start_messages_by_priority sorting starts)
      → In m starts
  unfolding sort_start_messages_by_priority
  sorted-In sorting m i =
      All-In (λ x. In x starts) (sorting.sort less starts) m
        (Permᴰ-All (λ x. In x starts) (sorting.sort_perm less starts) (All-itself starts)) i

  -- Every request is the start of a given message that is due and may be sent, or the stop of one.
  pub deliver-IsCalledFor :
      (sorting : Sorting) → All IsCalledFor (deliver sorting d starts stops new_sending).requests
  unfolding deliver send_start_messages send_stop_messages AreCalledFor new_sending
  deliver-IsCalledFor sorting =
      for_each-keeps (process_stop d) AreCalledFor stops
        (λ m t i h. process_stop-AreCalledFor m t i h) _
        (for_each-keeps (process_start d) AreCalledFor
          (sort_start_messages_by_priority sorting starts)
          (λ m t i h. process_start-AreCalledFor m t (sorted-In sorting m i) h) new_sending tt)

pub note_error-requests : (o : Outcome) (t : Sending) → (note_error o t).requests ≡ t.requests
note_error-requests none t = refl
note_error-requests (some x) t = refl

module _ {S : Type 0} (store : StoreOps S) (add_to_counter : GoString → ℕ → S → S × Outcome)
    (sorting : Sorting) (d : Sender) where
  pub write_back-requests :
      (t : Sending) (s : S)
      → (write_back store add_to_counter sorting d t s).1.requests ≡ t.requests
  unfolding write_back
  write_back-requests t s =
      let (s1, e1) = store.save_pending_start_messages t.start_messages_to_save s in
      let (s2, e2) = store.delete_pending_start_messages t.start_messages_to_delete s1 in
      let (s3, e3) = store.save_pending_stop_messages t.stop_messages_to_save s2 in
      let (s4, e4) = store.delete_pending_stop_messages t.stop_messages_to_delete s3 in
      let t1 = note_error e1 t in
      let t2 = note_error e2 t1 in
      let t3 = note_error e3 t2 in
      note_error-requests e4 t3
      ∙ note_error-requests e3 t2
      ∙ note_error-requests e2 t1
      ∙ note_error-requests e1 t

  pub send-IsCalledFor :
      (starts : List PendingStartMessage) (stops : List PendingStopMessage) (s : S)
      → All
          (IsCalledFor d starts stops)
          (send store add_to_counter sorting d starts stops new_sending s).1.requests
  unfolding send new_sending
  send-IsCalledFor starts stops s =
      elim (Option-cases (store.verify_freshness d.current_time s).1) [
        | inl fresh ↦
            let sent = deliver sorting d starts stops new_sending in
            let (counted_state, counted) =
              increment_sent_message_metrics add_to_counter sent.sent_start_messages
                sent.sent_stop_messages (store.verify_freshness d.current_time s).0 in
            rw (send, fresh)
              (subst (All (IsCalledFor d starts stops))
                (sym (
                  write_back-requests (note_error counted sent) counted_state
                  ∙ note_error-requests counted sent))
                (deliver-IsCalledFor d starts stops sorting))
        | inr (x, stale) ↦ rw (send, stale) tt
      ]
