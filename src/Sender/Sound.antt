-- ===== src/Sender/Sound.antt =====
-- What sender.go has sent at the end of a run, and within which limit.
use hm.Prelude.{
  suc, ◌≡◌, refl, sym, ◌∙◌, ◌⊎◌, inl, inr, true, false, List, [], ◌∷◌, ◌++◌, none, some, ◌==◌,
  arith, length, All, All-append, length-append, for_each-keeps, if-has, Bool-cases, Option-cases,
}
use hm.Prelude.Int.{pos, ◌≤ℤ◌, ◌<ℤ◌, ltb_ℤ, int_eq}
use hm.Prelude.Time.{unix}
use hm.Models.Pending.{
  PendingStartMessage, PendingStopMessage, StopMessage, is_time_to_send, is_expired,
}
use hm.Models.Priority.{Sorting, sort_start_messages_by_priority}
use hm.Sender.{
  Sender, Sending, Request, start_request, stop_request, new_sending, start_message_to_send,
  stop_message_to_send, mark_start_message_sent, mark_stop_message_sent,
  queue_start_message_for_deletion, queue_stop_message_for_deletion, start_sent, stop_sent, ask,
  accepted, send_start_message_http, send_stop_message_http, process_start, process_stop,
  send_start_messages, send_stop_messages, deliver, start_url, stop_url,
}
use hm.Sender.Decisions.{MayStart, MaySendStop, start_message_to_send_iff, stop_message_to_send_iff}

-- A start that was due and may be sent.
abbrev pub IsRightStart : Sender → PendingStartMessage → Type 0
IsRightStart d m = (is_time_to_send m.pending d.current_time ≡ true) × MayStart d m

abbrev pub IsRightStop : Sender → PendingStopMessage → Type 0
IsRightStop d m = (is_time_to_send m.pending d.current_time ≡ true) × MaySendStop d m

-- A saved message is marked as sent now, and is to be kept alive.
abbrev pub IsMarkedStart : Sender → PendingStartMessage → Type 0
IsMarkedStart d m = (m.sent_on ≡ unix d.current_time) × ((m.keep_alive == pos 0) ≡ false)

abbrev pub IsMarkedStop : Sender → PendingStopMessage → Type 0
IsMarkedStop d m = (m.sent_on ≡ unix d.current_time) × ((m.keep_alive == pos 0) ≡ false)

-- The sent messages are right, their number is the counter, which the limit bounds, and what is to be
-- saved is marked.
unfoldable pub IsRight : Sender → Sending → Type 0
IsRight d t =
    All (IsRightStart d) t.sent_start_messages
    × All (IsRightStop d) t.sent_stop_messages
    × All (IsMarkedStart d) t.start_messages_to_save
    × All (IsMarkedStop d) t.stop_messages_to_save
    × (length t.sent_start_messages ≡ t.number_of_start_messages_sent)
    × (pos t.number_of_start_messages_sent ≤ℤ pos 0
        ⊎ pos t.number_of_start_messages_sent ≤ℤ d.conf.sender_message_limit)

module _ (d : Sender) where
  start_sent-IsRight :
      (m : PendingStartMessage) (t : Sending)
      → IsRightStart d m
      → pos t.number_of_start_messages_sent <ℤ d.conf.sender_message_limit
      → IsRight d t
      → IsRight d (start_sent d m t)
  unfolding IsRight start_sent mark_start_message_sent queue_start_message_for_deletion
  start_sent-IsRight m t right room (starts, stops, saves, stop_saves, size, limit) =
      let starts' = All-append (IsRightStart d) t.sent_start_messages (m ∷ []) starts (right, tt) in
      let size' : length (t.sent_start_messages ++ (m ∷ [])) ≡ suc t.number_of_start_messages_sent =
        omega (arith, length-append t.sent_start_messages (m ∷ []), size) in
      elim (Bool-cases (m.keep_alive == pos 0)) [
        | inl once ↦ rw once (starts', stops, saves, stop_saves, size', inr (omega arith))
        | inr keep ↦ rw keep (
          starts',
          stops,
          All-append (IsMarkedStart d) t.start_messages_to_save _ saves ((refl, keep), tt),
          stop_saves,
          size',
          inr (omega arith),
        )
      ]

  stop_sent-IsRight :
      (m : PendingStopMessage) (t : Sending)
      → IsRightStop d m
      → IsRight d t
      → IsRight d (stop_sent d m t)
  unfolding IsRight stop_sent mark_stop_message_sent queue_stop_message_for_deletion
  stop_sent-IsRight m t right (starts, stops, saves, stop_saves, size, limit) =
      let stops' = All-append (IsRightStop d) t.sent_stop_messages (m ∷ []) stops (right, tt) in
      elim (Bool-cases (m.keep_alive == pos 0)) [
        | inl once ↦ rw once (starts, stops', saves, stop_saves, size, limit)
        | inr keep ↦ rw keep (
          starts,
          stops',
          saves,
          All-append (IsMarkedStop d) t.stop_messages_to_save _ stop_saves ((refl, keep), tt),
          size,
          limit,
        )
      ]

  -- What a request changes, when it fails or before its answer: nothing that is claimed.
  asked-IsRight :
      (request : Request) (t : Sending)
      → IsRight d t
      → IsRight d (record t { requests = request ∷ t.requests })
  unfolding IsRight
  asked-IsRight request t h = h

  failed-IsRight : (t : Sending) → IsRight d t → IsRight d (record t { did_succeed = false })
  unfolding IsRight
  failed-IsRight t h = h

  delete_start-IsRight :
      (m : PendingStartMessage) (t : Sending)
      → IsRight d t
      → IsRight d (queue_start_message_for_deletion d m t)
  unfolding IsRight queue_start_message_for_deletion
  delete_start-IsRight m t h = h

  delete_stop-IsRight :
      (m : PendingStopMessage) (t : Sending)
      → IsRight d t
      → IsRight d (queue_stop_message_for_deletion d m t)
  unfolding IsRight queue_stop_message_for_deletion
  delete_stop-IsRight m t h = h

  send_start-IsRight :
      (m : PendingStartMessage) (t : Sending)
      → is_time_to_send m.pending d.current_time ≡ true
      → IsRight d t
      → IsRight d (send_start_message_http d m t)
  unfolding send_start_message_http
  send_start-IsRight m t due h = elim (Option-cases (start_message_to_send d m)) [
    | inl never ↦ rw (send_start_message_http, never) (delete_start-IsRight m t h)
    | inr (message, chosen) ↦
        let request = start_request (start_url d m) message in
        let asked = asked-IsRight request t h in
        let may = ((start_message_to_send_iff d m).1 message chosen).0 in
        rw (send_start_message_http, chosen)
          (if-has (IsRight d)
            (ltb_ℤ (pos t.number_of_start_messages_sent) d.conf.sender_message_limit)
            (λ room.
              if-has (IsRight d) (accepted (ask d request t))
                (λ yes. start_sent-IsRight m _ (due, may) (ground arith) asked)
                (λ no. failed-IsRight _ asked))
            (λ full. h))
  ]

  send_stop-IsRight :
      (m : PendingStopMessage) (t : Sending)
      → is_time_to_send m.pending d.current_time ≡ true
      → IsRight d t
      → IsRight d (send_stop_message_http d m t)
  unfolding send_stop_message_http
  send_stop-IsRight m t due h = elim (Option-cases (stop_message_to_send d m)) [
    | inl never ↦ rw (send_stop_message_http, never) (delete_stop-IsRight m t h)
    | inr (message, chosen) ↦
        let request = stop_request (stop_url d m) message in
        let asked = asked-IsRight request t h in
        let may = (stop_message_to_send_iff d m).0 (λ e. some-none (sym chosen ∙ e)) in
        rw (send_stop_message_http, chosen)
          (if-has (IsRight d) (accepted (ask d request t))
            (λ yes. stop_sent-IsRight m _ (due, may) asked) (λ no. failed-IsRight _ asked))
  ]
    where
      some-none : {message : StopMessage} → some message ≡ none → ⊥
      some-none q = cc

  process_start-IsRight :
      (m : PendingStartMessage) (t : Sending) → IsRight d t → IsRight d (process_start d m t)
  unfolding process_start
  process_start-IsRight m t h =
      if-has (IsRight d) (is_time_to_send m.pending d.current_time)
        (λ due. send_start-IsRight m t due h)
        (λ later.
          if-has (IsRight d) (is_expired m.pending d.current_time)
            (λ old. delete_start-IsRight m t h) (λ wait. h))

  process_stop-IsRight :
      (m : PendingStopMessage) (t : Sending) → IsRight d t → IsRight d (process_stop d m t)
  unfolding process_stop
  process_stop-IsRight m t h =
      if-has (IsRight d) (is_time_to_send m.pending d.current_time)
        (λ due. send_stop-IsRight m t due h)
        (λ later.
          if-has (IsRight d) (is_expired m.pending d.current_time)
            (λ old. delete_stop-IsRight m t h) (λ wait. h))

-- Whatever the answers to the requests, after everything is delivered each start that was sent was due
-- and skips verification or fills a gap of the snapshot; each stop that was sent was due and may be sent
-- by the snapshot; no more starts were sent than the limit, and none if the limit is negative; and every
-- message to be saved is marked as sent now and is one to keep alive.
pub deliver-IsRight :
    (sorting : Sorting) (d : Sender) (starts : List PendingStartMessage)
    (stops : List PendingStopMessage)
    → IsRight d (deliver sorting d starts stops new_sending)
unfolding deliver send_start_messages send_stop_messages
deliver-IsRight sorting d starts stops =
    for_each-keeps (process_stop d) (IsRight d) stops (λ m t i h. process_stop-IsRight d m t h) _
      (for_each-keeps (process_start d) (IsRight d) (sort_start_messages_by_priority sorting starts)
        (λ m t i h. process_start-IsRight d m t h) new_sending
        (unfold IsRight new_sending in (tt, tt, tt, tt, refl, inl (omega arith))))
