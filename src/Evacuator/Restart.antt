-- ===== src/Evacuator/Restart.antt =====
-- What becomes of a droplet.exited message (evacuator/evacuator.go).
use mathlib.Core.List.{Permᴰ}
use hm.Prelude.{
  suc, ◌≡◌, refl, ap, ◌∙◌, inl, inr, Bool, true, false, ◌||◌, List, [], ◌∷◌, ◌++◌, none, some, ◌==◌,
  if◌then◌else◌, if-has, for_each, length, All, arith, Option-cases, Bool-cases,
}
use hm.Prelude.Int.{ℤ, pos, negsuc, ◌+ℤ◌, ◌*ℤ◌, wrap, int_eq, leb_ℤ, ltb_ℤ}
use hm.Prelude.Text.{GoString, codes, string_eq}
use hm.Prelude.Time.{Time, unix, add, seconds}
use hm.Models.Instance.{DropletExited, reason_dea_shutdown, reason_dea_evacuation}
use hm.Models.Pending.{PendingStartMessage, is_time_to_send, has_been_sent}
use hm.Models.Priority.{Sorting, less, sort_start_messages_by_priority}
use hm.Models.Priority.Order.{Permᴰ-All}
use hm.Metrics.{increment_sent_message_metrics}
use hm.Sender.{
  Sender, Sending, Request, start_request, start_url, start_message_for, start_message_to_send,
  new_sending, send, deliver, note_error, mark_start_message_sent, queue_start_message_for_deletion,
  process_start, send_start_message_http, accepted, ask, start_sent, send_start_messages,
  send_stop_messages,
}
use hm.Sender.Requests.{note_error-requests, write_back-requests}
use hm.Evacuator.{Evacuator, restart_message, evacuator_sender, handle_exited}

Permᴰ-length : {xs ys : List PendingStartMessage} → Permᴰ xs ys → length xs ≡ length ys
Permᴰ-length Permᴰ.nil = refl
Permᴰ-length (Permᴰ.cons e d) = ap suc (Permᴰ-length d)
Permᴰ-length (Permᴰ.swap e f) = refl
Permᴰ-length (Permᴰ.trans d f) = Permᴰ-length d ∙ Permᴰ-length f

sort_one :
    (sorting : Sorting) (m : PendingStartMessage)
    → sort_start_messages_by_priority sorting (m ∷ []) ≡ m ∷ []
unfolding sort_start_messages_by_priority
sort_one sorting m =
    let perm = sorting.sort_perm less (m ∷ []) in
    only (sorting.sort less (m ∷ [])) (Permᴰ-length perm) (Permᴰ-All (λ x. x ≡ m) perm (refl, tt))
  where
    only : (xs : List PendingStartMessage) → length xs ≡ 1 → All (λ x. x ≡ m) xs → xs ≡ m ∷ []
    only [] n h = absurd (omega (arith, n))
    only (x ∷ []) n h = ap (λ y. y ∷ []) h.0
    only (x ∷ y ∷ xs) n h = absurd (omega (arith, n))

add_zero : (t : ℤ) → t +ℤ pos 0 ≡ t
unfolding ◌+ℤ◌
add_zero (pos n) = ground arith
add_zero (negsuc n) = ground arith

same_second : (t : Time) → unix (add t (seconds (pos 0))) ≡ unix t
unfolding seconds wrap ◌*ℤ◌
same_second t = ap unix (add_zero t)

module _ {S : Type 0} (e : Evacuator S) (guid : GoString) (now sent_at : Time)
    (exited : DropletExited) where
  abbrev message : PendingStartMessage
  message = restart_message e guid now exited

  abbrev its_sender : Sender
  its_sender = evacuator_sender e sent_at

  -- The start of the instance that exited, by its app, version and index.
  abbrev pub its_request : Request
  its_request =
      start_request
        (e.conf.cc_internal_url ++ (codes "/internal/dea/hm9000/start/" ++ exited.app_guid))
        (record {
          message_id = guid;
          app_guid = exited.app_guid;
          app_version = exited.app_version;
          instance_index = exited.instance_index;
        })

  message-is_due :
      leb_ℤ (unix now) (unix sent_at) ≡ true → is_time_to_send message.pending sent_at ≡ true
  unfolding restart_message hm.Models.Pending.new_pending_start_message
      hm.Models.Pending.new_pending_message is_time_to_send has_been_sent
  message-is_due later = rw (same_second now) later

  start_sent-requests : (t : Sending) → (start_sent its_sender message t).requests ≡ t.requests
  unfolding start_sent mark_start_message_sent queue_start_message_for_deletion
  start_sent-requests t =
      if-has (λ (u : Sending). u.requests ≡ t.requests) (message.keep_alive == pos 0) (λ _. refl)
        (λ _. refl)

  message-is_asked_for :
      start_message_to_send its_sender message ≡ some (start_message_for its_sender message)
  unfolding start_message_to_send restart_message
  message-is_asked_for = refl

  request-is_its :
      start_request (start_url its_sender message) (start_message_for its_sender message)
      ≡ its_request
  unfolding start_url start_message_for evacuator_sender restart_message
      hm.Models.Pending.new_pending_start_message hm.Models.Pending.new_pending_message
  request-is_its = refl

  send_message-requests :
      ltb_ℤ (pos 0) e.conf.sender_message_limit ≡ true
      → (send_start_message_http its_sender message new_sending).requests ≡ its_request ∷ []
  unfolding send_start_message_http new_sending evacuator_sender
  send_message-requests room =
      rw (send_start_message_http, message-is_asked_for, room, request-is_its)
        (if-has (λ (t : Sending). t.requests ≡ its_request ∷ [])
          (accepted (ask its_sender its_request new_sending))
          (λ _. start_sent-requests (record new_sending { requests = its_request ∷ [] }))
          (λ _. refl))

  process_start-requests :
      leb_ℤ (unix now) (unix sent_at) ≡ true
      → ltb_ℤ (pos 0) e.conf.sender_message_limit ≡ true
      → (process_start its_sender message new_sending).requests ≡ its_request ∷ []
  unfolding process_start evacuator_sender
  process_start-requests later room =
      rw (process_start, message-is_due later) (send_message-requests room)

  deliver-requests :
      leb_ℤ (unix now) (unix sent_at) ≡ true
      → ltb_ℤ (pos 0) e.conf.sender_message_limit ≡ true
      → (deliver e.sorting its_sender (message ∷ []) [] new_sending).requests ≡ its_request ∷ []
  unfolding deliver send_start_messages send_stop_messages
  deliver-requests later room =
      ap (λ ms. (for_each (process_start its_sender) ms new_sending).requests)
        (sort_one e.sorting message)
      ∙ process_start-requests later room

  send-requests :
      (s : S)
      → leb_ℤ (unix now) (unix sent_at) ≡ true
      → ltb_ℤ (pos 0) e.conf.sender_message_limit ≡ true
      → (send e.store e.add_to_counter e.sorting its_sender
          (message ∷ [])
          []
          new_sending
          s).1.requests
        ≡ elim (e.store.verify_freshness sent_at s).1 [ none ↦ its_request ∷ [] | some x ↦ [] ]
  unfolding send evacuator_sender new_sending
  send-requests s later room = elim (Option-cases (e.store.verify_freshness sent_at s).1) [
    | inl fresh ↦
        let sent = deliver e.sorting its_sender (message ∷ []) [] new_sending in
        let (counted_state, counted) =
          increment_sent_message_metrics e.add_to_counter sent.sent_start_messages
            sent.sent_stop_messages (e.store.verify_freshness sent_at s).0 in
        rw (send, fresh)
          (write_back-requests e.store e.add_to_counter e.sorting its_sender
              (note_error counted sent) counted_state
            ∙ note_error-requests counted sent
            ∙ deliver-requests later room)
    | inr (x, stale) ↦ rw (send, stale) refl
  ]

  -- If the clock has not gone back and the limit allows a start, then a droplet.exited message makes
  -- exactly one request, the start of its app's version at its index, if its reason is a shutdown or
  -- an evacuation of the DEA and the actual state is fresh once the message has been saved, and
  -- otherwise makes none; for any other reason the state stays as it is.
  pub handle_exited-requests :
      (s : S)
      → leb_ℤ (unix now) (unix sent_at) ≡ true
      → ltb_ℤ (pos 0) e.conf.sender_message_limit ≡ true
      → let restarts =
          exited.reason == reason_dea_shutdown || exited.reason == reason_dea_evacuation in
        let saved = (e.store.save_pending_start_messages (message ∷ []) s).0 in
        ((handle_exited e guid now sent_at exited s).1 ≡ (
          if restarts
          then elim (e.store.verify_freshness sent_at saved).1 [
            | none ↦ its_request ∷ []
            | some x ↦ []
          ]
          else []))
        × (restarts ≡ false → (handle_exited e guid now sent_at exited s).0 ≡ s)
  unfolding handle_exited
  handle_exited-requests s later room =
      let its = exited.reason == reason_dea_shutdown || exited.reason == reason_dea_evacuation in
      let saved = (e.store.save_pending_start_messages (message ∷ []) s).0 in
      let made = send-requests saved later room in
      elim (Bool-cases its) [
        | inl restarts ↦ (rw (restarts) made, λ other. absurd (both its restarts other))
        | inr other ↦ (rw (other) refl, λ _. rw (other) refl)
      ]
    where
      both : (b : Bool) → b ≡ true → b ≡ false → ⊥
      both b p q = ground (arith, p, q)
