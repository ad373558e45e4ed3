-- ===== src/Sender/Settled.antt =====
-- sender.go forgets no message that is due, and leaves the store alone when it is not fresh.
use mathlib.Core.List.{Permᴰ}
use hm.Prelude.{
  ℕ, ◌≡◌, refl, sym, ◌∙◌, ◌⊎◌, inl, inr, true, false, List, [], ◌∷◌, ◌++◌, some, ◌==◌, arith, In,
  In-append_left, In-append_right, for_each-keeps, for_each-reaches, if-has, Bool-cases,
  Option-cases,
}
use hm.Prelude.Int.{pos, ◌≤ℤ◌, ltb_ℤ, int_eq}
use hm.Prelude.Text.{GoString}
use hm.Prelude.Time.{unix}
use hm.Models.Pending.{PendingStartMessage, PendingStopMessage, is_time_to_send}
use hm.Models.Priority.{Sorting, sort_start_messages_by_priority}
use hm.Store.Interface.{StoreOps, StoreError, Outcome}
use hm.Sender.{
  Sender, Sending, start_request, stop_request, start_message_to_send, stop_message_to_send,
  mark_start_message_sent, mark_stop_message_sent, queue_start_message_for_deletion,
  queue_stop_message_for_deletion, start_sent, stop_sent, ask, accepted, send_start_message_http,
  send_stop_message_http, process_start, process_stop, send_start_messages, send_stop_messages,
  deliver, start_url, stop_url, send, store_error,
}

-- The message as it is saved once sent.
abbrev pub marked_start : Sender → PendingStartMessage → PendingStartMessage
marked_start d m = record m { pending = record m.pending { sent_on = unix d.current_time } }

abbrev pub marked_stop : Sender → PendingStopMessage → PendingStopMessage
marked_stop d m = record m { pending = record m.pending { sent_on = unix d.current_time } }

-- The start is to be deleted, or to be saved as sent; or a request failed, or the limit is reached.
unfoldable pub StartSettled : Sender → PendingStartMessage → Sending → Type 0
StartSettled d m t =
    In m t.start_messages_to_delete
    ⊎ In (marked_start d m) t.start_messages_to_save
    ⊎ (t.did_succeed ≡ false)
    ⊎ (d.conf.sender_message_limit ≤ℤ pos t.number_of_start_messages_sent)

-- The stop is to be deleted, or to be saved as sent; or a request failed.
unfoldable pub StopSettled : Sender → PendingStopMessage → Sending → Type 0
StopSettled d m t =
    In m t.stop_messages_to_delete
    ⊎ In (marked_stop d m) t.stop_messages_to_save
    ⊎ (t.did_succeed ≡ false)

In-last : {A : Type 0} (xs : List A) (a : A) → In a (xs ++ (a ∷ []))
In-last xs a = In-append_right xs (a ∷ []) a (inl refl)

In-grown : {A : Type 0} (xs : List A) (b a : A) → In a xs → In a (xs ++ (b ∷ []))
In-grown xs b a m = In-append_left xs (b ∷ []) a m

module _ (d : Sender) where
  delete_start-settles :
      (m : PendingStartMessage) (t : Sending)
      → StartSettled d m (queue_start_message_for_deletion d m t)
  unfolding StartSettled queue_start_message_for_deletion
  delete_start-settles m t = inl (In-last t.start_messages_to_delete m)

  delete_stop-settles :
      (m : PendingStopMessage) (t : Sending)
      → StopSettled d m (queue_stop_message_for_deletion d m t)
  unfolding StopSettled queue_stop_message_for_deletion
  delete_stop-settles m t = inl (In-last t.stop_messages_to_delete m)

  start_sent-settles : (m : PendingStartMessage) (t : Sending) → StartSettled d m (start_sent d m t)
  unfolding StartSettled start_sent mark_start_message_sent queue_start_message_for_deletion
  start_sent-settles m t = elim (Bool-cases (m.keep_alive == pos 0)) [
    | inl once ↦ rw once (inl (In-last t.start_messages_to_delete m))
    | inr keep ↦ rw keep (inr (inl (In-last t.start_messages_to_save (marked_start d m))))
  ]

  stop_sent-settles : (m : PendingStopMessage) (t : Sending) → StopSettled d m (stop_sent d m t)
  unfolding StopSettled stop_sent mark_stop_message_sent queue_stop_message_for_deletion
  stop_sent-settles m t = elim (Bool-cases (m.keep_alive == pos 0)) [
    | inl once ↦ rw once (inl (In-last t.stop_messages_to_delete m))
    | inr keep ↦ rw keep (inr (inl (In-last t.stop_messages_to_save (marked_stop d m))))
  ]

  failed-settles :
      (m : PendingStartMessage) (t : Sending) → StartSettled d m (record t { did_succeed = false })
  unfolding StartSettled
  failed-settles m t = inr (inr (inl refl))

  failed-settles_stop :
      (m : PendingStopMessage) (t : Sending) → StopSettled d m (record t { did_succeed = false })
  unfolding StopSettled
  failed-settles_stop m t = inr (inr refl)

  full-settles :
      (m : PendingStartMessage) (t : Sending)
      → ltb_ℤ (pos t.number_of_start_messages_sent) d.conf.sender_message_limit ≡ false
      → StartSettled d m t
  unfolding StartSettled
  full-settles m t full = inr (inr (inr (ground arith)))

  process_start-settles :
      (m : PendingStartMessage) (t : Sending)
      → is_time_to_send m.pending d.current_time ≡ true
      → StartSettled d m (process_start d m t)
  unfolding process_start send_start_message_http
  process_start-settles m t due = elim (Option-cases (start_message_to_send d m)) [
    | inl never ↦ rw (process_start, due, send_start_message_http, never) (delete_start-settles m t)
    | inr (message, chosen) ↦
        let request = start_request (start_url d m) message in
        rw (process_start, due, send_start_message_http, chosen)
          (if-has (StartSettled d m)
            (ltb_ℤ (pos t.number_of_start_messages_sent) d.conf.sender_message_limit)
            (λ room.
              if-has (StartSettled d m) (accepted (ask d request t)) (λ yes. start_sent-settles m _)
                (λ no. failed-settles m (record t { requests = request ∷ t.requests })))
            (full-settles m t))
  ]

  process_stop-settles :
      (m : PendingStopMessage) (t : Sending)
      → is_time_to_send m.pending d.current_time ≡ true
      → StopSettled d m (process_stop d m t)
  unfolding process_stop send_stop_message_http
  process_stop-settles m t due = elim (Option-cases (stop_message_to_send d m)) [
    | inl never ↦ rw (process_stop, due, send_stop_message_http, never) (delete_stop-settles m t)
    | inr (message, chosen) ↦
        let request = stop_request (stop_url d m) message in
        rw (process_stop, due, send_stop_message_http, chosen)
          (if-has (StopSettled d m) (accepted (ask d request t)) (λ yes. stop_sent-settles m _)
            (λ no. failed-settles_stop m (record t { requests = request ∷ t.requests })))
  ]

  process_start-keeps :
      (x m : PendingStartMessage) (t : Sending)
      → StartSettled d m t
      → StartSettled d m (process_start d x t)
  unfolding StartSettled process_start send_start_message_http start_sent mark_start_message_sent
      queue_start_message_for_deletion
  process_start-keeps x m t h = ground (
    arith,
    In-grown t.start_messages_to_delete x m,
    In-grown t.start_messages_to_save (marked_start d x) (marked_start d m),
  )

  process_stop-keeps :
      (x m : PendingStopMessage) (t : Sending)
      → StopSettled d m t
      → StopSettled d m (process_stop d x t)
  unfolding StopSettled process_stop send_stop_message_http stop_sent mark_stop_message_sent
      queue_stop_message_for_deletion
  process_stop-keeps x m t h = ground (
    arith,
    In-grown t.stop_messages_to_delete x m,
    In-grown t.stop_messages_to_save (marked_stop d x) (marked_stop d m),
  )

  process_stop-keeps_starts :
      (x : PendingStopMessage) (m : PendingStartMessage) (t : Sending)
      → StartSettled d m t
      → StartSettled d m (process_stop d x t)
  unfolding StartSettled process_stop send_stop_message_http stop_sent mark_stop_message_sent
      queue_stop_message_for_deletion
  process_stop-keeps_starts x m t h = ground arith

Permᴰ-In :
    {xs ys : List PendingStartMessage} (m : PendingStartMessage) → Permᴰ xs ys → In m ys → In m xs
Permᴰ-In m Permᴰ.nil h = h
Permᴰ-In m (Permᴰ.cons e d) (inl q) = inl (q ∙ sym e)
Permᴰ-In m (Permᴰ.cons e d) (inr h) = inr (Permᴰ-In m d h)
Permᴰ-In m (Permᴰ.swap e f) (inl q) = inr (inl (q ∙ sym f))
Permᴰ-In m (Permᴰ.swap e f) (inr (inl q)) = inl (q ∙ sym e)
Permᴰ-In m (Permᴰ.swap e f) (inr (inr h)) = inr (inr h)
Permᴰ-In m (Permᴰ.trans d f) h = Permᴰ-In m d (Permᴰ-In m f h)

-- Each start that is due is in the end to be deleted, or to be saved as sent now, or else a request
-- failed, which fails the run, or the limit of starts is reached; each stop that is due is to be
-- deleted, or to be saved as sent now, or else a request failed.
pub nothing_due_is_forgotten :
    (sorting : Sorting) (d : Sender) (starts : List PendingStartMessage)
    (stops : List PendingStopMessage) (t : Sending)
    → ((m : PendingStartMessage)
        → In m starts
        → is_time_to_send m.pending d.current_time ≡ true
        → StartSettled d m (deliver sorting d starts stops t))
      × ((m : PendingStopMessage)
          → In m stops
          → is_time_to_send m.pending d.current_time ≡ true
          → StopSettled d m (deliver sorting d starts stops t))
unfolding deliver send_start_messages send_stop_messages sort_start_messages_by_priority
nothing_due_is_forgotten sorting d starts stops t = (
  λ m member due.
      for_each-keeps (process_stop d) (StartSettled d m) stops
        (λ x s i h. process_stop-keeps_starts d x m s h) _
        (for_each-reaches (process_start d) (StartSettled d m) m _
          (Permᴰ-In m (sorting.sort_perm _ starts) member) (λ s. process_start-settles d m s due)
          (λ x s h. process_start-keeps d x m s h) t),
  λ m member due.
      for_each-reaches (process_stop d) (StopSettled d m) m stops member
        (λ s. process_stop-settles d m s due) (λ x s h. process_stop-keeps d x m s h) _,
)

-- If the store is not fresh, or its freshness cannot be read, the run reports that error, and it makes
-- no request, counts nothing and writes nothing: the state is the one after the check.
pub send-stale :
    {S : Type 0} (store : StoreOps S) (add_to_counter : GoString → ℕ → S → S × Outcome)
    (sorting : Sorting) (d : Sender) (starts : List PendingStartMessage)
    (stops : List PendingStopMessage) (t : Sending) (s : S) (e : StoreError)
    → (store.verify_freshness d.current_time s).1 ≡ some e
    → send store add_to_counter sorting d starts stops t s
      ≡ ((store.verify_freshness d.current_time s).0, t, some (store_error e))
unfolding send
send-stale store add_to_counter sorting d starts stops t s e stale = rw (send, stale) refl
