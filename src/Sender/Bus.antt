-- ===== src/Sender/Bus.antt =====
-- sendStartMessage of sender/sender.go, which publishes a start on the message bus. Nothing calls it
-- since starts are sent by HTTP. The bus, which is not part of the repository, is an argument: its
-- state, and whether it takes a message under a subject.
use hm.Prelude.{
  suc, ◌≡◌, refl, Bool, true, false, [], ◌∷◌, ◌++◌, Option, none, some, ◌==◌, if◌then◌else◌,
}
use hm.Prelude.Int.{pos, int_eq, ltb_ℤ}
use hm.Prelude.Text.{GoString}
use hm.Models.Pending.{PendingStartMessage, StartMessage}
use hm.Sender.{
  Sender, Sending, Request, start_request, start_message_to_send, start_url, ask, accepted,
  start_sent, mark_start_message_sent, queue_start_message_for_deletion, send_start_message_http,
}

module _ {B : Type 0} (publish : GoString → StartMessage → B → B × Bool) (subject : GoString)
    (d : Sender) where
  -- sender.numberOfStartMessagesSent += 1
  abbrev counted_one : Sending → Sending
  counted_one s = record s { number_of_start_messages_sent = suc s.number_of_start_messages_sent }

  -- The bus has taken the start.
  unfoldable pub start_published : PendingStartMessage → Sending → Sending
  unfolding queue_start_message_for_deletion mark_start_message_sent
  start_published m s =
      let sent = record s { sent_start_messages = s.sent_start_messages ++ (m ∷ []) } in
      let kept =
        if m.keep_alive == pos 0
        then queue_start_message_for_deletion d m sent
        else mark_start_message_sent d m sent in
      counted_one kept

  unfoldable pub send_start_message : PendingStartMessage → B → Sending → B × Sending
  unfolding start_message_to_send start_published queue_start_message_for_deletion
  send_start_message m bus s = elim (start_message_to_send d m) [
    | none ↦ (bus, queue_start_message_for_deletion d m s)
    | some message_to_send ↦
        let (bus', taken) = publish subject message_to_send bus in
        if ltb_ℤ (pos s.number_of_start_messages_sent) d.conf.sender_message_limit
        then (bus', if taken then start_published m s else record s { did_succeed = false })
        else (bus, s)
  ]

  -- All but the requests.
  abbrev apart_from_requests : Sending → Sending
  apart_from_requests s = record s { requests = [] }

  published-sent :
      (m : PendingStartMessage) (s : Sending) (request : Request)
      → apart_from_requests (start_published m s)
        ≡ apart_from_requests (start_sent d m (record s { requests = request ∷ s.requests }))
  unfolding start_published start_sent mark_start_message_sent queue_start_message_for_deletion
  published-sent m s request = by_keep_alive (m.keep_alive == pos 0)
    where
      by_keep_alive :
          (b : Bool)
          → apart_from_requests (
              counted_one (
                if b
                then queue_start_message_for_deletion d m
                    (record s { sent_start_messages = s.sent_start_messages ++ (m ∷ []) })
                else mark_start_message_sent d m
                    (record s { sent_start_messages = s.sent_start_messages ++ (m ∷ []) })))
            ≡ apart_from_requests (
                if b
                then queue_start_message_for_deletion d m (record s {
                  sent_start_messages = s.sent_start_messages ++ (m ∷ []);
                  number_of_start_messages_sent = suc s.number_of_start_messages_sent;
                  requests = request ∷ s.requests;
                })
                else mark_start_message_sent d m (record s {
                  sent_start_messages = s.sent_start_messages ++ (m ∷ []);
                  number_of_start_messages_sent = suc s.number_of_start_messages_sent;
                  requests = request ∷ s.requests;
                }))
      by_keep_alive true = refl
      by_keep_alive false = refl

  -- Where the bus takes what the Cloud Controller would accept, a start that is published leaves
  -- what the same start sent by HTTP leaves, but for the requests.
  send_start_message-http :
      (m : PendingStartMessage) (bus : B) (s : Sending)
      → ((message : StartMessage)
          → (publish subject message bus).1
            ≡ accepted (ask d (start_request (start_url d m) message) s))
      → apart_from_requests (send_start_message m bus s).1
        ≡ apart_from_requests (send_start_message_http d m s)
  unfolding send_start_message send_start_message_http
  send_start_message-http m bus s agrees = of_message (start_message_to_send d m) refl
    where
      sent_or_not :
          (message : StartMessage) (answer : Bool)
          → apart_from_requests
              (if answer then start_published m s else record s { did_succeed = false })
            ≡ apart_from_requests (
                let asked = record s {
                  requests = start_request (start_url d m) message ∷ s.requests;
                } in
                if answer then start_sent d m asked else record asked { did_succeed = false })
      sent_or_not message true = published-sent m s (start_request (start_url d m) message)
      sent_or_not message false = refl

      below_limit :
          (message : StartMessage)
          → start_message_to_send d m ≡ some message
          → (below : Bool)
          → ltb_ℤ (pos s.number_of_start_messages_sent) d.conf.sender_message_limit ≡ below
          → apart_from_requests (send_start_message m bus s).1
            ≡ apart_from_requests (send_start_message_http d m s)
      below_limit message e true below =
          rw (send_start_message, send_start_message_http, e, below, agrees message)
            (sent_or_not message _)
      below_limit message e false below =
          rw (send_start_message, send_start_message_http, e, below) refl

      of_message :
          (o : Option StartMessage)
          → start_message_to_send d m ≡ o
          → apart_from_requests (send_start_message m bus s).1
            ≡ apart_from_requests (send_start_message_http d m s)
      of_message none e = rw (send_start_message, send_start_message_http, e) refl
      of_message (some message) e =
          below_limit message e
            (ltb_ℤ (pos s.number_of_start_messages_sent) d.conf.sender_message_limit) refl
