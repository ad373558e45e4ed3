-- ===== src/Models/Pending/Lifecycle.antt =====
-- The life of a pending message: waiting, due, sent and kept alive, expired.
use hm.Prelude.{◌≡◌, ◌≢◌, ◌↔◌, Bool, true, false, arith, ap, refl}
use hm.Prelude.Int.{ℤ, pos, ◌+ℤ◌, leb_ℤ, int_eq, eqb_ℤ_iff, wrap_in_range, IsInt64}
use hm.Prelude.Text.{GoString, string_eq, str_eqb_iff}
use hm.Prelude.Time.{Time, unix, IsSeconds, unix-add}
use hm.Models.Pending.{
  PendingMessage, PendingStartMessage, PendingStopMessage, new_pending_message, is_time_to_send,
  is_expired, pending_equal, start_equal, stop_equal, bool_eqb,
}

-- A new message is due exactly from `delay` seconds after its creation, and never expires unsent.
new_pending_message-due :
    (guid : GoString) (now later : Time) (delay keep : ℤ) (app version : GoString)
    → IsSeconds delay
    → (is_time_to_send (new_pending_message guid now delay keep app version) later
        ≡ leb_ℤ (unix now +ℤ delay) (unix later))
      × (is_expired (new_pending_message guid now delay keep app version) later ≡ false)
unfolding new_pending_message is_time_to_send is_expired
new_pending_message-due guid now later delay keep app version h =
    (ap (λ z. leb_ℤ z (unix later)) (unix-add now delay h), refl)

-- A message created at `now` with a delay is due exactly from `delay` seconds later on, and does not
-- expire unsent. Once marked as sent, at a time other than the epoch, it is never due again, and it
-- expires exactly when its keep-alive has passed.
pub lifecycle :
    (guid : GoString) (now sent later : Time) (delay keep : ℤ) (app version : GoString)
    → IsSeconds delay
    → unix sent ≢ pos 0
    → IsInt64 (unix sent +ℤ keep)
    → let m = new_pending_message guid now delay keep app version in
      let m' = record m { sent_on = unix sent } in
      (is_time_to_send m later ≡ leb_ℤ (unix now +ℤ delay) (unix later))
      × (is_expired m later ≡ false)
      × (is_time_to_send m' later ≡ false)
      × (is_expired m' later ≡ leb_ℤ (unix sent +ℤ keep) (unix later))
unfolding new_pending_message is_time_to_send is_expired
lifecycle guid now sent later delay keep app version h s fits = (
  ap (λ z. leb_ℤ z (unix later)) (unix-add now delay h),
  refl,
  ground (arith, eqb_ℤ_iff (unix sent) (pos 0)),
  ground (arith, eqb_ℤ_iff (unix sent) (pos 0), wrap_in_range (unix sent +ℤ keep) fits),
)

-- No message is due and expired at the same time.
due-not-expired :
    (m : PendingMessage) (now : Time) → is_time_to_send m now ≡ true → is_expired m now ≡ false
unfolding is_time_to_send is_expired
due-not-expired m now h = ground arith

pending_equal_iff :
    (a b : PendingMessage)
    → (pending_equal a b ≡ true) ↔ (a ≡ record b { message_id = a.message_id })
unfolding pending_equal
pending_equal_iff a b = ground (
  arith,
  eqb_ℤ_iff a.send_on b.send_on,
  eqb_ℤ_iff a.sent_on b.sent_on,
  eqb_ℤ_iff a.keep_alive b.keep_alive,
  str_eqb_iff a.app_guid b.app_guid,
  str_eqb_iff a.app_version b.app_version,
)

bool_eqb_iff : (a b : Bool) → (bool_eqb a b ≡ true) ↔ (a ≡ b)
unfolding bool_eqb
bool_eqb_iff a b = ground arith

-- `Equal` on start messages decides equality up to the message id.
pub start_equal_iff :
    (a b : PendingStartMessage)
    → (start_equal a b ≡ true)
      ↔ (a ≡ record b { pending = record b.pending { message_id = a.message_id } })
unfolding start_equal
start_equal_iff a b = ground (
  arith,
  pending_equal_iff a.pending b.pending,
  eqb_ℤ_iff a.index_to_start b.index_to_start,
  eqb_ℤ_iff a.priority b.priority,
  bool_eqb_iff a.skip_verification b.skip_verification,
  str_eqb_iff a.start_reason b.start_reason,
)

-- So does `Equal` on stop messages.
pub stop_equal_iff :
    (a b : PendingStopMessage)
    → (stop_equal a b ≡ true)
      ↔ (a ≡ record b { pending = record b.pending { message_id = a.message_id } })
unfolding stop_equal
stop_equal_iff a b = ground (
  arith,
  pending_equal_iff a.pending b.pending,
  str_eqb_iff a.instance_guid b.instance_guid,
  str_eqb_iff a.stop_reason b.stop_reason,
)
