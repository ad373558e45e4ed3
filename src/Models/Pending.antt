-- ===== src/Models/Pending.antt =====
-- models/pending_messages.go and messages.go: starts and stops that wait to be sent, and what is sent.
pub mod Lifecycle
use hm.Prelude.{ℕ, ◌+◌, ◌≡◌, ◌≢◌, ◌↔◌, Bool, true, false, not, ◌&&◌, ◌∷◌, ◌++◌, [], ◌==◌, arith}
use hm.Prelude.Int.{
  ℤ, pos, ◌+ℤ◌, ◌≤ℤ◌, ◌<ℤ◌, leb_ℤ, int_eq, eqb_ℤ_iff, wrap, wrap_in_range, IsInt64,
}
use hm.Prelude.Text.{GoString, codes, string_eq, str_eqb_iff, itoa}
use hm.Prelude.Time.{Time, unix, seconds, add, IsSeconds, unix-add}
use hm.Prelude.Float.{Float64, eq_f}

abbrev pub start_crashed : GoString
start_crashed = codes "CRASHED"

abbrev pub start_missing : GoString
start_missing = codes "MISSING"

abbrev pub start_evacuating : GoString
start_evacuating = codes "EVACUATING"

abbrev pub stop_extra : GoString
stop_extra = codes "EXTRA"

abbrev pub stop_duplicate : GoString
stop_duplicate = codes "DUPLICATE"

abbrev pub stop_evacuation_complete : GoString
stop_evacuation_complete = codes "EVACUATION_COMPLETE"

pub record PendingMessage : Type 0 where
  pub message_id : GoString
  pub send_on : ℤ
  pub sent_on : ℤ
  pub keep_alive : ℤ
  pub app_guid : GoString
  pub app_version : GoString

pub record PendingStartMessage : Type 0 where
  pub pending : PendingMessage
  pub open pending use *
  pub index_to_start : ℤ
  pub priority : Float64
  pub skip_verification : Bool
  pub start_reason : GoString

pub record PendingStopMessage : Type 0 where
  pub pending : PendingMessage
  pub open pending use *
  pub instance_guid : GoString
  pub stop_reason : GoString

pub record StartMessage : Type 0 where
  pub message_id : GoString
  pub app_guid : GoString
  pub app_version : GoString
  pub instance_index : ℤ

pub record StopMessage : Type 0 where
  pub message_id : GoString
  pub app_guid : GoString
  pub app_version : GoString
  pub instance_guid : GoString
  pub instance_index : ℤ
  pub is_duplicate : Bool

-- The first argument is the fresh `Guid()`.
unfoldable pub new_pending_message : GoString → Time → ℤ → ℤ → GoString → GoString → PendingMessage
new_pending_message guid now delay_in_seconds keep_alive_in_seconds app_guid app_version = record {
  message_id = guid;
  send_on = unix (add now (seconds delay_in_seconds));
  sent_on = pos 0;
  keep_alive = keep_alive_in_seconds;
  app_guid = app_guid;
  app_version = app_version;
}

unfoldable pub new_pending_start_message :
    GoString → Time → ℤ → ℤ → GoString → GoString → ℤ → Float64 → GoString → PendingStartMessage
unfolding new_pending_message
new_pending_start_message guid now delay keep app_guid app_version index priority reason = record {
  pending = new_pending_message guid now delay keep app_guid app_version;
  index_to_start = index;
  priority = priority;
  skip_verification = false;
  start_reason = reason;
}

unfoldable pub new_pending_stop_message :
    GoString → Time → ℤ → ℤ → GoString → GoString → GoString → GoString → PendingStopMessage
unfolding new_pending_message
new_pending_stop_message guid now delay keep app_guid app_version instance_guid reason = record {
  pending = new_pending_message guid now delay keep app_guid app_version;
  instance_guid = instance_guid;
  stop_reason = reason;
}

unfoldable pub has_been_sent : PendingMessage → Bool
has_been_sent message = not (message.sent_on == pos 0)

unfoldable pub is_time_to_send : PendingMessage → Time → Bool
unfolding has_been_sent
is_time_to_send message now = not (has_been_sent message) && leb_ℤ message.send_on (unix now)

unfoldable pub is_expired : PendingMessage → Time → Bool
unfolding has_been_sent
is_expired message now =
    has_been_sent message && leb_ℤ (wrap (message.sent_on +ℤ message.keep_alive)) (unix now)

pub pending_equal : PendingMessage → PendingMessage → Bool
pending_equal message another =
    message.send_on == another.send_on
    && message.sent_on == another.sent_on
    && message.keep_alive == another.keep_alive
    && message.app_guid == another.app_guid
    && message.app_version == another.app_version

bool_eqb : Bool → Bool → Bool
bool_eqb true b = b
bool_eqb false b = not b

pub start_equal : PendingStartMessage → PendingStartMessage → Bool
start_equal message another =
    pending_equal message.pending another.pending
    && message.index_to_start == another.index_to_start
    && eq_f message.priority another.priority
    && bool_eqb message.skip_verification another.skip_verification
    && message.start_reason == another.start_reason

pub stop_equal : PendingStopMessage → PendingStopMessage → Bool
stop_equal message another =
    pending_equal message.pending another.pending
    && message.instance_guid == another.instance_guid
    && message.stop_reason == another.stop_reason

unfoldable pub start_store_key : PendingStartMessage → GoString
start_store_key message =
    message.app_guid ++ (b'-' ∷ (message.app_version ++ (b'-' ∷ itoa message.index_to_start)))

unfoldable pub stop_store_key : PendingStopMessage → GoString
stop_store_key message = message.instance_guid
