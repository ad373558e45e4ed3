-- ===== src/Tests/Data.antt =====
-- Shared inputs: an app with three desired instances, of which two run at index 0, none is at index 1
-- and one crashed at index 2, and messages for it.
use hm.Prelude.{ℕ, false, List, [], ◌∷◌, none}
use hm.Prelude.Int.{ℤ, pos}
use hm.Prelude.Text.{GoString, codes, itoa, atoi}
use hm.Prelude.Time.{Time}
use hm.Prelude.Float.{FloatOps}
use hm.Analyzer.CrashDelay.Exact.{exact_log2_sum}
use hm.Config.{defaults}
use hm.Models.Instance.{InstanceHeartbeat, state_running, state_crashed, state_evacuating}
use hm.Models.Desired.{DesiredAppState, app_started, package_staged}
use hm.Models.Pending.{
  PendingMessage, PendingStartMessage, PendingStopMessage, start_missing, stop_duplicate,
}
use hm.Models.App.{App}
use hm.Analyzer.AppAnalyzer.{AppAnalyzer}
use hm.Sender.{Sender, Request, Response, status}

abbrev pub app_name : GoString
app_name = codes "app"

abbrev pub version : GoString
version = codes "v1"

abbrev pub instance_at : GoString → ℤ → GoString → InstanceHeartbeat
instance_at guid index state = record {
  app_guid = app_name;
  app_version = version;
  instance_guid = guid;
  instance_index = index;
  state = state;
  state_timestamp = pos 10;
  dea_guid = codes "dea";
}

abbrev pub first_running : InstanceHeartbeat
first_running = instance_at (codes "a") (pos 0) state_running

abbrev pub second_running : InstanceHeartbeat
second_running = instance_at (codes "b") (pos 0) state_running

abbrev pub one_crashed : InstanceHeartbeat
one_crashed = instance_at (codes "c") (pos 2) state_crashed

abbrev pub one_evacuating : InstanceHeartbeat
one_evacuating = instance_at (codes "e") (pos 1) state_evacuating

abbrev pub three_wanted : DesiredAppState
three_wanted = record {
  app_guid = app_name;
  app_version = version;
  number_of_instances = pos 3;
  state = app_started;
  package_state = package_staged;
}

abbrev pub sample_app : App
sample_app = record {
  app_guid = app_name;
  app_version = version;
  desired = three_wanted;
  instance_heartbeats = first_running ∷ second_running ∷ one_crashed ∷ [];
  crash_counts = [];
  instance_heartbeats_by_index = none;
}

-- Identifiers are numbers, and float64 values are read and printed as integers.
abbrev pub numbered : ℕ → GoString
numbered n = itoa (pos n)

abbrev pub plain_floats : FloatOps
plain_floats = record {
  quotient = λ a b. pos 0;
  truncated_log2_sum = exact_log2_sum;
  format_tenths = λ x. itoa x;
  parse_float = λ s. atoi s;
  unrepresentable = pos 0;
  unrepresentable_unsigned = 0;
}

abbrev pub in_order : List ℤ → List ℤ
in_order is = is

abbrev pub noon : Time
noon = pos 43200000000000

abbrev pub sample_analyzer : AppAnalyzer
sample_analyzer = record {
  app = sample_app;
  conf = defaults;
  existing_pending_start_messages = [];
  existing_pending_stop_messages = [];
  current_time = noon;
  guid = numbered;
  floats = plain_floats;
  visit = in_order;
}

-- Due since noon minus one hour, not sent.
abbrev pub due : PendingMessage
due = record {
  message_id = codes "1";
  send_on = pos 39600;
  sent_on = pos 0;
  keep_alive = pos 30;
  app_guid = app_name;
  app_version = version;
}

abbrev pub start_1 : PendingStartMessage
start_1 = record {
  pending = due;
  index_to_start = pos 1;
  priority = pos 1;
  skip_verification = false;
  start_reason = start_missing;
}

abbrev pub stop_b : PendingStopMessage
stop_b = record { pending = due; instance_guid = codes "b"; stop_reason = stop_duplicate }

abbrev pub all_accepted : List Request → Request → Response
all_accepted earlier request = status 200

abbrev pub sample_sender : Sender
sample_sender = record {
  conf = defaults;
  apps = (codes "app,v1", sample_app) ∷ [];
  current_time = noon;
  respond = all_accepted;
}
