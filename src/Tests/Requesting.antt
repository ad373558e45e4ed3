-- ===== src/Tests/Requesting.antt =====
-- An interleaving of `analyze` that sends a start that was pending.
use hm.Prelude.{subst, In, sym, ℕ, ◌≡◌, refl, inl, List, [], ◌∷◌, none, some, ok, map}
use hm.Prelude.Int.{pos}
use hm.Prelude.Map.{Map}
use hm.Models.App.{App}
use hm.Models.Pending.{PendingStartMessage, PendingStopMessage, start_store_key}
use hm.Metrics.{increment_sent_message_metrics}
use hm.Prelude.Time.{unix}
use hm.Prelude.Map.{lookup}
use hm.Models.Priority.Insertion.{by_insertion}
use hm.Config.{defaults}
use hm.Store.Interface.{StoreOps}
use hm.Sender.{Request, start_request, start_url, new_sending}
use hm.Manage.{Parts, sender_for}
use hm.Manage.Threads.{start_system, run_turns}
use hm.Manage.Threads.Requests.{IsWarranted, run_turns-IsWarranted}
use hm.Sender.Decisions.{names_of}
use hm.Tests.Interleaving.{whole_turns}
use hm.Prelude.Text.{GoString}
use hm.Tests.Data.{start_1}
use hm.Tests.Parts.{bare_store, whole_run}

-- The start of the app's first instance is pending, and due.
abbrev due_start : PendingStartMessage
due_start = record start_1 { index_to_start = pos 0 }

abbrev due_store : StoreOps ℕ
due_store = record bare_store {
  get_pending_start_messages = λ n. (n, ok ((start_store_key due_start, due_start) ∷ []));
}

abbrev sending_run : Parts ℕ
sending_run = record whole_run { store = due_store }

abbrev sent_request : Request
sent_request = start_request (start_url (sender_for sending_run []) due_start) (names_of due_start)

start_sent_once :
    (run_turns sending_run whole_turns (start_system sending_run 7)).requests ≡ sent_request ∷ []
unfolding run_turns start_system hm.Prelude.Text.str_eqb increment_sent_message_metrics
    hm.Prelude.Map.insert lookup hm.Models.App.heartbeats_by_index hm.Models.App.new_app
    hm.Models.App.is_staged hm.Models.App.has_starting_or_running_instance_at_index
    hm.Models.App.instance_heartbeats_at_index hm.Models.App.has_crashed_instance_at_index
    hm.Models.App.has_evacuating_instance_at_index hm.Models.App.evacuating_instances_at_index
    hm.Prelude.Map.has hm.Models.Pending.start_store_key hm.Prelude.Text.itoa by_insertion
    hm.Models.Priority.less hm.Models.Pending.is_time_to_send unix hm.Prelude.Int.◌+ℤ◌
    hm.Prelude.Time.seconds hm.Config.grace_period hm.Models.Pending.is_expired new_sending
    hm.Models.App.is_desired hm.Models.App.is_index_desired
    hm.Models.App.starting_or_running_instances_at_index
    hm.Models.App.extra_starting_or_running_instances hm.Models.Desired.desired_store_key
start_sent_once = refl

run_turns-IsWarranted_example : IsWarranted sending_run 7 sent_request
run_turns-IsWarranted_example =
    run_turns-IsWarranted sending_run 7 whole_turns sent_request
      (subst (In sent_request) (sym start_sent_once) (inl refl))
