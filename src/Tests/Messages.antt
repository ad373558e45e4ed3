-- ===== src/Tests/Messages.antt =====
-- The settings, the data model and the messages on the shared inputs.
use hm.Prelude.{
  ℕ, ◌≡◌, ◌≢◌, ◌≤◌, ◌*◌, refl, ◌↔◌, Bool, true, false, List, [], ◌∷◌, Option, none, some, ok, All,
  arith, select,
}
use hm.Prelude.Int.{ℤ, pos, ◌+ℤ◌, leb_ℤ, pos_part}
use hm.Prelude.Text.{codes}
use hm.Prelude.Time.{unix}
use hm.Prelude.Text.Decimal.{atoi-itoa}
use hm.Config.{
  defaults, heartbeat_ttl, actual_freshness_ttl, grace_period, whole_seconds,
  starting_backoff_delay, maximum_backoff_delay,
}
use hm.Config.Derived.{IsRealistic, derived_in_seconds}
use hm.Models.Instance.{new_instance_heartbeat_from_csv, heartbeat_to_csv}
use hm.Models.Csv.{number-Lacks_comma, heartbeat_from-to_csv}
use hm.Models.App.{instance_heartbeats_at_index, verify_instance_heartbeats_by_index_is_ready}
use hm.Models.App.Index.{IsIndexed, at_index, memo_invisible}
use hm.Models.Pending.{new_pending_message, is_time_to_send, is_expired}
use hm.Models.Pending.Lifecycle.{lifecycle}
use hm.Models.Priority.{sort_start_messages_by_priority}
use hm.Models.Priority.Order.{sort_by_priority, IsInOrder}
use hm.Models.Priority.Insertion.{by_insertion}
use mathlib.Core.List.{Permᴰ}
use hm.Tests.Data.{sample_app, start_1, plain_floats, first_running, noon, app_name, version}

memo_invisible_example :
    let a' = verify_instance_heartbeats_by_index_is_ready sample_app in
    IsIndexed a'
    × (instance_heartbeats_at_index (pos 0) a'
        ≡ select (at_index (pos 0)) sample_app.instance_heartbeats)
    × (instance_heartbeats_at_index (pos 0) sample_app
        ≡ select (at_index (pos 0)) sample_app.instance_heartbeats)
memo_invisible_example = memo_invisible (pos 0) sample_app tt

sort_by_priority_example :
    let sorted = sort_start_messages_by_priority by_insertion (start_1 ∷ start_1 ∷ []) in
    Permᴰ sorted (start_1 ∷ start_1 ∷ []) × IsInOrder sorted
sort_by_priority_example =
    sort_by_priority by_insertion (start_1 ∷ start_1 ∷ [])
      ((omega arith, omega arith), ((omega arith, omega arith), tt))

heartbeat_from-to_csv_example :
    new_instance_heartbeat_from_csv plain_floats app_name version
      (codes "a")
      (heartbeat_to_csv plain_floats first_running)
    ≡ ok first_running
heartbeat_from-to_csv_example =
    heartbeat_from-to_csv plain_floats first_running (omega arith, omega arith) (ground arith)
      (ground arith) (number-Lacks_comma (pos 10)) (atoi-itoa (pos 10) (omega arith, omega arith))

lifecycle_example :
    let m = new_pending_message (codes "1") noon (pos 30) (pos 10) app_name version in
    let m' = record m { sent_on = unix noon } in
    (is_time_to_send m noon ≡ leb_ℤ (unix noon +ℤ pos 30) (unix noon))
    × (is_expired m noon ≡ false)
    × (is_time_to_send m' noon ≡ false)
    × (is_expired m' noon ≡ leb_ℤ (unix noon +ℤ pos 10) (unix noon))
unfolding hm.Prelude.Time.unix hm.Prelude.Int.floor_div ◌+ℤ◌
lifecycle_example =
    lifecycle (codes "1") noon noon noon (pos 30) (pos 10) app_name version
      (omega arith, omega arith) (ground arith) (ground arith)

realistic : IsRealistic defaults
realistic = record {
  period = omega arith;
  ttl = omega arith;
  freshness = omega arith;
  grace = omega arith;
}

derived_in_seconds_example :
    (heartbeat_ttl defaults ≡ 30)
    × (actual_freshness_ttl defaults ≡ 30)
    × (grace_period defaults ≡ pos 30)
    × (whole_seconds (starting_backoff_delay defaults) ≡ pos 30)
    × (whole_seconds (maximum_backoff_delay defaults) ≡ pos 960)
derived_in_seconds_example =
    derived_in_seconds defaults 3 96 realistic refl refl (omega arith) (omega arith)
