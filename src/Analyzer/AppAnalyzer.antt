-- ===== src/Analyzer/AppAnalyzer.antt =====
-- analyzer/app_analyzer.go: which starts and stops one app needs. The struct `appAnalyzer` is split
-- into what stays fixed (`AppAnalyzer`) and what the methods add to (`Analysis`); logging is left out.
pub mod Sound
pub mod Justified
pub mod Grows
pub mod Complete
use hm.Prelude.{
  ℕ, suc, Bool, true, false, not, ◌&&◌, ◌||◌, List, [], ◌∷◌, ◌++◌, ◌==◌, if◌then◌else◌, length, ltb,
  for_each,
}
use hm.Prelude.Int.{ℤ, pos, int_eq, ◌-ℤ◌, ◌+ℤ◌, ◌*ℤ◌, ltb_ℤ, wrap}
use hm.Prelude.Text.{GoString, string_eq}
use hm.Prelude.Time.{Time}
use hm.Prelude.Float.{Float64, FloatOps, two}
use hm.Prelude.Map.{Map, insert, has, keys}
use hm.Config.{Config, grace_period, starting_backoff_delay, maximum_backoff_delay, whole_seconds}
use hm.Models.Instance.{InstanceHeartbeat, CrashCount}
use hm.Models.Pending.{
  PendingStartMessage, PendingStopMessage, new_pending_start_message, new_pending_stop_message,
  start_store_key, stop_store_key, start_crashed, start_missing, start_evacuating, stop_extra,
  stop_duplicate, stop_evacuation_complete,
}
use hm.Models.App.{
  App, heartbeats_by_index, is_staged, is_index_desired, number_of_desired_instances,
  desired_indices, number_of_desired_indices_with_a_starting_or_running_instance,
  extra_starting_or_running_instances, has_starting_or_running_instances,
  has_starting_or_running_instance_at_index, is_nonempty, has_running_instance_at_index,
  has_starting_instance_at_index, has_crashed_instance_at_index, has_evacuating_instance_at_index,
  starting_or_running_instances_at_index, evacuating_instances_at_index, crash_count_at_index,
}
use hm.Analyzer.CrashDelay.{compute_crash_delay}

pub record AppAnalyzer : Type 0 where
  pub app : App
  pub conf : Config
  pub existing_pending_start_messages : Map GoString PendingStartMessage
  pub existing_pending_stop_messages : Map GoString PendingStopMessage
  pub current_time : Time
  -- The identifiers that gouuid hands out, in the order of the calls.
  pub guid : ℕ → GoString
  pub floats : FloatOps
  -- The order in which Go's runtime visits the keys of a map.
  pub visit : List ℤ → List ℤ

pub record Analysis : Type 0 where
  pub start_messages : Map GoString PendingStartMessage
  pub stop_messages : Map GoString PendingStopMessage
  pub crash_counts : List CrashCount
  -- How many identifiers have been drawn.
  pub drawn : ℕ

-- newAppAnalyzer's empty maps; the count of identifiers goes on from the last app's.
unfoldable pub nothing_yet : ℕ → Analysis
nothing_yet drawn = record {
  start_messages = [];
  stop_messages = [];
  crash_counts = [];
  drawn = drawn;
}

module _ (a : AppAnalyzer) where
  -- With no desired instances this is a division by zero, and no message carries the result.
  unfoldable pub compute_pending_start_message_priority : Float64
  compute_pending_start_message_priority =
      let desired = number_of_desired_instances a.app in
      a.floats.quotient
        (wrap
          (desired -ℤ pos (number_of_desired_indices_with_a_starting_or_running_instance a.app)))
        desired

  unfoldable pub compute_delay_for_crash_count : CrashCount → ℤ
  compute_delay_for_crash_count crash_count =
      compute_crash_delay a.floats crash_count.crash_count
        a.conf.number_of_crashes_before_backoff_begins
        (whole_seconds (starting_backoff_delay a.conf))
        (whole_seconds (maximum_backoff_delay a.conf))

  unfoldable pub start_at : ℕ → ℤ → ℤ → ℤ → Float64 → GoString → PendingStartMessage
  unfolding new_pending_start_message
  start_at drawn delay keep index priority reason =
      new_pending_start_message (a.guid drawn) a.current_time delay keep a.app.app_guid
        a.app.app_version index priority reason

  unfoldable pub stop_at : ℕ → ℤ → GoString → GoString → PendingStopMessage
  unfolding new_pending_stop_message
  stop_at drawn delay instance_guid reason =
      new_pending_stop_message (a.guid drawn) a.current_time delay (grace_period a.conf)
        a.app.app_guid a.app.app_version instance_guid reason

  unfoldable pub start_already_queued : PendingStartMessage → Bool
  start_already_queued message = has (start_store_key message) a.existing_pending_start_messages

  unfoldable pub append_start_message_if_not_duplicate : PendingStartMessage → Analysis → Analysis
  unfolding start_already_queued
  append_start_message_if_not_duplicate message s =
      if start_already_queued message
      then s
      else record s { start_messages = insert (start_store_key message) message s.start_messages }

  unfoldable pub append_stop_message_if_not_duplicate : PendingStopMessage → Analysis → Analysis
  append_stop_message_if_not_duplicate message s =
      if has (stop_store_key message) a.existing_pending_stop_messages
      then s
      else record s { stop_messages = insert (stop_store_key message) message s.stop_messages }

  -- Guid()
  abbrev pub draw : Analysis → Analysis
  draw s = record s { drawn = suc s.drawn }

  unfoldable pub missing_at : ℤ → Bool
  missing_at index =
      not (has_starting_or_running_instance_at_index index a.app)
      && not (has_crashed_instance_at_index index a.app)
      && not (has_evacuating_instance_at_index index a.app)

  unfoldable pub start_if_missing : Float64 → ℤ → Analysis → Analysis
  unfolding missing_at start_at append_start_message_if_not_duplicate
  start_if_missing priority index s =
      if missing_at index
      then append_start_message_if_not_duplicate
          (start_at s.drawn (grace_period a.conf) (pos 0) index priority start_missing) (draw s)
      else s

  unfoldable pub generate_pending_starts_for_missing_instances : Float64 → Analysis → Analysis
  unfolding start_if_missing
  generate_pending_starts_for_missing_instances priority s =
      if is_staged a.app then for_each (start_if_missing priority) (desired_indices a.app) s else s

  -- The other indices wait until some instance of the app is up.
  unfoldable pub crashed_at : ℤ → Bool
  crashed_at index =
      not (has_starting_or_running_instance_at_index index a.app)
      && has_crashed_instance_at_index index a.app
      && not (not (index == pos 0) && not (has_starting_or_running_instances a.app))

  -- crashCount.CrashCount += 1; append
  unfoldable pub count_crash : CrashCount → Analysis → Analysis
  count_crash c s = record s {
    crash_counts =
        s.crash_counts ++ (record c { crash_count = wrap (c.crash_count +ℤ pos 1) } ∷ []);
  }

  unfoldable pub start_if_crashed : Float64 → ℤ → Analysis → Analysis
  unfolding crashed_at start_at append_start_message_if_not_duplicate start_already_queued
      count_crash
  start_if_crashed priority index s =
      let crash_count = crash_count_at_index index a.current_time a.app in
      let delay = compute_delay_for_crash_count crash_count in
      let message = start_at s.drawn delay (grace_period a.conf) index priority start_crashed in
      if crashed_at index
      then (if start_already_queued message
          then draw s
          else count_crash crash_count (append_start_message_if_not_duplicate message (draw s)))
      else s

  unfoldable pub generate_pending_starts_for_crashed_instances : Float64 → Analysis → Analysis
  unfolding start_if_crashed
  generate_pending_starts_for_crashed_instances priority s =
      if is_staged a.app then for_each (start_if_crashed priority) (desired_indices a.app) s else s

  -- A stop for one instance, after `delay` seconds.
  unfoldable pub stop_instance : ℤ → GoString → InstanceHeartbeat → Analysis → Analysis
  unfolding stop_at append_stop_message_if_not_duplicate
  stop_instance delay reason instance s =
      append_stop_message_if_not_duplicate (stop_at s.drawn delay instance.instance_guid reason)
        (draw s)

  unfoldable pub generate_pending_stops_for_extra_instances : Analysis → Analysis
  unfolding stop_instance
  generate_pending_stops_for_extra_instances s =
      for_each (stop_instance (pos 0) stop_extra) (extra_starting_or_running_instances a.app) s

  -- The stops of all the duplicates, the `i`th after i + 4 grace periods.
  pub stop_each_duplicate : ℕ → List InstanceHeartbeat → Analysis → Analysis
  unfolding stop_instance
  stop_each_duplicate i [] s = s
  stop_each_duplicate i (instance ∷ rest) s =
      let grace = grace_period a.conf in
      let delay = wrap (wrap (pos i *ℤ grace) +ℤ wrap (pos 4 *ℤ grace)) in
      stop_each_duplicate (suc i) rest (stop_instance delay stop_duplicate instance s)

  unfoldable pub stop_duplicates_at : ℤ → Analysis → Analysis
  unfolding stop_each_duplicate
  stop_duplicates_at index s =
      let instances = starting_or_running_instances_at_index index a.app in
      if ltb 1 (length instances) then stop_each_duplicate 0 instances s else s

  unfoldable pub generate_pending_stops_for_duplicate_instances : Analysis → Analysis
  unfolding stop_duplicates_at
  generate_pending_stops_for_duplicate_instances s =
      for_each stop_duplicates_at (desired_indices a.app) s

  -- addStopMessages
  unfoldable pub stop_evacuating : GoString → ℤ → Analysis → Analysis
  unfolding stop_instance
  stop_evacuating reason index s =
      for_each (stop_instance (pos 0) reason) (evacuating_instances_at_index index a.app) s

  -- The body from `if HasRunningInstanceAtIndex` on; `message` is made before the stops.
  unfoldable pub replace_evacuating : PendingStartMessage → ℤ → Analysis → Analysis
  unfolding stop_evacuating append_start_message_if_not_duplicate
  replace_evacuating message index s =
      if has_running_instance_at_index index a.app
      then stop_evacuating stop_evacuation_complete index s
      else if has_starting_instance_at_index index a.app
      then s
      else append_start_message_if_not_duplicate message (
          if ltb_ℤ (pos 0) (crash_count_at_index index a.current_time a.app).crash_count
          then stop_evacuating stop_evacuation_complete index s
          else s)

  unfoldable pub evacuate_index : ℤ → Analysis → Analysis
  unfolding start_at stop_evacuating replace_evacuating
  evacuate_index index s =
      let message = start_at s.drawn (pos 0) (grace_period a.conf) index two start_evacuating in
      if is_nonempty (evacuating_instances_at_index index a.app)
      then (if is_index_desired index a.app
          then replace_evacuating message index (
              if is_staged a.app
              then draw s
              else stop_evacuating stop_evacuation_complete index (draw s))
          else stop_evacuating stop_extra index (draw s))
      else s

  unfoldable pub generate_pending_starts_and_stops_for_evacuating_instances : Analysis → Analysis
  unfolding evacuate_index
  generate_pending_starts_and_stops_for_evacuating_instances s =
      for_each evacuate_index (a.visit (keys (heartbeats_by_index a.app))) s

  -- The three passes that may queue starts.
  unfoldable pub queue_starts : Analysis → Analysis
  unfolding generate_pending_starts_for_missing_instances
      generate_pending_starts_for_crashed_instances
      generate_pending_starts_and_stops_for_evacuating_instances
  queue_starts s =
      let priority = compute_pending_start_message_priority in
      generate_pending_starts_and_stops_for_evacuating_instances (
        generate_pending_starts_for_crashed_instances priority
          (generate_pending_starts_for_missing_instances priority s))

  unfoldable pub analyze_app : Analysis → Analysis
  unfolding queue_starts generate_pending_stops_for_extra_instances
      generate_pending_stops_for_duplicate_instances
  analyze_app s =
      let queued = queue_starts s in
      if is_nonempty queued.start_messages
      then queued
      else generate_pending_stops_for_duplicate_instances
          (generate_pending_stops_for_extra_instances queued)
