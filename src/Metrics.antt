-- ===== src/Metrics.antt =====
-- helpers/metricsaccountant/metrics_accountant.go: the counters of sent messages. The counters
-- themselves are dropsonde's, so adding to one is an argument.
use hm.Prelude.{ℕ, ◌+◌, List, [], ◌∷◌, none, some, ◌==◌, if◌then◌else◌}
use hm.Prelude.Text.{GoString, codes, string_eq}
use hm.Prelude.Map.{Map, lookup, insert}
use hm.Store.Interface.{Outcome}
use hm.Models.Pending.{
  PendingStartMessage, PendingStopMessage, start_crashed, start_missing, start_evacuating,
  stop_extra, stop_duplicate, stop_evacuation_complete,
}

-- startMetrics[reason]: a reason that is not in the map has the empty name.
pub start_metric : GoString → GoString
start_metric reason =
    if reason == start_crashed
    then codes "StartCrashed"
    else if reason == start_missing
    then codes "StartMissing"
    else if reason == start_evacuating
    then codes "StartEvacuating"
    else []

-- stopMetrics[reason]
pub stop_metric : GoString → GoString
stop_metric reason =
    if reason == stop_duplicate
    then codes "StopDuplicate"
    else if reason == stop_extra
    then codes "StopExtra"
    else if reason == stop_evacuation_complete
    then codes "StopEvacuationComplete"
    else []

-- m[key], which is 0 where the key is missing
unfoldable pub counted : GoString → Map GoString ℕ → ℕ
counted key m = elim (lookup key m) [ none ↦ 0 | some n ↦ n ]

pub add_one : Map GoString ℕ → GoString → Map GoString ℕ
unfolding counted
add_one m key = insert key (counted key m + 1) m

pub count_starts : List PendingStartMessage → Map GoString ℕ → Map GoString ℕ
unfolding add_one
count_starts [] m = m
count_starts (x ∷ xs) m = count_starts xs (add_one m (start_metric x.start_reason))

pub count_stops : List PendingStopMessage → Map GoString ℕ → Map GoString ℕ
unfolding add_one
count_stops [] m = m
count_stops (x ∷ xs) m = count_stops xs (add_one m (stop_metric x.stop_reason))

module _ {S : Type 0} (add_to_counter : GoString → ℕ → S → S × Outcome) where
  -- The loop over the counts, which ends at the first error.
  unfoldable pub add_counts : Map GoString ℕ → S → S × Outcome
  add_counts [] s = (s, none)
  add_counts ((key, n) ∷ m) s =
      let (t, outcome) = add_to_counter key n s in
      elim outcome [ none ↦ add_counts m t | some e ↦ (t, some e) ]

  unfoldable pub increment_sent_message_metrics :
      List PendingStartMessage → List PendingStopMessage → S → S × Outcome
  unfolding add_counts count_starts count_stops
  increment_sent_message_metrics starts stops s =
      add_counts (count_stops stops (count_starts starts [])) s
