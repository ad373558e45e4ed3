-- ===== src/Analyzer/AppAnalyzer/Grows.antt =====
-- What is queued stays queued, through every pass of app_analyzer.go.
use hm.Prelude.{
  ℕ, suc, ◌≡◌, ◌⊎◌, inl, inr, true, List, [], ◌∷◌, ==_iff, ==_refl, arith, for_each-keeps, if-has,
  Bool-cases,
}
use hm.Prelude.Int.{ℤ, pos}
use hm.Prelude.Text.{GoString, string_eq}
use hm.Prelude.Float.{Float64, two}
use hm.Prelude.Map.{Map, has, insert}
use hm.Config.{grace_period}
use hm.Models.Instance.{InstanceHeartbeat, CrashCount}
use hm.Models.Pending.{
  PendingStartMessage, PendingStopMessage, start_store_key, stop_store_key, stop_duplicate,
  stop_extra, stop_evacuation_complete, start_evacuating,
}
use hm.Models.App.{evacuating_instances_at_index, starting_or_running_instances_at_index}
use hm.Analyzer.AppAnalyzer.{
  AppAnalyzer, Analysis, start_already_queued, append_start_message_if_not_duplicate,
  append_stop_message_if_not_duplicate, count_crash, start_if_missing, start_if_crashed,
  stop_instance, stop_each_duplicate, stop_duplicates_at, stop_evacuating, replace_evacuating,
  evacuate_index, draw, missing_at, start_at, crashed_at,
}

has-insert_self :
    {V : Type 0} (k : GoString) (v : V) (m : Map GoString V) → has k (insert k v m) ≡ true
unfolding has insert
has-insert_self k v [] = ground (arith, ==_refl k)
has-insert_self k v ((j, w) ∷ m) = ground (arith, ==_refl k, has-insert_self k v m)

has-insert :
    {V : Type 0} (j k : GoString) (v : V) (m : Map GoString V)
    → has j m ≡ true
    → has j (insert k v m) ≡ true
unfolding has insert
has-insert j k v [] h = ground arith
has-insert j k v ((i, w) ∷ m) h =
    ground (arith, ==_iff i k, ==_iff i j, ==_iff k j, has-insert j k v m)

-- A start under the key is queued, from before or by this analysis.
unfoldable pub StartQueued : AppAnalyzer → GoString → Analysis → Type 0
StartQueued a key s =
    (has key a.existing_pending_start_messages ≡ true) ⊎ (has key s.start_messages ≡ true)

-- A stop under the key is queued.
unfoldable pub StopQueued : AppAnalyzer → GoString → Analysis → Type 0
StopQueued a key s =
    (has key a.existing_pending_stop_messages ≡ true) ⊎ (has key s.stop_messages ≡ true)

module _ (a : AppAnalyzer) where
  pub append_start-queues :
      (m : PendingStartMessage) (s : Analysis)
      → StartQueued a (start_store_key m) (append_start_message_if_not_duplicate a m s)
  unfolding append_start_message_if_not_duplicate start_already_queued StartQueued
  append_start-queues m s =
      elim (Bool-cases (has (start_store_key m) a.existing_pending_start_messages)) [
        | inl queued ↦ inl queued
        | inr fresh ↦ rw fresh (inr (has-insert_self (start_store_key m) m s.start_messages))
      ]

  pub append_stop-queues :
      (m : PendingStopMessage) (s : Analysis)
      → StopQueued a (stop_store_key m) (append_stop_message_if_not_duplicate a m s)
  unfolding append_stop_message_if_not_duplicate StopQueued
  append_stop-queues m s =
      elim (Bool-cases (has (stop_store_key m) a.existing_pending_stop_messages)) [
        | inl queued ↦ inl queued
        | inr fresh ↦ rw fresh (inr (has-insert_self (stop_store_key m) m s.stop_messages))
      ]

  module _ (key : GoString) where
    append_start-keeps :
        (m : PendingStartMessage) (s : Analysis)
        → StartQueued a key s
        → StartQueued a key (append_start_message_if_not_duplicate a m s)
    unfolding append_start_message_if_not_duplicate StartQueued
    append_start-keeps m s h = ground (arith, has-insert key (start_store_key m) m s.start_messages)

    append_stop-keeps_starts :
        (m : PendingStopMessage) (s : Analysis)
        → StartQueued a key s
        → StartQueued a key (append_stop_message_if_not_duplicate a m s)
    unfolding append_stop_message_if_not_duplicate StartQueued
    append_stop-keeps_starts m s h = ground arith

    draw-keeps : (s : Analysis) → StartQueued a key s → StartQueued a key (draw a s)
    unfolding StartQueued
    draw-keeps s h = h

    stop_instance-keeps :
        (delay : ℤ) (reason : GoString) (i : InstanceHeartbeat) (s : Analysis)
        → StartQueued a key s
        → StartQueued a key (stop_instance a delay reason i s)
    unfolding stop_instance
    stop_instance-keeps delay reason i s h = append_stop-keeps_starts _ (draw a s) (draw-keeps s h)

    pub start_if_missing-keeps :
        (priority : Float64) (index : ℤ) (s : Analysis)
        → StartQueued a key s
        → StartQueued a key (start_if_missing a priority index s)
    unfolding start_if_missing
    start_if_missing-keeps priority index s h =
        if-has (StartQueued a key) (missing_at a index)
          (λ missing. append_start-keeps _ (draw a s) (draw-keeps s h)) (λ other. h)

    pub count_crash-keeps :
        (c : CrashCount) (s : Analysis)
        → StartQueued a key s
        → StartQueued a key (count_crash a c s)
    unfolding count_crash StartQueued
    count_crash-keeps c s h = h

    pub start_if_crashed-keeps :
        (priority : Float64) (index : ℤ) (s : Analysis)
        → StartQueued a key s
        → StartQueued a key (start_if_crashed a priority index s)
    unfolding start_if_crashed
    start_if_crashed-keeps priority index s h =
        if-has (StartQueued a key) (crashed_at a index)
          (λ crashed.
            if-has (StartQueued a key) (start_already_queued a _) (λ queued. draw-keeps s h)
              (λ fresh. count_crash-keeps _ _ (append_start-keeps _ (draw a s) (draw-keeps s h))))
          (λ other. h)

    stop_evacuating-keeps :
        (reason : GoString) (index : ℤ) (s : Analysis)
        → StartQueued a key s
        → StartQueued a key (stop_evacuating a reason index s)
    unfolding stop_evacuating
    stop_evacuating-keeps reason index s h =
        for_each-keeps (stop_instance a (pos 0) reason) (StartQueued a key)
          (evacuating_instances_at_index index a.app)
          (λ i t m k. stop_instance-keeps (pos 0) reason i t k) s h

    replace_evacuating-keeps :
        (m : PendingStartMessage) (index : ℤ) (s : Analysis)
        → StartQueued a key s
        → StartQueued a key (replace_evacuating a m index s)
    unfolding replace_evacuating
    replace_evacuating-keeps m index s h =
        let stopped = stop_evacuating-keeps stop_evacuation_complete index s h in
        ground (arith, append_start-keeps m s h, append_start-keeps m _ stopped)

    pub evacuate_index-keeps :
        (index : ℤ) (s : Analysis)
        → StartQueued a key s
        → StartQueued a key (evacuate_index a index s)
    unfolding evacuate_index
    evacuate_index-keeps index s h =
        let m = start_at a s.drawn (pos 0) (grace_period a.conf) index two start_evacuating in
        let drawn = draw-keeps s h in
        let stopped = stop_evacuating-keeps stop_evacuation_complete index (draw a s) drawn in
        ground (
          arith,
          stop_evacuating-keeps stop_extra index (draw a s) drawn,
          replace_evacuating-keeps m index (draw a s) drawn,
          replace_evacuating-keeps m index _ stopped,
        )

    append_stop-keeps :
        (m : PendingStopMessage) (s : Analysis)
        → StopQueued a key s
        → StopQueued a key (append_stop_message_if_not_duplicate a m s)
    unfolding append_stop_message_if_not_duplicate StopQueued
    append_stop-keeps m s h = ground (arith, has-insert key (stop_store_key m) m s.stop_messages)

    draw-keeps_stops : (s : Analysis) → StopQueued a key s → StopQueued a key (draw a s)
    unfolding StopQueued
    draw-keeps_stops s h = h

    pub stop_instance-keeps_stops :
        (delay : ℤ) (reason : GoString) (i : InstanceHeartbeat) (s : Analysis)
        → StopQueued a key s
        → StopQueued a key (stop_instance a delay reason i s)
    unfolding stop_instance
    stop_instance-keeps_stops delay reason i s h =
        append_stop-keeps _ (draw a s) (draw-keeps_stops s h)

    pub stop_each-keeps_stops :
        (n : ℕ) (is : List InstanceHeartbeat) (s : Analysis)
        → StopQueued a key s
        → StopQueued a key (stop_each_duplicate a n is s)
    unfolding stop_each_duplicate
    stop_each-keeps_stops n [] s h = h
    stop_each-keeps_stops n (i ∷ is) s h =
        stop_each-keeps_stops (suc n) is _ (stop_instance-keeps_stops _ stop_duplicate i s h)

    pub stop_duplicates-keeps_stops :
        (index : ℤ) (s : Analysis)
        → StopQueued a key s
        → StopQueued a key (stop_duplicates_at a index s)
    unfolding stop_duplicates_at
    stop_duplicates-keeps_stops index s h =
        ground
          (arith, stop_each-keeps_stops 0 (starting_or_running_instances_at_index index a.app) s h)
