-- ===== src/Analyzer/AppAnalyzer/Sound.antt =====
-- Why app_analyzer.go queues what it queues.
use hm.Prelude.{
  ℕ, ◌<◌, ◌≡◌, refl, ◌⊎◌, inl, inr, true, false, arith, length, In, All-In, for_each,
  for_each-keeps, Bool-cases, if-has,
}
use hm.Prelude.Int.{ℤ, int_eq}
use hm.Prelude.Text.{GoString, string_eq}
use hm.Prelude.Float.{Float64}
use hm.Prelude.Map.{has, AllValues, AllValues-insert}
use hm.Models.Instance.{InstanceHeartbeat, is_starting_or_running, is_evacuating}
use hm.Models.Pending.{
  PendingStartMessage, PendingStopMessage, new_pending_start_message, new_pending_stop_message,
  new_pending_message, stop_store_key, start_missing, start_crashed,
}
use hm.Models.App.{
  App, is_index_desired, has_starting_or_running_instance_at_index, desired_indices,
  starting_or_running_instances_at_index,
}
use hm.Models.App.Counts.{desired_indices-All}
use hm.Analyzer.AppAnalyzer.{
  AppAnalyzer, Analysis, start_at, stop_at, start_already_queued,
  append_start_message_if_not_duplicate, append_stop_message_if_not_duplicate, draw, missing_at,
  start_if_missing, crashed_at, count_crash, start_if_crashed, stop_instance,
}

-- The start is for this app, at a desired index where nothing starts or runs, and not yet queued.
abbrev pub IsJustifiedStart : AppAnalyzer → PendingStartMessage → Type 0
IsJustifiedStart a m =
    (m.app_guid ≡ a.app.app_guid)
    × (m.app_version ≡ a.app.app_version)
    × (is_index_desired m.index_to_start a.app ≡ true)
    × (has_starting_or_running_instance_at_index m.index_to_start a.app ≡ false)
    × (start_already_queued a m ≡ false)
    × (m.skip_verification ≡ false)

-- The instance may be stopped: its index is not desired, it is being evacuated, or it starts or runs
-- at an index where several do.
abbrev pub MayStop : App → InstanceHeartbeat → Type 0
MayStop app i =
    (is_index_desired i.instance_index app ≡ false)
    ⊎ (is_evacuating i ≡ true)
    ⊎ ((is_starting_or_running i ≡ true)
        × (1 < length (starting_or_running_instances_at_index i.instance_index app)))

-- The stop is for an instance of this app that may be stopped, and not yet queued.
abbrev pub IsJustifiedStop : AppAnalyzer → PendingStopMessage → Type 0
IsJustifiedStop a m =
    (m.app_guid ≡ a.app.app_guid)
    × (m.app_version ≡ a.app.app_version)
    × (has (stop_store_key m) a.existing_pending_stop_messages ≡ false)
    × ((i : InstanceHeartbeat) × In i a.app.instance_heartbeats
        × (i.instance_guid ≡ m.instance_guid)
        × MayStop a.app i)

abbrev pub IsSound : AppAnalyzer → Analysis → Type 0
IsSound a s =
    AllValues (IsJustifiedStart a) s.start_messages × AllValues (IsJustifiedStop a) s.stop_messages

module _ (a : AppAnalyzer) where
  pub append_start-IsSound :
      (m : PendingStartMessage) (s : Analysis)
      → (start_already_queued a m ≡ false → IsJustifiedStart a m)
      → IsSound a s
      → IsSound a (append_start_message_if_not_duplicate a m s)
  unfolding append_start_message_if_not_duplicate
  append_start-IsSound m s j h = elim (Bool-cases (start_already_queued a m)) [
    | inl queued ↦ rw queued h
    | inr fresh ↦
        rw fresh (AllValues-insert (IsJustifiedStart a) _ m s.start_messages (j fresh) h.0, h.1)
  ]

  append_stop-IsSound :
      (m : PendingStopMessage) (s : Analysis)
      → (has (stop_store_key m) a.existing_pending_stop_messages ≡ false → IsJustifiedStop a m)
      → IsSound a s
      → IsSound a (append_stop_message_if_not_duplicate a m s)
  unfolding append_stop_message_if_not_duplicate
  append_stop-IsSound m s j h =
      elim (Bool-cases (has (stop_store_key m) a.existing_pending_stop_messages)) [
        | inl queued ↦ rw queued h
        | inr fresh ↦
            rw fresh (h.0, AllValues-insert (IsJustifiedStop a) _ m s.stop_messages (j fresh) h.1)
      ]

  pub start_at-justified :
      (drawn : ℕ) (delay keep index : ℤ) (priority : Float64) (reason : GoString)
      → is_index_desired index a.app ≡ true
      → has_starting_or_running_instance_at_index index a.app ≡ false
      → let m = start_at a drawn delay keep index priority reason in
        start_already_queued a m ≡ false → IsJustifiedStart a m
  unfolding start_at new_pending_start_message new_pending_message
  start_at-justified drawn delay keep index priority reason d n q = (refl, refl, d, n, q, refl)

  pub stop_instance-IsSound :
      (delay : ℤ) (reason : GoString) (i : InstanceHeartbeat) (s : Analysis)
      → In i a.app.instance_heartbeats
      → MayStop a.app i
      → IsSound a s
      → IsSound a (stop_instance a delay reason i s)
  unfolding stop_instance stop_at new_pending_stop_message new_pending_message
  stop_instance-IsSound delay reason i s m why h =
      append_stop-IsSound _ (draw a s) (λ q. (refl, refl, q, (i, m, refl, why))) h

  missing_at-none :
      (index : ℤ)
      → missing_at a index ≡ true
      → has_starting_or_running_instance_at_index index a.app ≡ false
  unfolding missing_at
  missing_at-none index h = ground arith

  crashed_at-none :
      (index : ℤ)
      → crashed_at a index ≡ true
      → has_starting_or_running_instance_at_index index a.app ≡ false
  unfolding crashed_at
  crashed_at-none index h = ground arith

  pub start_if_missing-IsSound :
      (priority : Float64) (index : ℤ) (s : Analysis)
      → is_index_desired index a.app ≡ true
      → IsSound a s
      → IsSound a (start_if_missing a priority index s)
  unfolding start_if_missing
  start_if_missing-IsSound priority index s d h = elim (Bool-cases (missing_at a index)) [
    | inl missing ↦ rw missing (
        append_start-IsSound _ (draw a s)
          (start_at-justified s.drawn _ _ index priority start_missing d
            (missing_at-none index missing))
          h)
    | inr other ↦ rw other h
  ]

  pub start_if_crashed-IsSound :
      (priority : Float64) (index : ℤ) (s : Analysis)
      → is_index_desired index a.app ≡ true
      → IsSound a s
      → IsSound a (start_if_crashed a priority index s)
  unfolding start_if_crashed count_crash
  start_if_crashed-IsSound priority index s d h =
      if-has (IsSound a) (crashed_at a index)
        (λ crashed.
          if-has (IsSound a) (start_already_queued a _) (λ queued. h)
            (λ fresh.
              append_start-IsSound _ (draw a s)
                (start_at-justified s.drawn _ _ index priority start_crashed d
                  (crashed_at-none index crashed))
                h))
        (λ other. h)

  -- A pass over the desired indices, whose steps are sound.
  pub desired_pass-IsSound :
      (f : ℤ → Analysis → Analysis)
      → ((index : ℤ) (s : Analysis)
          → is_index_desired index a.app ≡ true
          → IsSound a s
          → IsSound a (f index s))
      → (s : Analysis) → IsSound a s
      → IsSound a (for_each f (desired_indices a.app) s)
  desired_pass-IsSound f step s h =
      for_each-keeps f (IsSound a) (desired_indices a.app)
        (λ index t m k.
          step index t (All-In _ (desired_indices a.app) index (desired_indices-All a.app) m).1 k)
        s h
