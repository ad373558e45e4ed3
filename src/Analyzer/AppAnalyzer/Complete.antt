-- ===== src/Analyzer/AppAnalyzer/Complete.antt =====
-- analyzeApp misses nothing: each gap gets a start, and an app that is not desired is stopped.
use hm.Prelude.{
  ℕ, ◌≡◌, refl, ◌⊎◌, inl, inr, true, false, List, [], ◌∷◌, ◌++◌, arith, In, any, for_each,
  for_each-keeps, for_each-reaches, if-has, Bool-cases,
}
use hm.Prelude.Int.{ℤ, pos, int_eq}
use hm.Prelude.Text.{GoString, itoa, string_eq}
use hm.Prelude.Float.{Float64, two}
use hm.Prelude.Map.{Map, keys, has}
use hm.Config.{grace_period}
use hm.Models.Instance.{InstanceHeartbeat, is_running, is_starting, is_starting_or_running}
use hm.Models.Pending.{
  PendingStartMessage, start_store_key, new_pending_start_message, new_pending_message,
  start_missing, start_crashed, start_evacuating,
}
use hm.Models.App.{
  App, is_staged, is_index_desired, desired_indices, has_starting_or_running_instance_at_index,
  has_evacuating_instance_at_index, has_running_instance_at_index, has_starting_instance_at_index,
  instance_heartbeats_at_index, is_nonempty, heartbeats_by_index,
}
use hm.Models.App.Counts.{In-desired_indices}
use hm.Analyzer.AppAnalyzer.{
  AppAnalyzer, Analysis, nothing_yet, start_at, draw, missing_at, crashed_at, start_if_missing,
  start_if_crashed, start_already_queued, append_start_message_if_not_duplicate, replace_evacuating,
  evacuate_index, queue_starts, analyze_app, generate_pending_starts_for_missing_instances,
  generate_pending_starts_for_crashed_instances, compute_pending_start_message_priority,
  generate_pending_starts_and_stops_for_evacuating_instances,
}
use hm.Analyzer.AppAnalyzer.Grows.{
  count_crash-keeps, StartQueued, append_start-queues, start_if_missing-keeps,
  start_if_crashed-keeps, evacuate_index-keeps,
}

-- The key under which a start for the index is queued.
pub slot : App → ℤ → GoString
slot app index = app.app_guid ++ (b'-' ∷ (app.app_version ++ (b'-' ∷ itoa index)))

module _ (a : AppAnalyzer) (index : ℤ) where
  -- Each start that is made for the index has its slot as key.
  abbrev Starts : Analysis → Type 0
  Starts s = StartQueued a (slot a.app index) s

  append-Starts :
      (m : PendingStartMessage) (s : Analysis)
      → start_store_key m ≡ slot a.app index
      → Starts (append_start_message_if_not_duplicate a m s)
  append-Starts m s e = rw (← e) (append_start-queues a m s)

  queued-Starts :
      (m : PendingStartMessage) (s : Analysis)
      → start_store_key m ≡ slot a.app index
      → start_already_queued a m ≡ true
      → Starts s
  unfolding StartQueued start_already_queued
  queued-Starts m s e q = inl (rw (← e) q)

  start_at-slot :
      (drawn : ℕ) (delay keep : ℤ) (priority : Float64) (reason : GoString)
      → start_store_key (start_at a drawn delay keep index priority reason) ≡ slot a.app index
  unfolding start_store_key start_at new_pending_start_message new_pending_message slot
  start_at-slot drawn delay keep priority reason = refl

  missing-Starts :
      (s : Analysis)
      → missing_at a index ≡ true
      → Starts (start_if_missing a (compute_pending_start_message_priority a) index s)
  unfolding start_if_missing
  missing-Starts s missing = rw missing (
      append-Starts _ (draw a s)
        (start_at-slot s.drawn (grace_period a.conf) (pos 0) _ start_missing))

  crashed-Starts :
      (s : Analysis)
      → crashed_at a index ≡ true
      → Starts (start_if_crashed a (compute_pending_start_message_priority a) index s)
  unfolding start_if_crashed
  crashed-Starts s crashed =
      let same = start_at-slot s.drawn _ (grace_period a.conf) _ start_crashed in
      rw crashed (
        if-has Starts (start_already_queued a _) (queued-Starts _ (draw a s) same)
          (λ fresh. count_crash-keeps a (slot a.app index) _ _ (append-Starts _ (draw a s) same)))

  halves :
      has_starting_or_running_instance_at_index index a.app ≡ false
      → (has_running_instance_at_index index a.app ≡ false)
        × (has_starting_instance_at_index index a.app ≡ false)
  unfolding has_running_instance_at_index has_starting_instance_at_index
      has_starting_or_running_instance_at_index is_starting_or_running
  halves none = go (instance_heartbeats_at_index index a.app) none
    where
      go :
          (hs : List InstanceHeartbeat)
          → any is_starting_or_running hs ≡ false
          → (any is_running hs ≡ false) × (any is_starting hs ≡ false)
      go [] e = (e, e)
      go (h ∷ hs) e = ground (arith, go hs)

  evacuating-Starts :
      (s : Analysis)
      → has_evacuating_instance_at_index index a.app ≡ true
      → is_index_desired index a.app ≡ true
      → has_starting_or_running_instance_at_index index a.app ≡ false
      → Starts (evacuate_index a index s)
  unfolding evacuate_index replace_evacuating has_evacuating_instance_at_index
  evacuating-Starts s evacuating desired none =
      let (not_running, not_starting) = halves none in
      rw (evacuating, desired, not_running, not_starting)
        (append-Starts _ _
          (start_at-slot s.drawn (pos 0) (grace_period a.conf) two start_evacuating))

  has-nonempty :
      (key : GoString) (m : Map GoString PendingStartMessage)
      → is_nonempty m ≡ false
      → has key m ≡ true
      → ⊥
  unfolding has
  has-nonempty key [] e h = ground arith
  has-nonempty key (x ∷ m) e h = ground arith

  no-Starts :
      (t : Analysis)
      → is_nonempty t.start_messages ≡ false
      → Starts t
      → has (slot a.app index) a.existing_pending_start_messages ≡ true
  unfolding StartQueued
  no-Starts t e (inl h) = h
  no-Starts t e (inr h) = absurd (has-nonempty (slot a.app index) t.start_messages e h)

  Starts-before :
      (t : Analysis) → has (slot a.app index) a.existing_pending_start_messages ≡ true → Starts t
  unfolding StartQueued
  Starts-before t h = inl h

  -- Queuing one start ends the analysis.
  analyze-Starts : (s : Analysis) → Starts (queue_starts a s) → Starts (analyze_app a s)
  unfolding analyze_app
  analyze-Starts s h = elim (Bool-cases (is_nonempty (queue_starts a s).start_messages)) [
    | inl more ↦ rw more h
    | inr none ↦ Starts-before _ (no-Starts (queue_starts a s) none h)
  ]

  -- The pass over the desired indices reaches this one.
  desired-Starts :
      (f : ℤ → Analysis → Analysis) (s : Analysis)
      → In index (desired_indices a.app)
      → ((t : Analysis) → Starts (f index t))
      → ((i : ℤ) (t : Analysis) → Starts t → Starts (f i t))
      → Starts (for_each f (desired_indices a.app) s)
  desired-Starts f s member hit keep =
      for_each-reaches f Starts index (desired_indices a.app) member hit keep s

  -- Later passes keep it.
  evacuation-keeps :
      (s : Analysis)
      → Starts s
      → Starts (generate_pending_starts_and_stops_for_evacuating_instances a s)
  unfolding generate_pending_starts_and_stops_for_evacuating_instances
  evacuation-keeps s h =
      for_each-keeps (evacuate_index a) Starts (a.visit (keys (heartbeats_by_index a.app)))
        (λ i t m k. evacuate_index-keeps a (slot a.app index) i t k) s h

  crashed-keeps :
      (s : Analysis)
      → Starts s
      → Starts (
          generate_pending_starts_for_crashed_instances a
            (compute_pending_start_message_priority a)
            s)
  unfolding generate_pending_starts_for_crashed_instances
  crashed-keeps s h =
      if-has Starts (is_staged a.app)
        (λ staged.
          for_each-keeps (start_if_crashed a (compute_pending_start_message_priority a)) Starts
            (desired_indices a.app) (λ i t m k. start_if_crashed-keeps a (slot a.app index) _ i t k)
            s h)
        (λ other. h)

  module _ (staged : is_staged a.app ≡ true) (member : In index (desired_indices a.app)) where
    missing-pass :
        (s : Analysis)
        → missing_at a index ≡ true
        → Starts (
            generate_pending_starts_for_missing_instances a
              (compute_pending_start_message_priority a)
              s)
    unfolding generate_pending_starts_for_missing_instances
    missing-pass s missing = rw staged (
        desired-Starts (start_if_missing a (compute_pending_start_message_priority a)) s member
          (λ t. missing-Starts t missing)
          (λ i t k. start_if_missing-keeps a (slot a.app index) _ i t k))

    crashed-pass :
        (s : Analysis)
        → crashed_at a index ≡ true
        → Starts (
            generate_pending_starts_for_crashed_instances a
              (compute_pending_start_message_priority a)
              s)
    unfolding generate_pending_starts_for_crashed_instances
    crashed-pass s crashed = rw staged (
        desired-Starts (start_if_crashed a (compute_pending_start_message_priority a)) s member
          (λ t. crashed-Starts t crashed)
          (λ i t k. start_if_crashed-keeps a (slot a.app index) _ i t k))

-- For a staged app, after the analysis a start is queued, from before or by it, for every desired index
-- where nothing starts or runs: where no instance crashed and none is being evacuated; where one
-- crashed, at index 0 or with some instance of the app up; and where one is being evacuated, when the
-- loop over the map visits the index.
pub every_gap_is_queued :
    (a : AppAnalyzer) (k : ℕ) (drawn : ℕ)
    → is_staged a.app ≡ true
    → is_index_desired (pos k) a.app ≡ true
    → has_starting_or_running_instance_at_index (pos k) a.app ≡ false
    → (missing_at a (pos k) ≡ true)
      ⊎ (crashed_at a (pos k) ≡ true)
      ⊎ ((has_evacuating_instance_at_index (pos k) a.app ≡ true)
          × In (pos k) (a.visit (keys (heartbeats_by_index a.app))))
    → StartQueued a (slot a.app (pos k)) (analyze_app a (nothing_yet drawn))
unfolding queue_starts generate_pending_starts_and_stops_for_evacuating_instances
every_gap_is_queued a k drawn staged desired none why =
    let member = In-desired_indices a.app k desired in
    analyze-Starts a (pos k) (nothing_yet drawn) (elim why [
      | inl missing ↦
          evacuation-keeps a (pos k) _
            (crashed-keeps a (pos k) _ (missing-pass a (pos k) staged member _ missing))
      | inr (inl crashed) ↦
          evacuation-keeps a (pos k) _ (crashed-pass a (pos k) staged member _ crashed)
      | inr (inr (evacuating, visited)) ↦
          for_each-reaches (evacuate_index a) (StartQueued a (slot a.app (pos k))) (pos k)
            (a.visit (keys (heartbeats_by_index a.app))) visited
            (λ t. evacuating-Starts a (pos k) t evacuating desired none)
            (λ i t h. evacuate_index-keeps a (slot a.app (pos k)) i t h) _
    ])
