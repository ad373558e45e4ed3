-- ===== src/Analyzer/AppAnalyzer/Justified.antt =====
-- Everything that analyzeApp queues is justified.
use mathlib.Core.Path.{subst}
use hm.Prelude.{
  ℕ, suc, ◌≡◌, refl, inl, inr, true, false, List, [], ◌∷◌, if◌then◌else◌, arith, ltb, length, In,
  In-select-passes, for_each, for_each-keeps, Bool-cases, if-has,
}
use hm.Prelude.Int.{ℤ, pos, int_eq, eqb_ℤ_iff}
use hm.Prelude.Text.{GoString, string_eq}
use hm.Prelude.Float.{two}
use hm.Prelude.Map.{keys}
use hm.Config.{grace_period}
use hm.Models.Instance.{InstanceHeartbeat, is_starting_or_running, is_evacuating}
use hm.Models.Pending.{
  PendingStartMessage, stop_extra, stop_duplicate, stop_evacuation_complete, start_evacuating,
}
use hm.Models.App.{
  App, is_index_desired, has_starting_or_running_instance_at_index, is_nonempty, desired_indices,
  starting_or_running_instances_at_index, evacuating_instances_at_index,
  extra_starting_or_running_instances, heartbeats_by_index, is_staged,
}
use hm.Models.App.Index.{IsIndexed, at_index, instance_heartbeats_at_index-eq}
use hm.Models.App.Counts.{has_halves}
use hm.Analyzer.AppAnalyzer.{
  AppAnalyzer, Analysis, nothing_yet, start_at, start_already_queued, draw, start_if_missing,
  generate_pending_starts_for_missing_instances, start_if_crashed,
  generate_pending_starts_for_crashed_instances, stop_instance,
  generate_pending_stops_for_extra_instances, stop_each_duplicate, stop_duplicates_at,
  generate_pending_stops_for_duplicate_instances, stop_evacuating, replace_evacuating,
  evacuate_index, generate_pending_starts_and_stops_for_evacuating_instances, queue_starts,
  analyze_app, compute_pending_start_message_priority,
}
use hm.Analyzer.AppAnalyzer.Sound.{
  IsJustifiedStart, MayStop, IsSound, append_start-IsSound, start_at-justified,
  stop_instance-IsSound, start_if_missing-IsSound, start_if_crashed-IsSound, desired_pass-IsSound,
}

In-evacuating :
    (index : ℤ) (app : App) (i : InstanceHeartbeat)
    → In i (evacuating_instances_at_index index app)
    → In i app.instance_heartbeats × (is_evacuating i ≡ true)
unfolding evacuating_instances_at_index
In-evacuating index app i m =
    let (member, test) = In-select-passes _ app.instance_heartbeats i m in (member, ground arith)

In-extra :
    (app : App) (i : InstanceHeartbeat)
    → In i (extra_starting_or_running_instances app)
    → In i app.instance_heartbeats × (is_index_desired i.instance_index app ≡ false)
unfolding extra_starting_or_running_instances
In-extra app i m =
    let (member, test) = In-select-passes _ app.instance_heartbeats i m in (member, ground arith)

-- An instance found at an index stands in the app, and has that index.
In-up_at_index :
    (index : ℤ) (app : App) (i : InstanceHeartbeat)
    → IsIndexed app
    → In i (starting_or_running_instances_at_index index app)
    → In i app.instance_heartbeats × (is_starting_or_running i ≡ true) × (i.instance_index ≡ index)
unfolding starting_or_running_instances_at_index
In-up_at_index index app i ready m =
    let (found, up) = In-select-passes is_starting_or_running _ i m in
    let (member, at) =
      In-select-passes (at_index index) app.instance_heartbeats i
        (subst (In i) (instance_heartbeats_at_index-eq index app ready) found) in
    (member, up, (eqb_ℤ_iff i.instance_index index).0 at)

module _ (a : AppAnalyzer) where
  stop_evacuating-IsSound :
      (reason : GoString) (index : ℤ) (s : Analysis)
      → IsSound a s
      → IsSound a (stop_evacuating a reason index s)
  unfolding stop_evacuating
  stop_evacuating-IsSound reason index s h =
      for_each-keeps (stop_instance a (pos 0) reason) (IsSound a)
        (evacuating_instances_at_index index a.app)
        (λ i t m k.
          let (member, evacuating) = In-evacuating index a.app i m in
          stop_instance-IsSound a (pos 0) reason i t member (inr (inl evacuating)) k)
        s h

  replace_evacuating-IsSound :
      (m : PendingStartMessage) (index : ℤ) (s : Analysis)
      → (has_starting_or_running_instance_at_index index a.app ≡ false
          → start_already_queued a m ≡ false
          → IsJustifiedStart a m)
      → IsSound a s
      → IsSound a (replace_evacuating a m index s)
  unfolding replace_evacuating
  replace_evacuating-IsSound m index s j h =
      let stopped = stop_evacuating-IsSound stop_evacuation_complete index s h in
      let none = has_halves index a.app in
      ground (
        arith,
        append_start-IsSound a m s,
        append_start-IsSound a m (stop_evacuating a stop_evacuation_complete index s),
      )

  evacuate_index-IsSound :
      (index : ℤ) (s : Analysis) → IsSound a s → IsSound a (evacuate_index a index s)
  unfolding evacuate_index
  evacuate_index-IsSound index s h =
      let extra = stop_evacuating-IsSound stop_extra index (draw a s) h in
      let complete = stop_evacuating-IsSound stop_evacuation_complete index (draw a s) h in
      let m = start_at a s.drawn (pos 0) (grace_period a.conf) index two start_evacuating in
      elim (Bool-cases (is_index_desired index a.app)) [
        | inl desired ↦
            let j =
              start_at-justified a s.drawn (pos 0) (grace_period a.conf) index two start_evacuating
                desired in
            ground (
              arith,
              replace_evacuating-IsSound m index (draw a s) j h,
              replace_evacuating-IsSound m index
                  (stop_evacuating a stop_evacuation_complete index (draw a s)) j complete,
            )
        | inr beyond ↦ ground arith
      ]

  staged_pass-IsSound :
      (f : ℤ → Analysis → Analysis)
      → ((index : ℤ) (s : Analysis)
          → is_index_desired index a.app ≡ true
          → IsSound a s
          → IsSound a (f index s))
      → (s : Analysis) → IsSound a s
      → IsSound a (if is_staged a.app then for_each f (desired_indices a.app) s else s)
  staged_pass-IsSound f step s h =
      if-has (IsSound a) (is_staged a.app) (λ staged. desired_pass-IsSound a f step s h)
        (λ other. h)

  queue_starts-IsSound : (s : Analysis) → IsSound a s → IsSound a (queue_starts a s)
  unfolding queue_starts generate_pending_starts_for_missing_instances
      generate_pending_starts_for_crashed_instances
      generate_pending_starts_and_stops_for_evacuating_instances
  queue_starts-IsSound s h =
      let priority = compute_pending_start_message_priority a in
      for_each-keeps (evacuate_index a) (IsSound a) (a.visit (keys (heartbeats_by_index a.app)))
        (λ index t m k. evacuate_index-IsSound index t k) _
        (staged_pass-IsSound (start_if_crashed a priority) (start_if_crashed-IsSound a priority) _ (
          staged_pass-IsSound (start_if_missing a priority) (start_if_missing-IsSound a priority) s
            h))

  extra_stops-IsSound :
      (s : Analysis) → IsSound a s → IsSound a (generate_pending_stops_for_extra_instances a s)
  unfolding generate_pending_stops_for_extra_instances
  extra_stops-IsSound s h =
      for_each-keeps (stop_instance a (pos 0) stop_extra) (IsSound a)
        (extra_starting_or_running_instances a.app)
        (λ i t m k.
          let (member, beyond) = In-extra a.app i m in
          stop_instance-IsSound a (pos 0) stop_extra i t member (inl beyond) k)
        s h

  stop_each-IsSound :
      (n : ℕ) (is : List InstanceHeartbeat) (s : Analysis)
      → ((i : InstanceHeartbeat) → In i is → In i a.app.instance_heartbeats × MayStop a.app i)
      → IsSound a s
      → IsSound a (stop_each_duplicate a n is s)
  unfolding stop_each_duplicate
  stop_each-IsSound n [] s why h = h
  stop_each-IsSound n (i ∷ is) s why h =
      let (member, may) = why i (inl refl) in
      stop_each-IsSound (suc n) is _ (λ j m. why j (inr m))
        (stop_instance-IsSound a _ stop_duplicate i s member may h)

  stop_duplicates-IsSound :
      (index : ℤ) (s : Analysis)
      → IsIndexed a.app
      → IsSound a s
      → IsSound a (stop_duplicates_at a index s)
  unfolding stop_duplicates_at
  stop_duplicates-IsSound index s ready h =
      if-has (IsSound a) (ltb 1 (length (starting_or_running_instances_at_index index a.app)))
        (λ several.
          stop_each-IsSound 0 _ s
            (λ i m.
              let (member, up, at) = In-up_at_index index a.app i ready m in
              (member, inr (inr (up, rw at (ground arith)))))
            h)
        (λ single. h)

  -- Starting from nothing, with the app's memo absent or grouping its heartbeats, every start that analyzeApp queues is for this app, at a desired index where
  -- nothing starts or runs, is verified before it is sent, and was not queued before; and every stop is
  -- for an instance of this app whose index is not desired, or that is being evacuated, or that starts
  -- or runs at an index where several do, and was not queued before.
  pub analyze_app-IsSound :
      IsIndexed a.app → (drawn : ℕ) → IsSound a (analyze_app a (nothing_yet drawn))
  unfolding analyze_app nothing_yet generate_pending_stops_for_duplicate_instances
  analyze_app-IsSound ready drawn =
      let queued = queue_starts-IsSound (nothing_yet drawn) (tt, tt) in
      if-has (IsSound a) (is_nonempty (queue_starts a (nothing_yet drawn)).start_messages)
        (λ starts. queued)
        (λ none.
          for_each-keeps (stop_duplicates_at a) (IsSound a) (desired_indices a.app)
            (λ index t m k. stop_duplicates-IsSound index t ready k) _
            (extra_stops-IsSound _ queued))
