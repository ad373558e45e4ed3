-- ===== src/Analyzer/AppMetrics/Totals.antt =====
-- How the gauges of app_metrics.go add up.
use mathlib.Core.Path.{subst}
use hm.Prelude.{
  ℕ, suc, ◌+◌, ◌^◌, ◌≤◌, ◌<◌, ◌≡◌, refl, ap, ◌∙◌, List, [], ◌∷◌, none, ◌==◌, arith, length,
  for_each, Bool-cases, inl, inr,
}
use hm.Prelude.Int.{ℤ, pos, ◌+ℤ◌, int_eq, wrap_in_range}
use hm.Prelude.Text.{string_eq}
use hm.Models.Desired.{package_pending}
use hm.Models.App.{App, is_desired, has_starting_or_running_instances}
use hm.Analyzer.AppMetrics.{
  Gauges, all_gauges, plus, missing_indices_of, count_desired, count_wanted, count_instances,
  count_app, gauges,
}

-- The counters of apps after `n` apps: they are numbers, the desired apps are those reporting in full
-- and those with missing instances, and the counted apps are at most `n`.
unfoldable pub AddsUp : ℕ → Gauges → Type 0
AddsUp n g =
    (full : ℕ) × (missing : ℕ) × (running : ℕ) × (staging : ℕ)
    × (g.apps_with_all_instances_reporting ≡ pos full)
    × (g.apps_with_missing_instances ≡ pos missing)
    × (g.desired_apps ≡ pos (full + missing))
    × (g.undesired_running_apps ≡ pos running)
    × (g.desired_apps_pending_staging ≡ pos staging)
    × (full + missing + running + staging ≤ n)

plus_one : (z : ℤ) (k : ℕ) → z ≡ pos k → k < 2 ^ 62 → plus z (pos 1) ≡ pos (suc k)
plus_one z k e h = ap (λ y. plus y (pos 1)) e ∙ wrapped
  where
    wrapped : plus (pos k) (pos 1) ≡ pos (suc k)
    wrapped = unfold ◌+ℤ◌ in ground (arith, wrap_in_range (pos (suc k)))

count_app-AddsUp :
    (n : ℕ) (app : App) (g : Gauges) → n < 2 ^ 62 → AddsUp n g → AddsUp (suc n) (count_app app g)
unfolding AddsUp count_app count_instances count_wanted count_desired
count_app-AddsUp n app g small (full, missing, running, staging, ef, em, ed, er, es, h) =
    let f' = plus_one _ full ef (omega arith) in
    let m' = plus_one _ missing em (omega arith) in
    let d' = plus_one _ (full + missing) ed (omega arith) in
    let one_full : suc (full + missing) ≡ suc full + missing = omega arith in
    let one_missing : suc (full + missing) ≡ full + suc missing = omega arith in
    let r' = plus_one _ running er (omega arith) in
    let s' = plus_one _ staging es (omega arith) in
    elim (Bool-cases (is_desired app)) [
      | inl desired ↦ elim (Bool-cases (app.desired.package_state == package_pending)) [
        | inl pending ↦
            rw (count_app, count_wanted, desired, pending)
              (full, missing, running, suc staging, ef, em, ed, er, s', omega arith)
        | inr settled ↦ elim (Bool-cases (missing_indices_of app == pos 0)) [
          | inl all ↦
              rw (count_app, count_wanted, desired, settled, count_desired, all)
                (
                  suc full,
                  missing,
                  running,
                  staging,
                  f',
                  em,
                  d' ∙ ap pos one_full,
                  er,
                  es,
                  omega arith,
                )
          | inr some_missing ↦
              rw (count_app, count_wanted, desired, settled, count_desired, some_missing)
                (
                  full,
                  suc missing,
                  running,
                  staging,
                  ef,
                  m',
                  d' ∙ ap pos one_missing,
                  er,
                  es,
                  omega arith,
                )
        ]
      ]
      | inr undesired ↦ elim (Bool-cases (has_starting_or_running_instances app)) [
        | inl up ↦
            rw (count_app, count_wanted, undesired, up)
              (full, missing, suc running, staging, ef, em, ed, r', es, omega arith)
        | inr down ↦
            rw (count_app, count_wanted, undesired, down)
              (full, missing, running, staging, ef, em, ed, er, es, omega arith)
      ]
    ]

for_each-AddsUp :
    (apps : List App) (n : ℕ) (g : Gauges)
    → n + length apps < 2 ^ 62
    → AddsUp n g
    → AddsUp (n + length apps) (for_each count_app apps g)
for_each-AddsUp [] n g small h = subst (λ k. AddsUp k g) (omega arith) h
for_each-AddsUp (app ∷ apps) n g small h =
    subst (λ k. AddsUp k (for_each count_app apps (count_app app g))) (omega arith)
      (for_each-AddsUp apps (suc n) (count_app app g) (omega arith)
        (count_app-AddsUp n app g (omega arith) h))

-- For fewer than 2 ^ 62 apps the gauges of apps are numbers, and nothing overflows: the desired apps are
-- those that report in full and those with missing instances, and with the undesired running apps and
-- those pending staging they are at most all apps.
pub gauges-AddsUp :
    (apps : List App) → length apps < 2 ^ 62 → AddsUp (length apps) (gauges apps none)
unfolding gauges
gauges-AddsUp apps small =
    let none_before : 0 + length apps ≡ length apps = omega arith in
    subst (λ k. AddsUp k (for_each count_app apps (all_gauges (pos 0)))) none_before
      (for_each-AddsUp apps 0 (all_gauges (pos 0)) (omega arith)
        (unfold AddsUp all_gauges in (0, 0, 0, 0, refl, refl, refl, refl, refl, omega arith)))
