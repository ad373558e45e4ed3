-- ===== src/Analyzer/AppMetrics.antt =====
-- analyzer/app_metrics.go: the gauges that SendMetrics sends, from the apps or, after an error, as -1.
pub mod Totals
use hm.Prelude.{
  ℕ, ◌+◌, Bool, true, false, List, [], ◌∷◌, Option, none, some, ◌==◌, if◌then◌else◌, for_each,
}
use hm.Prelude.Int.{ℤ, pos, negsuc, ◌+ℤ◌, ◌-ℤ◌, int_eq, wrap}
use hm.Prelude.Text.{GoString, string_eq}
use hm.Models.Desired.{package_pending}
use hm.Models.App.{
  App, is_desired, number_of_desired_instances, number_of_desired_indices_reporting,
  has_starting_or_running_instances, number_of_starting_or_running_instances,
  number_of_crashed_instances, number_of_crashed_indices,
}
use hm.Store.Interface.{StoreError}

-- The map of counts, with a field for each of its keys.
pub record Gauges : Type 0 where
  pub apps_with_all_instances_reporting : ℤ
  pub apps_with_missing_instances : ℤ
  pub undesired_running_apps : ℤ
  pub running_instances : ℤ
  pub missing_indices : ℤ
  pub crashed_instances : ℤ
  pub crashed_indices : ℤ
  pub desired_apps : ℤ
  pub desired_instances : ℤ
  pub desired_apps_pending_staging : ℤ

unfoldable pub all_gauges : ℤ → Gauges
all_gauges n = record {
  apps_with_all_instances_reporting = n;
  apps_with_missing_instances = n;
  undesired_running_apps = n;
  running_instances = n;
  missing_indices = n;
  crashed_instances = n;
  crashed_indices = n;
  desired_apps = n;
  desired_instances = n;
  desired_apps_pending_staging = n;
}

-- counts[key] + increment
abbrev pub plus : ℤ → ℤ → ℤ
plus n increment = wrap (n +ℤ increment)

unfoldable pub missing_indices_of : App → ℤ
missing_indices_of app =
    wrap (number_of_desired_instances app -ℤ pos (number_of_desired_indices_reporting app))

-- A desired app that is not pending staging.
unfoldable pub count_desired : App → Gauges → Gauges
unfolding missing_indices_of
count_desired app g =
    let missing = missing_indices_of app in
    let h = record g {
      desired_apps = plus g.desired_apps (pos 1);
      desired_instances = plus g.desired_instances (number_of_desired_instances app);
    } in
    if missing == pos 0
    then record h {
      apps_with_all_instances_reporting = plus h.apps_with_all_instances_reporting (pos 1);
    }
    else record h {
      apps_with_missing_instances = plus h.apps_with_missing_instances (pos 1);
      missing_indices = plus h.missing_indices missing;
    }

unfoldable pub count_wanted : App → Gauges → Gauges
unfolding count_desired
count_wanted app g =
    if is_desired app
    then (if app.desired.package_state == package_pending
        then record g { desired_apps_pending_staging = plus g.desired_apps_pending_staging (pos 1) }
        else count_desired app g)
    else if has_starting_or_running_instances app
    then record g { undesired_running_apps = plus g.undesired_running_apps (pos 1) }
    else g

-- What every app adds.
unfoldable pub count_instances : App → Gauges → Gauges
count_instances app g = record g {
  running_instances = plus g.running_instances (pos (number_of_starting_or_running_instances app));
  crashed_instances = plus g.crashed_instances (pos (number_of_crashed_instances app));
  crashed_indices = plus g.crashed_indices (pos (number_of_crashed_indices app));
}

unfoldable pub count_app : App → Gauges → Gauges
unfolding count_wanted count_instances
count_app app g = count_instances app (count_wanted app g)

unfoldable pub gauges : List App → Option StoreError → Gauges
unfolding count_app all_gauges
gauges apps none = for_each count_app apps (all_gauges (pos 0))
gauges apps (some e) = all_gauges (negsuc 0)
