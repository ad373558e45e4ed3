-- ===== src/Models/App.antt =====
-- models/app.go: an application version with its desired state, its heartbeats and its crash counts.
-- The memo `instanceHeartbeatsByIndex` is a field; a query reads through `verify…Ready`, which fills
-- it. The write of the memo is left out of the queries, whose results do not depend on it (Index).
pub mod Index
pub mod Counts
use hm.Prelude.{
  ℕ, zero, suc, ◌+◌, ◌-◌, ◌<◌, Bool, true, false, not, ◌&&◌, List, [], ◌∷◌, ◌++◌, Option, none,
  some, ◌==◌, if◌then◌else◌, length, any, select, count,
}
use hm.Prelude.Int.{ℤ, pos, int_eq, ltb_ℤ, pos_part, ◌-ℤ◌}
use hm.Prelude.Text.{GoString, string_eq}
use hm.Prelude.Time.{Time, unix}
use hm.Prelude.Map.{Map, lookup, insert, keys}
use hm.Models.Instance.{
  InstanceHeartbeat, no_heartbeat, CrashCount, is_starting, is_running, is_starting_or_running,
  is_crashed, is_evacuating,
}
use hm.Models.Desired.{DesiredAppState, package_staged}

pub record App : Type 0 where
  pub app_guid : GoString
  pub app_version : GoString
  pub desired : DesiredAppState
  pub instance_heartbeats : List InstanceHeartbeat
  pub crash_counts : Map ℤ CrashCount
  pub instance_heartbeats_by_index : Option (Map ℤ (List InstanceHeartbeat))

unfoldable pub new_app :
    GoString → GoString → DesiredAppState → List InstanceHeartbeat → Map ℤ CrashCount → App
new_app app_guid app_version desired heartbeats crash_counts = record {
  app_guid = app_guid;
  app_version = app_version;
  desired = desired;
  instance_heartbeats = heartbeats;
  crash_counts = crash_counts;
  instance_heartbeats_by_index = none;
}

-- m[i], which is nil where the key is missing
unfoldable pub at_index_or_nil : ℤ → Map ℤ (List InstanceHeartbeat) → List InstanceHeartbeat
at_index_or_nil i m = elim (lookup i m) [ none ↦ [] | some hs ↦ hs ]

-- m[h.InstanceIndex] = append(m[h.InstanceIndex], h), for each heartbeat
unfoldable pub group_onto :
    List InstanceHeartbeat → Map ℤ (List InstanceHeartbeat) → Map ℤ (List InstanceHeartbeat)
unfolding at_index_or_nil
group_onto [] m = m
group_onto (h ∷ hs) m =
    group_onto hs (insert h.instance_index (at_index_or_nil h.instance_index m ++ (h ∷ [])) m)

unfoldable pub heartbeats_by_index : App → Map ℤ (List InstanceHeartbeat)
unfolding group_onto
heartbeats_by_index a = group_onto a.instance_heartbeats []

unfoldable pub verify_instance_heartbeats_by_index_is_ready : App → App
unfolding group_onto
verify_instance_heartbeats_by_index_is_ready a = elim a.instance_heartbeats_by_index [
  | none ↦ record a { instance_heartbeats_by_index = some (group_onto a.instance_heartbeats []) }
  | some m ↦ a
]

-- The memo after it has been made ready.
unfoldable pub index_of : App → Map ℤ (List InstanceHeartbeat)
unfolding verify_instance_heartbeats_by_index_is_ready
index_of a = elim (verify_instance_heartbeats_by_index_is_ready a).instance_heartbeats_by_index [
  | none ↦ []
  | some m ↦ m
]

unfoldable pub instance_heartbeats_at_index : ℤ → App → List InstanceHeartbeat
unfolding index_of at_index_or_nil
instance_heartbeats_at_index index a = at_index_or_nil index (index_of a)

unfoldable pub is_staged : App → Bool
is_staged a = a.desired.package_state == package_staged

unfoldable pub is_desired : App → Bool
is_desired a = not (a.desired.app_guid == [])

abbrev pub number_of_desired_instances : App → ℤ
number_of_desired_instances a = a.desired.number_of_instances

unfoldable pub is_index_desired : ℤ → App → Bool
is_index_desired index a = ltb_ℤ index (number_of_desired_instances a)

find_guid : GoString → List InstanceHeartbeat → InstanceHeartbeat
find_guid guid [] = no_heartbeat
find_guid guid (h ∷ hs) = if h.instance_guid == guid then h else find_guid guid hs

unfoldable pub instance_with_guid : GoString → App → InstanceHeartbeat
unfolding find_guid
instance_with_guid guid a = find_guid guid a.instance_heartbeats

unfoldable pub extra_starting_or_running_instances : App → List InstanceHeartbeat
extra_starting_or_running_instances a =
    select (λ h. not (is_index_desired h.instance_index a) && is_starting_or_running h)
      a.instance_heartbeats

unfoldable pub has_starting_or_running_instances : App → Bool
has_starting_or_running_instances a = any is_starting_or_running a.instance_heartbeats

unfoldable pub starting_or_running_instances_at_index : ℤ → App → List InstanceHeartbeat
starting_or_running_instances_at_index index a =
    select is_starting_or_running (instance_heartbeats_at_index index a)

unfoldable pub evacuating_instances_at_index : ℤ → App → List InstanceHeartbeat
evacuating_instances_at_index index a =
    select (λ h. is_evacuating h && h.instance_index == index) a.instance_heartbeats

unfoldable pub has_running_instance_at_index : ℤ → App → Bool
has_running_instance_at_index index a = any is_running (instance_heartbeats_at_index index a)

unfoldable pub has_starting_instance_at_index : ℤ → App → Bool
has_starting_instance_at_index index a = any is_starting (instance_heartbeats_at_index index a)

unfoldable pub has_starting_or_running_instance_at_index : ℤ → App → Bool
has_starting_or_running_instance_at_index index a =
    any is_starting_or_running (instance_heartbeats_at_index index a)

-- len(xs) > 0
abbrev pub is_nonempty {ℓ} : {A : Type ℓ} → List A → Bool
is_nonempty [] = false
is_nonempty (x ∷ xs) = true

unfoldable pub has_evacuating_instance_at_index : ℤ → App → Bool
has_evacuating_instance_at_index index a = is_nonempty (evacuating_instances_at_index index a)

unfoldable pub has_crashed_instance_at_index : ℤ → App → Bool
has_crashed_instance_at_index index a = any is_crashed (instance_heartbeats_at_index index a)

unfoldable pub crash_count_at_index : ℤ → Time → App → CrashCount
crash_count_at_index index now a = elim (lookup index a.crash_counts) [
  | none ↦ record {
    app_guid = a.app_guid;
    app_version = a.app_version;
    instance_index = index;
    crash_count = pos 0;
    created_at = unix now;
  }
  | some c ↦ c
]

-- `for index := 0; IsIndexDesired(index); index++`: the indices from `start` on, `n` of them.
abbrev pub indices_from : ℕ → ℕ → List ℤ
indices_from start zero = []
indices_from start (suc n) = pos start ∷ indices_from (suc start) n

-- The loop ends at the first index that is not desired: a negative number of instances has none.
abbrev pub desired_indices : App → List ℤ
desired_indices a = indices_from 0 (pos_part (number_of_desired_instances a))

unfoldable pub number_of_desired_indices_with_a_starting_or_running_instance : App → ℕ
number_of_desired_indices_with_a_starting_or_running_instance a =
    count (λ i. has_starting_or_running_instance_at_index i a) (desired_indices a)

unfoldable pub number_of_desired_indices_reporting : App → ℕ
number_of_desired_indices_reporting a =
    count (λ i. is_nonempty (instance_heartbeats_at_index i a)) (desired_indices a)

unfoldable pub number_of_starting_or_running_instances : App → ℕ
number_of_starting_or_running_instances a = count is_starting_or_running a.instance_heartbeats

unfoldable pub number_of_crashed_instances : App → ℕ
number_of_crashed_instances a = count is_crashed a.instance_heartbeats

unfoldable pub number_of_crashed_indices : App → ℕ
unfolding index_of
number_of_crashed_indices a =
    count
      (λ i.
        has_crashed_instance_at_index i a && not (has_starting_or_running_instance_at_index i a))
      (keys (index_of a))
