-- ===== src/Store/Apps.antt =====
-- store/apps.go: apps put together from the heartbeats and the crash counts of the store. The map of
-- representations holds pointers; a representation that has grown is written back. One instant stands
-- for all the calls of time.Now, and logging is left out.
pub mod Grouping
pub mod Found
use hm.Prelude.{
  Bool, true, false, List, [], ◌∷◌, ◌++◌, Option, none, some, Result, ok, err, ◌==◌, ◌||◌,
  if◌then◌else◌, for_each,
}
use hm.Prelude.Int.{ℤ, int_eq}
use hm.Prelude.Text.{GoString, string_eq}
use hm.Prelude.Time.{Time}
use hm.Prelude.Float.{FloatOps}
use hm.Prelude.Map.{Map, lookup, insert, values}
use hm.Config.{Config}
use hm.Models.Instance.{InstanceHeartbeat, CrashCount}
use hm.Models.Desired.{not_desired}
use hm.Models.App.{App, new_app}
use hm.Store.Interface.{StoreError, app_not_found, app_key}
use hm.Store.Adapter.{Adapter}
use hm.Store.ActualState.{RealStore, get_instance_heartbeats, get_instance_heartbeats_for_app}
use hm.Store.Messages.{JsonCodec}
use hm.Store.CrashCounts.{get_crash_counts, get_crash_count_for_app}

-- appRepresentation, whose desired state is never set
pub record AppRepresentation : Type 0 where
  pub actual_state : List InstanceHeartbeat
  pub crash_counts : List CrashCount

abbrev pub no_representation : AppRepresentation
no_representation = record { actual_state = []; crash_counts = [] }

abbrev pub AppRepresentations : Type 0
AppRepresentations = Map GoString AppRepresentation

unfoldable pub representation_id : GoString → GoString → GoString
representation_id app_guid app_version = app_guid ++ (b'-' ∷ app_version)

-- What is held under an id, or a new representation.
unfoldable pub representation_for : GoString → AppRepresentations → AppRepresentation
representation_for id representations = elim (lookup id representations) [
  | none ↦ no_representation
  | some r ↦ r
]

unfoldable pub add_actual_state : InstanceHeartbeat → AppRepresentations → AppRepresentations
unfolding representation_id representation_for
add_actual_state h representations =
    let id = representation_id h.app_guid h.app_version in
    let r = representation_for id representations in
    insert id (record r { actual_state = r.actual_state ++ (h ∷ []) }) representations

unfoldable pub add_crash_count : CrashCount → AppRepresentations → AppRepresentations
unfolding representation_id representation_for
add_crash_count c representations =
    let id = representation_id c.app_guid c.app_version in
    let r = representation_for id representations in
    insert id (record r { crash_counts = r.crash_counts ++ (c ∷ []) }) representations

unfoldable pub representations_of : List InstanceHeartbeat → List CrashCount → AppRepresentations
unfolding add_actual_state add_crash_count
representations_of hs cs = for_each add_crash_count cs (for_each add_actual_state hs [])

unfoldable pub represents_an_app : AppRepresentation → Bool
represents_an_app r = elim r.actual_state [ [] ↦ false | h ∷ hs ↦ true ]

-- The crash counts by index, where the last one counts.
unfoldable pub by_instance_index : List CrashCount → Map ℤ CrashCount
by_instance_index cs =
    for_each (λ (c : CrashCount) (m : Map ℤ CrashCount). insert c.instance_index c m) cs []

-- No app where the guid or the version of the first heartbeat is empty, or there is no heartbeat.
unfoldable pub build_app : AppRepresentation → Option App
unfolding by_instance_index
build_app r = elim r.actual_state [
  | [] ↦ none
  | h ∷ hs ↦
      if h.app_guid == [] || h.app_version == []
      then none
      else some (
          new_app h.app_guid h.app_version not_desired r.actual_state
            (by_instance_index r.crash_counts))
]

unfoldable pub add_app : AppRepresentation → Map GoString App → Map GoString App
unfolding represents_an_app build_app app_key
add_app r results =
    if represents_an_app r
    then elim (build_app r) [
      | none ↦ results
      | some app ↦ insert (app_key app.app_guid app.app_version) app results
    ]
    else results

unfoldable pub apps_of : List InstanceHeartbeat → List CrashCount → Map GoString App
unfolding representations_of add_app
apps_of hs cs = for_each add_app (values (representations_of hs cs)) []

module _ {D : Type 0} (adapter : Adapter D) (conf : Config) (floats : FloatOps)
    (json : JsonCodec CrashCount) (now : Time) where
  unfoldable pub get_apps : RealStore D → RealStore D × Result StoreError (Map GoString App)
  unfolding get_instance_heartbeats get_crash_counts apps_of
  get_apps s =
      let (s1, actual_states) = get_instance_heartbeats adapter conf floats now s in
      let (disk', crash_counts) = get_crash_counts conf floats json adapter s1.disk in
      elim actual_states [
        | err e ↦ (s1, err e)
        | ok hs ↦ elim crash_counts [
          | err e ↦ (record s1 { disk = disk' }, err e)
          | ok cs ↦ (record s1 { disk = disk' }, ok (apps_of hs cs))
        ]
      ]

  -- The app that a representation gives, or that there is none.
  unfoldable pub built_or_missing : Option App → Result StoreError App
  built_or_missing none = err app_not_found
  built_or_missing (some app) = ok app

  unfoldable pub get_app : GoString → GoString → RealStore D → RealStore D × Result StoreError App
  unfolding get_instance_heartbeats_for_app get_crash_count_for_app build_app built_or_missing
  get_app app_guid app_version s =
      let (s1, actual_state) =
        get_instance_heartbeats_for_app adapter conf floats app_guid app_version now s in
      let (disk', crash_counts) =
        get_crash_count_for_app conf floats json adapter app_guid app_version s1.disk in
      elim actual_state [
        | err e ↦ (s1, err e)
        | ok [] ↦ (s1, err app_not_found)
        | ok (h ∷ hs) ↦ elim crash_counts [
          | err e ↦ (record s1 { disk = disk' }, err e)
          | ok cs ↦ (
            record s1 { disk = disk' },
            built_or_missing (build_app (record { actual_state = h ∷ hs; crash_counts = cs })),
          )
        ]
      ]
