-- ===== src/Store/ActualState.antt =====
-- store/actual_state.go, the half that reads: which instances the store knows, and which DEAs are
-- there. Each operation takes one instant for all its calls of time.Now.
use hm.Prelude.{List, [], ◌∷◌, ◌++◌, Option, none, some, Result, ok, err, if◌then◌else◌}
use hm.Prelude.Int.{ltb_ℤ}
use hm.Prelude.Text.{GoString, codes, string_eq, itoa, split}
use hm.Prelude.Time.{Time, seconds, add}
use hm.Prelude.Float.{FloatOps}
use hm.Prelude.Map.{Map, has, insert}
use hm.Config.{Config, to_int64}
use hm.Models.Instance.{InstanceHeartbeat, new_instance_heartbeat_from_csv}
use hm.Store.Interface.{StoreError, key_not_found, undecodable, panicked, Outcome}
use hm.Store.Adapter.{Adapter, Node, Nodes, no_nodes, more_nodes, key_of, value_of, children_of}

-- map[string]struct{}
abbrev pub StringSet : Type 0
StringSet = Map GoString (Unit {0})

-- store.RealStore, with the state of its adapter.
pub record RealStore (D : Type 0) : Type 0 where
  pub disk : D
  pub heartbeat_cache : Map GoString StringSet
  pub instance_heartbeat_cache : Map GoString InstanceHeartbeat
  pub instance_heartbeat_cache_timestamp : Time
  pub dea_cache : StringSet
  pub dea_cache_expiration_timestamp : Time

-- SchemaRoot
unfoldable pub schema_root : Config → GoString
schema_root conf = codes "/hm/v" ++ itoa conf.store_schema_version

-- The deletion of keys that may be gone already: a missing key is no failure.
abbrev pub soldier_on : Outcome → Outcome
soldier_on none = none
soldier_on (some key_not_found) = none
soldier_on (some e) = some e

last_two : List GoString → Option (GoString × GoString)
last_two [] = none
last_two (a ∷ []) = none
last_two (a ∷ b ∷ []) = some (a, b)
last_two (a ∷ b ∷ c ∷ rest) = last_two (b ∷ c ∷ rest)

first_two : List GoString → Option (GoString × GoString)
first_two (a ∷ b ∷ rest) = some (a, b)
first_two (a ∷ []) = none
first_two [] = none

-- The app GUID, the version and the instance GUID of a key `…/guid,version/instance`.
unfoldable pub parse_key : GoString → Option (GoString × GoString × GoString)
unfolding last_two first_two
parse_key key = elim (last_two (split b'/' key)) [
  | none ↦ none
  | some (pair, instance_guid) ↦ elim (first_two (split b',' pair)) [
    | none ↦ none
    | some (app_guid, app_version) ↦ some (app_guid, app_version, instance_guid)
  ]
]

unfoldable pub heartbeat_of_node : FloatOps → Node → Result StoreError InstanceHeartbeat
unfolding parse_key
heartbeat_of_node floats n = elim (parse_key (key_of n)) [
  | none ↦ err panicked
  | some (app_guid, app_version, instance_guid) ↦
      elim (new_instance_heartbeat_from_csv floats app_guid app_version instance_guid
        (value_of n)) [ err e ↦ err undecodable | ok h ↦ ok h ]
]

-- The heartbeats whose DEA is there, and the keys of the others.
abbrev pub Sorted : Type 0
Sorted = List InstanceHeartbeat × List GoString

-- One more node in front.
abbrev pub sort_heartbeat : StringSet → InstanceHeartbeat → GoString → Sorted → Sorted
sort_heartbeat deas h key (found, gone) =
    if has h.dea_guid deas then (h ∷ found, gone) else (found, key ∷ gone)

-- heartbeatsForNode reads `store.deaCache`, not its argument.
unfoldable pub heartbeats_for_nodes : FloatOps → StringSet → Nodes → Result StoreError Sorted
unfolding heartbeat_of_node
heartbeats_for_nodes floats deas no_nodes = ok ([], [])
heartbeats_for_nodes floats deas (more_nodes n rest) =
    let tail = heartbeats_for_nodes floats deas rest in
    elim (heartbeat_of_node floats n) [
      | err e ↦ err e
      | ok h ↦ elim tail [
        | err e ↦ err e
        | ok sorted ↦ ok (sort_heartbeat deas h (key_of n) sorted)
      ]
    ]

-- The loop of GetInstanceHeartbeats over the nodes of the apps.
unfoldable pub heartbeats_for_apps : FloatOps → StringSet → Nodes → Result StoreError Sorted
unfolding heartbeats_for_nodes
heartbeats_for_apps floats deas no_nodes = ok ([], [])
heartbeats_for_apps floats deas (more_nodes n rest) =
    let tail = heartbeats_for_apps floats deas rest in
    elim (heartbeats_for_nodes floats deas (children_of n)) [
      | err e ↦ err e
      | ok here ↦ elim tail [ err e ↦ err e | ok later ↦ ok (here.0 ++ later.0, here.1 ++ later.1) ]
    ]

pub dea_set : Nodes → StringSet
dea_set no_nodes = []
dea_set (more_nodes n rest) = let tail = dea_set rest in insert (value_of n) tt tail

module _ {D : Type 0} (adapter : Adapter D) (conf : Config) (floats : FloatOps) where
  -- ListRecursively, for which a missing directory is an empty one
  unfoldable pub list_or_empty : GoString → D → D × Result StoreError Nodes
  list_or_empty dir disk =
      let (disk', listed) = adapter.list_recursively dir disk in
      elim listed [
        | ok n ↦ (disk', ok (children_of n))
        | err key_not_found ↦ (disk', ok no_nodes)
        | err e ↦ (disk', err e)
      ]

  unfoldable pub get_dea_cache : Time → RealStore D → RealStore D × Result StoreError StringSet
  unfolding list_or_empty dea_set
  get_dea_cache now s =
      let (disk', listed) = list_or_empty (schema_root conf ++ codes "/dea-presence") s.disk in
      if ltb_ℤ s.dea_cache_expiration_timestamp now
      then elim listed [
        | err e ↦ (record s { disk = disk' }, err e)
        | ok nodes ↦ (
          record s {
            disk = disk';
            dea_cache = dea_set nodes;
            dea_cache_expiration_timestamp = add now (seconds (to_int64 conf.heartbeat_period));
          },
          ok (dea_set nodes),
        )
      ]
      else (s, ok s.dea_cache)

  -- What is left to do with the nodes of the apps: a node that cannot be read makes the result empty,
  -- and is no error.
  unfoldable pub settle_heartbeats :
      Nodes → RealStore D → RealStore D × Result StoreError (List InstanceHeartbeat)
  unfolding heartbeats_for_apps
  settle_heartbeats nodes s = elim (heartbeats_for_apps floats s.dea_cache nodes) [
    | err panicked ↦ (s, err panicked)
    | err e ↦ (s, ok [])
    | ok (found, gone) ↦
        let (disk', outcome) = adapter.delete gone s.disk in
        elim (soldier_on outcome) [
          | none ↦ (record s { disk = disk' }, ok found)
          | some e ↦ (record s { disk = disk' }, err e)
        ]
  ]

  unfoldable pub get_instance_heartbeats :
      Time → RealStore D → RealStore D × Result StoreError (List InstanceHeartbeat)
  unfolding get_dea_cache settle_heartbeats
  get_instance_heartbeats now s =
      let (disk', listed) =
        adapter.list_recursively (schema_root conf ++ codes "/apps/actual") s.disk in
      let s1 = record s { disk = disk' } in
      elim listed [
        | err key_not_found ↦ (s1, ok [])
        | err e ↦ (s1, err e)
        | ok n ↦
            let (s2, deas) = get_dea_cache now s1 in
            elim deas [ err e ↦ (s2, err e) | ok known ↦ settle_heartbeats (children_of n) s2 ]
      ]

  -- The last steps for one app: here a node that cannot be read is an error.
  unfoldable pub settle_app :
      Nodes → RealStore D → RealStore D × Result StoreError (List InstanceHeartbeat)
  unfolding heartbeats_for_nodes
  settle_app nodes s = elim (heartbeats_for_nodes floats s.dea_cache nodes) [
    | err e ↦ (s, err e)
    | ok (found, gone) ↦
        let (disk', outcome) = adapter.delete gone s.disk in
        elim (soldier_on outcome) [
          | none ↦ (record s { disk = disk' }, ok found)
          | some e ↦ (record s { disk = disk' }, err e)
        ]
  ]

  unfoldable pub get_instance_heartbeats_for_app :
      GoString
      → GoString
      → Time
      → RealStore D
      → RealStore D × Result StoreError (List InstanceHeartbeat)
  unfolding get_dea_cache settle_app
  get_instance_heartbeats_for_app app_guid app_version now s =
      let dir = schema_root conf ++ (codes "/apps/actual/" ++ (app_guid ++ (b',' ∷ app_version))) in
      let (disk', listed) = adapter.list_recursively dir s.disk in
      let s1 = record s { disk = disk' } in
      elim listed [
        | err key_not_found ↦ (s1, ok [])
        | err e ↦ (s1, err e)
        | ok n ↦
            let (s2, deas) = get_dea_cache now s1 in
            elim deas [ err e ↦ (s2, err e) | ok known ↦ settle_app (children_of n) s2 ]
      ]
