-- ===== src/Store/Sync.antt =====
-- store/actual_state.go, the half that writes: the cache of heartbeats and SyncHeartbeats. The map of
-- a DEA's instances, which the code shares with the cache, is written back at the end of its turn. One
-- instant stands for all the calls of time.Now; logging is left out.
pub mod Changes
use hm.Prelude.{
  ℕ, Bool, true, false, not, ◌&&◌, List, [], ◌∷◌, ◌++◌, Option, none, some, Result, ok, err, ◌==◌,
  if◌then◌else◌, for_each, any,
}
use hm.Prelude.Int.{ℤ, pos, ◌-ℤ◌, ltb_ℤ}
use hm.Prelude.Text.{GoString, codes, string_eq}
use hm.Prelude.Time.{Time}
use hm.Prelude.Float.{FloatOps}
use hm.Prelude.Map.{Map, lookup, insert, delete, keys, values}
use hm.Config.{Config, heartbeat_ttl, store_heartbeat_cache_refresh_interval}
use hm.Models.Instance.{
  InstanceHeartbeat, Heartbeat, no_heartbeat, heartbeat_to_csv, state_evacuating, state_crashed,
}
use hm.Store.Interface.{StoreError}
use hm.Store.Adapter.{Adapter, Entry}
use hm.Store.ActualState.{RealStore, StringSet, schema_root, soldier_on, get_instance_heartbeats}

-- The local variables of SyncHeartbeats, with the two caches that it writes.
pub record Syncing : Type 0 where
  pub nodes_to_save : List Entry
  pub heartbeats_to_evac : List InstanceHeartbeat
  pub keys_to_delete : List GoString
  pub heartbeat_cache : Map GoString StringSet
  pub instance_heartbeat_cache : Map GoString InstanceHeartbeat
  -- deaHeartbeat
  pub dea_heartbeat : StringSet

-- m[guid], which is an empty heartbeat where the key is missing
unfoldable pub cached_or_empty : GoString → Map GoString InstanceHeartbeat → InstanceHeartbeat
cached_or_empty guid m = elim (lookup guid m) [ none ↦ no_heartbeat | some h ↦ h ]

-- found && existing.State == incoming.State
unfoldable pub is_unchanged : InstanceHeartbeat → Map GoString InstanceHeartbeat → Bool
is_unchanged incoming m = elim (lookup incoming.instance_guid m) [
  | none ↦ false
  | some existing ↦ existing.state == incoming.state
]

-- m[heartbeat.DeaGuid] = heartbeat: the last heartbeat of each DEA counts.
pub latest_heartbeats : List Heartbeat → Map GoString Heartbeat → Map GoString Heartbeat
latest_heartbeats [] m = m
latest_heartbeats (h ∷ hs) m = latest_heartbeats hs (insert h.dea_guid h m)

-- m[dea], which is a new map where the key is missing
unfoldable pub dea_or_new : GoString → Map GoString StringSet → StringSet
dea_or_new dea m = elim (lookup dea m) [ none ↦ [] | some set ↦ set ]

module _ (conf : Config) (floats : FloatOps) where
  unfoldable pub instance_heartbeat_store_key : GoString → GoString → GoString → GoString
  unfolding schema_root
  instance_heartbeat_store_key app_guid app_version instance_guid =
      schema_root conf
      ++ (codes "/apps/actual/" ++ ((app_guid ++ (b',' ∷ app_version)) ++ (b'/' ∷ instance_guid)))

  unfoldable pub dea_presence_node : GoString → Entry
  unfolding schema_root heartbeat_ttl
  dea_presence_node dea_guid = record {
    key = schema_root conf ++ (codes "/dea-presence/" ++ dea_guid);
    value = dea_guid;
    ttl = heartbeat_ttl conf;
  }

  unfoldable pub store_node_for_instance_heartbeat : InstanceHeartbeat → Entry
  unfolding instance_heartbeat_store_key heartbeat_to_csv
  store_node_for_instance_heartbeat h = record {
    key = instance_heartbeat_store_key h.app_guid h.app_version h.instance_guid;
    value = heartbeat_to_csv floats h;
    ttl = 0;
  }

  -- One incoming instance.
  unfoldable pub sync_instance : InstanceHeartbeat → Syncing → Syncing
  unfolding is_unchanged cached_or_empty store_node_for_instance_heartbeat
  sync_instance incoming z =
      let existing = cached_or_empty incoming.instance_guid z.instance_heartbeat_cache in
      let evacuates = incoming.state == state_evacuating && not (existing.state == state_crashed) in
      if is_unchanged incoming z.instance_heartbeat_cache then z else record z {
        heartbeats_to_evac =
            if evacuates then z.heartbeats_to_evac ++ (incoming ∷ []) else z.heartbeats_to_evac;
        nodes_to_save = z.nodes_to_save ++ (store_node_for_instance_heartbeat incoming ∷ []);
        instance_heartbeat_cache =
            insert incoming.instance_guid incoming z.instance_heartbeat_cache;
        dea_heartbeat = insert incoming.instance_guid tt z.dea_heartbeat;
      }

  -- A cached instance that its DEA no longer reports: its key, and the keys that leave the caches.
  unfoldable pub drop_if_absent :
      List InstanceHeartbeat → GoString → Syncing × List GoString → Syncing × List GoString
  unfolding cached_or_empty instance_heartbeat_store_key
  drop_if_absent incoming guid (z, cache_keys) =
      let existing = cached_or_empty guid z.instance_heartbeat_cache in
      if any (λ i. i.instance_guid == guid) incoming then (z, cache_keys) else (
        record z {
          keys_to_delete =
              z.keys_to_delete
              ++ (instance_heartbeat_store_key existing.app_guid existing.app_version
                    existing.instance_guid
                  ∷ []);
        },
        cache_keys ++ (existing.instance_guid ∷ []),
      )

  unfoldable pub forget : GoString → Syncing → Syncing
  forget guid z = record z {
    dea_heartbeat = delete guid z.dea_heartbeat;
    instance_heartbeat_cache = delete guid z.instance_heartbeat_cache;
  }

  unfoldable pub drop_absent : List InstanceHeartbeat → Syncing → Syncing
  unfolding drop_if_absent forget
  drop_absent incoming z =
      let (dropped, cache_keys) =
        for_each (drop_if_absent incoming) (keys z.dea_heartbeat) (z, []) in
      for_each forget cache_keys dropped

  -- The DEA's instances go back into the cache, which forgets a DEA without any.
  unfoldable pub keep_dea : GoString → Syncing → Syncing
  keep_dea dea z = elim z.dea_heartbeat [
    | [] ↦ record z { heartbeat_cache = delete dea z.heartbeat_cache }
    | x ∷ xs ↦ record z { heartbeat_cache = insert dea (x ∷ xs) z.heartbeat_cache }
  ]

  unfoldable pub sync_instances : List InstanceHeartbeat → Syncing → Syncing
  unfolding sync_instance
  sync_instances incoming z = for_each sync_instance incoming z

  unfoldable pub sync_dea : Heartbeat → Syncing → Syncing
  unfolding dea_or_new dea_presence_node sync_instances drop_absent keep_dea
  sync_dea heartbeat z =
      let begun = record z {
        dea_heartbeat = dea_or_new heartbeat.dea_guid z.heartbeat_cache;
        nodes_to_save = z.nodes_to_save ++ (dea_presence_node heartbeat.dea_guid ∷ []);
      } in
      keep_dea heartbeat.dea_guid (
        drop_absent heartbeat.instance_heartbeats
          (sync_instances heartbeat.instance_heartbeats begun))

abbrev pub Caches : Type 0
Caches = Map GoString StringSet × Map GoString InstanceHeartbeat

unfoldable pub cache_heartbeat : InstanceHeartbeat → Caches → Caches
unfolding dea_or_new
cache_heartbeat h (deas, instances) = (
  insert h.dea_guid (insert h.instance_guid tt (dea_or_new h.dea_guid deas)) deas,
  insert h.instance_guid h instances,
)

-- The two caches from the heartbeats of the store.
unfoldable pub rebuild : List InstanceHeartbeat → Caches
unfolding cache_heartbeat
rebuild hs = for_each cache_heartbeat hs ([], [])

module _ {D : Type 0} (adapter : Adapter D) (conf : Config) (floats : FloatOps) where
  unfoldable pub load_cache : Time → RealStore D → RealStore D × Option StoreError
  unfolding get_instance_heartbeats rebuild
  load_cache now s =
      let (s', read) = get_instance_heartbeats adapter conf floats now s in
      if ltb_ℤ (now -ℤ s.instance_heartbeat_cache_timestamp)
        (store_heartbeat_cache_refresh_interval conf)
      then (s, none)
      else elim read [
        | err e ↦ (s', some e)
        | ok hs ↦
            let (deas, instances) = rebuild hs in
            (
              record s' {
                instance_heartbeat_cache_timestamp = now;
                heartbeat_cache = deas;
                instance_heartbeat_cache = instances;
              },
              none,
            )
      ]

  unfoldable pub syncing : RealStore D → Syncing
  syncing s = record {
    nodes_to_save = [];
    heartbeats_to_evac = [];
    keys_to_delete = [];
    heartbeat_cache = s.heartbeat_cache;
    instance_heartbeat_cache = s.instance_heartbeat_cache;
    dea_heartbeat = [];
  }

  -- The caches are written before the store is: they stay as they are when the store fails.
  unfoldable pub write_sync : Syncing → RealStore D → RealStore D × Option StoreError
  write_sync z s =
      let (d1, saved) = adapter.set_multi z.nodes_to_save s.disk in
      let (d2, deleted) = adapter.delete z.keys_to_delete d1 in
      let s' = record s {
        heartbeat_cache = z.heartbeat_cache;
        instance_heartbeat_cache = z.instance_heartbeat_cache;
      } in
      elim saved [
        | some e ↦ (record s' { disk = d1 }, some e)
        | none ↦ (record s' { disk = d2 }, soldier_on deleted)
      ]

  -- The heartbeats to evacuate are returned with an error of the writes too.
  unfoldable pub sync_heartbeats :
      List Heartbeat → Time → RealStore D → RealStore D × List InstanceHeartbeat × Option StoreError
  unfolding load_cache syncing sync_dea write_sync latest_heartbeats
  sync_heartbeats incoming now s =
      let (s1, loaded) = load_cache now s in
      let z =
        for_each (sync_dea conf floats) (values (latest_heartbeats incoming [])) (syncing s1) in
      let (s2, outcome) = write_sync z s1 in
      elim loaded [ some e ↦ (s1, [], some e) | none ↦ (s2, z.heartbeats_to_evac, outcome) ]
