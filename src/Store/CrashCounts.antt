-- ===== src/Store/CrashCounts.antt =====
-- store/crash_count.go: the crash counts, in a directory for each app version. The JSON of a crash
-- count is an argument.
use hm.Prelude.{ℕ, List, [], ◌∷◌, ◌++◌, Option, none, some, Result, ok, err, map}
use hm.Prelude.Int.{ℤ, pos, negsuc}
use hm.Prelude.Text.{GoString, codes, itoa}
use hm.Prelude.Float.{FloatOps}
use hm.Config.{Config, maximum_backoff_delay, whole_seconds, mul_u64}
use hm.Models.Instance.{CrashCount}
use hm.Store.Interface.{StoreError, Outcome, key_not_found, undecodable}
use hm.Store.Adapter.{Adapter, Entry, Nodes, no_nodes, more_nodes, value_of, children_of}
use hm.Store.ActualState.{schema_root}
use hm.Store.Messages.{JsonCodec}

module _ (conf : Config) (floats : FloatOps) (json : JsonCodec CrashCount) where
  unfoldable pub crash_count_store_key : CrashCount → GoString
  unfolding schema_root
  crash_count_store_key c =
      schema_root conf
      ++ (codes "/apps/crashes/"
          ++ ((c.app_guid ++ (b',' ∷ c.app_version)) ++ (b'/' ∷ itoa c.instance_index)))

  -- uint64(seconds), where a negative number is left to the implementation
  unfoldable pub unsigned_seconds : ℤ → ℕ
  unsigned_seconds (pos n) = n
  unsigned_seconds (negsuc n) = floats.unrepresentable_unsigned

  unfoldable pub crash_count_ttl : ℕ
  unfolding unsigned_seconds maximum_backoff_delay whole_seconds
  crash_count_ttl = mul_u64 (unsigned_seconds (whole_seconds (maximum_backoff_delay conf))) 2

  unfoldable pub crash_count_entry : CrashCount → Entry
  unfolding crash_count_store_key crash_count_ttl
  crash_count_entry c = record {
    key = crash_count_store_key c;
    value = json.marshal c;
    ttl = crash_count_ttl;
  }

  unfoldable pub crash_counts_for_nodes : Nodes → Result StoreError (List CrashCount)
  crash_counts_for_nodes no_nodes = ok []
  crash_counts_for_nodes (more_nodes n rest) =
      let later = crash_counts_for_nodes rest in
      elim (json.unmarshal (value_of n)) [
        | none ↦ err undecodable
        | some c ↦ elim later [ err e ↦ err e | ok cs ↦ ok (c ∷ cs) ]
      ]

  -- The loop of getCrashCounts over the app versions: a node that cannot be read ends it with no crash
  -- counts at all, and without an error.
  unfoldable pub crash_counts_for_apps : Nodes → Option (List CrashCount)
  unfolding crash_counts_for_nodes
  crash_counts_for_apps no_nodes = some []
  crash_counts_for_apps (more_nodes n rest) =
      let later = crash_counts_for_apps rest in
      elim (crash_counts_for_nodes (children_of n)) [
        | err e ↦ none
        | ok here ↦ elim later [ none ↦ none | some cs ↦ some (here ++ cs) ]
      ]

  unfoldable pub counts_or_none : Option (List CrashCount) → List CrashCount
  counts_or_none none = []
  counts_or_none (some cs) = cs

  module _ {D : Type 0} (adapter : Adapter D) where
    unfoldable pub save_crash_counts : List CrashCount → D → D × Outcome
    unfolding crash_count_entry
    save_crash_counts crash_counts disk =
        adapter.set_multi (map crash_count_entry crash_counts) disk

    unfoldable pub get_crash_counts : D → D × Result StoreError (List CrashCount)
    unfolding schema_root crash_counts_for_apps counts_or_none
    get_crash_counts disk =
        let (disk', listed) =
          adapter.list_recursively (schema_root conf ++ codes "/apps/crashes") disk in
        elim listed [
          | err key_not_found ↦ (disk', ok [])
          | err e ↦ (disk', err e)
          | ok n ↦ (disk', ok (counts_or_none (crash_counts_for_apps (children_of n))))
        ]

    unfoldable pub get_crash_count_for_app :
        GoString → GoString → D → D × Result StoreError (List CrashCount)
    unfolding schema_root crash_counts_for_nodes
    get_crash_count_for_app app_guid app_version disk =
        let (disk', listed) =
          adapter.list_recursively
            (schema_root conf ++ (codes "/apps/crashes/" ++ (app_guid ++ (b',' ∷ app_version))))
            disk in
        elim listed [
          | err key_not_found ↦ (disk', ok [])
          | err e ↦ (disk', err e)
          | ok n ↦ (disk', crash_counts_for_nodes (children_of n))
        ]
