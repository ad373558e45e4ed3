-- ===== src/Tests/Stored.antt =====
-- Runs of the store on an adapter that keeps one directory of named values.
use hm.Prelude.{
  ◌∙◌, ℕ, suc, ◌≡◌, ◌≢◌, refl, sym, ap, ◌⊎◌, inl, inr, Bool, true, false, not, List, [], ◌∷◌, ◌++◌,
  Option, none, some, Result, ok, err, map, All, arith, ◌<◌, if◌then◌else◌, ◌==◌, length, for_each,
  select, ◌&&◌,
}
use hm.Prelude.Int.{pos, ltb_ℤ}
use hm.Prelude.Text.{GoString, codes, itoa, string_eq, Lacks}
use hm.Prelude.Map.{Map, lookup}
use hm.Config.{defaults}
use hm.Models.Instance.{InstanceHeartbeat}
use hm.Store.Interface.{app_key}
use hm.Store.Adapter.{Node, node, no_nodes, more_nodes}
use hm.Store.Base.{Storeable, get}
use hm.Store.Base.Table.{Table, Command, saves, deletes, obey, Represents}
use hm.Store.Base.Refine.{execute_all, get-after-commands}
use hm.Store.Compaction.{is_outdated, delete_empty_directories_under}
use hm.Store.Compaction.Outdated.{is_outdated-version}
use hm.Store.Compaction.Pruning.{holds_file, hollow_keys, delete_one, deletes_hollow_directories}
use hm.Store.Apps.{apps_of}
use hm.Store.Apps.Found.{apps_of-lookup, app_with}
use hm.Tests.Disk.{root, disk_adapter, disk_adapter-IsDirectory, empty_disk}
use hm.Tests.Data.{plain_floats, first_running, one_crashed, app_name, version}

-- Texts, each under itself.
abbrev words : Storeable GoString
words = record { store_key = λ s. s; to_json = λ s. s; from_json = λ s. some s }

abbrev two_commands : List (Command GoString)
two_commands = saves (codes "a" ∷ codes "b" ∷ []) 0 ∷ deletes (codes "a" ∷ []) ∷ []

abbrev no_words : Table GoString
no_words name = none

get-after-commands_example :
    (found : Map GoString GoString) × ((get words disk_adapter defaults plain_floats root
        (execute_all words disk_adapter defaults plain_floats root two_commands empty_disk)).1
      ≡ ok found)
    × ((name : GoString) → lookup name found ≡ for_each (obey words) two_commands no_words name)
unfolding hm.Store.Base.save hm.Store.Base.delete Represents lookup
get-after-commands_example =
    get-after-commands words disk_adapter defaults plain_floats root disk_adapter-IsDirectory
      two_commands empty_disk no_words (ground arith) ((refl, (refl, tt)), (tt, tt))
      (λ name item e. refl) (refl, (refl, tt))
      (λ name. refl, λ name item e. absurd (ground (arith, e))) (inl (_, refl))

is_outdated-version_example :
    is_outdated defaults (codes "/hm/v" ++ itoa (pos 3))
    ≡ ltb_ℤ (pos 3) defaults.store_schema_version
is_outdated-version_example = is_outdated-version defaults 3 (omega arith)

-- A directory with an empty directory and one file.
abbrev some_tree : Node
some_tree = node (codes "/hm/v0/") [] true (
    more_nodes (node (codes "/hm/v0/start") [] true no_nodes)
      (more_nodes (node (codes "/hm/v0/x") (codes "1") false no_nodes) no_nodes))

deletes_hollow_directories_example :
    delete_empty_directories_under disk_adapter some_tree empty_disk ≡ (
      for_each (delete_one disk_adapter) (hollow_keys some_tree) empty_disk,
      not (holds_file some_tree),
    )
deletes_hollow_directories_example = deletes_hollow_directories disk_adapter some_tree empty_disk

abbrev elsewhere : InstanceHeartbeat
elsewhere = record first_running { app_guid = codes "oth" }

apps_of-lookup_example :
    lookup (app_key app_name version) (apps_of (first_running ∷ elsewhere ∷ one_crashed ∷ []) [])
    ≡ app_with app_name version (first_running ∷ one_crashed ∷ []) []
unfolding hm.Prelude.Text.str_eqb
apps_of-lookup_example =
    apps_of-lookup app_name version (first_running ∷ elsewhere ∷ one_crashed ∷ []) []
      (refl, (refl, (refl, tt))) tt (ground arith) (ground arith)
