-- ===== src/Store/Compaction.antt =====
-- store/compact.go and shredder/shredder.go: what no longer belongs in the store is deleted.
pub mod Pruning
pub mod Outdated
use hm.Prelude.{
  ℕ, Bool, true, false, not, ◌&&◌, List, [], ◌∷◌, ◌++◌, Option, none, some, Result, ok, err, eqb,
  if◌then◌else◌,
}
use hm.Prelude.Int.{ltb_ℤ}
use hm.Prelude.Text.{GoString, codes, atoi, is_digit}
use hm.Config.{Config}
use hm.Store.Interface.{StoreError, Outcome}
use hm.Store.Adapter.{Adapter, Node, Nodes, node, no_nodes, more_nodes, key_of, children_of}
use hm.Store.ActualState.{schema_root}

-- What follows a prefix.
unfoldable pub after_prefix : GoString → GoString → Option GoString
after_prefix [] s = some s
after_prefix (c ∷ prefix) [] = none
after_prefix (c ∷ prefix) (b ∷ s) =
    let rest = after_prefix prefix s in if eqb c b then rest else none

-- strings.HasPrefix(s, prefix)
unfoldable pub has_prefix : GoString → GoString → Bool
unfolding after_prefix
has_prefix s prefix = elim (after_prefix prefix s) [ none ↦ false | some rest ↦ true ]

unfoldable pub all_digits : GoString → Bool
unfolding is_digit
all_digits [] = true
all_digits (c ∷ s) = is_digit c && all_digits s

-- The digits that ^/hm/v(\d+)$ matches.
unfoldable pub schema_digits : GoString → Option GoString
unfolding after_prefix all_digits
schema_digits key = elim (after_prefix (codes "/hm/v") key) [
  | none ↦ none
  | some [] ↦ none
  | some (c ∷ s) ↦ if all_digits (c ∷ s) then some (c ∷ s) else none
]

-- The key of a child of /hm is deleted.
unfoldable pub is_outdated : Config → GoString → Bool
unfolding has_prefix schema_digits atoi
is_outdated conf key =
    if has_prefix key (codes "/hm/locks") then false else elim (schema_digits key) [
      | none ↦ true
      | some digits ↦ elim (atoi digits) [
        | none ↦ true
        | some schema_version ↦ ltb_ℤ schema_version conf.store_schema_version
      ]
    ]

unfoldable pub outdated_keys : Config → Nodes → List GoString
unfolding is_outdated
outdated_keys conf no_nodes = []
outdated_keys conf (more_nodes n rest) =
    let later = outdated_keys conf rest in
    if is_outdated conf (key_of n) then key_of n ∷ later else later

module _ {D : Type 0} (adapter : Adapter D) where
  unfoldable mutual
    -- Whether the node has been deleted. The loop over no children has deleted all of them, as the
    -- branch without children has; errors of the deletions are ignored.
    pub delete_empty_directories_under : Node → D → D × Bool
    delete_empty_directories_under (node key value dir children) disk =
        let (disk', deleted_all) = delete_empty_children children disk in
        if dir
        then (if deleted_all then ((adapter.delete (key ∷ []) disk').0, true) else (disk', false))
        else (disk, false)

    pub delete_empty_children : Nodes → D → D × Bool
    delete_empty_children no_nodes disk = (disk, true)
    delete_empty_children (more_nodes n rest) disk =
        let (d1, deleted) = delete_empty_directories_under n disk in
        let (d2, deleted_all) = delete_empty_children rest d1 in (d2, deleted && deleted_all)

  module _ (conf : Config) where
    unfoldable pub delete_old_schema_versions : D → D × Outcome
    unfolding outdated_keys
    delete_old_schema_versions disk =
        let (disk', everything) = adapter.list_recursively (codes "/hm") disk in
        elim everything [
          | err e ↦ (disk', some e)
          | ok n ↦ adapter.delete (outdated_keys conf (children_of n)) disk'
        ]

    unfoldable pub delete_empty_directories : D → D × Outcome
    unfolding schema_root delete_empty_directories_under
    delete_empty_directories disk =
        let (disk', listed) = adapter.list_recursively (schema_root conf ++ codes "/") disk in
        elim listed [
          | err e ↦ (disk', some e)
          | ok n ↦ ((delete_empty_directories_under n disk').0, none)
        ]

    unfoldable pub compact : D → D × Outcome
    unfolding delete_old_schema_versions delete_empty_directories
    compact disk =
        let (d1, outcome) = delete_old_schema_versions disk in
        let (d2, emptied) = delete_empty_directories d1 in
        elim outcome [ some e ↦ (d1, some e) | none ↦ (d2, emptied) ]

    -- Shredder.Shred
    unfoldable pub shred : D → D × Outcome
    unfolding compact
    shred disk = compact disk
