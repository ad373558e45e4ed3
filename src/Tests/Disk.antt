-- ===== src/Tests/Disk.antt =====
-- An adapter that keeps one directory of named values.
use mathlib.Core.Bool.{true≢false}
use hm.Prelude.{
  ◌∙◌, ℕ, ◌≡◌, refl, sym, ap, Bool, true, false, List, [], ◌∷◌, ◌++◌, none, some, Result, ok, err,
  map, for_each,
}
use hm.Prelude.Text.{GoString, codes, string_eq}
use hm.Prelude.Map.{Map, lookup, insert, values, delete}
use hm.Prelude.Map.Unique.{IsUnique, IsUnique-insert, IsUnique-delete}
use hm.Store.Interface.{StoreError, key_not_found}
use hm.Store.Adapter.{Adapter, Entry, Node, Nodes, node, no_nodes, more_nodes, children_of}
use hm.Store.Base.Table.{IsDirectory, child_values, named_entry, path_to, insert_named}
use hm.Store.Compaction.{after_prefix}

-- A map whose keys differ.
abbrev pub Disk : Type 0
Disk = (m : Map GoString GoString) × IsUnique m

abbrev pub root : GoString
root = codes "/hm/v0/start"

-- The part of a key behind the root and a slash.
unfoldable pub name_of : GoString → GoString
unfolding after_prefix
name_of key = elim (after_prefix (root ++ codes "/") key) [ none ↦ key | some name ↦ name ]

abbrev pub write_one : Entry → Disk → Disk
write_one e (m, u) = (insert (name_of e.key) e.value m, IsUnique-insert (name_of e.key) e.value m u)

abbrev pub delete_key : GoString → Disk → Disk
delete_key key (m, u) = (delete (name_of key) m, IsUnique-delete (name_of key) m u)

unfoldable pub nodes_of : Map GoString GoString → Nodes
nodes_of [] = no_nodes
nodes_of ((name, value) ∷ m) =
    more_nodes (node (path_to root name) value false no_nodes) (nodes_of m)

abbrev pub disk_adapter : Adapter Disk
disk_adapter = record {
  list_recursively = λ key disk. (disk, ok (node key [] true (nodes_of (disk.0))));
  get = λ key disk. (disk, err key_not_found);
  set_multi = λ es disk. (for_each write_one es disk, none);
  delete = λ keys disk. (for_each delete_key keys disk, none);
}

pub write_all :
    (named : List (GoString × GoString)) (ttl : ℕ) (disk : Disk)
    → (for_each write_one (map (named_entry root ttl) named) disk).0
      ≡ for_each insert_named named (disk.0)
unfolding name_of after_prefix
write_all [] ttl disk = refl
write_all (p ∷ named) ttl disk = write_all named ttl (write_one (named_entry root ttl p) disk)

pub delete_all :
    (names : List GoString) (disk : Disk)
    → (for_each delete_key (map (path_to root) names) disk).0 ≡ for_each delete names (disk.0)
unfolding name_of after_prefix
delete_all [] disk = refl
delete_all (name ∷ names) disk = delete_all names (delete_key (path_to root name) disk)

pub child_values-of : (m : Map GoString GoString) → child_values (nodes_of m) ≡ values m
unfolding nodes_of
child_values-of [] = refl
child_values-of ((name, value) ∷ m) = ap (λ vs. value ∷ vs) (child_values-of m)

abbrev pub children_found : Result StoreError Node → List GoString
children_found (ok n) = child_values (children_of n)
children_found (err e) = []

abbrev pub is_listed : Result StoreError Node → Bool
is_listed (ok n) = true
is_listed (err e) = false

abbrev pub disk_adapter-IsDirectory : IsDirectory disk_adapter root
disk_adapter-IsDirectory = record {
  entries = λ disk. disk.0;
  entries-IsUnique = λ disk. disk.1;
  written = λ named ttl disk lacks done name. ap (lookup name) (write_all named ttl disk);
  deleted = λ names disk lacks done name. ap (lookup name) (delete_all names disk);
  listed = λ disk n done. sym (ap children_found done) ∙ child_values-of (disk.0);
  missing = λ disk gone. absurd (true≢false (ap is_listed gone));
}

abbrev pub empty_disk : Disk
empty_disk = ([], tt)
