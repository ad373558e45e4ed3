-- ===== src/Store/Compaction/Pruning.antt =====
-- The empty directories that a compaction deletes (store/compact.go).
use hm.Prelude.{
  ◌≡◌, refl, sym, ap, Bool, true, false, not, ◌&&◌, ◌||◌, List, [], ◌∷◌, ◌++◌, if◌then◌else◌,
  for_each, arith,
}
use hm.Prelude.Text.{GoString}
use hm.Store.Adapter.{Adapter, Node, Nodes, node, no_nodes, more_nodes}
use hm.Store.Compaction.{delete_empty_directories_under, delete_empty_children}

unfoldable mutual
  -- A node that is no directory stands somewhere at or under the node.
  pub holds_file : Node → Bool
  holds_file (node key value dir children) =
      let below = any_holds_file children in if dir then below else true

  pub any_holds_file : Nodes → Bool
  any_holds_file no_nodes = false
  any_holds_file (more_nodes n rest) = holds_file n || any_holds_file rest

unfoldable mutual
  -- The directories without a file, each one after those below it.
  pub hollow_keys : Node → List GoString
  hollow_keys (node key value dir children) =
      let below = hollow_keys_of children in
      if dir then (if any_holds_file children then below else below ++ (key ∷ [])) else []

  pub hollow_keys_of : Nodes → List GoString
  hollow_keys_of no_nodes = []
  hollow_keys_of (more_nodes n rest) = hollow_keys n ++ hollow_keys_of rest

module _ {D : Type 0} (adapter : Adapter D) where
  abbrev pub delete_one : GoString → D → D
  delete_one key disk = (adapter.delete (key ∷ []) disk).0

  for_each-append :
      (xs ys : List GoString) (disk : D)
      → for_each delete_one (xs ++ ys) disk ≡ for_each delete_one ys (for_each delete_one xs disk)
  for_each-append [] ys disk = refl
  for_each-append (x ∷ xs) ys disk = for_each-append xs ys (delete_one x disk)

  -- The directory itself goes after what is below it.
  last_step :
      (kept : Bool) (below : List GoString) (key : GoString) (disk : D)
      → ◌≡◌ {A = D × Bool}
          (if not kept
            then (delete_one key (for_each delete_one below disk), true)
            else (for_each delete_one below disk, false))
          (for_each delete_one (if kept then below else below ++ (key ∷ [])) disk, not kept)
  last_step true below key disk = refl
  last_step false below key disk = ap (λ d. (d, true)) (sym (for_each-append below (key ∷ []) disk))

  neither : (a b : Bool) → (not a && not b) ≡ not (a || b)
  neither a b = ground arith

  mutual
    unfolding delete_empty_directories_under holds_file hollow_keys

    delete_empty-hollow :
        (n : Node) (disk : D)
        → delete_empty_directories_under adapter n disk
          ≡ (for_each delete_one (hollow_keys n) disk, not (holds_file n))
    delete_empty-hollow (node key value false children) disk = refl
    delete_empty-hollow (node key value true children) disk =
        rw (delete_empty_children-hollow children disk)
          (last_step (any_holds_file children) (hollow_keys_of children) key disk)

    delete_empty_children-hollow :
        (ns : Nodes) (disk : D)
        → delete_empty_children adapter ns disk
          ≡ (for_each delete_one (hollow_keys_of ns) disk, not (any_holds_file ns))
    delete_empty_children-hollow no_nodes disk = refl
    delete_empty_children-hollow (more_nodes n rest) disk =
        rw
          (
            delete_empty-hollow n disk,
            delete_empty_children-hollow rest (for_each delete_one (hollow_keys n) disk),
          )
          (λ i. (
            sym (for_each-append (hollow_keys n) (hollow_keys_of rest) disk) i,
            neither (holds_file n) (any_holds_file rest) i,
          ))

  -- The directories at or under a node that hold no file, however deep, are deleted one by one, each
  -- after those below it, and nothing else is; the node counts as deleted if it holds no file.
  pub deletes_hollow_directories :
      (n : Node) (disk : D)
      → delete_empty_directories_under adapter n disk
        ≡ (for_each delete_one (hollow_keys n) disk, not (holds_file n))
  deletes_hollow_directories n disk = delete_empty-hollow n disk
