-- ===== src/Commands/Walk.antt =====
-- What a raw dump finds (hm/store.go) and what a compaction leaves (store/compact.go).
use hm.Prelude.{◌≡◌, refl, Bool, true, false, not, ◌||◌, List, [], ◌∷◌, ◌++◌, arith}
use hm.Prelude.Text.{GoString}
use hm.Store.Adapter.{Node, Nodes, node, no_nodes, more_nodes}
use hm.Store.Compaction.Pruning.{holds_file, any_holds_file}
use hm.Commands.{walk, walk_children, visit}

abbrev pub is_empty {ℓ} : {A : Type ℓ} → List A → Bool
is_empty [] = true
is_empty (x ∷ xs) = false

neither_found {ℓ} :
    {A : Type ℓ} (a b : Bool) (xs ys : List A)
    → is_empty xs ≡ not a
    → is_empty ys ≡ not b
    → is_empty (xs ++ ys) ≡ not (a || b)
neither_found a b [] ys p q = ground (arith, p, q)
neither_found a b (x ∷ xs) ys p q = ground (arith, p)

mutual
  unfolding walk holds_file

  visit-holds_file : (n : Node) → is_empty (visit n) ≡ not (holds_file n)
  visit-holds_file (node key value false children) = refl
  visit-holds_file (node key value true children) = walk_children-holds_file children

  walk_children-holds_file : (ns : Nodes) → is_empty (walk_children ns) ≡ not (any_holds_file ns)
  walk_children-holds_file no_nodes = refl
  walk_children-holds_file (more_nodes n rest) =
      neither_found (holds_file n) (any_holds_file rest) (visit n) (walk_children rest)
        (visit-holds_file n) (walk_children-holds_file rest)

-- A raw dump finds something at or under a directory exactly if a compaction does not count the
-- directory as empty.
pub walk-holds_file :
    (key value : GoString) (children : Nodes)
    → is_empty (walk (node key value true children))
      ≡ not (holds_file (node key value true children))
unfolding walk holds_file
walk-holds_file key value children = walk_children-holds_file children
