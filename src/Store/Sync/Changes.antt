-- ===== src/Store/Sync/Changes.antt =====
-- What SyncHeartbeats saves of the incoming instances: the changes, and nothing else.
use mathlib.Core.List.{append-nil, append_assoc}
use hm.Prelude.{
  ◌≡◌, refl, sym, ap, ◌∙◌, Bool, true, false, not, ◌&&◌, List, [], ◌∷◌, ◌++◌, map, ◌==◌, ==_iff,
  ==_refl, arith, All, select,
}
use hm.Prelude.Text.{GoString, string_eq}
use hm.Prelude.Float.{FloatOps}
use hm.Prelude.Map.{Map, lookup, lookup-insert}
use hm.Config.{Config}
use hm.Models.Instance.{InstanceHeartbeat, state_evacuating, state_crashed}
use hm.Store.Sync.{
  Syncing, cached_or_empty, is_unchanged, store_node_for_instance_heartbeat, sync_instance,
  sync_instances,
}

-- No other instance of the list has the GUID of an instance before it.
abbrev pub HasDistinctGuids : List InstanceHeartbeat → Type 0
HasDistinctGuids [] = Unit
HasDistinctGuids (i ∷ is) =
    All (λ j. (i.instance_guid == j.instance_guid) ≡ false) is × HasDistinctGuids is

-- The cache has the instance with this state.
abbrev pub IsCached : Map GoString InstanceHeartbeat → InstanceHeartbeat → Type 0
IsCached m i = is_unchanged i m ≡ true

-- An evacuating instance that the cache does not have as crashed or evacuating.
abbrev pub evacuates : Map GoString InstanceHeartbeat → InstanceHeartbeat → Bool
evacuates m i =
    not (is_unchanged i m)
    && i.state == state_evacuating
    && not ((cached_or_empty i.instance_guid m).state == state_crashed)

==_swap : (a b : GoString) → (a == b) ≡ false → (b == a) ≡ false
==_swap a b h = ground (arith, ==_iff a b, ==_iff b a)

module _ (conf : Config) (floats : FloatOps) where
  -- The cache after one instance, at another GUID and at its own.
  sync_instance-cache :
      (i : InstanceHeartbeat) (z : Syncing) (guid : GoString)
      → (i.instance_guid == guid) ≡ false
      → lookup guid (sync_instance conf floats i z).instance_heartbeat_cache
        ≡ lookup guid z.instance_heartbeat_cache
  unfolding sync_instance
  sync_instance-cache i z guid other =
      ground (arith, lookup-insert i.instance_guid guid i z.instance_heartbeat_cache)

  sync_instance-IsCached :
      (i : InstanceHeartbeat) (z : Syncing)
      → IsCached (sync_instance conf floats i z).instance_heartbeat_cache i
  unfolding sync_instance is_unchanged
  sync_instance-IsCached i z = ground (
    arith,
    lookup-insert i.instance_guid i.instance_guid i z.instance_heartbeat_cache,
    ==_refl i.instance_guid,
    ==_refl i.state,
  )

  -- Whether another instance is unchanged, and evacuates, is read as before.
  is_unchanged-eq :
      (m n : Map GoString InstanceHeartbeat) (j : InstanceHeartbeat)
      → lookup j.instance_guid m ≡ lookup j.instance_guid n
      → (is_unchanged j m ≡ is_unchanged j n) × (evacuates m j ≡ evacuates n j)
  unfolding is_unchanged cached_or_empty
  is_unchanged-eq m n j e = rw (is_unchanged, cached_or_empty, e) (refl, refl)

  sync_instances-cache :
      (is : List InstanceHeartbeat) (z : Syncing) (guid : GoString)
      → All (λ j. (guid == j.instance_guid) ≡ false) is
      → lookup guid (sync_instances conf floats is z).instance_heartbeat_cache
        ≡ lookup guid z.instance_heartbeat_cache
  unfolding sync_instances
  sync_instances-cache [] z guid h = refl
  sync_instances-cache (i ∷ is) z guid h =
      sync_instances-cache is (sync_instance conf floats i z) guid h.1
      ∙ sync_instance-cache i z guid (==_swap guid i.instance_guid h.0)

  -- What one step leaves of the readings of the others.
  rest-eq :
      (i : InstanceHeartbeat) (is : List InstanceHeartbeat) (z : Syncing)
      → All (λ j. (i.instance_guid == j.instance_guid) ≡ false) is
      → let m = z.instance_heartbeat_cache in
        let n = (sync_instance conf floats i z).instance_heartbeat_cache in
        (select (λ j. not (is_unchanged j n)) is ≡ select (λ j. not (is_unchanged j m)) is)
        × (select (evacuates n) is ≡ select (evacuates m) is)
  rest-eq i [] z h = (refl, refl)
  rest-eq i (j ∷ is) z h =
      let (same, moves) = is_unchanged-eq _ _ j (sync_instance-cache i z j.instance_guid h.0) in
      let (changes, evacuees) = rest-eq i is z h.1 in
      (rw (same, changes) refl, rw (moves, evacuees) refl)

  one_step :
      (i : InstanceHeartbeat) (z : Syncing)
      → let m = z.instance_heartbeat_cache in
        let z' = sync_instance conf floats i z in
        (z'.nodes_to_save
          ≡ z.nodes_to_save
            ++ map
                (store_node_for_instance_heartbeat conf floats)
                (select (λ j. not (is_unchanged j m)) (i ∷ [])))
        × (z'.heartbeats_to_evac ≡ z.heartbeats_to_evac ++ select (evacuates m) (i ∷ []))
  unfolding sync_instance
  one_step i z = ground (arith, append-nil z.nodes_to_save, append-nil z.heartbeats_to_evac)

-- A selection of a list is that of its head and that of its tail.
select_head :
    {A : Type 0} (p : A → Bool) (x : A) (xs : List A)
    → select p (x ∷ xs) ≡ select p (x ∷ []) ++ select p xs
select_head p x xs = ground arith

map-append : {A B : Type 0} (f : A → B) (xs ys : List A) → map f (xs ++ ys) ≡ map f xs ++ map f ys
map-append f [] ys = refl
map-append f (x ∷ xs) ys = ap (λ zs. f x ∷ zs) (map-append f xs ys)

-- For instances with distinct GUIDs, the nodes to save grow by exactly those of the instances that the
-- cache did not have with their state, in order; the heartbeats to evacuate grow by those that are new
-- as evacuating and were not cached as crashed; and then the cache has every instance with its state.
pub sync_instances-changes :
    (conf : Config) (floats : FloatOps) (is : List InstanceHeartbeat) (z : Syncing)
    → HasDistinctGuids is
    → let m = z.instance_heartbeat_cache in
      let z' = sync_instances conf floats is z in
      (z'.nodes_to_save
        ≡ z.nodes_to_save
          ++ map
              (store_node_for_instance_heartbeat conf floats)
              (select (λ i. not (is_unchanged i m)) is))
      × (z'.heartbeats_to_evac ≡ z.heartbeats_to_evac ++ select (evacuates m) is)
      × All (IsCached z'.instance_heartbeat_cache) is
unfolding sync_instances
sync_instances-changes conf floats [] z distinct =
    (sym (append-nil z.nodes_to_save), sym (append-nil z.heartbeats_to_evac), tt)
sync_instances-changes conf floats (i ∷ is) z distinct =
    let z1 = sync_instance conf floats i z in
    let m = z.instance_heartbeat_cache in
    let node = store_node_for_instance_heartbeat conf floats in
    let changed = λ (j : InstanceHeartbeat). not (is_unchanged j m) in
    let (nodes, evacuees, cached) = sync_instances-changes conf floats is z1 distinct.1 in
    let (first_nodes, first_evacuees) = one_step conf floats i z in
    let (same_nodes, same_evacuees) = rest-eq conf floats i is z distinct.0 in
    (
      nodes
          ∙ ap
              (λ xs.
                xs ++ map node (select (λ j. not (is_unchanged j z1.instance_heartbeat_cache)) is))
              first_nodes
          ∙ ap (λ xs. (z.nodes_to_save ++ map node (select changed (i ∷ []))) ++ map node xs)
              same_nodes
          ∙ append_assoc z.nodes_to_save (map node (select changed (i ∷ [])))
              (map node (select changed is))
          ∙ ap (λ xs. z.nodes_to_save ++ xs)
              (sym (map-append node (select changed (i ∷ [])) (select changed is))
                ∙ ap (map node) (sym (select_head changed i is))),
      evacuees
          ∙ ap (λ xs. xs ++ select (evacuates z1.instance_heartbeat_cache) is) first_evacuees
          ∙ ap (λ xs. (z.heartbeats_to_evac ++ select (evacuates m) (i ∷ [])) ++ xs) same_evacuees
          ∙ append_assoc z.heartbeats_to_evac (select (evacuates m) (i ∷ []))
              (select (evacuates m) is)
          ∙ ap (λ xs. z.heartbeats_to_evac ++ xs) (sym (select_head (evacuates m) i is)),
      (
        (is_unchanged-eq conf floats _ _ i
              (sync_instances-cache conf floats is z1 i.instance_guid distinct.0)).0
            ∙ sync_instance-IsCached conf floats i z,
        cached,
      ),
    )
