-- ===== src/Models/App/Counts.antt =====
-- The queries of models/app.go, stated on the heartbeats, and bounds on the counts.
use hm.Prelude.{
  ℕ, zero, suc, ◌+◌, ◌≤◌, ◌<◌, ◌≡◌, refl, sym, ap, ◌∙◌, Bool, true, false, ◌&&◌, List, [], ◌∷◌,
  arith, any, select, length, All, In, any-select, count-le-length, All-mono, select-select,
}
use hm.Prelude.Int.{ℤ, pos, ◌≤ℤ◌, ◌<ℤ◌, pos_part}
use hm.Models.Instance.{InstanceHeartbeat, is_starting_or_running, is_running, is_starting}
use hm.Models.App.{
  App, instance_heartbeats_at_index, has_starting_or_running_instance_at_index,
  has_running_instance_at_index, has_starting_instance_at_index, has_starting_or_running_instances,
  number_of_desired_indices_with_a_starting_or_running_instance,
  number_of_desired_indices_reporting, indices_from, desired_indices, is_index_desired,
  number_of_desired_instances, is_nonempty,
}
use hm.Models.App.Index.{IsIndexed, at_index, instance_heartbeats_at_index-eq}

module _ (i : ℤ) (a : App) (ready : IsIndexed a) where
  pub any-at_index :
      (p : InstanceHeartbeat → Bool)
      → any p (instance_heartbeats_at_index i a)
        ≡ any (λ h. at_index i h && p h) a.instance_heartbeats
  any-at_index p =
      ap (any p) (instance_heartbeats_at_index-eq i a ready)
      ∙ any-select p (at_index i) a.instance_heartbeats

  pub select-at_index :
      (p : InstanceHeartbeat → Bool)
      → select p (instance_heartbeats_at_index i a)
        ≡ select (λ h. at_index i h && p h) a.instance_heartbeats
  select-at_index p =
      ap (select p) (instance_heartbeats_at_index-eq i a ready)
      ∙ select-select p (at_index i) a.instance_heartbeats

any_mono :
    (p q : InstanceHeartbeat → Bool) (hs : List InstanceHeartbeat)
    → ((h : InstanceHeartbeat) → p h ≡ true → q h ≡ true)
    → any p hs ≡ true
    → any q hs ≡ true
any_mono p q [] f e = e
any_mono p q (h ∷ hs) f e = ground (arith, f h, any_mono p q hs f)

-- An instance that starts or runs at some index starts or runs in the app.
pub has-at_index :
    (i : ℤ) (a : App)
    → IsIndexed a
    → has_starting_or_running_instance_at_index i a ≡ true
    → has_starting_or_running_instances a ≡ true
unfolding has_starting_or_running_instance_at_index has_starting_or_running_instances
has-at_index i a ready e =
    any_mono _ is_starting_or_running a.instance_heartbeats (λ h q. ground arith)
      (sym (any-at_index i a ready is_starting_or_running) ∙ e)

-- Running and starting are the two halves of starting-or-running.
pub has_halves :
    (i : ℤ) (a : App)
    → has_running_instance_at_index i a ≡ false
    → has_starting_instance_at_index i a ≡ false
    → has_starting_or_running_instance_at_index i a ≡ false
unfolding has_running_instance_at_index has_starting_instance_at_index
    has_starting_or_running_instance_at_index is_starting_or_running
has_halves i a r s = halves (instance_heartbeats_at_index i a) r s
  where
    halves :
        (hs : List InstanceHeartbeat)
        → any is_running hs ≡ false
        → any is_starting hs ≡ false
        → any is_starting_or_running hs ≡ false
    halves [] r s = r
    halves (h ∷ hs) r s = ground (arith, halves hs)

length-indices_from : (start n : ℕ) → length (indices_from start n) ≡ n
length-indices_from start zero = refl
length-indices_from start (suc n) = ap suc (length-indices_from (suc start) n)

indices_from-All :
    (low start n high : ℕ)
    → low ≤ start
    → start + n ≤ high
    → All (λ i. (pos low ≤ℤ i) × (i <ℤ pos high)) (indices_from start n)
indices_from-All low start zero high l h = tt
indices_from-All low start (suc n) high l h = (
  (omega arith, omega arith),
  indices_from-All low (suc start) n high (omega arith) (omega arith),
)

pub In-indices_from :
    (start n k : ℕ) → start ≤ k → k < start + n → In (pos k) (indices_from start n)
In-indices_from start zero k h l = absurd (omega arith)
In-indices_from start (suc n) k h l = ground (arith, In-indices_from (suc start) n k)

-- The loop visits desired indices only.
pub desired_indices-All :
    (a : App) → All (λ i. (pos 0 ≤ℤ i) × (is_index_desired i a ≡ true)) (desired_indices a)
unfolding is_index_desired
desired_indices-All a =
    All-mono _ _ (desired_indices a) (λ i q. (q.0, desired i q.0 q.1))
      (indices_from-All 0 0 (pos_part n) (pos_part n) (omega arith) (omega arith))
  where
    n : ℤ
    n = number_of_desired_instances a

    desired : (i : ℤ) → pos 0 ≤ℤ i → i <ℤ pos (pos_part n) → is_index_desired i a ≡ true
    desired i l h = ground arith

-- Every desired index that is not negative is visited.
pub In-desired_indices :
    (a : App) (k : ℕ) → is_index_desired (pos k) a ≡ true → In (pos k) (desired_indices a)
unfolding is_index_desired
In-desired_indices a k h = In-indices_from 0 _ k (omega arith) (ground arith)

-- The numbers of desired indices with an instance up, and of those reporting at all, are at most the
-- number of desired instances, and zero where that is negative.
pub counts-le-desired :
    (a : App)
    → (number_of_desired_indices_with_a_starting_or_running_instance a
        ≤ pos_part (number_of_desired_instances a))
      × (number_of_desired_indices_reporting a ≤ pos_part (number_of_desired_instances a))
unfolding number_of_desired_indices_with_a_starting_or_running_instance
    number_of_desired_indices_reporting
counts-le-desired a =
    let indices = desired_indices a in
    let size = length-indices_from 0 (pos_part (number_of_desired_instances a)) in
    (
      omega (
        arith,
        count-le-length (λ i. has_starting_or_running_instance_at_index i a) indices,
        size,
      ),
      omega (
        arith,
        count-le-length (λ i. is_nonempty (instance_heartbeats_at_index i a)) indices,
        size,
      ),
    )
