-- ===== src/Models/App/Index.antt =====
-- The memo of models/app.go: a lookup through it is a search of the heartbeats.
use hm.Prelude.{
  ◌≡◌, sym, ap, ◌∙◌, Bool, List, [], ◌∷◌, ◌++◌, none, some, ◌==◌, if◌then◌else◌, arith, select,
}
use mathlib.Core.List.{append-nil, append_assoc}
use hm.Prelude.Int.{ℤ, int_eq, eqb_ℤ_iff}
use hm.Prelude.Map.{Map, lookup, insert, lookup-insert}
use hm.Models.Instance.{InstanceHeartbeat}
use hm.Models.App.{
  App, at_index_or_nil, group_onto, verify_instance_heartbeats_by_index_is_ready, index_of,
  instance_heartbeats_at_index,
}

abbrev pub at_index : ℤ → InstanceHeartbeat → Bool
at_index i h = h.instance_index == i

-- The memo is absent, or it groups the heartbeats as they stand.
abbrev pub IsIndexed : App → Type 0
IsIndexed a = elim a.instance_heartbeats_by_index [
  | none ↦ Unit {0}
  | some m ↦ m ≡ group_onto a.instance_heartbeats []
]

at_index-insert :
    (k i : ℤ) (hs : List InstanceHeartbeat) (m : Map ℤ (List InstanceHeartbeat))
    → at_index_or_nil i (insert k hs m) ≡ (if k == i then hs else at_index_or_nil i m)
unfolding at_index_or_nil
at_index-insert k i hs m = ground (arith, lookup-insert k i hs m)

at_index-append :
    (i : ℤ) (h : InstanceHeartbeat) (m : Map ℤ (List InstanceHeartbeat))
    (rest : List InstanceHeartbeat)
    → at_index_or_nil i (insert h.instance_index (at_index_or_nil h.instance_index m ++ (h ∷ [])) m)
        ++ rest
      ≡ at_index_or_nil i m ++ (if at_index i h then h ∷ rest else rest)
at_index-append i h m rest = ground (
  arith,
  at_index-insert h.instance_index i (at_index_or_nil h.instance_index m ++ (h ∷ [])) m,
  eqb_ℤ_iff h.instance_index i,
  append_assoc (at_index_or_nil h.instance_index m) (h ∷ []) rest,
)

at_index-group_onto :
    (i : ℤ) (hs : List InstanceHeartbeat) (m : Map ℤ (List InstanceHeartbeat))
    → at_index_or_nil i (group_onto hs m) ≡ at_index_or_nil i m ++ select (at_index i) hs
unfolding group_onto at_index_or_nil
at_index-group_onto i [] m = sym (append-nil _)
at_index-group_onto i (h ∷ hs) m =
    at_index-group_onto i hs _
    ∙ unfold at_index_or_nil in at_index-append i h m (select (at_index i) hs)

index_of-eq : (a : App) → IsIndexed a → index_of a ≡ group_onto a.instance_heartbeats []
unfolding index_of
index_of-eq a h = ground arith

verify_ready-IsIndexed :
    (a : App) → IsIndexed a → IsIndexed (verify_instance_heartbeats_by_index_is_ready a)
unfolding verify_instance_heartbeats_by_index_is_ready
verify_ready-IsIndexed a h = ground arith

verify_ready-heartbeats :
    (a : App)
    → (verify_instance_heartbeats_by_index_is_ready a).instance_heartbeats ≡ a.instance_heartbeats
unfolding verify_instance_heartbeats_by_index_is_ready
verify_ready-heartbeats a = ground arith

-- Reading a heartbeat list through the memo, ready or not, gives the heartbeats of that index in
-- their order.
pub instance_heartbeats_at_index-eq :
    (i : ℤ) (a : App)
    → IsIndexed a
    → instance_heartbeats_at_index i a ≡ select (at_index i) a.instance_heartbeats
unfolding lookup at_index_or_nil
instance_heartbeats_at_index-eq i a h =
    unfold instance_heartbeats_at_index in
    ap (at_index_or_nil i) (index_of-eq a h) ∙ at_index-group_onto i a.instance_heartbeats []

-- Filling the memo is invisible: the invariant holds before and after, and each index reads as the
-- heartbeats of that index, in order, both from the app as it was and from the app with its memo.
pub memo_invisible :
    (i : ℤ) (a : App)
    → IsIndexed a
    → let a' = verify_instance_heartbeats_by_index_is_ready a in
      IsIndexed a'
      × (instance_heartbeats_at_index i a' ≡ select (at_index i) a.instance_heartbeats)
      × (instance_heartbeats_at_index i a ≡ select (at_index i) a.instance_heartbeats)
memo_invisible i a h =
    let h' = verify_ready-IsIndexed a h in
    (
      h',
      instance_heartbeats_at_index-eq i _ h' ∙ ap (select (at_index i)) (verify_ready-heartbeats a),
      instance_heartbeats_at_index-eq i a h,
    )
