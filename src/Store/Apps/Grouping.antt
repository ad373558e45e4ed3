-- ===== src/Store/Apps/Grouping.antt =====
-- The grouping of heartbeats and crash counts into apps, in store/apps.go, against its description by
-- selection.
use mathlib.Core.List.{append-nil, append_assoc}
use hm.Prelude.{
  select-append, ◌≡◌, refl, sym, ap, ◌∙◌, inl, inr, Bool, List, [], ◌∷◌, ◌++◌, ◌==◌, ==_iff,
  if◌then◌else◌, for_each, for_each-keeps, select, arith, Bool-cases,
}
use hm.Prelude.Int.{int_eq}
use hm.Prelude.Text.{GoString, string_eq}
use hm.Prelude.Map.{lookup, insert, lookup-insert}
use hm.Prelude.Map.Unique.{IsUnique, IsUnique-insert}
use hm.Models.Instance.{InstanceHeartbeat, CrashCount}
use hm.Store.Apps.{
  AppRepresentation, AppRepresentations, representation_id, representation_for, add_actual_state,
  add_crash_count, representations_of,
}

module _ (id : GoString) where
  abbrev pub has_id : InstanceHeartbeat → Bool
  has_id h = representation_id h.app_guid h.app_version == id

  abbrev pub counts_id : CrashCount → Bool
  counts_id c = representation_id c.app_guid c.app_version == id

  representation_for-insert :
      (key : GoString) (r : AppRepresentation) (m : AppRepresentations)
      → representation_for id (insert key r m) ≡ (if key == id then r else representation_for id m)
  unfolding representation_for
  representation_for-insert key r m =
      rw (representation_for, lookup-insert key id r m) (ground arith)

  actual_state-add :
      (h : InstanceHeartbeat) (m : AppRepresentations)
      → ((representation_for id (add_actual_state h m)).actual_state
          ≡ (representation_for id m).actual_state ++ select has_id (h ∷ []))
        × ((representation_for id (add_actual_state h m)).crash_counts
            ≡ (representation_for id m).crash_counts)
  unfolding add_actual_state
  actual_state-add h m = elim (Bool-cases (has_id h)) [
    | inl hit ↦
        rw
          (
            representation_for-insert (representation_id h.app_guid h.app_version) _ m,
            hit,
            (==_iff (representation_id h.app_guid h.app_version) id).0 hit,
          )
          (refl, refl)
    | inr miss ↦
        rw
          (
            representation_for-insert (representation_id h.app_guid h.app_version) _ m,
            miss,
            append-nil (representation_for id m).actual_state,
          )
          (refl, refl)
  ]

  crash_count-add :
      (c : CrashCount) (m : AppRepresentations)
      → ((representation_for id (add_crash_count c m)).crash_counts
          ≡ (representation_for id m).crash_counts ++ select counts_id (c ∷ []))
        × ((representation_for id (add_crash_count c m)).actual_state
            ≡ (representation_for id m).actual_state)
  unfolding add_crash_count
  crash_count-add c m = elim (Bool-cases (counts_id c)) [
    | inl hit ↦
        rw
          (
            representation_for-insert (representation_id c.app_guid c.app_version) _ m,
            hit,
            (==_iff (representation_id c.app_guid c.app_version) id).0 hit,
          )
          (refl, refl)
    | inr miss ↦
        rw
          (
            representation_for-insert (representation_id c.app_guid c.app_version) _ m,
            miss,
            append-nil (representation_for id m).crash_counts,
          )
          (refl, refl)
  ]

  actual_states-add :
      (hs : List InstanceHeartbeat) (m : AppRepresentations)
      → ((representation_for id (for_each add_actual_state hs m)).actual_state
          ≡ (representation_for id m).actual_state ++ select has_id hs)
        × ((representation_for id (for_each add_actual_state hs m)).crash_counts
            ≡ (representation_for id m).crash_counts)
  actual_states-add [] m = (sym (append-nil _), refl)
  actual_states-add (h ∷ hs) m =
      let rest = actual_states-add hs (add_actual_state h m) in
      let one = actual_state-add h m in
      (
        rest.0
            ∙ ap (λ (xs : List InstanceHeartbeat). xs ++ select has_id hs) one.0
            ∙ append_assoc (representation_for id m).actual_state (select has_id (h ∷ []))
                (select has_id hs)
            ∙ ap (λ xs. (representation_for id m).actual_state ++ xs)
                (sym (select-append has_id (h ∷ []) hs)),
        rest.1 ∙ one.1,
      )

  crash_counts-add :
      (cs : List CrashCount) (m : AppRepresentations)
      → ((representation_for id (for_each add_crash_count cs m)).crash_counts
          ≡ (representation_for id m).crash_counts ++ select counts_id cs)
        × ((representation_for id (for_each add_crash_count cs m)).actual_state
            ≡ (representation_for id m).actual_state)
  crash_counts-add [] m = (sym (append-nil _), refl)
  crash_counts-add (c ∷ cs) m =
      let rest = crash_counts-add cs (add_crash_count c m) in
      let one = crash_count-add c m in
      (
        rest.0
            ∙ ap (λ (xs : List CrashCount). xs ++ select counts_id cs) one.0
            ∙ append_assoc (representation_for id m).crash_counts (select counts_id (c ∷ []))
                (select counts_id cs)
            ∙ ap (λ xs. (representation_for id m).crash_counts ++ xs)
                (sym (select-append counts_id (c ∷ []) cs)),
        rest.1 ∙ one.1,
      )

  -- The representation under an id holds what has that id, in order.
  pub representations_of-select :
      (hs : List InstanceHeartbeat) (cs : List CrashCount)
      → representation_for id (representations_of hs cs)
        ≡ record { actual_state = select has_id hs; crash_counts = select counts_id cs }
  unfolding representations_of representation_for lookup
  representations_of-select hs cs =
      let begun = for_each add_actual_state hs [] in
      let counted = crash_counts-add cs begun in
      let grouped = actual_states-add hs [] in
      let states = counted.1 ∙ grouped.0 in
      let counts = counted.0 ∙ ap (λ (xs : List CrashCount). xs ++ select counts_id cs) grouped.1 in
      λ i. record { actual_state = states i; crash_counts = counts i }

-- The keys of the representations differ.
pub representations_of-IsUnique :
    (hs : List InstanceHeartbeat) (cs : List CrashCount) → IsUnique (representations_of hs cs)
unfolding representations_of add_actual_state add_crash_count
representations_of-IsUnique hs cs =
    for_each-keeps add_crash_count IsUnique cs (λ c m _ u. IsUnique-insert _ _ m u) _
      (for_each-keeps add_actual_state IsUnique hs (λ h m _ u. IsUnique-insert _ _ m u) [] tt)
