-- ===== src/Store/Apps/Found.antt =====
-- Which app GetApps finds under a key (store/apps.go), where GUIDs have a fixed length, as UUIDs do:
-- the keys of the program join a GUID and a version by a byte that both may contain.
use hm.Prelude.{
  ℕ, ◌≡◌, ◌≢◌, refl, sym, ap, ◌∙◌, subst, inl, inr, Bool, true, false, ◌||◌, ◌&&◌, List, [], ◌∷◌,
  ◌++◌, Option, none, some, ◌==◌, ==_iff, if◌then◌else◌, for_each-keeps, for_each-finds, select,
  select-All, All, In, All-mono, All-select, length, arith, Bool-cases, Option-cases, List-cases,
  if-has,
}
use hm.Prelude.Int.{int_eq}
use hm.Prelude.Text.{GoString, string_eq, str_eqb}
use hm.Prelude.Map.{Map, lookup, values, lookup-insert}
use hm.Prelude.Map.Unique.{lookup-In, In-lookup, In-values, values-In}
use hm.Models.Instance.{InstanceHeartbeat, CrashCount}
use hm.Models.Desired.{not_desired}
use hm.Models.App.{App, new_app}
use hm.Store.Interface.{app_key}
use hm.Store.Apps.{
  AppRepresentation, AppRepresentations, no_representation, representation_id, representation_for,
  representations_of, by_instance_index, add_app, apps_of,
}
use hm.Store.Apps.Grouping.{
  has_id, counts_id, representations_of-select, representations_of-IsUnique,
}

-- Where the first parts have the same length, joined strings are the same if the parts are.
same_joined :
    (sep : ℕ) (g h v w : GoString)
    → length g ≡ length h
    → (g ++ (sep ∷ v) == h ++ (sep ∷ w)) ≡ (g == h && v == w)
unfolding str_eqb
same_joined sep [] [] v w n = ground arith
same_joined sep [] (c ∷ h) v w n = absurd (omega (arith, n))
same_joined sep (b ∷ g) [] v w n = absurd (omega (arith, n))
same_joined sep (b ∷ g) (c ∷ h) v w n =
    let m : length g ≡ length h = omega (arith, n) in ground (arith, same_joined sep g h v w m)

select-same :
    {A : Type 0} (p q : A → Bool) (xs : List A)
    → All (λ x. p x ≡ q x) xs
    → select p xs ≡ select q xs
select-same p q [] h = refl
select-same p q (x ∷ xs) h = rw (h.0, select-same p q xs h.1) refl

module _ (app_guid app_version : GoString) where
  -- The heartbeats and the crash counts of this app.
  abbrev pub is_of : InstanceHeartbeat → Bool
  is_of h = h.app_guid == app_guid && h.app_version == app_version

  abbrev pub counts_of : CrashCount → Bool
  counts_of c = c.app_guid == app_guid && c.app_version == app_version

  -- The app with these heartbeats, if there are any.
  abbrev pub app_with : List InstanceHeartbeat → List CrashCount → Option App
  app_with [] cs = none
  app_with (h ∷ hs) cs =
      some (new_app app_guid app_version not_desired (h ∷ hs) (by_instance_index cs))

  module _ (hs : List InstanceHeartbeat) (cs : List CrashCount)
      (hs_sized : All (λ h. length h.app_guid ≡ length app_guid) hs)
      (cs_sized : All (λ c. length c.app_guid ≡ length app_guid) cs) where
    abbrev id : GoString
    id = representation_id app_guid app_version

    abbrev expected : Option App
    expected = app_with (select is_of hs) (select counts_of cs)

    abbrev grouped : GoString → AppRepresentation
    grouped i = record {
      actual_state = select (has_id i) hs;
      crash_counts = select (counts_id i) cs;
    }

    grouped-id :
        grouped id ≡ record { actual_state = select is_of hs; crash_counts = select counts_of cs }
    unfolding representation_id
    grouped-id =
        let states = select-same (has_id id) is_of hs (
          All-mono _ _ hs (λ h n. same_joined b'-' h.app_guid app_guid h.app_version app_version n)
            hs_sized) in
        let counts = select-same (counts_id id) counts_of cs (
          All-mono _ _ cs (λ c n. same_joined b'-' c.app_guid app_guid c.app_version app_version n)
            cs_sized) in
        λ i. record { actual_state = states i; crash_counts = counts i }

    entry-grouped :
        (i : GoString) (r : AppRepresentation)
        → In (i, r) (representations_of hs cs)
        → r ≡ grouped i
    unfolding representation_for
    entry-grouped i r m =
        let found =
          In-lookup i r (representations_of hs cs) (representations_of-IsUnique hs cs) m in
        rw (representation_for, found) at (representations_of-select i hs cs)

    -- The heartbeats of this app, if there are any, have a representation.
    entry-there :
        (h : InstanceHeartbeat) (rest : List InstanceHeartbeat)
        → select is_of hs ≡ h ∷ rest
        → In (id, grouped id) (representations_of hs cs)
    unfolding representation_for
    entry-there h rest e = elim (Option-cases (lookup id (representations_of hs cs))) [
      | inl gone ↦
          absurd
            (nothing_there (rw (representation_for, gone) at (representations_of-select id hs cs)))
      | inr (r, found) ↦
          let m = lookup-In id r (representations_of hs cs) found in
          subst (λ x. In (id, x) (representations_of hs cs)) (entry-grouped id r m) m
    ]
      where
        nothing_there : no_representation ≡ grouped id → ⊥
        nothing_there q =
            let none_there : [] ≡ h ∷ rest = ap (λ x. x.actual_state) (q ∙ grouped-id) ∙ e in cc

    abbrev key : GoString
    key = app_key app_guid app_version

    -- What adding the app of a representation does to a lookup of this app.
    add_app-lookup :
        (h : InstanceHeartbeat) (rest : List InstanceHeartbeat) (counts : List CrashCount)
        (found : Map GoString App)
        → length h.app_guid ≡ length app_guid
        → lookup key (add_app (record { actual_state = h ∷ rest; crash_counts = counts }) found) ≡ (
            if h.app_guid == [] || h.app_version == []
            then lookup key found
            else if is_of h
            then some
                (new_app h.app_guid h.app_version not_desired (h ∷ rest) (by_instance_index counts))
            else lookup key found)
    unfolding add_app app_key new_app
    add_app-lookup h rest counts found n =
        elim (Bool-cases (h.app_guid == [] || h.app_version == [])) [
          | inl empty ↦ rw (empty) refl
          | inr full ↦ rw (full) (
              lookup-insert (app_key h.app_guid h.app_version) key
                (new_app h.app_guid h.app_version not_desired (h ∷ rest) (by_instance_index counts))
                found
              ∙ ap
                  (λ (b : Bool).
                    if b
                    then some (
                        new_app h.app_guid h.app_version not_desired (h ∷ rest)
                          (by_instance_index counts))
                    else lookup key found)
                  (same_joined b',' h.app_guid app_guid h.app_version app_version n))
        ]

    head_sized :
        (p : InstanceHeartbeat → Bool) (h : InstanceHeartbeat) (rest : List InstanceHeartbeat)
        → select p hs ≡ h ∷ rest
        → (length h.app_guid ≡ length app_guid) × (p h ≡ true)
    head_sized p h rest e = (
      (rw e at (
          All-select (λ (x : InstanceHeartbeat). length x.app_guid ≡ length app_guid) p hs
            hs_sized)).0,
      (rw e at (select-All p hs)).0,
    )

    is_of-parts :
        (h : InstanceHeartbeat)
        → is_of h ≡ true
        → (h.app_guid ≡ app_guid) × (h.app_version ≡ app_version)
    is_of-parts h mine =
        ground (arith, ==_iff h.app_guid app_guid, ==_iff h.app_version app_version)

    -- The app that this app's representation gives is the expected one.
    same_app :
        (h : InstanceHeartbeat) (rest : List InstanceHeartbeat)
        → select (has_id id) hs ≡ h ∷ rest
        → is_of h ≡ true
        → some (
            new_app h.app_guid h.app_version not_desired
              (h ∷ rest)
              (by_instance_index (select (counts_id id) cs)))
          ≡ expected
    same_app h rest e mine =
        let states : select is_of hs ≡ h ∷ rest = sym (ap (λ r. r.actual_state) grouped-id) ∙ e in
        let counts : select counts_of cs ≡ select (counts_id id) cs =
          sym (ap (λ r. r.crash_counts) grouped-id) in
        let (guid, version) = is_of-parts h mine in rw (states, counts, guid, version) refl

    same_app-at :
        (i : GoString) (h : InstanceHeartbeat) (rest : List InstanceHeartbeat)
        → select (has_id i) hs ≡ h ∷ rest
        → is_of h ≡ true
        → some (
            new_app h.app_guid h.app_version not_desired
              (h ∷ rest)
              (by_instance_index (select (counts_id i) cs)))
          ≡ expected
    same_app-at i h rest e mine =
        let (guid, version) = is_of-parts h mine in
        let its : representation_id h.app_guid h.app_version ≡ i =
          (==_iff (representation_id h.app_guid h.app_version) i).0
            (head_sized (has_id i) h rest e).1 in
        let ids : id ≡ i =
          ap (λ g. representation_id g app_version) (sym guid)
          ∙ ap (λ v. representation_id h.app_guid v) (sym version)
          ∙ its in
        subst
          (λ (x : GoString).
            select (has_id x) hs ≡ h ∷ rest
            → some (
                new_app h.app_guid h.app_version not_desired (h ∷ rest)
                  (by_instance_index (select (counts_id x) cs)))
              ≡ expected)
          ids (λ k. same_app h rest k mine) e

    add_app-keeps :
        (i : GoString) (found : Map GoString App)
        → lookup key found ≡ expected
        → lookup key (add_app (grouped i) found) ≡ expected
    unfolding add_app
    add_app-keeps i found k = elim (List-cases (select (has_id i) hs)) [
      | inl empty ↦ rw (add_app, empty) k
      | inr (h, rest, e) ↦
          subst
            (λ xs.
              lookup key (
                add_app (record { actual_state = xs; crash_counts = select (counts_id i) cs })
                  found)
              ≡ expected)
            (sym e)
            (rw
              (add_app-lookup h rest (select (counts_id i) cs) found
                (head_sized (has_id i) h rest e).0)
              (if-has (λ x. x ≡ expected) (h.app_guid == [] || h.app_version == []) (λ _. k)
                (λ _.
                  if-has (λ x. x ≡ expected) (is_of h) (λ mine. same_app-at i h rest e mine)
                    (λ _. k))))
    ]

    not_empty :
        (h : InstanceHeartbeat)
        → is_of h ≡ true
        → app_guid ≢ []
        → app_version ≢ []
        → (h.app_guid == [] || h.app_version == []) ≡ false
    not_empty h mine g v =
        let (guid, version) = is_of-parts h mine in
        rw (guid, version) (ground (arith, ==_iff app_guid [], ==_iff app_version []))

    add_app-finds :
        (h : InstanceHeartbeat) (rest : List InstanceHeartbeat) (found : Map GoString App)
        → select is_of hs ≡ h ∷ rest
        → app_guid ≢ []
        → app_version ≢ []
        → lookup key (add_app (grouped id) found) ≡ expected
    add_app-finds h rest found e g v =
        let mine = (head_sized is_of h rest e).1 in
        let e_id : select (has_id id) hs ≡ h ∷ rest = ap (λ r. r.actual_state) grouped-id ∙ e in
        subst
          (λ xs.
            lookup key (
              add_app (record { actual_state = xs; crash_counts = select (counts_id id) cs }) found)
            ≡ expected)
          (sym e_id)
          (rw
            (
              add_app-lookup h rest (select (counts_id id) cs) found (head_sized is_of h rest e).0,
              not_empty h mine g v,
              mine,
            )
            (same_app h rest e_id mine))

  -- If the GUIDs of all heartbeats and crash counts are as long as a given one, which is not empty, as
  -- its version is not, then GetApps holds, under their key, the app with the heartbeats and the crash
  -- counts of this GUID and version in order, or nothing if there are no such heartbeats.
  pub apps_of-lookup :
      (hs : List InstanceHeartbeat) (cs : List CrashCount)
      → All (λ h. length h.app_guid ≡ length app_guid) hs
      → All (λ c. length c.app_guid ≡ length app_guid) cs
      → app_guid ≢ []
      → app_version ≢ []
      → lookup (app_key app_guid app_version) (apps_of hs cs)
        ≡ app_with (select is_of hs) (select counts_of cs)
  unfolding apps_of lookup
  apps_of-lookup hs cs hs_sized cs_sized g v = elim (List-cases (select is_of hs)) [
    | inl nothing ↦ for_each-keeps add_app Holds (values reps) keeps [] (rw (nothing) refl)
    | inr (h, rest, e) ↦
        for_each-finds add_app Holds own (values reps)
          (values-In (id hs cs hs_sized cs_sized) own reps
            (entry-there hs cs hs_sized cs_sized h rest e))
          (λ found. add_app-finds hs cs hs_sized cs_sized h rest found e g v) keeps []
  ]
    where
      reps : AppRepresentations
      reps = representations_of hs cs

      own : AppRepresentation
      own = grouped hs cs hs_sized cs_sized (representation_id app_guid app_version)

      Holds : Map GoString App → Type 0
      Holds found =
          lookup (app_key app_guid app_version) found
          ≡ app_with (select is_of hs) (select counts_of cs)

      keeps :
          (r : AppRepresentation) (found : Map GoString App)
          → In r (values reps)
          → Holds found
          → Holds (add_app r found)
      keeps r found m h =
          let (i, entry) = In-values r reps m in
          subst (λ x. Holds (add_app x found))
            (sym (entry-grouped hs cs hs_sized cs_sized i r entry))
            (add_app-keeps hs cs hs_sized cs_sized i found h)
