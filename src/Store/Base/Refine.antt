-- ===== src/Store/Base/Refine.antt =====
-- save, get and delete of store/store.go keep a table of things under their keys.
use hm.Prelude.{
  ℕ, ◌≡◌, refl, sym, ap, subst, ◌∙◌, ◌⊎◌, inl, inr, true, false, List, [], ◌∷◌, Option, none, some,
  ok, err, map, if◌then◌else◌, for_each, All, In,
}
use hm.Prelude.Text.{GoString, string_eq, Lacks}
use hm.Prelude.Float.{FloatOps}
use hm.Prelude.Map.{Map, lookup, has, has-lookup}
use hm.Prelude.Map.Unique.{In-lookup}
use hm.Config.{Config}
use hm.Store.Interface.{Outcome, key_not_found}
use hm.Store.Adapter.{Adapter, Node, children_of}
use hm.Store.ActualState.{list_or_empty}
use hm.Store.Base.{Storeable, key_under, entry_under, collect, save, get, delete}
use hm.Store.Base.Table.{
  IsReadBack, HoldsReadBack, puts-HoldsReadBack, removes-HoldsReadBack, IsDirectory, Table, Command,
  saves, deletes, obey, items_of, json_of, Represents, named, named_entry, path_to, Represents-same,
  puts-Represents, removes-Represents, collect-Represents,
}

map_twice :
    {A B C : Type 0} (f : B → C) (g : A → B) (xs : List A)
    → map f (map g xs) ≡ map (λ x. f (g x)) xs
map_twice f g [] = refl
map_twice f g (x ∷ xs) = ap (λ ys. f (g x) ∷ ys) (map_twice f g xs)

All-map :
    {A B : Type 0} (P : B → Type 0) (f : A → B) (xs : List A)
    → All (λ x. P (f x)) xs
    → All P (map f xs)
All-map P f [] h = tt
All-map P f (x ∷ xs) h = (h.0, All-map P f xs h.1)

module _ {D A : Type 0} (things : Storeable A) (adapter : Adapter D) (conf : Config)
    (floats : FloatOps) (root : GoString) where
  abbrev pub execute : Command A → D → D × Outcome
  execute (saves items ttl) disk = save things adapter conf floats items root ttl disk
  execute (deletes items) disk = delete things adapter conf floats items root disk

  abbrev pub execute_all : List (Command A) → D → D
  execute_all [] disk = disk
  execute_all (c ∷ cs) disk = execute_all cs (execute c disk).0

  -- Every command succeeds, in its turn.
  abbrev pub Succeeds : List (Command A) → D → Type 0
  Succeeds [] disk = Unit
  Succeeds (c ∷ cs) disk = ((execute c disk).1 ≡ none) × Succeeds cs (execute c disk).0

  abbrev pub LacksSlash : Command A → Type 0
  LacksSlash c = All (λ item. Lacks b'/' (things.store_key item)) (items_of things c)

  -- What is saved can be read back.
  abbrev pub SavesReadBack : Command A → Type 0
  SavesReadBack (saves items ttl) = All (IsReadBack things) items
  SavesReadBack (deletes items) = Unit

  obey-HoldsReadBack :
      (c : Command A) (t : Table A)
      → SavesReadBack c
      → HoldsReadBack things t
      → HoldsReadBack things (obey things c t)
  obey-HoldsReadBack (saves items ttl) t all h = puts-HoldsReadBack things items t all h
  obey-HoldsReadBack (deletes items) t all h = removes-HoldsReadBack things items t h

  for_each-HoldsReadBack :
      (cs : List (Command A)) (t : Table A)
      → All SavesReadBack cs
      → HoldsReadBack things t
      → HoldsReadBack things (for_each (obey things) cs t)
  for_each-HoldsReadBack [] t all h = h
  for_each-HoldsReadBack (c ∷ cs) t all h =
      for_each-HoldsReadBack cs (obey things c t) all.1 (obey-HoldsReadBack c t all.0 h)

  module _ (directory : IsDirectory adapter root) where
    saved-Represents :
        (items : List A) (ttl : ℕ) (disk : D) (t : Table A)
        → All (λ item. Lacks b'/' (things.store_key item)) items
        → (save things adapter conf floats items root ttl disk).1 ≡ none
        → Represents things (directory.entries disk) t
        → Represents things
            (directory.entries (save things adapter conf floats items root ttl disk).0)
            (obey things (saves items ttl) t)
    unfolding save entry_under key_under named
    saved-Represents items ttl disk t lacks done h =
        let fused = map_twice (named_entry root ttl) (named things) items in
        let written =
          directory.written (map (named things) items) ttl disk
            (All-map (λ p. Lacks b'/' (p.0)) (named things) items lacks)
            (subst (λ es. (adapter.set_multi es disk).1 ≡ none) (sym fused) done) in
        subst
          (λ es.
            Represents things (directory.entries (adapter.set_multi es disk).0)
              (obey things (saves items ttl) t))
          fused (Represents-same things _ _ _ written (puts-Represents things items _ t h))

    deleted-Represents :
        (items : List A) (disk : D) (t : Table A)
        → All (λ item. Lacks b'/' (things.store_key item)) items
        → (delete things adapter conf floats items root disk).1 ≡ none
        → Represents things (directory.entries disk) t
        → Represents things
            (directory.entries (delete things adapter conf floats items root disk).0)
            (obey things (deletes items) t)
    unfolding delete key_under
    deleted-Represents items disk t lacks done h =
        let fused = map_twice (path_to root) things.store_key items in
        let gone =
          directory.deleted (map things.store_key items) disk
            (All-map (Lacks b'/') things.store_key items lacks)
            (subst (λ keys. (adapter.delete keys disk).1 ≡ none) (sym fused) done) in
        subst
          (λ keys.
            Represents things (directory.entries (adapter.delete keys disk).0)
              (obey things (deletes items) t))
          fused (Represents-same things _ _ _ gone (removes-Represents things items _ t h))

    execute-Represents :
        (c : Command A) (disk : D) (t : Table A)
        → LacksSlash c
        → (execute c disk).1 ≡ none
        → Represents things (directory.entries disk) t
        → Represents things (directory.entries (execute c disk).0) (obey things c t)
    execute-Represents (saves items ttl) = saved-Represents items ttl
    execute-Represents (deletes items) = deleted-Represents items

    execute_all-Represents :
        (cs : List (Command A)) (disk : D) (t : Table A)
        → All LacksSlash cs
        → Succeeds cs disk
        → Represents things (directory.entries disk) t
        → Represents things (directory.entries (execute_all cs disk)) (for_each (obey things) cs t)
    execute_all-Represents [] disk t lacks done h = h
    execute_all-Represents (c ∷ cs) disk t lacks done h =
        execute_all-Represents cs (execute c disk).0 (obey things c t) lacks.1 done.1
          (execute-Represents c disk t lacks.0 done.0 h)

    entries-hold :
        (disk : D) (t : Table A)
        → Represents things (directory.entries disk) t
        → (name json : GoString) → In (name, json) (directory.entries disk)
        → some json ≡ json_of things (t name)
    unfolding Represents
    entries-hold disk t (same, keyed) name json m =
        sym (In-lookup name json (directory.entries disk) (directory.entries-IsUnique disk) m)
        ∙ same name

    in_entries :
        (disk : D) (t : Table A)
        → Represents things (directory.entries disk) t
        → (name : GoString) → (if has name (directory.entries disk) then t name else none) ≡ t name
    unfolding Represents
    in_entries disk t (same, keyed) name =
        rw (has-lookup name (directory.entries disk), same name) (held (t name))
      where
        held :
            (o : Option A)
            → (if elim (json_of things o) [ none ↦ false | some _ ↦ true ] then o else none) ≡ o
        held none = refl
        held (some item) = refl

    -- A directory that is listed, or is missing, is read as the table.
    get-Represents :
        (disk : D) (t : Table A)
        → HoldsReadBack things t
        → ((n : Node) × ((adapter.list_recursively root disk).1 ≡ ok n))
          ⊎ ((adapter.list_recursively root disk).1 ≡ err key_not_found)
        → Represents things (directory.entries disk) t
        → (found : Map GoString A) × ((get things adapter conf floats root disk).1 ≡ ok found)
          × ((name : GoString) → lookup name found ≡ t name)
    unfolding Represents get list_or_empty lookup has collect
    get-Represents disk t decodes (inl (n, listed)) (same, keyed) =
        let (found, done, all) =
          collect-Represents things t decodes (children_of n) (directory.entries disk) []
            (directory.listed disk n listed) (entries-hold disk t (same, keyed)) keyed in
        (
          found,
          rw (get, list_or_empty, listed) done,
          λ name. all name ∙ in_entries disk t (same, keyed) name,
        )
    get-Represents disk t decodes (inr missing) (same, keyed) = (
      [],
      rw (get, list_or_empty, missing) refl,
      λ name. rw (directory.missing disk missing) at (in_entries disk t (same, keyed) name),
    )

    -- If what the table holds at first and what is saved is read back from its JSON, the keys have no
    -- slash, the directory holds the table, each of the saves and deletes succeeds, and the directory
    -- can be listed at the end or is missing, then get returns the table that the same puts and
    -- removals make of the first one.
    pub get-after-commands :
        (cs : List (Command A)) (disk : D) (t : Table A)
        → All LacksSlash cs
        → All SavesReadBack cs
        → HoldsReadBack things t
        → Succeeds cs disk
        → Represents things (directory.entries disk) t
        → ((n : Node) × ((adapter.list_recursively root (execute_all cs disk)).1 ≡ ok n))
          ⊎ ((adapter.list_recursively root (execute_all cs disk)).1 ≡ err key_not_found)
        → (found : Map GoString A) × ((get things adapter conf floats root (execute_all cs disk)).1
            ≡ ok found)
          × ((name : GoString) → lookup name found ≡ for_each (obey things) cs t name)
    get-after-commands cs disk t lacks read first done h listed =
        get-Represents (execute_all cs disk) (for_each (obey things) cs t)
          (for_each-HoldsReadBack cs t read first) listed
          (execute_all-Represents cs disk t lacks done h)
