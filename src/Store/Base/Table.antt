-- ===== src/Store/Base/Table.antt =====
-- What save, get and delete of store/store.go promise: a table of things under their keys. The
-- adapter, which is not part of the repository, is taken to keep a directory of named values.
use hm.Prelude.{
  ℕ, ◌≡◌, refl, sym, ap, subst, ◌∙◌, inl, inr, Bool, true, false, List, [], ◌∷◌, ◌++◌, Option, none,
  some, ok, err, map, ◌==◌, ==_iff, if◌then◌else◌, for_each, All, In, arith,
}
use hm.Prelude.Text.{GoString, string_eq, Lacks}
use hm.Prelude.Map.{Map, values, lookup, insert, has, lookup-insert, lookup-delete, has-lookup}
use hm.Prelude.Map.Unique.{IsUnique}
use hm.Store.Interface.{key_not_found}
use hm.Store.Adapter.{Adapter, Entry, Node, Nodes, no_nodes, more_nodes, value_of, children_of}
use hm.Store.Base.{Storeable, collect}
use hm.Prelude.Map

abbrev pub child_values : Nodes → List GoString
child_values no_nodes = []
child_values (more_nodes n rest) = value_of n ∷ child_values rest

abbrev pub path_to : GoString → GoString → GoString
path_to root name = root ++ (b'/' ∷ name)

abbrev pub named_entry : GoString → ℕ → GoString × GoString → Entry
named_entry root ttl named = record { key = path_to root (named.0); value = named.1; ttl = ttl }

abbrev pub insert_named : GoString × GoString → Map GoString GoString → Map GoString GoString
insert_named named m = insert (named.0) (named.1) m

-- What the adapter documents of a directory whose nodes have no children, and whose names have no
-- slash: it holds a value under each name; what has been written and not deleted is there.
pub record IsDirectory {D : Type 0} (adapter : Adapter D) (root : GoString) : Type 1 where
  pub entries : D → Map GoString GoString
  pub entries-IsUnique : (disk : D) → IsUnique (entries disk)
  pub written :
      (named : List (GoString × GoString)) (ttl : ℕ) (disk : D)
      → All (λ p. Lacks b'/' (p.0)) named
      → (adapter.set_multi (map (named_entry root ttl) named) disk).1 ≡ none
      → (name : GoString)
      → lookup name (entries (adapter.set_multi (map (named_entry root ttl) named) disk).0)
        ≡ lookup name (for_each insert_named named (entries disk))
  pub deleted :
      (names : List GoString) (disk : D)
      → All (Lacks b'/') names
      → (adapter.delete (map (path_to root) names) disk).1 ≡ none
      → (name : GoString)
      → lookup name (entries (adapter.delete (map (path_to root) names) disk).0)
        ≡ lookup name (for_each Map.delete names (entries disk))
  pub listed :
      (disk : D) (n : Node)
      → (adapter.list_recursively root disk).1 ≡ ok n
      → child_values (children_of n) ≡ values (entries disk)
  pub missing :
      (disk : D) → (adapter.list_recursively root disk).1 ≡ err key_not_found → entries disk ≡ []

-- The abstract view: which thing stands under a key.
abbrev pub Table : Type 0 → Type 0
Table A = GoString → Option A

pub data Command (A : Type 0) : Type 0 where
  saves : List A → ℕ → Command A
  deletes : List A → Command A

module _ {A : Type 0} (things : Storeable A) where
  abbrev pub put : A → Table A → Table A
  put item t = λ name. if things.store_key item == name then some item else t name

  abbrev pub remove : A → Table A → Table A
  remove item t = λ name. if things.store_key item == name then none else t name

  abbrev pub obey : Command A → Table A → Table A
  obey (saves items ttl) t = for_each put items t
  obey (deletes items) t = for_each remove items t

  abbrev pub items_of : Command A → List A
  items_of (saves items ttl) = items
  items_of (deletes items) = items

  abbrev pub json_of : Option A → Option GoString
  json_of none = none
  json_of (some item) = some (things.to_json item)

  -- Values and tables under the same names.
  unfoldable pub Represents : Map GoString GoString → Table A → Type 0
  Represents m t =
      ((name : GoString) → lookup name m ≡ json_of (t name))
      × ((name : GoString) (item : A) → t name ≡ some item → things.store_key item ≡ name)

  -- A thing whose JSON gives it back.
  abbrev pub IsReadBack : A → Type 0
  IsReadBack item = things.from_json (things.to_json item) ≡ some item

  abbrev pub HoldsReadBack : Table A → Type 0
  HoldsReadBack t = (name : GoString) (item : A) → t name ≡ some item → IsReadBack item

  unfoldable pub named : A → GoString × GoString
  named item = (things.store_key item, things.to_json item)

  json_of-choice :
      (b : Bool) (x y : Option GoString) (u w : Option A)
      → x ≡ json_of u
      → y ≡ json_of w
      → (if b then x else y) ≡ json_of (if b then u else w)
  json_of-choice true x y u w p q = p
  json_of-choice false x y u w p q = q

  -- What stands under a key of a choice between these two has that key, if both do.
  keyed-choice :
      (b : Bool) (name : GoString) (u w : Option A)
      → ((item : A) → b ≡ true → u ≡ some item → things.store_key item ≡ name)
      → ((item : A) → w ≡ some item → things.store_key item ≡ name)
      → (item : A) → (if b then u else w) ≡ some item
      → things.store_key item ≡ name
  keyed-choice true name u w p q item e = p item refl e
  keyed-choice false name u w p q item e = q item e

  put-Represents :
      (item : A) (m : Map GoString GoString) (t : Table A)
      → Represents m t
      → Represents (insert (things.store_key item) (things.to_json item) m) (put item t)
  unfolding Represents
  put-Represents item m t (same, keyed) = (
    λ name.
        lookup-insert (things.store_key item) name (things.to_json item) m
        ∙ json_of-choice (things.store_key item == name) _ _ (some item) (t name) refl (same name),
    λ name.
        keyed-choice (things.store_key item == name) name (some item) (t name)
          (λ held hit e.
            ap things.store_key (let u : held ≡ item = cc in u)
            ∙ (==_iff (things.store_key item) name).0 hit)
          (keyed name),
  )

  remove-Represents :
      (item : A) (m : Map GoString GoString) (t : Table A)
      → Represents m t
      → Represents (Map.delete (things.store_key item) m) (remove item t)
  unfolding Represents
  remove-Represents item m t (same, keyed) = (
    λ name.
        lookup-delete (things.store_key item) name m
        ∙ json_of-choice (things.store_key item == name) _ _ none (t name) refl (same name),
    λ name.
        keyed-choice (things.store_key item == name) name none (t name)
          (λ held hit e. absurd (ground (arith, e))) (keyed name),
  )

  readback-choice :
      (b : Bool) (u w : Option A)
      → ((item : A) → u ≡ some item → IsReadBack item)
      → ((item : A) → w ≡ some item → IsReadBack item)
      → (item : A) → (if b then u else w) ≡ some item
      → IsReadBack item
  readback-choice true u w p q item e = p item e
  readback-choice false u w p q item e = q item e

  pub puts-HoldsReadBack :
      (items : List A) (t : Table A)
      → All IsReadBack items
      → HoldsReadBack t
      → HoldsReadBack (for_each put items t)
  puts-HoldsReadBack [] t all h = h
  puts-HoldsReadBack (item ∷ items) t all h = puts-HoldsReadBack items (put item t) all.1 (λ name.
      readback-choice (things.store_key item == name) (some item) (t name)
        (λ held e. subst IsReadBack (let u : item ≡ held = cc in u) all.0) (h name))

  pub removes-HoldsReadBack :
      (items : List A) (t : Table A) → HoldsReadBack t → HoldsReadBack (for_each remove items t)
  removes-HoldsReadBack [] t h = h
  removes-HoldsReadBack (item ∷ items) t h = removes-HoldsReadBack items (remove item t) (λ name.
      readback-choice (things.store_key item == name) none (t name)
        (λ held e. absurd (ground (arith, e))) (h name))

  pub Represents-same :
      (m m' : Map GoString GoString) (t : Table A)
      → ((name : GoString) → lookup name m' ≡ lookup name m)
      → Represents m t
      → Represents m' t
  unfolding Represents
  Represents-same m m' t e (same, keyed) = (λ name. e name ∙ same name, keyed)

  pub puts-Represents :
      (items : List A) (m : Map GoString GoString) (t : Table A)
      → Represents m t
      → Represents (for_each insert_named (map named items) m) (for_each put items t)
  unfolding named
  puts-Represents [] m t h = h
  puts-Represents (item ∷ items) m t h =
      puts-Represents items _ (put item t) (put-Represents item m t h)

  pub removes-Represents :
      (items : List A) (m : Map GoString GoString) (t : Table A)
      → Represents m t
      → Represents (for_each Map.delete (map things.store_key items) m) (for_each remove items t)
  removes-Represents [] m t h = h
  removes-Represents (item ∷ items) m t h =
      removes-Represents items _ (remove item t) (remove-Represents item m t h)

  pub item_under :
      (json : GoString) (o : Option A)
      → some json ≡ json_of o
      → (item : A) × (o ≡ some item) × (json ≡ things.to_json item)
  item_under json none e = absurd (ground (arith, e))
  item_under json (some item) e = (item, refl, cc)

  -- A value that both tests would give.
  either_test :
      (b c : Bool) (x y z : Option A)
      → (b ≡ true → x ≡ y)
      → (if c then x else if b then y else z) ≡ (if (if b then true else c) then x else z)
  either_test true true x y z h = refl
  either_test true false x y z h = sym (h refl)
  either_test false true x y z h = refl
  either_test false false x y z h = refl

  -- The values of a map that represents a table are read back as the table.
  pub collect-Represents :
      (t : Table A)
      → HoldsReadBack t
      → (nodes : Nodes) (m : Map GoString GoString) (found : Map GoString A)
      → child_values nodes ≡ values m
      → ((name json : GoString) → In (name, json) m → some json ≡ json_of (t name))
      → ((name : GoString) (item : A) → t name ≡ some item → things.store_key item ≡ name)
      → (found' : Map GoString A) × (collect things nodes found ≡ ok found')
        × ((name : GoString)
            → lookup name found' ≡ (if has name m then t name else lookup name found))
  unfolding collect has
  collect-Represents t decodes no_nodes [] found e each keyed = (found, refl, λ name. refl)
  collect-Represents t decodes no_nodes (p ∷ m) found e each keyed = absurd (ground (arith, e))
  collect-Represents t decodes (more_nodes n rest) [] found e each keyed =
      absurd (ground (arith, e))
  collect-Represents t decodes (more_nodes n rest) ((name, json) ∷ m) found e each keyed =
      let (item, held, is_json) = item_under json (t name) (each name json (inl refl)) in
      let first : value_of n ≡ json = cc in
      let later : child_values rest ≡ values m = cc in
      let decoded : things.from_json (value_of n) ≡ some item =
        ap things.from_json (first ∙ is_json) ∙ decodes name item held in
      let (found', done, all) =
        collect-Represents t decodes rest m (insert (things.store_key item) item found) later
          (λ name' json' k. each name' json' (inr k)) keyed in
      (
        found',
        rw (collect, decoded) done,
        λ name'.
            all name'
            ∙ ap (λ x. if has name' m then t name' else x)
                (lookup-insert (things.store_key item) name' item found)
            ∙ ap
                (λ (k : GoString).
                  if has name' m
                  then t name'
                  else if k == name'
                  then some item
                  else lookup name' found)
                (keyed name item held)
            ∙ either_test (name == name') (has name' m) (t name') (some item) (lookup name' found)
                (λ hit. ap t (sym ((==_iff name name').0 hit)) ∙ held),
      )
