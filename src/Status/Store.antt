-- ===== src/Status/Store.antt =====
-- The state that `DeviceStatus` keeps. `_StatusMeta` puts `_descriptors` and `_embedded` on the class, so
-- that all containers of a class share them; `_parent` becomes the container's own when it is embedded.
use python_miio.Base.{
  ℕ, zero, suc, String, ◌||◌, Option, none, some, List, [], ◌∷◌, ◌++◌, map, drop, length, ◌==◌,
  if◌then◌else◌, str_eq,
}
use python_miio.Base.Text.{text_length}
use python_miio.Python.Value.{Value}
use python_miio.Python.Dict.{Dict, text_eq, lookup, insert, contains}
use python_miio.Python.Result.{
  Result, ok, err, attribute_error, key_error, value_error, runtime_error,
}
use python_miio.Python.Action.{Action, pure, modify, ◌>>◌}
use python_miio.Descriptors.Defs.{Descriptor}
use python_miio.Descriptors.Collection.{Collection}
use python_miio.Miot.Generic.Status.{is_dunder}
use python_miio.Status.Names.{split_name, qualified}

-- Classes and containers are known by numbers.
pub record StatusClass (M : Type 0) : Type 0 where
  pub descriptors : Collection M
  pub embedded : Dict String ℕ

pub record Status : Type 0 where
  pub class_id : ℕ
  pub parent : Option ℕ
  -- `object.__getattribute__`: the properties and methods of the class
  pub own : String → Result Value

pub record Store (M : Type 0) : Type 0 where
  pub classes : ℕ → StatusClass M
  pub statuses : ℕ → Status

-- What reading an attribute gives: a value, or an embedded container.
pub data Attribute : Type 0 where
  value : Value → Attribute
  container : ℕ → Attribute

-- `self._embedded[embed]`, and the attribute read there
abbrev pub read_embedded : (ℕ → String → Result Attribute) → String → Option ℕ → Result Attribute
read_embedded getattr prop none = err key_error
read_embedded getattr prop (some other) = getattr other prop

-- the part of `__getattr__` that splits the name
abbrev pub read_split :
    (ℕ → String → Result Attribute) → Dict String ℕ → Option (String × String) → Result Attribute
read_split getattr embedded none = err attribute_error
read_split getattr embedded (some (embed, prop)) =
    if str_eq embed "" || str_eq prop ""
    then err attribute_error
    else read_embedded getattr prop (lookup embed embedded)

-- `if item in self._embedded: return self._embedded[item]`
abbrev pub container_or : Option ℕ → Result Attribute → Result Attribute
container_or none missing = missing
container_or (some other) missing = ok (container other)

-- an `AttributeError` of the usual lookup makes Python call `__getattr__`
abbrev pub own_or_missing : Result Value → Result Attribute → Result Attribute
own_or_missing (ok v) missing = ok (value v)
own_or_missing (err attribute_error) missing = missing
own_or_missing (err e) missing = err e

module _ {M : Type 0} where
  -- the loop of `_StatusMeta.__new__` over the names of the class body, with the `_descriptor` of the
  -- getter where it has one
  unfoldable pub collect_descriptors :
      List (String × Option (Descriptor M)) → Collection M → Result (Collection M)
  collect_descriptors [] d = ok d
  collect_descriptors ((n, none) ∷ namespace) d = collect_descriptors namespace d
  collect_descriptors ((n, some descriptor) ∷ namespace) d =
      let rest = collect_descriptors namespace (insert n descriptor d) in
      if contains n d then err value_error else rest

  abbrev fresh_class : Result (Collection M) → Result (StatusClass M)
  fresh_class (err e) = err e
  fresh_class (ok d) = ok (record { descriptors = d; embedded = [] })

  -- `_StatusMeta.__new__`
  unfoldable pub new_class : List (String × Option (Descriptor M)) → Result (StatusClass M)
  new_class namespace = fresh_class (collect_descriptors namespace [])

  abbrev pub class_of : Store M → ℕ → StatusClass M
  class_of s self = s.classes (s.statuses self).class_id

  -- `descriptors`
  abbrev pub descriptors : Store M → ℕ → Collection M
  descriptors s self = (class_of s self).descriptors

  abbrev pub write_class : ℕ → StatusClass M → Store M → Store M
  write_class c k s = record s { classes = λ x. if x == c then k else s.classes x }

  -- `self._embedded[name] = other`
  abbrev pub store_embedded : String → ℕ → ℕ → Store M → Store M
  store_embedded name self other s =
      let k = class_of s self in
      write_class (s.statuses self).class_id (record k { embedded = insert name other k.embedded })
        s

  -- `other._parent = self`
  abbrev pub store_parent : ℕ → ℕ → Store M → Store M
  store_parent self other s = record s {
    statuses = λ x. record (s.statuses x) {
      parent = if x == other then some self else (s.statuses x).parent;
    };
  }

  -- `attr.evolve(prop, status_attribute=final_name)`
  abbrev pub evolved : String → Descriptor M → Descriptor M
  evolved final_name prop = record prop { status_attribute = some final_name }

  -- `self._descriptors[final_name] = ...`
  abbrev pub store_descriptor : String → ℕ → String × Descriptor M → Store M → Store M
  store_descriptor name self (descriptor_name, prop) s =
      let k = class_of s self in
      let final_name = qualified name descriptor_name in
      write_class (s.statuses self).class_id
        (record k { descriptors = insert final_name (evolved final_name prop) k.descriptors }) s

  -- one step of an iteration: the entry at its place, if there is one
  abbrev pub at_entry :
      (String × Descriptor M → Action (Store M) (Unit {0}))
      → Collection M
      → Action (Store M) (Unit {0})
  at_entry step [] = pure (ok tt)
  at_entry step (entry ∷ _) = step entry

  -- The loop of `embed`, which reads the dictionary while it runs: a step finds the dictionary at the
  -- size it had at the start, or raises. `rest` counts the entries from the place `i` on.
  unfoldable pub embed_entries :
      String → ℕ → ℕ → (start : ℕ) → (rest : ℕ) → (i : ℕ) → Action (Store M) (Unit {0})
  embed_entries name self other start zero i s =
      if length (descriptors s other) == start then (ok tt, s) else (err runtime_error, s)
  embed_entries name self other start (suc rest) i s =
      let next =
        at_entry
          (λ entry.
            modify (store_descriptor name self entry)
            >> embed_entries name self other start rest (suc i))
          (drop i (descriptors s other)) s in
      if length (descriptors s other) == start then next else (err runtime_error, s)

  abbrev embed_all : String → ℕ → ℕ → Action (Store M) (Unit {0})
  embed_all name self other s =
      let size = length (descriptors s other) in embed_entries name self other size size 0 s

  -- `embed`
  unfoldable pub embed : String → ℕ → ℕ → Action (Store M) (Unit {0})
  embed name self other =
      modify (store_embedded name self other)
      >> modify (store_parent self other)
      >> embed_all name self other

  -- `__dir__`, after the names that the class has
  unfoldable pub dir : (inherited : List String) → Store M → ℕ → List String
  dir inherited s self =
      inherited ++ map (λ e. e.0) (class_of s self).embedded ++ map (λ e. e.0) (descriptors s self)

  -- `__getattr__`, where `getattr` reads an attribute of another container
  unfoldable pub get_missing :
      (getattr : ℕ → String → Result Attribute) → Store M → ℕ → String → Result Attribute
  get_missing getattr s self item =
      let embedded = (class_of s self).embedded in
      if is_dunder item
      then err attribute_error
      else container_or (lookup item embedded) (read_split getattr embedded (split_name item))

  -- `getattr(self, item)` with at most so many containers on the way
  unfoldable pub get_attribute_within : ℕ → Store M → ℕ → String → Result Attribute
  get_attribute_within zero s self item = err runtime_error
  get_attribute_within (suc fuel) s self item =
      own_or_missing ((s.statuses self).own item)
        (get_missing (get_attribute_within fuel s) s self item)

  -- Every container on the way takes two characters and more off the name.
  unfoldable pub get_attribute : Store M → ℕ → String → Result Attribute
  get_attribute s self item = get_attribute_within (suc (text_length item)) s self item
