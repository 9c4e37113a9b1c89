-- ===== src/Status/Invariant.antt =====
-- What holds of the descriptors of every status class: the body of the class establishes it, and
-- `DeviceStatus.embed` keeps it, also when it raises.
use python_miio.Base.{
  clash, ℕ, zero, suc, ◌≡◌, refl, ap, sym, subst, ◌∙◌, inl, inr, String, true, false, Option, none,
  some, List, [], ◌∷◌, ◌++◌, append-nil, append_assoc, Bool-cases, arith, if◌then◌else◌, ◌==◌,
  length, drop, str_eq, str_eq_iff, All,
}
use python_miio.Python.Dict.{
  text_eq, insert, contains, HasUniqueKeys, insert-HasUniqueKeys, insert_new, beq_refl,
}
use python_miio.Python.Result.{ok}
use python_miio.Python.Action.{Action}
use python_miio.Descriptors.Defs.{Descriptor}
use python_miio.Descriptors.Collection.{Collection}
use python_miio.Status.Names.{qualified}
use python_miio.Status.Store.{
  Store, StatusClass, descriptors, write_class, store_descriptor, evolved, at_entry, embed_entries,
  embed, collect_descriptors, new_class,
}

module _ {M : Type 0} where
  -- A descriptor names the attribute that it is listed under.
  abbrev pub NamesItself : String × Descriptor M → Type 0
  NamesItself e = e.1.status_attribute ≡ some e.0

  -- The names are unique, and every descriptor says under which it is listed.
  abbrev pub IsKeyed : Collection M → Type 0
  IsKeyed d = HasUniqueKeys d × All NamesItself d

  abbrev pub AllKeyed : Store M → Type 0
  AllKeyed s = (c : ℕ) → IsKeyed (s.classes c).descriptors

  insert-NamesItself :
      (k : String) (prop : Descriptor M) (d : Collection M)
      → prop.status_attribute ≡ some k
      → All NamesItself d
      → All NamesItself (insert k prop d)
  unfolding insert
  insert-NamesItself k prop [] p h = (p, tt)
  insert-NamesItself k prop ((j, x) ∷ d) p (h, hs) = elim (Bool-cases (str_eq j k)) [
    | inl hit ↦ rw hit (p ∙ ap some (sym ((str_eq_iff j k).0 hit)), hs)
    | inr miss ↦ rw miss (h, insert-NamesItself k prop d p hs)
  ]

  insert-IsKeyed :
      (k : String) (prop : Descriptor M) (d : Collection M)
      → prop.status_attribute ≡ some k
      → IsKeyed d
      → IsKeyed (insert k prop d)
  insert-IsKeyed k prop d p (u, h) =
      (insert-HasUniqueKeys k prop d u, insert-NamesItself k prop d p h)

  write_class-AllKeyed :
      (c : ℕ) (k : StatusClass M) (s : Store M)
      → IsKeyed k.descriptors
      → AllKeyed s
      → AllKeyed (write_class c k s)
  write_class-AllKeyed c k s new h x = elim (Bool-cases (x == c)) [
    | inl hit ↦ subst (λ b. IsKeyed (if b then k else s.classes x).descriptors) (sym hit) new
    | inr miss ↦ subst (λ b. IsKeyed (if b then k else s.classes x).descriptors) (sym miss) (h x)
  ]

  store_descriptor-AllKeyed :
      (name : String) (self : ℕ) (e : String × Descriptor M) (s : Store M)
      → AllKeyed s
      → AllKeyed (store_descriptor name self e s)
  store_descriptor-AllKeyed name self (k, prop) s h =
      write_class-AllKeyed _ _ s
        (insert-IsKeyed (qualified name k) (evolved (qualified name k) prop) _ refl (h _)) h

  at_entry-AllKeyed :
      (step : String × Descriptor M → Action (Store M) (Unit {0})) (ds : Collection M) (s : Store M)
      → AllKeyed s
      → ((e : String × Descriptor M) (s' : Store M) → AllKeyed s' → AllKeyed (step e s').1)
      → AllKeyed (at_entry step ds s).1
  at_entry-AllKeyed step [] s h keeps = h
  at_entry-AllKeyed step (e ∷ ds) s h keeps = keeps e s h

  embed_entries-AllKeyed :
      (name : String) (self other start rest i : ℕ) (s : Store M)
      → AllKeyed s
      → AllKeyed (embed_entries name self other start rest i s).1
  unfolding embed_entries
  embed_entries-AllKeyed name self other start zero i s h =
      elim (Bool-cases (length (descriptors s other) == start)) [
        | inl hit ↦ rw hit h
        | inr miss ↦ rw miss h
      ]
  embed_entries-AllKeyed name self other start (suc rest) i s h =
      elim (Bool-cases (length (descriptors s other) == start)) [
        | inl hit ↦ rw hit (
            at_entry-AllKeyed _ (drop i (descriptors s other)) s h (λ entry s' h'.
              embed_entries-AllKeyed name self other start rest (suc i) _
                (store_descriptor-AllKeyed name self entry s' h')))
        | inr miss ↦ rw miss h
      ]

  -- `embed` keeps the descriptors of every class keyed by their attributes, whether it returns or raises.
  pub embed-AllKeyed :
      (name : String) (self other : ℕ) (s : Store M)
      → AllKeyed s
      → AllKeyed (embed name self other s).1
  unfolding embed
  embed-AllKeyed name self other s h =
      embed_entries-AllKeyed name self other _ _ 0 _
        (write_class-AllKeyed (s.statuses self).class_id _ s (h (s.statuses self).class_id) h)

  -- the entries of the class body that have a descriptor
  unfoldable pub described : List (String × Option (Descriptor M)) → Collection M
  described [] = []
  described ((n, none) ∷ namespace) = described namespace
  described ((n, some prop) ∷ namespace) = (n, prop) ∷ described namespace

  contains_middle :
      (n : String) (prop : Descriptor M) (d rest : Collection M)
      → contains n (d ++ (n, prop) ∷ rest) ≡ true
  unfolding contains
  contains_middle n prop [] rest = rw (beq_refl n)
  contains_middle n prop ((j, v) ∷ d) rest = ground (arith, contains_middle n prop d rest)

  new_of_unique :
      (n : String) (prop : Descriptor M) (d rest : Collection M)
      → HasUniqueKeys (d ++ (n, prop) ∷ rest)
      → contains n d ≡ false
  unfolding contains
  new_of_unique n prop [] rest u = refl
  new_of_unique n prop ((j, v) ∷ d) rest (new, u) = elim (Bool-cases (str_eq j n)) [
    | inr miss ↦ rw miss (new_of_unique n prop d rest u)
    | inl hit ↦
        (let there =
            subst (λ x. contains x (d ++ (n, prop) ∷ rest) ≡ true) (sym ((str_eq_iff j n).0 hit))
              (contains_middle n prop d rest) in
          absurd (clash there new))
  ]

  collect_described :
      (namespace : List (String × Option (Descriptor M))) (d : Collection M)
      → HasUniqueKeys (d ++ described namespace)
      → collect_descriptors namespace d ≡ ok (d ++ described namespace)
  unfolding collect_descriptors described
  collect_described [] d u = ap ok (sym (append-nil d))
  collect_described ((n, none) ∷ namespace) d u = collect_described namespace d u
  collect_described ((n, some prop) ∷ namespace) d u =
      let regroup = append_assoc d ((n, prop) ∷ []) (described namespace) in
      let new = new_of_unique n prop d (described namespace) u in
      rw (new, insert_new n prop d new)
        (collect_described namespace (d ++ (n, prop) ∷ []) (subst HasUniqueKeys (sym regroup) u)
          ∙ ap ok regroup)

  described_new :
      (n : String) (namespace : List (String × Option (Descriptor M)))
      → contains n namespace ≡ false
      → contains n (described namespace) ≡ false
  unfolding contains described
  described_new n [] h = refl
  described_new n ((j, none) ∷ namespace) h =
      described_new n namespace (ground (arith, contains n namespace))
  described_new n ((j, some prop) ∷ namespace) h = ground (arith, described_new n namespace)

  described-HasUniqueKeys :
      (namespace : List (String × Option (Descriptor M)))
      → HasUniqueKeys namespace
      → HasUniqueKeys (described namespace)
  unfolding described
  described-HasUniqueKeys [] u = tt
  described-HasUniqueKeys ((j, none) ∷ namespace) (new, u) = described-HasUniqueKeys namespace u
  described-HasUniqueKeys ((j, some prop) ∷ namespace) (new, u) =
      (described_new j namespace new, described-HasUniqueKeys namespace u)

  -- A class body, whose names differ, makes a class with exactly the descriptors of its getters, in order;
  -- nothing is embedded, and no name is refused as a duplicate.
  pub new_class_lem :
      (namespace : List (String × Option (Descriptor M)))
      → HasUniqueKeys namespace
      → new_class namespace ≡ ok (record { descriptors = described namespace; embedded = [] })
  unfolding new_class
  new_class_lem namespace u =
      rw (collect_described namespace [] (described-HasUniqueKeys namespace u))
