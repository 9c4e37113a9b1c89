-- ===== src/Miot/Generic/Services.antt =====
-- Creating the descriptors of a model in miio/integrations/genericmiot/genericmiot.py, action by action and
-- property by property, against what is described.
use python_miio.Base.{
  ◌≡◌, refl, sym, ap, subst, ◌∙◌, true, false, Bool-cases, inl, inr, none, some, Option, List, [],
  ◌∷◌, append-nil, String,
}
use python_miio.Base.Int.{ℤ, pos, eq_ℤ}
use python_miio.Python.Result.{Result, ok, err, map_ok, OfValue, OfValue->>=, OfValue-map_ok}
use python_miio.Python.Action.{pure, resume, ◌>>=◌}
use python_miio.Descriptors.Defs.{AccessFlags, Choices, Kind, plain, action, property, Descriptor}
use python_miio.Descriptors.Collection.{lacks_setter, add_all_fresh}
use python_miio.Miot.Schema.{
  MiotProperty, MiotAction, MiotEnumValue, MiotAccess, read, write, notify, has_access,
}
use python_miio.Miot.Describe.{
  property_descriptor, action_descriptor, create_range_descriptor, create_enum_descriptor,
  create_regular_descriptor, access_list_to_access, input_descriptors, of_range, of_choices,
}
use python_miio.Miot.Service.{MiotService}
use python_miio.Miot.Generic.{
  Bound, Schemas, GenericMiot, is_skipped, with_setter, with_call, with_bound, create_action,
  add_created, create_actions, create_property, create_properties, create_descriptors, append_query,
  listed_property, listed_service,
}
use python_miio.Miot.Generic.Spec.{
  one, described_actions, described_property, described_properties, described_service,
  described_services, property_queries, readable, service_queries, queries,
}
use python_miio.Miot.Generic.Creating.{
  IsOwn, IsComplete, IsCreated, Outcome, Creates, Creates-nothing, Creates-both, Creates-one,
}

abbrev Complete : Descriptor Bound → Type 0
Complete desc = IsComplete desc.access desc.kind

-- What an action is described by has its method.
create_action-Complete :
    (c : Schemas) (act : MiotAction (List MiotProperty)) → OfValue Complete (create_action c act)
unfolding create_action action_descriptor with_call with_bound
create_action-Complete c act =
    OfValue-map_ok (λ desc. Complete (with_call act desc)) Complete (with_call act)
      (action_descriptor c.make_enum act)
      (OfValue->>= (λ desc. Complete (with_call act desc))
        (input_descriptors {M = Bound} c.make_enum act.inputs) _ (λ inputs. tt))
      (λ desc w. w)

abbrev IsUnset : Kind Bound → Type 0
IsUnset (property none none constraint) = IsOwn constraint
IsUnset _ = ⊥

-- A property's own descriptor: which flags it has, and that it has no setter.
abbrev IsFresh : MiotProperty → Descriptor Bound → Type 0
IsFresh prop desc = (desc.access ≡ access_list_to_access prop.access) × IsUnset desc.kind

property_descriptor-IsFresh :
    (make_enum : String → List (String × ℤ) → Result Choices) (prop : MiotProperty)
    → OfValue (IsFresh prop) (property_descriptor make_enum prop)
unfolding property_descriptor create_regular_descriptor create_enum_descriptor
    create_range_descriptor
property_descriptor-IsFresh make_enum prop = ranged prop.range
  where
    chosen :
        (choices : Option (List MiotEnumValue))
        → OfValue (IsFresh prop) (of_choices make_enum prop choices)
    chosen none = (refl, tt)
    chosen (some cs) =
        OfValue->>= (IsFresh prop) (make_enum prop.description _) _ (λ members. (refl, tt))

    ranged : (bounds : Option (List ℤ)) → OfValue (IsFresh prop) (of_range make_enum prop bounds)
    ranged none = chosen prop.choices
    ranged (some []) = tt
    ranged (some (lo ∷ [])) = tt
    ranged (some (lo ∷ hi ∷ [])) = tt
    ranged (some (lo ∷ hi ∷ step ∷ rest)) = (refl, tt)

-- With its setter the property's descriptor is complete, and the flags are the same.
with_setter-Complete :
    (prop : MiotProperty) (desc : Descriptor Bound)
    → IsFresh prop desc
    → Complete (with_setter prop desc)
unfolding with_setter with_bound lacks_setter
with_setter-Complete prop desc (_, w) = of_kind desc.access desc.kind w
  where
    of_kind :
        (access : AccessFlags) (kind : Kind Bound)
        → IsUnset kind
        → Complete (with_setter prop (record desc { access = access; kind = kind }))
    of_kind access (property none none constraint) w = elim (Bool-cases access.can_write) [
      | inl h ↦ rw h (refl, w)
      | inr h ↦ rw h (refl, w)
    ]
    of_kind access plain w = absurd w
    of_kind access (action method name) w = absurd w
    of_kind access (property (some m) name constraint) w = absurd w
    of_kind access (property none (some name) constraint) w = absurd w

has_access_of_skipped :
    (access : List MiotAccess) → is_skipped access ≡ true → has_access read access ≡ false
unfolding is_skipped has_access
has_access_of_skipped [] h = refl
has_access_of_skipped (notify ∷ []) h = refl
has_access_of_skipped (read ∷ []) h = cc
has_access_of_skipped (write ∷ []) h = cc
has_access_of_skipped (read ∷ a ∷ access) h = cc
has_access_of_skipped (write ∷ a ∷ access) h = cc
has_access_of_skipped (notify ∷ a ∷ access) h = cc

module _ {S : Type 0} (c : Schemas) where
  Creates-described :
      (r : Result (Descriptor Bound))
      → OfValue Complete r
      → Creates {S = S} c (one r) [] (pure r >>= add_created c)
  Creates-described (err e) w s = refl
  Creates-described (ok desc) w s = Creates-one c desc w s

  create_actions_lem :
      (acts : List (MiotAction (List MiotProperty)))
      → Creates {S = S} c (described_actions c acts) [] (create_actions c acts)
  unfolding create_actions
  create_actions_lem [] = Creates-nothing c
  create_actions_lem (act ∷ acts) =
      Creates-both c _ _ [] [] _ _
        (Creates-described (create_action c act) (create_action-Complete c act))
        (create_actions_lem acts)

  -- The request that is appended for a property, if its descriptor can be read.
  appends :
      (prop : MiotProperty) (desc : Descriptor Bound)
      → desc.access ≡ access_list_to_access prop.access
      → Creates {S = S} c (ok []) (property_queries prop) (append_query c prop desc)
  unfolding append_query access_list_to_access add_all_fresh
  appends prop desc same s = elim (Bool-cases desc.access.can_read) [
    | inl h ↦
        (let k : has_access read prop.access ≡ true = sym (ap (λ a. a.can_read) same) ∙ h in
          rw (h, k)
            (record {
              returns = refl;
              added = refl;
              queried = refl;
              same_device = refl;
              same_model = refl;
            }))
    | inr h ↦
        (let k : has_access read prop.access ≡ false = sym (ap (λ a. a.can_read) same) ∙ h in
          rw (h, k) (Creates-nothing c s))
  ]

  Creates-property :
      (prop : MiotProperty) (r : Result (Descriptor Bound))
      → OfValue (IsFresh prop) r
      → Creates {S = S} c (one (map_ok (with_setter prop) r)) (property_queries prop) (λ s.
        resume r
          (λ desc. append_query c prop desc >>= λ _. add_created c (with_setter prop desc))
          s)
  Creates-property prop (err e) w s = refl
  Creates-property prop (ok desc) w s =
      subst
        (λ asked.
          IsCreated c (with_setter prop desc ∷ []) asked s
            ((append_query c prop desc >>= λ _. add_created c (with_setter prop desc)) s))
        (append-nil (property_queries prop))
        (Creates-both c (ok []) (ok (with_setter prop desc ∷ [])) (property_queries prop) [] _ _
          (appends prop desc w.0)
          (Creates-one c (with_setter prop desc) (with_setter-Complete prop desc w)) s)

  Creates-listed :
      (prop : MiotProperty)
      → Creates {S = S} c
          (described_property c prop)
          (property_queries prop)
          (listed_property c prop)
  unfolding create_property
  Creates-listed prop s = elim (Bool-cases (is_skipped prop.access)) [
    | inl h ↦ rw (h, has_access_of_skipped prop.access h) (Creates-nothing c s)
    | inr h ↦ rw h (
        Creates-property prop (property_descriptor c.make_enum prop)
          (property_descriptor-IsFresh c.make_enum prop) s)
  ]

  create_properties_lem :
      (props : List MiotProperty)
      → Creates {S = S} c
          (described_properties c props)
          (readable props)
          (create_properties c props)
  unfolding create_properties
  create_properties_lem [] = Creates-nothing c
  create_properties_lem (prop ∷ props) =
      Creates-both c _ _ _ _ _ _ (Creates-listed prop) (create_properties_lem props)

  Creates-service :
      (serv : MiotService)
      → Creates {S = S} c (described_service c serv) (service_queries serv) (listed_service c serv)
  Creates-service serv s = elim (Bool-cases (eq_ℤ serv.siid (pos 1))) [
    | inl h ↦ rw h (Creates-nothing c s)
    | inr h ↦ rw h (
        Creates-both c _ _ [] (readable serv.properties) _ _ (create_actions_lem serv.actions)
          (create_properties_lem serv.properties) s)
  ]

  -- Creating the descriptors of a model's services does what adding the described descriptors in order
  -- does: it returns if all of them can be made, and raises what the first that cannot raises. If it
  -- returns, the collection is the one that adding leaves, adding has raised nothing, one request is
  -- appended for each property that can be read, and the device and the model are as before.
  pub create_descriptors_lem :
      (servs : List MiotService) (s : GenericMiot S)
      → Outcome c (described_services c servs) (queries servs) s (create_descriptors c servs s)
  unfolding create_descriptors
  create_descriptors_lem [] s = Creates-nothing c s
  create_descriptors_lem (serv ∷ servs) s =
      Creates-both c _ _ _ _ _ _ (Creates-service serv) (create_descriptors_lem servs) s
