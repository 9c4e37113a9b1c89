-- ===== src/Miot/Describe.antt =====
-- The descriptors that miio/miot_models.py makes of properties and actions. `make_enum` is Python's
-- `Enum(name, members)`, which may raise. The inputs of an action's descriptor are made, and then only
-- handed on; they are left out of it.
use python_miio.Base.{String, true, false, Option, none, some, List, [], ◌∷◌}
use python_miio.Base.Int.{ℤ}
use python_miio.Python.Dict.{Dict, text_eq, insert}
use python_miio.Python.Result.{Result, ok, err, index_error, ◌>>=◌}
use python_miio.Descriptors.Defs.{
  AccessFlags, Choices, Constraint, range, choice, unset, action, property, Descriptor,
}
use python_miio.Miot.Schema.{
  MiotProperty, MiotAction, MiotAccess, read, write, MiotEnumValue, has_access, combined_name,
  property_name, normalized,
}

-- `_miot_access_list_to_access`
unfoldable pub access_list_to_access : List MiotAccess → AccessFlags
access_list_to_access access_list = record {
  can_read = has_access read access_list;
  can_write = has_access write access_list;
  can_execute = false;
}

-- `{c.description: c.value for c in choices}`, behind the entries that are there
unfoldable pub choice_members : List MiotEnumValue → Dict String ℤ → Dict String ℤ
choice_members [] d = d
choice_members (c ∷ cs) d = choice_members cs (insert c.description c.value d)

-- `AccessFlags.Execute`
abbrev execute : AccessFlags
execute = record { can_read = false; can_write = false; can_execute = true }

module _ {M : Type 0} (make_enum : String → Dict String ℤ → Result Choices) where
  abbrev described : MiotProperty → Option String → Constraint → Descriptor M
  described prop unit constraint = record {
    id = property_name prop;
    name = prop.description;
    unit = unit;
    status_attribute = some (normalized (property_name prop));
    access = access_list_to_access prop.access;
    kind = property none none constraint;
  }

  -- `_create_enum_descriptor`
  unfoldable pub create_enum_descriptor : MiotProperty → List MiotEnumValue → Result (Descriptor M)
  create_enum_descriptor prop cs = do
    choices ← make_enum prop.description (choice_members cs [])
    ok (described prop prop.unit (choice (some choices) none))

  -- `_create_range_descriptor`
  unfoldable pub create_range_descriptor : MiotProperty → List ℤ → Result (Descriptor M)
  create_range_descriptor prop (lo ∷ hi ∷ step ∷ rest) = ok (
      described prop prop.unit
        (range (record { min_value = lo; max_value = some hi; step = step }) none))
  create_range_descriptor prop _ = err index_error

  -- `_create_regular_descriptor`: the unit is not passed on
  unfoldable pub create_regular_descriptor : MiotProperty → Descriptor M
  create_regular_descriptor prop = described prop none unset

  abbrev pub of_choices : MiotProperty → Option (List MiotEnumValue) → Result (Descriptor M)
  of_choices prop none = ok (create_regular_descriptor prop)
  of_choices prop (some cs) = create_enum_descriptor prop cs

  abbrev pub of_range : MiotProperty → Option (List ℤ) → Result (Descriptor M)
  of_range prop none = of_choices prop prop.choices
  of_range prop (some bounds) = create_range_descriptor prop bounds

  -- `MiotProperty.get_descriptor`
  unfoldable pub property_descriptor : MiotProperty → Result (Descriptor M)
  property_descriptor prop = of_range prop prop.range

  -- `[prop.get_descriptor() for prop in props]`
  unfoldable pub input_descriptors : List MiotProperty → Result (List (Descriptor M))
  input_descriptors [] = ok []
  input_descriptors (prop ∷ props) = do
    desc ← property_descriptor prop
    descs ← input_descriptors props
    ok (desc ∷ descs)

  -- `MiotAction.get_descriptor`
  unfoldable pub action_descriptor : MiotAction (List MiotProperty) → Result (Descriptor M)
  action_descriptor act = do
    inputs ← input_descriptors act.inputs
    ok (record {
      id = combined_name act.service act.urn;
      name = act.description;
      unit = none;
      status_attribute = none;
      access = execute;
      kind = action none none;
    })
