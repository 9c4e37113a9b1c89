-- ===== src/Descriptors/Collection.antt =====
-- miio/descriptorcollection.py: what `DescriptorCollection` makes of a descriptor, and the collection of
-- descriptors that nothing else holds. Objects has the collection over shared descriptors.
use python_miio.Base.{String, Bool, false, Option, none, some, List, [], ◌∷◌, if◌then◌else◌}
use python_miio.Python.Dict.{Dict, text_eq, insert}
use python_miio.Python.Result.{
  Result, ok, err, value_error, runtime_error, is_device_exception, or_raise, ◌>>=◌,
}
use python_miio.Python.Action.{Action, pure, ◌>>=◌ as and_then}
use python_miio.Descriptors.Defs.{
  AccessFlags, ValidSettingRange, Choices, Constraint, unset, range, choice, Kind, plain, action,
  property, Descriptor,
}
use python_miio.Descriptors.FreeId.{get_free_id}

-- What `getattr(self._device, name)` finds on the device that a collection belongs to: a method, what
-- a method that returns choices returns, or a range.
pub record Host (M : Type 0) : Type 0 where
  pub method_named : String → Result M
  pub choices_from : String → Result (Option Choices)
  pub range_from : String → Result ValidSettingRange

abbrev pub Collection : Type 0 → Type 0
Collection M = Dict String (Descriptor M)

-- the test `prop.choices is None` at the end
abbrev require_choices : Option Choices → Result (Unit {0})
require_choices none = err value_error
require_choices (some cs) = ok tt

-- `if prop.access & AccessFlags.Write and prop.setter is None: raise`
unfoldable pub lacks_setter : {M : Type 0} → AccessFlags → Option M → Bool
lacks_setter access none = access.can_write
lacks_setter access (some m) = false

-- an object that is written while nothing else holds it, and is lost where that raises
abbrev pub handled : {A : Type 0} → Result (Unit {0}) × A → Result A
handled (ok u, a) = ok a
handled (err e, a) = err e

abbrev pub store : {M : Type 0} → Result (Descriptor M) → Action (Collection M) (Unit {0})
store (err e) d = (err e, d)
store (ok desc) d = (ok tt, insert desc.id desc d)

module _ {M : Type 0} (host : Host M) where
  -- `_handle_constraints`, on the constraint that the descriptor has
  abbrev chosen : Option Choices → String → Result (Option Choices) → Result (Unit {0}) × Constraint
  chosen cs attribute (ok cs') = (require_choices cs', choice cs' (some attribute))
  chosen cs attribute (err e) = (err e, choice cs (some attribute))

  abbrev ranged :
      ValidSettingRange → String → Result ValidSettingRange → Result (Unit {0}) × Constraint
  ranged r attribute (ok r') = (ok tt, range r' (some attribute))
  ranged r attribute (err e) = (err e, range r (some attribute))

  unfoldable pub handle_constraints : Action Constraint (Unit {0})
  handle_constraints unset = (ok tt, unset)
  handle_constraints (choice cs none) = (require_choices cs, choice cs none)
  handle_constraints (choice cs (some attribute)) =
      chosen cs attribute (host.choices_from attribute)
  handle_constraints (range r none) = (ok tt, range r none)
  handle_constraints (range r (some attribute)) = ranged r attribute (host.range_from attribute)

  -- `if prop.setter_name is not None: prop.setter = getattr(self._device, prop.setter_name)`, and the
  -- same with the method of an action
  abbrev bound : Option M → Result M → Result (Unit {0}) × Option M
  bound m (ok b) = (ok tt, some b)
  bound m (err e) = (err e, m)

  unfoldable pub bind : Option String → Action (Option M) (Unit {0})
  bind none m = (ok tt, m)
  bind (some name) m = bound m (host.method_named name)

  -- `if prop.method is None: raise ValueError`
  abbrev require_method : Result (Unit {0}) → Option M → Result (Unit {0})
  require_method (err e) m = err e
  require_method (ok u) none = err value_error
  require_method (ok u) (some m) = ok tt

  -- The `try` around the constraints: a `DeviceException` is logged.
  abbrev constrained :
      Option M → Option String → Result (Unit {0}) × Constraint → Result (Unit {0}) × Kind M
  constrained setter setter_name (ok u, constraint) =
      (ok tt, property setter setter_name constraint)
  constrained setter setter_name (err e, constraint) =
      (if is_device_exception e then ok tt else err e, property setter setter_name constraint)

  abbrev after_setter :
      AccessFlags
      → Option String
      → Constraint
      → Result (Unit {0}) × Option M
      → Result (Unit {0}) × Kind M
  after_setter access setter_name constraint (err e, setter) =
      (err e, property setter setter_name constraint)
  after_setter access setter_name constraint (ok u, setter) =
      if lacks_setter access setter
      then (err value_error, property setter setter_name constraint)
      else constrained setter setter_name (handle_constraints constraint)

  -- `_handle_action_descriptor` and `_handle_property_descriptor`: what they write stays written
  -- where they raise behind it.
  unfoldable pub handle_kind : AccessFlags → Action (Kind M) (Unit {0})
  handle_kind access plain = (ok tt, plain)
  handle_kind access (action method method_name) =
      let (r, method') = bind method_name method in
      (require_method r method', action method' method_name)
  handle_kind access (property setter setter_name constraint) =
      after_setter access setter_name constraint (bind setter_name setter)

  -- What is stored for a descriptor that nothing else holds: with its free id, and bound to the device.
  -- A search without an end would be `runtime_error`; there is none.
  unfoldable pub prepare_descriptor : Descriptor M → Collection M → Result (Descriptor M)
  prepare_descriptor desc d = do
    id' ← or_raise (get_free_id desc.id d) runtime_error
    kind' ← handled (handle_kind desc.access desc.kind)
    ok (record desc { id = id'; kind = kind' })

  -- What `add_descriptor` comes to for a descriptor that nothing else holds.
  unfoldable pub add_fresh : Descriptor M → Action (Collection M) (Unit {0})
  add_fresh desc d = store (prepare_descriptor desc d) d

  unfoldable pub add_all_fresh : List (Descriptor M) → Action (Collection M) (Unit {0})
  add_all_fresh [] = pure (ok tt)
  add_all_fresh (desc ∷ descs) = and_then (add_fresh desc) (λ _. add_all_fresh descs)
