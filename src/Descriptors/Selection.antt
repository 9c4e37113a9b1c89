-- ===== src/Descriptors/Selection.antt =====
-- The descriptors of a device in miio/device.py: `_initialize_descriptors`, `descriptors`, `actions`,
-- `settings`, `sensors`, `call_action` and `change_setting`.
use python_miio.Base.{ℕ, String, Bool, true, false, ◌&&◌, Option, none, some, List, if◌then◌else◌}
use python_miio.Python.Value.{Value, arr, nil}
use python_miio.Python.Dict.{text_eq, lookup, filter_values}
use python_miio.Python.Result.{ok, err, value_error, type_error}
use python_miio.Python.Action.{Action, pure, get, modify, on, ◌>>=◌, ◌>>◌}
use python_miio.Descriptors.Defs.{Kind, plain, action, property, Descriptor, is_read_only}
use python_miio.Descriptors.Collection.{Host, Collection}
use python_miio.Descriptors.Objects.{Space, view, entry_refs, descriptors_from_object}

-- A device's class, and how its methods are called: `M` are the methods, `S` is what they write. The
-- descriptors are objects of the class. `getmembers` on a device reads every member, properties such
-- as `device_id` and `info` among them, which send and may raise; on the status class it reads none.
pub record DeviceClass (M S : Type 0) : Type 0 where
  pub host : Host M
  -- the members with a descriptor that `getmembers(self)` finds
  pub members : Action S (List (M × ℕ))
  -- the values of the status class's `_descriptors`, and its members with a descriptor
  pub status_own : List ℕ
  pub status_members : List (M × ℕ)
  pub invoke : M → Option Value → Action S Value

pub record DescribedDevice (M S : Type 0) : Type 0 where
  pub initialized : Bool
  pub collection : Space M
  pub rest : S

-- `isinstance(v, ActionDescriptor)`
abbrev pub is_action_kind : {M : Type 0} → Kind M → Bool
is_action_kind plain = false
is_action_kind (action method name) = true
is_action_kind (property setter name constraint) = false

-- `isinstance(v, PropertyDescriptor)`
abbrev pub is_property_kind : {M : Type 0} → Kind M → Bool
is_property_kind plain = false
is_property_kind (action method name) = false
is_property_kind (property setter name constraint) = true

abbrev pub is_action : {M : Type 0} → Descriptor M → Bool
is_action desc = is_action_kind desc.kind

abbrev pub is_setting : {M : Type 0} → Descriptor M → Bool
is_setting desc = is_property_kind desc.kind && desc.access.can_write

abbrev pub is_sensor : {M : Type 0} → Descriptor M → Bool
is_sensor desc = is_read_only desc.access

-- what `act.method` and `setting.setter` hold
abbrev pub bound_method : {M : Type 0} → Kind M → Option M
bound_method plain = none
bound_method (action method name) = method
bound_method (property setter name constraint) = setter

-- `params if params is not None else []`
abbrev pub params_or_empty : Option Value → Value
params_or_empty none = arr nil
params_or_empty (some v) = v

module _ {M S : Type 0} (c : DeviceClass M S) where
  abbrev pub on_collection : {A : Type 0} → Action (Space M) A → Action (DescribedDevice M S) A
  on_collection = on (λ s. s.collection) (λ d s. record s { collection = d })

  abbrev on_rest : {A : Type 0} → Action S A → Action (DescribedDevice M S) A
  on_rest = on (λ s. s.rest) (λ r s. record s { rest = r })

  -- `descriptors_from_object(self)`: the device's `_descriptors` is the collection itself, and what it
  -- holds is added again.
  abbrev pub read_own : Action (DescribedDevice M S) (Unit {0})
  read_own = do
    own ← get (λ s. entry_refs s.collection.entries)
    members ← on_rest c.members
    on_collection (descriptors_from_object c.host own members)

  -- `descriptors_from_object` of the status class
  abbrev pub read_status : Action (DescribedDevice M S) (Unit {0})
  read_status = on_collection (descriptors_from_object c.host c.status_own c.status_members)

  -- the rest of `_initialize_descriptors` behind its test
  unfoldable pub read_classes : Action (DescribedDevice M S) (Unit {0})
  read_classes =
      read_own >>= λ _. read_status >>= λ _. modify (λ s. record s { initialized = true })

  -- `_initialize_descriptors`
  unfoldable pub initialize_descriptors : Action (DescribedDevice M S) (Unit {0})
  initialize_descriptors s = if s.initialized then (ok tt, s) else read_classes s

  -- `descriptors`
  unfoldable pub descriptors : Action (DescribedDevice M S) (Collection M)
  descriptors = initialize_descriptors >> get (λ s. view s.collection)

  -- `actions`, `settings` and `sensors`
  unfoldable pub actions : Action (DescribedDevice M S) (Collection M)
  actions = descriptors >>= λ d. pure (ok (filter_values is_action d))

  unfoldable pub settings : Action (DescribedDevice M S) (Collection M)
  settings = descriptors >>= λ d. pure (ok (filter_values is_setting d))

  unfoldable pub sensors : Action (DescribedDevice M S) (Collection M)
  sensors = descriptors >>= λ d. pure (ok (filter_values is_sensor d))

  -- `x(params)` for an `x` that may be `None`, which cannot be called
  abbrev invoke_bound : Option M → Option Value → Action (DescribedDevice M S) Value
  invoke_bound none params = pure (err type_error)
  invoke_bound (some m) params = on_rest (c.invoke m params)

  abbrev invoke_found : Option (Descriptor M) → Option Value → Action (DescribedDevice M S) Value
  invoke_found none params = pure (err value_error)
  invoke_found (some desc) params = invoke_bound (bound_method desc.kind) params

  -- `call_action`; without `params` the method is called with no argument
  unfoldable pub call_action : String → Option Value → Action (DescribedDevice M S) Value
  call_action name params = actions >>= λ d. invoke_found (lookup name d) params

  -- `change_setting`
  unfoldable pub change_setting : String → Option Value → Action (DescribedDevice M S) Value
  change_setting name params =
      settings >>= λ d. invoke_found (lookup name d) (some (params_or_empty params))
