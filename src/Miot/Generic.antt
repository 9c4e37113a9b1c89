-- ===== src/Miot/Generic.antt =====
-- `GenericMiot` of miio/integrations/genericmiot/genericmiot.py, over the transport of a device.
pub mod Spec
pub mod Creating
pub mod Services
pub mod Status
pub mod Attributes
pub mod Responses
use python_miio.Base.{
  ℕ, String, Bool, true, false, Option, none, some, List, [], ◌∷◌, ◌++◌, length, if◌then◌else◌,
}
use python_miio.Base.Int.{ℤ, pos, eq_ℤ}
use python_miio.Python.Value.{Value, obj, field, end, int, str, null}
use python_miio.Python.Dict.{Dict, text_eq}
use python_miio.Python.Result.{Result, ok, map_ok}
use python_miio.Python.Action.{Action, pure, modify, get, on, ◌>>=◌, ◌>>◌}
use python_miio.Device.Transport.{Transport}
use python_miio.Device.Info.{Device, on_transport, model}
use python_miio.Device.Properties.{get_properties}
use python_miio.Descriptors.Defs.{Choices, Kind, plain, action, property, Descriptor}
use python_miio.Descriptors.Collection.{Host, Collection, add_fresh}
use python_miio.Miot.Urn.{Urn}
use python_miio.Miot.Schema.{
  MiotProperty, MiotAction, MiotAccess, read, write, notify, siid, action_siid, property_name,
}
use python_miio.Miot.Describe.{property_descriptor, action_descriptor}
use python_miio.Miot.Service.{MiotService, DeviceModel}

-- `partial(self.call_action_by, siid, aiid)` and `partial(self.set_property_by, siid, piid, name=name)`
pub data Bound : Type 0 where
  call_action_bound : Option ℤ → ℤ → Bound
  set_property_bound : Option ℤ → ℤ → String → Bound

pub record GenericMiot (S : Type 0) : Type 0 where
  pub device : Device S
  pub initialized : Bool
  pub descriptors : Collection Bound
  pub miot_model : Option DeviceModel
  pub status_query : List Value

-- What initialization uses of the rest: `MiotCloud().get_device_model`, Python's `Enum`, and `getattr`
-- on the device.
pub record Schemas : Type 0 where
  pub get_device_model : Value → Result DeviceModel
  pub make_enum : String → Dict String ℤ → Result Choices
  pub host : Host Bound

abbrev pub number_or_null : Option ℤ → Value
number_or_null none = null
number_or_null (some n) = int n

-- `{"siid": prop.siid, "piid": prop.piid, "did": prop.name}`
unfoldable pub status_request : MiotProperty → Value
status_request prop = obj (
    field "siid" (number_or_null (siid prop))
      (field "piid" (int prop.piid) (field "did" (str (property_name prop)) end)))

-- `prop.access == [MiotAccess.Notify]` or `not prop.access`
unfoldable pub is_skipped : List MiotAccess → Bool
is_skipped [] = true
is_skipped (notify ∷ []) = true
is_skipped _ = false

-- `desc.method = …` and `desc.setter = …`
unfoldable pub with_bound : Bound → Kind Bound → Kind Bound
with_bound m plain = plain
with_bound m (action method name) = action (some m) name
with_bound m (property setter name constraint) = property (some m) name constraint

-- the setter that a property gets if it can be written
unfoldable pub with_setter : MiotProperty → Descriptor Bound → Descriptor Bound
unfolding with_bound
with_setter prop desc =
    if desc.access.can_write
    then record desc {
      kind = with_bound (set_property_bound (siid prop) prop.piid (property_name prop)) desc.kind;
    }
    else desc

-- the method that an action gets
unfoldable pub with_call : MiotAction (List MiotProperty) → Descriptor Bound → Descriptor Bound
unfolding with_bound
with_call act desc = record desc {
  kind = with_bound (call_action_bound (action_siid act) act.aiid) desc.kind;
}

-- `_create_action`
unfoldable pub create_action : Schemas → MiotAction (List MiotProperty) → Result (Descriptor Bound)
create_action c act = map_ok (with_call act) (action_descriptor c.make_enum act)

module _ {S : Type 0} (c : Schemas) where
  abbrev on_descriptors : {A : Type 0} → Action (Collection Bound) A → Action (GenericMiot S) A
  on_descriptors = on (λ s. s.descriptors) (λ d s. record s { descriptors = d })

  abbrev on_device : {A : Type 0} → Action (Device S) A → Action (GenericMiot S) A
  on_device = on (λ s. s.device) (λ d s. record s { device = d })

  -- What `self.descriptors()` writes while the model is set: `_initialize_descriptors` finds the model and
  -- only marks the device.
  abbrev pub mark_initialized : Action (GenericMiot S) (Unit {0})
  mark_initialized = modify (λ s. record s { initialized = true })

  -- `self.descriptors().add_descriptor(desc)` during initialization
  unfoldable pub add_created : Descriptor Bound → Action (GenericMiot S) (Unit {0})
  add_created desc = do mark_initialized; on_descriptors (add_fresh c.host desc)

  -- the loop's body in `_create_actions`
  abbrev pub add_action : MiotAction (List MiotProperty) → Action (GenericMiot S) (Unit {0})
  add_action act = pure (create_action c act) >>= add_created

  -- `_create_actions`
  unfoldable pub create_actions :
      List (MiotAction (List MiotProperty)) → Action (GenericMiot S) (Unit {0})
  create_actions [] = pure (ok tt)
  create_actions (act ∷ acts) = do add_action act; create_actions acts

  -- `self._status_query.append(q)` for a property that can be read
  unfoldable pub append_query : MiotProperty → Descriptor Bound → Action (GenericMiot S) (Unit {0})
  append_query prop desc = modify (λ s.
      if desc.access.can_read
      then record s { status_query = s.status_query ++ status_request prop ∷ [] }
      else s)

  -- the rest of the loop's body in `_create_properties`, behind the two tests
  unfoldable pub create_property : MiotProperty → Action (GenericMiot S) (Unit {0})
  create_property prop = do
    desc ← pure (property_descriptor c.make_enum prop)
    append_query prop desc
    add_created (with_setter prop desc)

  -- the loop's body in `_create_properties`
  abbrev pub listed_property : MiotProperty → Action (GenericMiot S) (Unit {0})
  listed_property prop = if is_skipped prop.access then pure (ok tt) else create_property prop

  -- `_create_properties`
  unfoldable pub create_properties : List MiotProperty → Action (GenericMiot S) (Unit {0})
  create_properties [] = pure (ok tt)
  create_properties (prop ∷ props) = do listed_property prop; create_properties props

  abbrev pub create_service : MiotService → Action (GenericMiot S) (Unit {0})
  create_service serv = do create_actions serv.actions; create_properties serv.properties

  abbrev pub listed_service : MiotService → Action (GenericMiot S) (Unit {0})
  listed_service serv = if eq_ℤ serv.siid (pos 1) then pure (ok tt) else create_service serv

  -- `_create_descriptors`: the service with the id 1 is left out
  unfoldable pub create_descriptors : List MiotService → Action (GenericMiot S) (Unit {0})
  create_descriptors [] = pure (ok tt)
  create_descriptors (serv ∷ servs) = do listed_service serv; create_descriptors servs

  module _ (t : Transport S) where
    abbrev fetch_model : Action (GenericMiot S) (Unit {0})
    fetch_model = do
      name ← on_device (model t)
      found ← pure (c.get_device_model name)
      modify (λ s. record s { miot_model = some found })
      create_descriptors found.services

    abbrev unless_known : Option DeviceModel → Action (GenericMiot S) (Unit {0})
    unless_known none = fetch_model
    unless_known (some m) = pure (ok tt)

    -- `initialize_model`
    unfoldable pub initialize_model : Action (GenericMiot S) (Unit {0})
    initialize_model s = unless_known s.miot_model s

    -- `_initialize_descriptors`
    unfoldable pub initialize_descriptors : Action (GenericMiot S) (Unit {0})
    initialize_descriptors = do initialize_model; mark_initialized

    abbrev pub unless_initialized : Bool → Action (GenericMiot S) (Unit {0})
    unless_initialized true = pure (ok tt)
    unless_initialized false = initialize_descriptors

    -- the request of `status`, for as many rounds as there are properties
    unfoldable pub status_response : Action (GenericMiot S) (Option (List Value))
    status_response = do
      initialized ← get (λ s. s.initialized)
      unless_initialized initialized
      query ← get (λ s. s.status_query)
      on_device (on_transport (get_properties t "get_properties" (length query) (some 10) query))
