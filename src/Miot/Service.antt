-- ===== src/Miot/Service.antt =====
-- `MiotService` and `DeviceModel` of miio/miot_models.py. Each is made of what pydantic has parsed of the
-- schema file, `ServiceData` and a list of services.
use python_miio.Base.{String, Option, none, some, List, [], ◌∷◌}
use python_miio.Base.Int.{ℤ}
use python_miio.Python.Dict.{Dict, text_eq, lookup, insert}
use python_miio.Python.Result.{Result, ok, err, key_error, type_error, or_raise, ◌>>=◌}
use python_miio.Miot.Urn.{Urn}
use python_miio.Miot.Schema.{MiotProperty, MiotAction, ServiceRef, integer_eq, normalized}

pub record ServiceData : Type 0 where
  pub siid : ℤ
  pub urn : Urn
  pub description : String
  pub properties : List MiotProperty
  pub actions : List (MiotAction (Option (List ℤ)))

pub record MiotService : Type 0 where
  pub siid : ℤ
  pub urn : Urn
  pub description : String
  pub properties : List MiotProperty
  pub actions : List (MiotAction (List MiotProperty))
  pub property_by_id : Dict ℤ MiotProperty
  pub action_by_id : Dict ℤ (MiotAction (List MiotProperty))

abbrev service_ref : ServiceData → ServiceRef
service_ref s = record { siid = s.siid; service_urn = s.urn }

-- `MiotBaseModel.fill_from_parent`
unfoldable pub fill_from_parent : ServiceRef → MiotProperty → MiotProperty
fill_from_parent s prop = record prop { service = some s }

unfoldable pub fill_all : ServiceRef → List MiotProperty → List MiotProperty
fill_all s [] = []
fill_all s (prop ∷ props) = fill_from_parent s prop ∷ fill_all s props

-- `self._property_by_id[prop.piid] = prop` for all
unfoldable pub index_properties : List MiotProperty → Dict ℤ MiotProperty → Dict ℤ MiotProperty
index_properties [] d = d
index_properties (prop ∷ props) d = index_properties props (insert prop.piid prop d)

-- `[service.get_property_by_id(piid) for piid in piids]`
unfoldable pub properties_with_ids : Dict ℤ MiotProperty → List ℤ → Result (List MiotProperty)
properties_with_ids d [] = ok []
properties_with_ids d (piid ∷ piids) = do
  prop ← or_raise (lookup piid d) key_error
  props ← properties_with_ids d piids
  ok (prop ∷ props)

-- `None` is no list
abbrev ids_to_properties : Dict ℤ MiotProperty → Option (List ℤ) → Result (List MiotProperty)
ids_to_properties d none = err type_error
ids_to_properties d (some piids) = properties_with_ids d piids

-- `MiotAction.fill_from_parent`
unfoldable pub fill_action :
    ServiceRef
    → Dict ℤ MiotProperty
    → MiotAction (Option (List ℤ))
    → Result (MiotAction (List MiotProperty))
fill_action s d act = do
  inputs ← ids_to_properties d act.inputs
  outputs ← ids_to_properties d act.outputs
  ok (record {
    urn = act.urn;
    description = act.description;
    service = some s;
    aiid = act.aiid;
    inputs = inputs;
    outputs = outputs;
  })

unfoldable pub fill_actions :
    ServiceRef
    → Dict ℤ MiotProperty
    → List (MiotAction (Option (List ℤ)))
    → Result (List (MiotAction (List MiotProperty)))
fill_actions s d [] = ok []
fill_actions s d (act ∷ acts) = do
  act' ← fill_action s d act
  acts' ← fill_actions s d acts
  ok (act' ∷ acts')

-- `self._action_by_id[act.aiid] = act` for all
unfoldable pub index_actions :
    List (MiotAction (List MiotProperty))
    → Dict ℤ (MiotAction (List MiotProperty))
    → Dict ℤ (MiotAction (List MiotProperty))
index_actions [] d = d
index_actions (act ∷ acts) d = index_actions acts (insert act.aiid act d)

-- `MiotService.__init__`
unfoldable pub new_service : ServiceData → Result MiotService
new_service s =
    let ref = service_ref s in
    let properties = fill_all ref s.properties in
    let by_id = index_properties properties [] in
    fill_actions ref by_id s.actions >>= λ actions. ok (record {
      siid = s.siid;
      urn = s.urn;
      description = s.description;
      properties = properties;
      actions = actions;
      property_by_id = by_id;
      action_by_id = index_actions actions [];
    })

-- `MiotService.get_property_by_id`, `get_action_by_id` and `normalized_name`
unfoldable pub get_property_by_id : MiotService → ℤ → Result MiotProperty
get_property_by_id serv piid = or_raise (lookup piid serv.property_by_id) key_error

unfoldable pub get_action_by_id : MiotService → ℤ → Result (MiotAction (List MiotProperty))
get_action_by_id serv aiid = or_raise (lookup aiid serv.action_by_id) key_error

unfoldable pub service_normalized_name : MiotService → String
service_normalized_name serv = normalized serv.urn.name

pub record DeviceModel : Type 0 where
  pub description : String
  pub urn : Urn
  pub services : List MiotService
  pub services_by_id : Dict ℤ MiotService
  pub properties_by_id : Dict ℤ (Dict ℤ MiotProperty)
  pub properties_by_name : Dict String (Dict String MiotProperty)

-- the inner loop of `DeviceModel.__init__`, for the names and for the ids
unfoldable pub index_names : List MiotProperty → Dict String MiotProperty → Dict String MiotProperty
index_names [] d = d
index_names (prop ∷ props) d = index_names props (insert prop.urn.name prop d)

-- the outer one: a service takes the place of one before it with the same id or name
unfoldable pub index_services : List MiotService → DeviceModel → DeviceModel
index_services [] m = m
index_services (serv ∷ servs) m = index_services servs (record m {
  services_by_id = insert serv.siid serv m.services_by_id;
  properties_by_id = insert serv.siid (index_properties serv.properties []) m.properties_by_id;
  properties_by_name = insert serv.urn.name (index_names serv.properties []) m.properties_by_name;
})

-- `DeviceModel.__init__`
unfoldable pub new_device_model : String → Urn → List MiotService → DeviceModel
new_device_model description urn services = index_services services (record {
  description = description;
  urn = urn;
  services = services;
  services_by_id = [];
  properties_by_id = [];
  properties_by_name = [];
})

-- `get_service_by_siid`, `get_property` and `get_property_by_siid_piid`
unfoldable pub get_service_by_siid : DeviceModel → ℤ → Result MiotService
get_service_by_siid m siid = or_raise (lookup siid m.services_by_id) key_error

unfoldable pub get_property : DeviceModel → String → String → Result MiotProperty
get_property m service prop_name = do
  props ← or_raise (lookup service m.properties_by_name) key_error
  or_raise (lookup prop_name props) key_error

unfoldable pub get_property_by_siid_piid : DeviceModel → ℤ → ℤ → Result MiotProperty
get_property_by_siid_piid m siid piid = do
  props ← or_raise (lookup siid m.properties_by_id) key_error
  or_raise (lookup piid props) key_error
