-- ===== src/Examples/Schemas.antt =====
-- A URN, a model with a setting and a sensor, and a status.
use python_miio.Base.{ℕ, ◌≡◌, ◌↔◌, refl, String, false, none, some, List, [], ◌∷◌}
use python_miio.Base.Int.{ℤ, pos}
use python_miio.Base.Decimal.{decimal}
use python_miio.Base.Split.{has_char, replace_char}
use python_miio.Base.Text.{starts_with, ends_with_char}
use python_miio.Miot.Mapping.{has_field}
use python_miio.Python.Value.{Value, str, int, obj, field, end, lookup_field, as_number}
use python_miio.Python.Dict.{text_eq, insert}
use python_miio.Python.Result.{Result, ok, err, attribute_error, key_error}
use python_miio.Miot.Urn.{Urn, validate, urn_string, HasParts, show_int}
use python_miio.Miot.UrnRoundTrip.{validate-urn_string}
use python_miio.Miot.Schema.{
  MiotProperty, MiotAction, int_type, read, write, notify, normalized, ServiceRef,
}
use python_miio.Miot.Service.{MiotService, DeviceModel}
use python_miio.Miot.Generic.{GenericMiot, Schemas, create_descriptors}
use python_miio.Miot.Generic.Spec.{described_services, queries}
use python_miio.Miot.Generic.Creating.{Outcome}
use python_miio.Miot.Generic.Services.{create_descriptors_lem}
use python_miio.Miot.Generic.Status.{
  StatusData, initialize_data, get_attribute, is_dunder, is_valid_property_response, store_response,
  response_entry, hashed, number,
}
use python_miio.Miot.Generic.Attributes.{empty, get_attribute_lem}
use python_miio.Miot.Generic.Responses.{last_value}

abbrev pub fan_urn : Urn
fan_urn = record {
  namespace = "miot-spec-v2";
  urn_type = "service";
  name = "fan";
  internal_id = "00007808";
  urn_model = "zhimi-v1";
  version = pos 1;
  unexpected = some ("0000C801" ∷ []);
}

abbrev parse_one : String → Result ℤ
parse_one s = ok (pos 1)

urn-HasParts : HasParts fan_urn (some ("0000C801" ∷ []))
unfolding has_char show_int decimal
urn-HasParts = (refl, (refl, (refl, (refl, (refl, (refl, (refl, (refl, tt))))))))

validate-urn_string_example : validate parse_one (str (urn_string fan_urn)) ≡ ok fan_urn
validate-urn_string_example = validate-urn_string parse_one fan_urn urn-HasParts refl

abbrev fan_service : ServiceRef
fan_service = record { siid = pos 2; service_urn = fan_urn }

abbrev setting : MiotProperty
setting = record {
  urn = record fan_urn { name = "fan-level" };
  description = "Fan Level";
  service = some fan_service;
  piid = pos 3;
  format = int_type;
  access = read ∷ write ∷ [];
  unit = none;
  range = some (pos 1 ∷ pos 4 ∷ pos 1 ∷ []);
  choices = none;
  value = none;
}

abbrev toggle : MiotAction (List MiotProperty)
toggle = record {
  urn = record fan_urn { name = "toggle" };
  description = "Toggle";
  service = some fan_service;
  aiid = pos 1;
  inputs = setting ∷ [];
  outputs = [];
}

abbrev pub service : MiotService
service = record {
  siid = pos 2;
  urn = fan_urn;
  description = "Fan";
  properties = setting ∷ record setting { access = notify ∷ [] } ∷ [];
  actions = toggle ∷ [];
  property_by_id = [];
  action_by_id = [];
}

abbrev services : List MiotService
services = service ∷ []

abbrev schemas : Schemas
schemas = record {
  get_device_model = λ model. err key_error;
  make_enum = λ name members. ok members;
  host = record {
    method_named = λ name. err attribute_error;
    choices_from = λ name. err attribute_error;
    range_from = λ name. err attribute_error;
  };
}

abbrev generic : GenericMiot ℕ
generic = record {
  device = record { model = none; info = none; transport = 0 };
  initialized = false;
  descriptors = [];
  miot_model = none;
  status_query = [];
}

create_descriptors_lem_example :
    Outcome schemas
      (described_services schemas services)
      (queries services)
      generic
      (create_descriptors schemas services generic)
create_descriptors_lem_example = create_descriptors_lem schemas services generic

abbrev answer : Value
answer = obj (
    field "did" (str "fan:fan-level") (
      field "siid" (int (pos 2)) (
        field "piid" (int (pos 3)) (field "value" (int (pos 4)) (field "code" (int (pos 0)) end)))))

abbrev response : List Value
response = answer ∷ []

abbrev fan_model : DeviceModel
fan_model = record {
  description = "Fan";
  urn = fan_urn;
  services = services;
  services_by_id = [];
  properties_by_id = [];
  properties_by_name = [];
}

abbrev inherited : String → Result Value
inherited item = err attribute_error

abbrev status : StatusData
status = record {
  contents = ("fan:fan-level", int (pos 4)) ∷ [];
  by_siid_piid = ((number (pos 2), number (pos 3)), int (pos 4)) ∷ [];
  by_normalized_name = ("fan_fan_level", int (pos 4)) ∷ [];
}

status_made : initialize_data response empty ≡ ok status
unfolding initialize_data is_valid_property_response store_response response_entry hashed
    lookup_field has_field as_number normalized replace_char insert
status_made = refl

item_plain : is_dunder "fan_fan_level" ≡ false
unfolding is_dunder starts_with ends_with_char
item_plain = refl

get_attribute_lem_example :
    (get_attribute inherited fan_model status "fan_fan_level" ≡ ok (int (pos 4)))
    ↔ (last_value (normalized "fan_fan_level") response ≡ some (int (pos 4)))
get_attribute_lem_example =
    get_attribute_lem inherited fan_model response status "fan_fan_level" (int (pos 4)) status_made
      item_plain
