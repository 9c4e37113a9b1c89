-- ===== src/Examples/Mappings.antt =====
-- A mapping of two properties and an action, asked for over a transport that answers.
use python_miio.Base.{◌≡◌, refl, String, none, some, List, [], ◌∷◌, arith}
use python_miio.Base.Int.{pos}
use python_miio.Python.Value.{Value}
use python_miio.Python.Dict.{text_eq}
use python_miio.Python.Result.{ok}
use python_miio.Device.Transport.{Transport}
use python_miio.Device.Info.{Device, on_transport}
use python_miio.Device.Slicing.{recorder, slices, asked_in_turn}
use python_miio.Miot.Device.{MiotClass, get_mapping, get_properties_for_mapping}
use python_miio.Miot.Values.{
  Entry, readable, callable, mapping_of, requests_of, get_properties_for_mapping_requests,
}

abbrev echo : Value → Value
echo v = v

abbrev echoes : Transport (List (List Value))
echoes = recorder echo

abbrev entries : List (String × Entry)
entries =
    ("power", readable (pos 2) (pos 1))
    ∷ ("level", readable (pos 2) (pos 2))
    ∷ ("toggle", callable (pos 2) (pos 1))
    ∷ []

abbrev fan_class : MiotClass
fan_class = record { mappings = []; mapping = some (mapping_of entries); show = λ v. "2" }

abbrev fan : Device (List (List Value))
fan = record { model = none; info = none; transport = [] }

fan-get_mapping : get_mapping echoes fan_class fan ≡ (ok (mapping_of entries), fan)
unfolding get_mapping
fan-get_mapping = refl

get_properties_for_mapping_requests_example :
    get_properties_for_mapping echoes fan_class (some 1) fan
    ≡ on_transport
        (asked_in_turn echoes "get_properties" (slices 1 (requests_of entries) 0 2) [])
        fan
get_properties_for_mapping_requests_example =
    get_properties_for_mapping_requests echoes fan_class entries 1 2 fan fan fan-get_mapping
      (omega arith) (omega arith) (omega arith)
