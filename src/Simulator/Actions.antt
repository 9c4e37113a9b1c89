-- ===== src/Simulator/Actions.antt =====
-- The handlers of the simulator in miio/devtools/simulators/miotsimulator.py that list what there is, and
-- the one of actions.
use python_miio.Base.{
  String, Bool, true, false, ◌||◌, ◌&&◌, Option, none, some, List, [], ◌∷◌, length, str_eq, ◌==◌,
}
use python_miio.Base.Int.{ℤ, leb_ℤ}
use python_miio.Base.Text.{has_substring}
use python_miio.Python.Value.{
  Value, obj, arr, str, int, null, Items, cons, nil, field, end, as_number,
}
use python_miio.Python.Dict.{Dict, lookup, insert}
use python_miio.Python.Result.{
  Result, ok, err, type_error, value_error, key_error, index_error, or_raise, require, ◌>>=◌, ◌>>◌,
}
use python_miio.Device.Sequence.{iterate}
use python_miio.Miot.Mapping.{has_field}
use python_miio.Miot.Schema.{MiotProperty, MiotEnumValue, MiotFormat, str_type, integer_eq}
use python_miio.Miot.Service.{MiotService, DeviceModel, get_service_by_siid, get_action_by_id}
use python_miio.Miot.Generic.Status.{Hashed, number, text, nothing, hashed}
use python_miio.Simulator.Property.{SimulatedMiotProperty, is_choice}
use python_miio.Simulator.State.{SimulatorState, hashed_eq, request_field}

-- `dump_services`
unfoldable pub service_entries : List MiotService → Dict ℤ Value → Dict ℤ Value
service_entries [] servs = servs
service_entries (serv ∷ services) servs = service_entries services (
    insert serv.siid
      (obj (field "siid" (int serv.siid) (field "description" (str serv.description) end))) servs)

unfoldable pub dump_services : DeviceModel → Dict ℤ Value
dump_services m = service_entries m.services []

-- `k in params`
abbrev lists_text : String → Items → Bool
lists_text k nil = false
lists_text k (cons (str s) vs) = str_eq s k || lists_text k vs
lists_text k (cons _ vs) = lists_text k vs

unfoldable pub holds_key : String → Value → Result Bool
holds_key k (obj fs) = ok (has_field k fs)
holds_key k (arr vs) = ok (lists_text k vs)
holds_key k (str s) = ok (has_substring k s)
holds_key k _ = err type_error

-- `if k not in params: raise ValueError`
unfoldable pub require_key : Value → String → Result (Unit {0})
unfolding holds_key
require_key params k = holds_key k params >>= λ there. require there value_error

abbrev of_hashed : Hashed → Value
of_hashed (number n) = int n
of_hashed (text s) = str s
of_hashed nothing = null

abbrev property_entries : Value → Dict Hashed SimulatedMiotProperty → Items
property_entries siid [] = nil
property_entries siid ((piid, prop) ∷ props) =
    cons
      (obj (
        field "siid" siid (
          field "piid" (of_hashed piid)
            (field "prop" (str prop.base.description) (field "value" prop.current_value end)))))
      (property_entries siid props)

-- `dump_properties`
unfoldable pub dump_properties : Value → SimulatorState → Result Value
dump_properties payload s = do
  params ← request_field "params" payload
  there ← require_key params "siid"
  siid ← request_field "siid" params
  siid' ← hashed siid
  props ← or_raise (lookup siid' s) value_error
  ok (obj (field "result" (arr (property_entries siid props)) end))

-- `isinstance(param, int)`, which a bool is too
abbrev require_int : Value → Result ℤ
require_int param = or_raise (as_number param) type_error

-- `min, max, step = range`, and the test of the bounds
abbrev check_bounds : List ℤ → ℤ → Result (Unit {0})
check_bounds (lo ∷ hi ∷ step ∷ []) n = require (leb_ℤ lo n && leb_ℤ n hi) value_error
check_bounds _ n = err value_error

abbrev is_text : Value → Bool
is_text (str s) = true
is_text _ = false

abbrev check_format : MiotFormat → Value → Result (Unit {0})
check_format str_type param = require (is_text param) type_error
check_format _ param = ok tt

-- `elif wanted_input.range`, and the test of a text behind it
abbrev check_ranged : MiotProperty → Option (List ℤ) → Value → Result (Unit {0})
check_ranged wanted none param = check_format wanted.format param
check_ranged wanted (some []) param = check_format wanted.format param
check_ranged wanted (some (lo ∷ bounds)) param = require_int param >>= check_bounds (lo ∷ bounds)

-- the body of the loop over the inputs
abbrev check_chosen : MiotProperty → Option (List MiotEnumValue) → Value → Result (Unit {0})
check_chosen wanted none param = check_ranged wanted wanted.range param
check_chosen wanted (some []) param = check_ranged wanted wanted.range param
check_chosen wanted (some (c ∷ cs)) param =
    require_int param >>= λ n. require (is_choice (c ∷ cs) (int n)) value_error

unfoldable pub check_input : MiotProperty → Value → Result (Unit {0})
unfolding is_choice
check_input wanted param = check_chosen wanted wanted.choices param

-- the loop, over as many inputs as there are wanted
unfoldable pub check_inputs : List MiotProperty → List Value → Result (Unit {0})
check_inputs wanted [] = ok tt
check_inputs [] (param ∷ params) = err index_error
check_inputs (w ∷ wanted) (param ∷ params) = check_input w param >> check_inputs wanted params

-- what `get_service_by_siid` and `get_action_by_id` make of a key that is no number
abbrev number_key : Value → Result ℤ
number_key v = hashed v >>= number_of
  where
    number_of : Hashed → Result ℤ
    number_of (number n) = ok n
    number_of _ = err key_error

-- `action`
unfoldable pub action : DeviceModel → Value → Result Value
action m payload = do
  params ← request_field "params" payload
  did ← require_key params "did"
  has_siid ← require_key params "siid"
  has_aiid ← require_key params "aiid"
  has_inputs ← require_key params "in"
  siid ← request_field "siid" params
  aiid ← request_field "aiid" params
  inputs ← request_field "in" params
  siid' ← number_key siid
  service ← get_service_by_siid m siid'
  aiid' ← number_key aiid
  act ← get_action_by_id service aiid'
  values ← iterate inputs
  counted ← require (length values == length act.inputs) value_error
  checked ← check_inputs act.inputs values
  ok (obj (field "result" (arr (cons (str "ok") nil)) end))
