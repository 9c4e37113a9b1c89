-- ===== src/Simulator/State.antt =====
-- `MiotSimulator` of miio/devtools/simulators/miotsimulator.py: its state, and the handlers of the methods
-- that read and write properties.
use python_miio.Base.{String, Option, none, some, List, [], ◌∷◌}
use python_miio.Base.Int.{ℤ, pos, negsuc}
use python_miio.Python.Value.{
  Value, obj, arr, str, int, Fields, field, end, lookup_field, put_field, of_list,
}
use python_miio.Python.Dict.{Dict, Key, lookup, insert}
use python_miio.Python.Result.{
  Error, Result, ok, err, attribute_error, type_error, key_error, or_raise, map_ok,
  ◌>>=◌ as and_then,
}
use python_miio.Python.Action.{Action, pure, modify, ◌>>=◌, ◌>>◌}
use python_miio.Device.Sequence.{iterate}
use python_miio.Miot.Schema.{integer_eq}
use python_miio.Miot.Generic.Status.{Hashed, number, hashed, same_hashed, same_hashed_iff}
use python_miio.Simulator.Property.{Builtins, SimulatedMiotProperty, assign}

instance abbrev pub hashed_eq : Key Hashed
hashed_eq = record { beq = same_hashed; beq_iff = same_hashed_iff }

-- `_state`: its entries by siid are made when they are first looked up, those by piid are not
abbrev pub SimulatorState : Type 0
SimulatorState = Dict Hashed (Dict Hashed SimulatedMiotProperty)

abbrev pub found_or_empty :
    Option (Dict Hashed SimulatedMiotProperty) → Dict Hashed SimulatedMiotProperty
found_or_empty none = []
found_or_empty (some props) = props

-- what `self._state[siid]` leaves: the entry that is there, or a new one
abbrev pub touched :
    Hashed → Option (Dict Hashed SimulatedMiotProperty) → SimulatorState → SimulatorState
touched siid none s = insert siid [] s
touched siid (some props) s = s

-- `x[k]` of a request
unfoldable pub request_field : String → Value → Result Value
request_field k (obj fs) = or_raise (lookup_field k fs) key_error
request_field k _ = err type_error

-- `payload["params"]`, gone through one by one
unfoldable pub params_of : Value → Result (List Value)
unfolding request_field
params_of payload = and_then (request_field "params" payload) iterate

-- the loop over the properties of a service in `initialize_state`
unfoldable pub initialize_properties :
    Hashed → List SimulatedMiotProperty → SimulatorState → SimulatorState
initialize_properties siid [] s = s
initialize_properties siid (prop ∷ props) s =
    initialize_properties siid props
      (insert siid (insert (number prop.base.piid) prop (found_or_empty (lookup siid s))) s)

-- `initialize_state`, from the services' ids and properties
unfoldable pub initialize_state :
    List (ℤ × List SimulatedMiotProperty) → SimulatorState → SimulatorState
initialize_state [] s = s
initialize_state ((siid, props) ∷ services) s =
    initialize_state services (initialize_properties (number siid) props s)

-- Where a property stands, and the property.
abbrev pub Located : Type 0
Located = Hashed × Hashed × SimulatedMiotProperty

-- `self._state[siid][piid]`: the entry of the siid is made before the piid is looked at
unfoldable pub located : Result Hashed → Result Hashed → Action SimulatorState Located
located (err e) piid s = (err e, s)
located (ok siid) (err e) s = (err e, touched siid (lookup siid s) s)
located (ok siid) (ok piid) s = (
  map_ok (λ prop. (siid, piid, prop))
      (or_raise (lookup piid (found_or_empty (lookup siid s))) key_error),
  touched siid (lookup siid s) s,
)

-- `describe` is `str(ex)` for what the request raises.
module _ (describe : Error → Fields → String) where
  -- `res["value"] = …` and `res["code"] = …`, or what the handler of all exceptions writes
  abbrev pub answer_with : Fields → Result Value → Fields
  answer_with p (ok value) = put_field "code" (int (pos 0)) (put_field "value" value p)
  answer_with p (err e) =
      put_field "exception" (str (describe e p))
        (put_field "code" (int (negsuc 999)) (put_field "value" (str "") p))

  abbrev pub answered : Fields → Result Located × SimulatorState → Result Value × SimulatorState
  answered p (r, s) = (ok (obj (answer_with p (map_ok (λ found. found.2.current_value) r))), s)

  -- `hash` of `res[k]`
  abbrev pub hashed_field : String → Fields → Result Hashed
  hashed_field k p = and_then (or_raise (lookup_field k p) key_error) hashed

  -- the body of the loop in `get_properties`; a list can be copied, but takes no text as an index
  unfoldable pub get_one : Value → Action SimulatorState Value
  get_one (obj p) s = answered p (located (hashed_field "siid" p) (hashed_field "piid" p) s)
  get_one (arr _) s = (err type_error, s)
  get_one _ s = (err attribute_error, s)

  unfoldable pub get_all : List Value → Action SimulatorState (List Value)
  get_all [] = pure (ok [])
  get_all (p ∷ params) = do res ← get_one p; response ← get_all params; pure (ok (res ∷ response))

  -- `get_properties`
  unfoldable pub get_properties : Value → Action SimulatorState Value
  get_properties payload = do
    params ← pure (params_of payload)
    response ← get_all params
    pure (ok (obj (field "result" (arr (of_list response)) end)))

-- `self._state[siid][piid].current_value = value` for a property that is there
abbrev pub put_property : Hashed → Hashed → SimulatedMiotProperty → SimulatorState → SimulatorState
put_property siid piid prop s = insert siid (insert piid prop (found_or_empty (lookup siid s))) s

module _ (b : Builtins) where
  -- the body of the loop in `set_properties`
  unfoldable pub set_one : Value → Action SimulatorState (Unit {0})
  set_one param = do
    siid ← pure (request_field "siid" param)
    piid ← pure (request_field "piid" param)
    value ← pure (request_field "value" param)
    found ← located (hashed siid) (hashed piid)
    prop ← pure (assign b found.2 value)
    modify (put_property found.0 found.1 prop)

  unfoldable pub set_all : List Value → Action SimulatorState (Unit {0})
  set_all [] = pure (ok tt)
  set_all (param ∷ params) = do set_one param; set_all params

  -- `set_properties`
  unfoldable pub set_properties : Value → Action SimulatorState Value
  set_properties payload = do
    params ← pure (params_of payload)
    set_all params
    pure (ok (obj (field "result" (int (pos 0)) end)))
