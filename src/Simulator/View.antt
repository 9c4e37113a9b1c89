-- ===== src/Simulator/View.antt =====
-- What a client of the simulator in miio/devtools/simulators/miotsimulator.py sees of its state: which
-- property there is under a siid and a piid.
use python_miio.Base.{◌&&◌, Option, some, List, [], ◌∷◌, if◌then◌else◌}
use python_miio.Python.Value.{Value, Fields, obj, arr, int, field, end, of_list}
use python_miio.Base.Int.{pos}
use python_miio.Base.{String}
use python_miio.Python.Dict.{lookup}
use python_miio.Python.Result.{
  Error, Result, ok, err, key_error, type_error, attribute_error, or_raise, map_ok,
}
use python_miio.Python.Action.{Action, pure, modify, ◌>>=◌, ◌>>◌}
use python_miio.Miot.Generic.Status.{Hashed, same_hashed, hashed}
use python_miio.Simulator.Property.{Builtins, SimulatedMiotProperty, assign}
use python_miio.Simulator.State.{
  SimulatorState, Located, hashed_eq, found_or_empty, answer_with, hashed_field, request_field,
  params_of,
}

abbrev pub View : Type 0
View = Hashed → Hashed → Option SimulatedMiotProperty

abbrev pub view : SimulatorState → View
view s siid piid = lookup piid (found_or_empty (lookup siid s))

abbrev pub view_located : Result Hashed → Result Hashed → Action View Located
view_located (err e) piid v = (err e, v)
view_located (ok siid) (err e) v = (err e, v)
view_located (ok siid) (ok piid) v =
    (map_ok (λ prop. (siid, piid, prop)) (or_raise (v siid piid) key_error), v)

abbrev pub put_view : Hashed → Hashed → SimulatedMiotProperty → View → View
put_view siid piid prop v siid' piid' =
    if same_hashed siid siid' && same_hashed piid piid' then some prop else v siid' piid'

module _ (describe : Error → Fields → String) where
  abbrev pub view_answered : Fields → Result Located × View → Result Value × View
  view_answered p (r, v) =
      (ok (obj (answer_with describe p (map_ok (λ found. found.2.current_value) r))), v)

  abbrev pub view_get_one : Value → Action View Value
  view_get_one (obj p) v =
      view_answered p
        (view_located (hashed_field describe "siid" p) (hashed_field describe "piid" p) v)
  view_get_one (arr _) v = (err type_error, v)
  view_get_one _ v = (err attribute_error, v)

  abbrev pub view_get_all : List Value → Action View (List Value)
  view_get_all [] = pure (ok [])
  view_get_all (p ∷ params) = do
    res ← view_get_one p
    response ← view_get_all params
    pure (ok (res ∷ response))

  abbrev pub view_get_properties : Value → Action View Value
  view_get_properties payload = do
    params ← pure (params_of payload)
    response ← view_get_all params
    pure (ok (obj (field "result" (arr (of_list response)) end)))

module _ (b : Builtins) where
  abbrev pub view_set_one : Value → Action View (Unit {0})
  view_set_one param = do
    siid ← pure (request_field "siid" param)
    piid ← pure (request_field "piid" param)
    value ← pure (request_field "value" param)
    found ← view_located (hashed siid) (hashed piid)
    prop ← pure (assign b found.2 value)
    modify (put_view found.0 found.1 prop)

  abbrev pub view_set_all : List Value → Action View (Unit {0})
  view_set_all [] = pure (ok tt)
  view_set_all (param ∷ params) = do view_set_one param; view_set_all params

  abbrev pub view_set_properties : Value → Action View Value
  view_set_properties payload = do
    params ← pure (params_of payload)
    view_set_all params
    pure (ok (obj (field "result" (int (pos 0)) end)))
