-- ===== src/Simulator/Miio.antt =====
-- The simulator of miio/devtools/simulators/miiosimulator.py. A property is known to its setter by its
-- place in the list, since both are one object.
use python_miio.Base.{
  ℕ, zero, suc, String, Bool, true, false, ◌||◌, Option, none, some, List, [], ◌∷◌, str_eq,
  if◌then◌else◌,
}
use python_miio.Python.Value.{Value, obj, arr, str, cons, nil, field, end, of_list}
use python_miio.Python.Dict.{Dict, text_eq, lookup, insert}
use python_miio.Python.Result.{Result, ok, err, key_error, or_raise, ◌>>=◌ as and_then}
use python_miio.Python.Action.{Action, pure, modify, get, ◌>>=◌, ◌>>◌}
use python_miio.Device.Sequence.{first_item}
use python_miio.Miot.Generic.Status.{Hashed, number, text, nothing, hashed}
use python_miio.Simulator.State.{request_field, params_of}

-- `Format`: the types of Python that it stands for
pub data Format : Type 0 where
  bool_type int_type str_type float_type : Format

-- `Format.convert_type`
unfoldable pub convert_type : String → Result Format
convert_type input =
    if str_eq input "bool"
    then ok bool_type
    else if str_eq input "int"
    then ok int_type
    else if str_eq input "str_bool" || str_eq input "str"
    then ok str_type
    else if str_eq input "float"
    then ok float_type
    else err key_error

pub record MiioProperty : Type 0 where
  pub name : String
  pub property_type : Format
  pub value : Value
  pub models : List String
  pub setter : Option String

-- what pydantic has parsed of `result` and `result_json`: the second is text of JSON that is not empty
pub record MiioMethod : Type 0 where
  pub name : String
  pub result : Value
  pub result_json : Option (Result Value)

-- a method of the server: one of the simulator's, or an answer
pub data Method : Type 0 where
  get_prop_method handle_set_method : Method
  answer : Value → Method

-- The properties are those of `_dev`, and `methods` are those of the server.
pub record MiioSimulator : Type 0 where
  pub properties : List MiioProperty
  pub setters : Dict String ℕ
  pub methods : Dict String Method

-- `model in models`
abbrev is_listed : String → List String → Bool
is_listed model [] = false
is_listed model (m ∷ models) = str_eq m model || is_listed model models

-- `not (prop.models and model not in prop.models)`
unfoldable pub is_supported : String → List String → Bool
is_supported model [] = true
is_supported model (m ∷ models) = is_listed model (m ∷ models)

abbrev add_setter : Option String → ℕ → MiioSimulator → MiioSimulator
add_setter none i s = s
add_setter (some setter) i s = record s {
  setters = insert setter i s.setters;
  methods = insert setter handle_set_method s.methods;
}

-- the loop over the properties in `__init__`, from place `i` on
unfoldable pub add_setters : String → List MiioProperty → ℕ → MiioSimulator → MiioSimulator
unfolding is_supported
add_setters model [] i s = s
add_setters model (prop ∷ props) i s =
    add_setters model props (suc i)
      (if is_supported model prop.models then add_setter prop.setter i s else s)

abbrev method_result : MiioMethod → Result Value
method_result m = result_of m.result_json
  where
    result_of : Option (Result Value) → Result Value
    result_of none = ok m.result
    result_of (some json) = json

-- the loop over the methods
unfoldable pub add_methods : List MiioMethod → MiioSimulator → Result MiioSimulator
add_methods [] s = ok s
add_methods (m ∷ ms) s = and_then (method_result m) (λ v.
    add_methods ms
      (record s { methods = insert m.name (answer (obj (field "result" v end))) s.methods }))

abbrev get_prop_methods : List MiioProperty → Dict String Method → Dict String Method
get_prop_methods [] methods = methods
get_prop_methods (prop ∷ props) methods = insert "get_prop" get_prop_method methods

-- `MiioSimulator.__init__`, over the methods that the server has
unfoldable pub new_simulator :
    String → List MiioProperty → List MiioMethod → Dict String Method → Result MiioSimulator
new_simulator model props ms methods = add_methods ms (
    add_setters model props 0
      (record { properties = props; setters = []; methods = get_prop_methods props methods }))

abbrev pub or_else : Option MiioProperty → Option MiioProperty → Option MiioProperty
or_else none q = q
or_else (some p) q = some p

-- `{prop.name: prop for prop in properties}.get(name)`: the last one of a name
unfoldable pub last_named : String → List MiioProperty → Option MiioProperty
last_named name [] = none
last_named name (prop ∷ props) =
    or_else (last_named name props) (if str_eq prop.name name then some prop else none)

-- a key that is no text is the name of no property
abbrev named_by : List MiioProperty → Hashed → Result MiioProperty
named_by props (text name) = or_raise (last_named name props) key_error
named_by props (number n) = err key_error
named_by props nothing = err key_error

-- `prop.value = v` for the property at a place
unfoldable pub put_value : ℕ → Value → List MiioProperty → List MiioProperty
put_value i v [] = []
put_value zero v (prop ∷ props) = record prop { value = v } ∷ props
put_value (suc i) v (prop ∷ props) = prop ∷ put_value i v props

-- `self._setters[k]`
abbrev place_of : Dict String ℕ → Hashed → Result ℕ
place_of setters (text name) = or_raise (lookup name setters) key_error
place_of setters (number n) = err key_error
place_of setters nothing = err key_error

-- `cast` is `type(value)` for a type of Python.
module _ (cast : Format → Value → Result Value) where
  -- the loop in `get_prop`
  unfoldable pub read_props : List MiioProperty → List Value → Result (List Value)
  read_props props [] = ok []
  read_props props (param ∷ params) = and_then (hashed param) (λ name.
      and_then (named_by props name) (λ p.
        and_then (cast p.property_type p.value)
          (λ v. and_then (read_props props params) (λ vs. ok (v ∷ vs)))))

  -- `get_prop`
  unfoldable pub get_prop : Value → Action MiioSimulator Value
  get_prop payload s = (
    and_then (params_of payload) (λ params.
        and_then (read_props s.properties params)
          (λ resp. ok (obj (field "result" (arr (of_list resp)) end)))),
    s,
  )

-- `{"result": ["ok"]}`
abbrev pub ok_result : Value
ok_result = obj (field "result" (arr (cons (str "ok") nil)) end)

-- `handle_set`: the value is read before the setter is looked up
unfoldable pub handle_set : Value → Action MiioSimulator Value
handle_set payload = do
  params ← pure (request_field "params" payload)
  value ← pure (first_item params)
  method ← pure (request_field "method" payload)
  setter ← pure (hashed method)
  setters ← get (λ s. s.setters)
  i ← pure (place_of setters setter)
  modify (λ s. record s { properties = put_value i value s.properties })
  pure (ok ok_result)
