-- ===== src/Examples/Simulated.antt =====
-- A simulated fan level that is set and read.
use python_miio.Base.{
  ◌≡◌, refl, ap, sym, true, String, none, some, List, [], ◌∷◌, arith, if◌then◌else◌, Bool-cases,
  inl, inr,
}
use python_miio.Base.Int.{ℤ, pos, leb_ℤ}
use python_miio.Python.Value.{Value, Fields, str, int, arr, obj, cons, nil, field, end, as_number}
use python_miio.Python.Dict.{text_eq, lookup}
use python_miio.Python.Result.{Error, Result, ok, err, value_error}
use python_miio.Miot.Schema.{MiotProperty, int_type, read, write}
use python_miio.Miot.Generic.Status.{same_hashed, number}
use python_miio.Simulator.Property.{Builtins, between}
use python_miio.Simulator.State.{SimulatorState, set_properties}
use python_miio.Simulator.View.{view}
use python_miio.Simulator.Runs.{
  Call, get_call, set_call, responses, view_responses, responses_refined,
}
use python_miio.Simulator.Bounds.{AreDocumented}
use python_miio.Simulator.Invariant.{AllKept, set_properties-AllKept}
use python_miio.Simulator.Miio.{
  Format, MiioProperty, MiioSimulator, handle_set, get_prop, last_named, ok_result,
}
use python_miio.Simulator.SetGet.{AreNamedApart, set_payload, get_payload, get_prop-handle_set}
use python_miio.Examples.Schemas.{fan_urn}

abbrev smallest : ℤ → ℤ → Result ℤ
smallest lo hi = if leb_ℤ lo hi then ok lo else err value_error

abbrev builtins : Builtins
builtins = record { randint = smallest; cast = λ format v. ok v; coerced = λ v. ok v }

smallest_inside : (lo hi n : ℤ) → smallest lo hi ≡ ok n → between (some n) lo hi ≡ true
smallest_inside lo hi n h = ground arith

coerced_lem : (v v' : Value) → builtins.coerced v ≡ ok v' → as_number v' ≡ as_number v
coerced_lem v v' h = let same : v ≡ v' = cc in ap as_number (sym same)

builtins-AreDocumented : AreDocumented builtins
builtins-AreDocumented = record { randint_inside = smallest_inside; coerced_same = coerced_lem }

abbrev fan_level : MiotProperty
fan_level = record {
  urn = fan_urn;
  description = "Fan Level";
  service = some (record { siid = pos 2; service_urn = fan_urn });
  piid = pos 3;
  format = int_type;
  access = read ∷ write ∷ [];
  unit = none;
  range = some (pos 1 ∷ pos 4 ∷ pos 1 ∷ []);
  choices = none;
  value = none;
}

abbrev simulated : SimulatorState
simulated =
    (
      number (pos 2),
      (number (pos 3), record { base = fan_level; current_value = int (pos 1) }) ∷ [],
    )
    ∷ []

abbrev request : Value
request = obj (
    field "params"
      (arr (
        cons
          (obj (
            field "siid" (int (pos 2))
              (field "piid" (int (pos 3)) (field "value" (int (pos 4)) end))))
          nil))
      end)

abbrev calls : List Call
calls = set_call request ∷ get_call request ∷ []

abbrev describe : Error → Fields → String
describe e p = "error"

responses_refined_example :
    responses describe builtins calls simulated
    ≡ view_responses describe builtins calls (view simulated)
responses_refined_example = responses_refined describe builtins calls simulated

simulated-AllKept : AllKept (view simulated)
unfolding lookup as_number
simulated-AllKept siid piid = elim (Bool-cases (same_hashed (number (pos 2)) siid)) [
  | inl found ↦ elim (Bool-cases (same_hashed (number (pos 3)) piid)) [
    | inl here ↦ rw (found, here) refl
    | inr other ↦ rw (found, other) tt
  ]
  | inr missing ↦ rw missing tt
]

set_properties-AllKept_example : AllKept (view (set_properties builtins request simulated).1)
set_properties-AllKept_example =
    set_properties-AllKept builtins request simulated builtins-AreDocumented simulated-AllKept

abbrev power : MiioProperty
power = record {
  name = "power";
  property_type = Format.str_type;
  value = str "off";
  models = [];
  setter = some "set_power";
}

abbrev mode : MiioProperty
mode = record power { name = "mode"; setter = some "set_mode" }

abbrev plug : MiioSimulator
plug = record {
  properties = power ∷ mode ∷ [];
  setters = ("set_power", 0) ∷ ("set_mode", 1) ∷ [];
  methods = [];
}

abbrev same_value : Format → Value → Result Value
same_value format v = ok v

plug-AreNamedApart : AreNamedApart plug.properties
unfolding last_named
plug-AreNamedApart = (refl, (refl, tt))

setter_found : lookup "set_power" plug.setters ≡ some 0
unfolding lookup
setter_found = refl

get_prop-handle_set_example :
    ((handle_set (set_payload "set_power" (str "on")) plug).0 ≡ ok ok_result)
    × (get_prop same_value
          (get_payload "power")
          (handle_set (set_payload "set_power" (str "on")) plug).1
        ≡ (
          ok (obj (field "result" (arr (cons (str "on") nil)) end)),
          (handle_set (set_payload "set_power" (str "on")) plug).1,
        ))
get_prop-handle_set_example =
    get_prop-handle_set same_value "set_power" (str "on") plug 0 power (str "on") plug-AreNamedApart
      setter_found refl refl
