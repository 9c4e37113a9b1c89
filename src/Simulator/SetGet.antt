-- ===== src/Simulator/SetGet.antt =====
-- A property of the simulator in miio/devtools/simulators/miiosimulator.py that is set and read.
use python_miio.Base.{
  ℕ, zero, suc, ◌≡◌, refl, subst, String, none, some, List, [], ◌∷◌, get_elem?, str_eq_refl,
}
use python_miio.Python.Value.{
  Value, obj, arr, str, cons, nil, field, end, lookup_field, of_list, to_list,
}
use python_miio.Python.Dict.{text_eq, lookup}
use python_miio.Python.Result.{Result, ok}
use python_miio.Device.Sequence.{iterate, first_item}
use python_miio.Miot.Generic.Status.{hashed}
use python_miio.Simulator.State.{request_field, params_of}
use python_miio.Simulator.Miio.{
  MiioProperty, MiioSimulator, Format, last_named, put_value, handle_set, get_prop, read_props,
  ok_result,
}

-- No name is listed twice.
abbrev pub AreNamedApart : List MiioProperty → Type 0
AreNamedApart [] = Unit
AreNamedApart (prop ∷ props) = (last_named prop.name props ≡ none) × AreNamedApart props

last_named-put_value :
    (i : ℕ) (v : Value) (props : List MiioProperty) (p : MiioProperty)
    → AreNamedApart props
    → get_elem? props i ≡ some p
    → last_named p.name (put_value i v props) ≡ some (record p { value = v })
unfolding last_named put_value
last_named-put_value i v [] p w h = cc
last_named-put_value zero v (q ∷ props) p (new, w) h =
    let same : q ≡ p = cc in
    subst (λ x. last_named x.name (put_value 0 v (q ∷ props)) ≡ some (record x { value = v })) same
      (rw (new, str_eq_refl q.name) refl)
last_named-put_value (suc i) v (q ∷ props) p (new, w) h =
    rw (last_named-put_value i v props p w h) refl

-- the payloads of a setter with one value, and of `get_prop` with one name
abbrev pub set_payload : String → Value → Value
set_payload method value =
    obj (field "method" (str method) (field "params" (arr (cons value nil)) end))

abbrev pub get_payload : String → Value
get_payload name = obj (field "params" (arr (cons (str name) nil)) end)

set_found :
    (method : String) (value : Value) (s : MiioSimulator) (i : ℕ)
    → lookup method s.setters ≡ some i
    → handle_set (set_payload method value) s
      ≡ (ok ok_result, record s { properties = put_value i value s.properties })
unfolding handle_set request_field lookup_field first_item hashed
set_found method value s i h = rw h refl

get_found :
    (cast : Format → Value → Result Value) (name : String) (s : MiioSimulator) (p : MiioProperty)
    (v : Value)
    → last_named name s.properties ≡ some p
    → cast p.property_type p.value ≡ ok v
    → get_prop cast (get_payload name) s ≡ (ok (obj (field "result" (arr (cons v nil)) end)), s)
unfolding get_prop read_props params_of request_field lookup_field iterate to_list hashed of_list
get_found cast name s p v h k = rw (h, k) refl

-- Where no name is listed twice, a setter that is called with a value answers "ok", and `get_prop` of the
-- name of its property then answers with that value, converted to the property's type, if it can be.
pub get_prop-handle_set :
    (cast : Format → Value → Result Value) (method : String) (value : Value) (s : MiioSimulator)
    (i : ℕ) (p : MiioProperty) (v : Value)
    → AreNamedApart s.properties
    → lookup method s.setters ≡ some i
    → get_elem? s.properties i ≡ some p
    → cast p.property_type value ≡ ok v
    → ((handle_set (set_payload method value) s).0 ≡ ok ok_result)
      × (get_prop cast (get_payload p.name) (handle_set (set_payload method value) s).1 ≡ (
        ok (obj (field "result" (arr (cons v nil)) end)),
        (handle_set (set_payload method value) s).1,
      ))
get_prop-handle_set cast method value s i p v w found there converted =
    rw (set_found method value s i found) (
      refl,
      get_found cast p.name (record s { properties = put_value i value s.properties })
          (record p { value = value }) v (last_named-put_value i value s.properties p w there)
          converted,
    )
