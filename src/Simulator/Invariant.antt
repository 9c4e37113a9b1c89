-- ===== src/Simulator/Invariant.antt =====
-- What `set_properties` of the simulator in miio/devtools/simulators/miotsimulator.py keeps true of its
-- properties.
use python_miio.Base.{sym, ap, subst, ◌&&◌, Bool-cases, inl, inr, Option, none, some, List, [], ◌∷◌}
use python_miio.Python.Value.{Value}
use python_miio.Python.Result.{Result, ok, err, OfValue}
use python_miio.Python.Action.{Action, pure, modify, resume, ◌>>=◌}
use python_miio.Miot.Generic.Status.{Hashed, same_hashed, hashed}
use python_miio.Simulator.Property.{Builtins, SimulatedMiotProperty, assign}
use python_miio.Simulator.State.{SimulatorState, set_properties, request_field, params_of}
use python_miio.Simulator.View.{
  View, view, put_view, view_located, view_set_one, view_set_all, view_set_properties,
}
use python_miio.Simulator.Refinement.{set_properties-Refines}
use python_miio.Simulator.Bounds.{IsKept, AreDocumented, assign-IsKept}

abbrev pub IsKeptIfThere : Option SimulatedMiotProperty → Type 0
IsKeptIfThere none = Unit
IsKeptIfThere (some prop) = IsKept prop

abbrev pub AllKept : View → Type 0
AllKept v = (siid piid : Hashed) → IsKeptIfThere (v siid piid)

record Keeps {A : Type 0} (m : Action View A) : Type 0 where
  keeps : (v : View) → AllKept v → AllKept (m v).1

pure-Keeps : {A : Type 0} (r : Result A) → Keeps (pure r)
pure-Keeps r = record { keeps = λ v w. w }

>>=-Keeps :
    {A B : Type 0} (m : Action View A) (f : A → Action View B)
    → Keeps m
    → ((a : A) → Keeps (f a))
    → Keeps (m >>= f)
>>=-Keeps {A} m f first rest = record { keeps = λ v w. after (m v).0 (m v).1 (first.keeps v w) }
  where
    after : (r : Result A) (v : View) → AllKept v → AllKept (resume r f v).1
    after (ok a) v w = (rest a).keeps v w
    after (err e) v w = w

view_located-Keeps : (siid piid : Result Hashed) → Keeps (view_located siid piid)
view_located-Keeps (err e) piid = record { keeps = λ v w. w }
view_located-Keeps (ok siid) (err e) = record { keeps = λ v w. w }
view_located-Keeps (ok siid) (ok piid) = record { keeps = λ v w. w }

put_view-AllKept :
    (siid piid : Hashed) (prop : SimulatedMiotProperty) (v : View)
    → IsKept prop
    → AllKept v
    → AllKept (put_view siid piid prop v)
put_view-AllKept siid piid prop v k w i j =
    elim (Bool-cases (same_hashed siid i && same_hashed piid j)) [
      | inl here ↦ rw here k
      | inr elsewhere ↦ rw elsewhere (w i j)
    ]

put_assigned-Keeps :
    (siid piid : Hashed) (r : Result SimulatedMiotProperty)
    → OfValue IsKept r
    → Keeps (pure r >>= λ prop. modify (put_view siid piid prop))
put_assigned-Keeps siid piid (err e) k = record { keeps = λ v w. w }
put_assigned-Keeps siid piid (ok prop) k = record {
  keeps = λ v w. put_view-AllKept siid piid prop v k w;
}

module _ (b : Builtins) (d : AreDocumented b) where
  view_set_one-Keeps : (param : Value) → Keeps (view_set_one b param)
  view_set_one-Keeps param = >>=-Keeps _ _ (pure-Keeps (request_field "siid" param)) (λ siid.
      >>=-Keeps _ _ (pure-Keeps (request_field "piid" param)) (λ piid.
        >>=-Keeps _ _ (pure-Keeps (request_field "value" param)) (λ value.
          >>=-Keeps _ _ (view_located-Keeps (hashed siid) (hashed piid)) (λ found.
            put_assigned-Keeps found.0 found.1 (assign b found.2 value)
              (assign-IsKept b found.2 value d)))))

  view_set_all-Keeps : (params : List Value) → Keeps (view_set_all b params)
  view_set_all-Keeps [] = pure-Keeps (ok tt)
  view_set_all-Keeps (param ∷ params) =
      >>=-Keeps _ _ (view_set_one-Keeps param) (λ done. view_set_all-Keeps params)

  view_set_properties-Keeps : (payload : Value) → Keeps (view_set_properties b payload)
  view_set_properties-Keeps payload =
      >>=-Keeps _ _ (pure-Keeps (params_of payload))
        (λ params. >>=-Keeps _ _ (view_set_all-Keeps params) (λ done. pure-Keeps _))

-- Where every property of the simulator holds a value within its range, if it has one, is no text and has
-- no choices, every property still does after any call of `set_properties`, also one that raises, if
-- `randint` keeps to its bounds and the field's type keeps numbers.
pub set_properties-AllKept :
    (b : Builtins) (payload : Value) (s : SimulatorState)
    → AreDocumented b
    → AllKept (view s)
    → AllKept (view (set_properties b payload s).1)
set_properties-AllKept b payload s d w =
    subst AllKept (sym (ap (λ out. out.1) ((set_properties-Refines b payload).sees s)))
      ((view_set_properties-Keeps b d payload).keeps (view s) w)
