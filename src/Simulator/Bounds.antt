-- ===== src/Simulator/Bounds.antt =====
-- The values that the simulator of miio/devtools/simulators/miotsimulator.py holds for ranged properties.
use python_miio.Base.{
  ◌≡◌, refl, true, false, Bool, Bool-cases, inl, inr, Option, none, some, List, [], ◌∷◌,
  if◌then◌else◌,
}
use python_miio.Base.Int.{ℤ}
use python_miio.Python.Value.{Value, int, as_number}
use python_miio.Python.Result.{
  ok, err, index_error, value_error, OfValue, OfValue->>=, OfValue-chain, OfValue-all, ◌>>=◌,
}
use python_miio.Miot.Schema.{
  MiotProperty, MiotFormat, int_type, bool_type, str_type, float_type, none_type, MiotEnumValue,
  has_access, write,
}
use python_miio.Simulator.Property.{
  Builtins, SimulatedMiotProperty, between, equals_number, unset, check_range, reaches,
  check_choices, check_value, verify_value, create_random, assign, cast_or_invalid, random_in_range,
}

abbrev pub IsInside : Option (List ℤ) → Value → Type 0
IsInside none v = Unit
IsInside (some (lo ∷ hi ∷ rest)) v = between (as_number v) lo hi ≡ true
IsInside (some (lo ∷ [])) v = ⊥
IsInside (some []) v = ⊥

-- Only a property without choices that is no text is given a random value from its range.
abbrev pub IsInBounds : MiotFormat → Option (List MiotEnumValue) → Option (List ℤ) → Value → Type 0
IsInBounds str_type choices bounds v = Unit
IsInBounds _ (some cs) bounds v = Unit
IsInBounds _ none bounds v = IsInside bounds v

abbrev HoldsInside : MiotProperty → Value → Type 0
HoldsInside prop v = IsInBounds prop.format prop.choices prop.range v

-- `random.randint(lo, hi)` lies between its arguments, and the field's type keeps numbers.
pub record AreDocumented (b : Builtins) : Type 0 where
  pub randint_inside : (lo hi n : ℤ) → b.randint lo hi ≡ ok n → between (some n) lo hi ≡ true
  pub coerced_same : (v v' : Value) → b.coerced v ≡ ok v' → as_number v' ≡ as_number v

check_range-IsInside :
    (bounds : Option (List ℤ)) (v : Value) → OfValue (λ _. IsInside bounds v) (check_range bounds v)
unfolding check_range
check_range-IsInside none v = tt
check_range-IsInside (some []) v = tt
check_range-IsInside (some (lo ∷ [])) v = refused (reaches (as_number v) lo)
  where
    refused :
        (b : Bool) → OfValue (λ (_ : Unit {0}). ⊥) (if b then err index_error else err value_error)
    refused true = tt
    refused false = tt
check_range-IsInside (some (lo ∷ hi ∷ rest)) v = elim (Bool-cases (between (as_number v) lo hi)) [
  | inl inside ↦ rw inside refl
  | inr outside ↦ rw outside tt
]

in_bounds :
    (format : MiotFormat) (choices : Option (List MiotEnumValue)) (bounds : Option (List ℤ))
    (v : Value)
    → IsInside bounds v
    → IsInBounds format choices bounds v
in_bounds str_type choices bounds v h = tt
in_bounds int_type (some cs) bounds v h = tt
in_bounds bool_type (some cs) bounds v h = tt
in_bounds float_type (some cs) bounds v h = tt
in_bounds none_type (some cs) bounds v h = tt
in_bounds int_type none bounds v h = h
in_bounds bool_type none bounds v h = h
in_bounds float_type none bounds v h = h
in_bounds none_type none bounds v h = h

check_value-HoldsInside :
    (b : Builtins) (prop : MiotProperty) (v : Value)
    → OfValue (HoldsInside prop) (check_value b prop v)
unfolding check_value
check_value-HoldsInside b prop v =
    OfValue->>= (HoldsInside prop) (cast_or_invalid (b.cast prop.format v)) _ (λ casted.
      OfValue-chain (λ _. IsInside prop.range casted) (HoldsInside prop)
        (check_range prop.range casted)
        (λ inside. check_choices prop.choices casted >>= λ listed. ok casted)
        (check_range-IsInside prop.range casted)
        (λ inside h.
          OfValue->>= (HoldsInside prop) (check_choices prop.choices casted) (λ listed. ok casted)
            (λ listed. in_bounds prop.format prop.choices prop.range casted h)))

-- A bool or nothing is made where there is no range.
random_in_range-IsInside :
    (b : Builtins) (format : MiotFormat) (bounds : Option (List ℤ))
    → AreDocumented b
    → OfValue (IsInside bounds) (random_in_range b format bounds)
unfolding as_number
random_in_range-IsInside b format none d = OfValue-all (IsInside none) _ (λ v h. tt)
random_in_range-IsInside b format (some []) d = tt
random_in_range-IsInside b format (some (lo ∷ [])) d = tt
random_in_range-IsInside b format (some (lo ∷ hi ∷ rest)) d =
    OfValue-chain (λ n. between (some n) lo hi ≡ true) (IsInside (some (lo ∷ hi ∷ rest)))
      (b.randint lo hi) (λ n. ok (int n))
      (OfValue-all (λ n. between (some n) lo hi ≡ true) (b.randint lo hi) (d.randint_inside lo hi))
      (λ n h. h)

create_random-HoldsInside :
    (b : Builtins) (prop : MiotProperty)
    → AreDocumented b
    → OfValue (HoldsInside prop) (create_random b prop)
unfolding create_random
create_random-HoldsInside b prop d = of_format prop.format prop.choices
  where
    of_format :
        (format : MiotFormat) (choices : Option (List MiotEnumValue))
        → OfValue
            (HoldsInside (record prop { format = format; choices = choices }))
            (create_random b (record prop { format = format; choices = choices }))
    of_format str_type choices = tt
    of_format int_type (some cs) = OfValue-all _ _ (λ v h. tt)
    of_format bool_type (some cs) = OfValue-all _ _ (λ v h. tt)
    of_format float_type (some cs) = OfValue-all _ _ (λ v h. tt)
    of_format none_type (some cs) = OfValue-all _ _ (λ v h. tt)
    of_format int_type none = random_in_range-IsInside b int_type prop.range d
    of_format bool_type none = random_in_range-IsInside b bool_type prop.range d
    of_format float_type none = random_in_range-IsInside b float_type prop.range d
    of_format none_type none = random_in_range-IsInside b none_type prop.range d

verify_value-HoldsInside :
    (b : Builtins) (prop : MiotProperty) (v : Value)
    → AreDocumented b
    → OfValue (HoldsInside prop) (verify_value b prop v)
unfolding verify_value
verify_value-HoldsInside b prop v d = elim (Bool-cases (equals_number (as_number v) unset)) [
  | inl reset ↦ rw reset (create_random-HoldsInside b prop d)
  | inr given ↦ elim (Bool-cases (has_access write prop.access)) [
    | inl writable ↦ rw (given, writable) (check_value-HoldsInside b prop v)
    | inr fixed ↦ rw (given, fixed) tt
  ]
]

-- The bounds are read through the number alone.
IsInside-same :
    (bounds : Option (List ℤ)) (v v' : Value)
    → as_number v' ≡ as_number v
    → IsInside bounds v
    → IsInside bounds v'
IsInside-same none v v' h w = tt
IsInside-same (some (lo ∷ hi ∷ rest)) v v' h w = rw h w
IsInside-same (some (lo ∷ [])) v v' h w = w
IsInside-same (some []) v v' h w = w

holds_same :
    (format : MiotFormat) (choices : Option (List MiotEnumValue)) (bounds : Option (List ℤ))
    (v v' : Value)
    → as_number v' ≡ as_number v
    → IsInBounds format choices bounds v
    → IsInBounds format choices bounds v'
holds_same str_type choices bounds v v' h w = tt
holds_same int_type (some cs) bounds v v' h w = tt
holds_same bool_type (some cs) bounds v v' h w = tt
holds_same float_type (some cs) bounds v v' h w = tt
holds_same none_type (some cs) bounds v v' h w = tt
holds_same int_type none bounds v v' h w = IsInside-same bounds v v' h w
holds_same bool_type none bounds v v' h w = IsInside-same bounds v v' h w
holds_same float_type none bounds v v' h w = IsInside-same bounds v v' h w
holds_same none_type none bounds v v' h w = IsInside-same bounds v v' h w

-- What a property is, and what it holds.
abbrev pub IsKept : SimulatedMiotProperty → Type 0
IsKept prop = HoldsInside prop.base prop.current_value

-- Any assignment that a simulated property accepts, that of the unset mark included, leaves a value
-- within the property's range where it has one, is no text and has no choices, if `randint` keeps to its
-- bounds and the field's type keeps numbers.
pub assign-IsKept :
    (b : Builtins) (prop : SimulatedMiotProperty) (v : Value)
    → AreDocumented b
    → OfValue IsKept (assign b prop v)
unfolding assign
assign-IsKept b prop v d =
    OfValue-chain (HoldsInside prop.base) IsKept (verify_value b prop.base v) _
      (verify_value-HoldsInside b prop.base v d)
      (λ verified h.
        OfValue-chain (λ stored. HoldsInside prop.base stored) IsKept (b.coerced verified)
          (λ stored. ok (record prop { current_value = stored }))
          (OfValue-all (HoldsInside prop.base) (b.coerced verified) (λ stored e.
            holds_same prop.base.format prop.base.choices prop.base.range verified stored
              (d.coerced_same verified stored e) h))
          (λ stored k. k))
