-- ===== src/Simulator/Property.antt =====
-- `SimulatedMiotProperty` of miio/devtools/simulators/miotsimulator.py: the values it is given at random,
-- and the test of a value that is assigned to it.
use Prim.Native.String.{◌++◌}
use python_miio.Base.{
  Bool, false, ◌&&◌, ◌||◌, not, Option, none, some, List, [], ◌∷◌, length, get_elem?, if◌then◌else◌,
}
use python_miio.Base.Int.{ℤ, pos, negsuc, eq_ℤ, leb_ℤ}
use python_miio.Python.Value.{Value, int, str, bool, null, as_number}
use python_miio.Python.Result.{Result, ok, err, value_error, index_error, ◌>>=◌}
use python_miio.Miot.Urn.{show_int}
use python_miio.Miot.Schema.{
  MiotProperty, MiotEnumValue, MiotFormat, bool_type, str_type, write, has_access,
}

-- What the simulator takes from Python: `random.randint`, `format(v)` for a type, and what pydantic makes
-- of a value of `Union[int, str, bool]`.
pub record Builtins : Type 0 where
  pub randint : ℤ → ℤ → Result ℤ
  pub cast : MiotFormat → Value → Result Value
  pub coerced : Value → Result Value

pub record SimulatedMiotProperty : Type 0 where
  pub base : MiotProperty
  pub current_value : Value

-- `UNSET`
abbrev pub unset : ℤ
unset = negsuc 9999

-- `a == n`
abbrev pub equals_number : Option ℤ → ℤ → Bool
equals_number none n = false
equals_number (some m) n = eq_ℤ m n

abbrev chosen_value : Option MiotEnumValue → Result Value
chosen_value none = err index_error
chosen_value (some c) = ok (int c.value)

-- `choices[i].value`; `randint` gives no negative index here
abbrev value_at_index : List MiotEnumValue → ℤ → Result Value
value_at_index cs (pos i) = chosen_value (get_elem? cs i)
value_at_index cs (negsuc i) = err index_error

-- `len(choices) - 1`
abbrev last_index : List MiotEnumValue → ℤ
last_index [] = negsuc 0
last_index (c ∷ cs) = pos (length cs)

module _ (b : Builtins) where
  abbrev random_of_format : MiotFormat → Result Value
  random_of_format bool_type = b.randint (pos 0) (pos 1) >>= λ n. ok (bool (not (eq_ℤ n (pos 0))))
  random_of_format _ = ok null

  abbrev pub random_in_range : MiotFormat → Option (List ℤ) → Result Value
  random_in_range format none = random_of_format format
  random_in_range format (some (lo ∷ hi ∷ rest)) = b.randint lo hi >>= λ n. ok (int n)
  random_in_range format (some _) = err index_error

  abbrev random_of_choices : MiotProperty → Option (List MiotEnumValue) → Result Value
  random_of_choices prop none = random_in_range prop.format prop.range
  random_of_choices prop (some cs) = b.randint (pos 0) (last_index cs) >>= value_at_index cs

  -- `create_random`
  unfoldable pub create_random : MiotProperty → Result Value
  create_random prop = elim prop.format [
    | str_type ↦ ok (str ("piid " ++ show_int prop.piid))
    | _ ↦ random_of_choices prop prop.choices
  ]

-- `lo <= v <= hi`; what Python cannot compare raises, and pydantic reports it
abbrev pub between : Option ℤ → ℤ → ℤ → Bool
between none lo hi = false
between (some n) lo hi = leb_ℤ lo n && leb_ℤ n hi

-- `range[0] <= casted_value`, which is tested before `range[1]` is read
abbrev pub reaches : Option ℤ → ℤ → Bool
reaches none lo = false
reaches (some n) lo = leb_ℤ lo n

-- `range is not None and not (range[0] <= casted_value <= range[1])`
unfoldable pub check_range : Option (List ℤ) → Value → Result (Unit {0})
check_range none v = ok tt
check_range (some (lo ∷ hi ∷ rest)) v =
    if between (as_number v) lo hi then ok tt else err value_error
check_range (some (lo ∷ [])) v =
    if reaches (as_number v) lo then err index_error else err value_error
check_range (some []) v = err index_error

-- `any(c.value == casted_value for c in choices)`
unfoldable pub is_choice : List MiotEnumValue → Value → Bool
is_choice [] v = false
is_choice (c ∷ cs) v = equals_number (as_number v) c.value || is_choice cs v

unfoldable pub check_choices : Option (List MiotEnumValue) → Value → Result (Unit {0})
unfolding is_choice
check_choices none v = ok tt
check_choices (some cs) v = if is_choice cs v then ok tt else err value_error

-- `raise TypeError(…) from ex`, which pydantic turns into a `ValueError` of its own
abbrev pub cast_or_invalid : Result Value → Result Value
cast_or_invalid (ok v) = ok v
cast_or_invalid (err e) = err value_error

-- the tests of a value behind those of `UNSET` and of the access
unfoldable pub check_value : Builtins → MiotProperty → Value → Result Value
check_value b prop v = do
  casted ← cast_or_invalid (b.cast prop.format v)
  inside ← check_range prop.range casted
  listed ← check_choices prop.choices casted
  ok casted

-- `verify_value`
unfoldable pub verify_value : Builtins → MiotProperty → Value → Result Value
verify_value b prop v =
    if equals_number (as_number v) unset
    then create_random b prop
    else if has_access write prop.access
    then check_value b prop v
    else err value_error

-- `prop.current_value = v`, with the field's own type behind the validator
unfoldable pub assign : Builtins → SimulatedMiotProperty → Value → Result SimulatedMiotProperty
assign b prop v = do
  verified ← verify_value b prop.base v
  stored ← b.coerced verified
  ok (record prop { current_value = stored })
