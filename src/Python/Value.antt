-- ===== src/Python/Value.antt =====
-- The values that the program sends, receives and hands on: what `json.loads` returns, less the
-- floats. A dictionary keeps the order in which its keys were first written.
use python_miio.Base.{
  String, ◌≡◌, refl, Bool, true, false, Option, none, some, List, [], ◌∷◌, arith, str_eq,
  str_eq_iff, if◌then◌else◌,
}
use python_miio.Base.Int.{ℤ, pos}

mutual
  pub data Value : Type 0 where
    obj : Fields → Value
    arr : Items → Value
    str : String → Value
    int : ℤ → Value
    bool : Bool → Value
    null : Value

  -- the members of a dictionary, in order
  pub data Fields : Type 0 where
    field : String → Value → Fields → Fields
    end : Fields

  -- the members of a list
  pub data Items : Type 0 where
    cons : Value → Items → Items
    nil : Items

-- `d.get(k)`
unfoldable pub lookup_field : String → Fields → Option Value
lookup_field k end = none
lookup_field k (field j v fs) = if str_eq j k then some v else lookup_field k fs

-- `d[k] = v`: an old key keeps its place
unfoldable pub put_field : String → Value → Fields → Fields
put_field k v end = field k v end
put_field k v (field j w fs) = if str_eq j k then field j v fs else field j w (put_field k v fs)

-- `{**d, **e}`
unfoldable pub merge_fields : Fields → Fields → Fields
unfolding put_field
merge_fields d end = d
merge_fields d (field k v e) = merge_fields (put_field k v d) e

pub lookup_field-put_field :
    (k j : String) (v : Value) (fs : Fields)
    → lookup_field j (put_field k v fs) ≡ (if str_eq k j then some v else lookup_field j fs)
unfolding lookup_field put_field
lookup_field-put_field k j v end = refl
lookup_field-put_field k j v (field i w fs) =
    ground (arith, str_eq_iff k j, str_eq_iff i k, str_eq_iff i j, lookup_field-put_field k j v fs)

-- `list(items)`
unfoldable pub to_list : Items → List Value
to_list nil = []
to_list (cons v vs) = v ∷ to_list vs

unfoldable pub of_list : List Value → Items
of_list [] = nil
of_list (v ∷ vs) = cons v (of_list vs)

pub to_list-of_list : (vs : List Value) → to_list (of_list vs) ≡ vs
unfolding to_list of_list
to_list-of_list [] = refl
to_list-of_list (v ∷ vs) = λ i. v ∷ to_list-of_list vs i

-- A value where Python's arithmetic takes a number: `True` counts as 1.
unfoldable pub as_number : Value → Option ℤ
as_number (int n) = some n
as_number (bool true) = some (pos 1)
as_number (bool false) = some (pos 0)
as_number _ = none
