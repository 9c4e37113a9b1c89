-- ===== src/Miot/Schema.antt =====
-- The models of miio/miot_models.py for properties and actions. What is only handed on unread is left out:
-- `extras`, `gatt_access`, and the events of a service with their arguments.
use Prim.Native.String.{◌++◌}
use python_miio.Base.{
  ◌≡◌, ◌↔◌, String, Bool, true, false, ◌||◌, Option, none, some, List, [], ◌∷◌, arith, str_eq,
  if◌then◌else◌,
}
use python_miio.Base.Int.{ℤ, pos, negsuc, eq_ℤ}
use python_miio.Base.Split.{replace_char}
use python_miio.Base.Text.{starts_with}
use python_miio.Python.Value.{Value}
use python_miio.Python.Dict.{Key}
use python_miio.Python.Result.{Result, ok, err, key_error, index_error, ◌>>=◌}
use python_miio.Miot.Urn.{Urn, show_int}

pub eq_ℤ_iff : (a b : ℤ) → (eq_ℤ a b ≡ true) ↔ (a ≡ b)
eq_ℤ_iff (pos a) (pos b) = ground arith
eq_ℤ_iff (negsuc a) (negsuc b) = ground arith
eq_ℤ_iff (pos a) (negsuc b) = ground arith
eq_ℤ_iff (negsuc a) (pos b) = ground arith

instance abbrev pub integer_eq : Key ℤ
integer_eq = record { beq = eq_ℤ; beq_iff = eq_ℤ_iff }

-- what a `MiotFormat` is: a type of Python, or `None`
pub data MiotFormat : Type 0 where
  int_type bool_type str_type float_type none_type : MiotFormat

-- `MiotFormat.convert_type`
unfoldable pub convert_type : String → Result MiotFormat
convert_type input =
    if starts_with input "uint" || starts_with input "int"
    then ok int_type
    else if str_eq input "bool"
    then ok bool_type
    else if str_eq input "string"
    then ok str_type
    else if str_eq input "float"
    then ok float_type
    else if str_eq input "none"
    then ok none_type
    else err key_error

pub data MiotAccess : Type 0 where
  read write notify : MiotAccess

pub record MiotEnumValue : Type 0 where
  pub description : String
  pub value : ℤ

-- `description_from_value`
unfoldable pub description_from_value : MiotEnumValue → MiotEnumValue
description_from_value c =
    if str_eq c.description "" then record c { description = show_int c.value } else c

-- What a property or an action knows of its service, which is all that they read of it.
pub record ServiceRef : Type 0 where
  pub siid : ℤ
  pub service_urn : Urn

pub record MiotProperty : Type 0 where
  pub urn : Urn
  pub description : String
  pub service : Option ServiceRef
  pub piid : ℤ
  pub format : MiotFormat
  pub access : List MiotAccess
  pub unit : Option String
  pub range : Option (List ℤ)
  pub choices : Option (List MiotEnumValue)
  pub value : Option Value

-- `I` are the inputs and outputs: ids as the specification has them, and the properties themselves
-- once the action belongs to a service.
pub record MiotAction (I : Type 0) : Type 0 where
  pub urn : Urn
  pub description : String
  pub service : Option ServiceRef
  pub aiid : ℤ
  pub inputs : I
  pub outputs : I

abbrev siid_of : Option ServiceRef → Option ℤ
siid_of none = none
siid_of (some s) = some s.siid

-- `MiotBaseModel.siid`
unfoldable pub siid : MiotProperty → Option ℤ
siid prop = siid_of prop.service

unfoldable pub action_siid : {I : Type 0} → MiotAction I → Option ℤ
action_siid act = siid_of act.service

-- `MiotBaseModel.name`
unfoldable pub combined_name : Option ServiceRef → Urn → String
combined_name none urn = "unitialized"
combined_name (some s) urn = s.service_urn.name ++ (":" ++ urn.name)

abbrev pub property_name : MiotProperty → String
property_name prop = combined_name prop.service prop.urn

-- `replace(":", "_").replace("-", "_")`
unfoldable pub normalized : String → String
normalized s = replace_char b'-' "_" (replace_char b':' "_" s)

-- `x in access`
unfoldable pub has_access : MiotAccess → List MiotAccess → Bool
has_access a [] = false
has_access read (read ∷ rest) = true
has_access write (write ∷ rest) = true
has_access notify (notify ∷ rest) = true
has_access a (_ ∷ rest) = has_access a rest

-- `pretty_access`
unfoldable pub pretty_access : List MiotAccess → String
pretty_access access =
    (if has_access read access then "R" else "") ++ (if has_access write access then "W" else "")

abbrev pretty_choices : List MiotEnumValue → List String
pretty_choices [] = []
pretty_choices (c ∷ cs) = (c.description ++ (" (" ++ (show_int c.value ++ ")"))) ∷ pretty_choices cs

-- `", ".join(parts)`
abbrev pub comma_separated : List String → String
comma_separated [] = ""
comma_separated (x ∷ []) = x
comma_separated (x ∷ y ∷ xs) = x ++ (", " ++ comma_separated (y ∷ xs))

abbrev choices_text : Option (List MiotEnumValue) → String
choices_text none = ""
choices_text (some cs) = "choices: " ++ comma_separated (pretty_choices cs)

abbrev range_text : Option (List ℤ) → Result String
range_text none = ok ""
range_text (some (lo ∷ hi ∷ step ∷ rest)) =
    ok ("min: " ++ (show_int lo ++ (", max: " ++ (show_int hi ++ (", step: " ++ show_int step)))))
range_text (some _) = err index_error

-- `pretty_input_constraints`
unfoldable pub pretty_input_constraints : MiotProperty → Result String
pretty_input_constraints prop =
    range_text prop.range >>= λ bounds. ok (choices_text prop.choices ++ bounds)
