-- ===== src/Miot/Urn.antt =====
-- `URN` of miio/miot_models.py: parsing a type URN, and writing it. `parse_int` is how pydantic makes a
-- number of a text.
use Prim.Native.String.{◌++◌}
use python_miio.Base.{suc, String, Option, none, some, List, [], ◌∷◌, if◌then◌else◌}
use python_miio.Base.Int.{ℤ, pos, negsuc}
use python_miio.Base.Decimal.{decimal}
use python_miio.Base.Split.{split, join, has_char, LacksAll}
use python_miio.Python.Value.{Value, str}
use python_miio.Python.Result.{Result, ok, err, type_error, value_error, ◌>>=◌}

-- `parent_urn` is only printed and is left out.
pub record Urn : Type 0 where
  pub namespace : String
  pub urn_type : String
  pub name : String
  pub internal_id : String
  pub urn_model : String
  pub version : ℤ
  pub unexpected : Option (List String)

-- `str(n)` and `{n}` in a text
unfoldable pub show_int : ℤ → String
show_int (pos n) = decimal n
show_int (negsuc n) = "-" ++ decimal (suc n)

-- `unexpected if unexpected else None`
abbrev some_parts : List String → Option (List String)
some_parts [] = none
some_parts (x ∷ xs) = some (x ∷ xs)

module _ (parse_int : String → Result ℤ) where
  -- `_, namespace, type, name, id_, model, version, *unexpected = v.split(":")`
  unfoldable pub of_parts : List String → Result Urn
  of_parts (_ ∷ namespace ∷ urn_type ∷ name ∷ id ∷ model ∷ version ∷ unexpected) = do
    version' ← parse_int version
    ok (record {
      namespace = namespace;
      urn_type = urn_type;
      name = name;
      internal_id = id;
      urn_model = model;
      version = version';
      unexpected = some_parts unexpected;
    })
  of_parts _ = err value_error

  -- `URN.validate`
  unfoldable pub validate : Value → Result Urn
  validate (str v) = if has_char b':' v then of_parts (split b':' v) else err type_error
  validate _ = err type_error

abbrev with_unexpected : String → Option (List String) → String
with_unexpected urn none = urn
with_unexpected urn (some xs) = urn ++ (":" ++ join ":" xs)

-- `urn_string`
unfoldable pub urn_string : Urn → String
unfolding show_int
urn_string u =
    with_unexpected
      ("urn:"
        ++ (u.namespace
            ++ (":"
                ++ (u.urn_type
                    ++ (":"
                        ++ (u.name
                            ++ (":"
                                ++ (u.internal_id
                                    ++ (":" ++ (u.urn_model ++ (":" ++ show_int u.version)))))))))))
      u.unexpected

-- the parts of the text, where `xs` follows the version
abbrev pub parts_with : Urn → List String → List String
parts_with u xs =
    "urn"
    ∷ u.namespace
    ∷ u.urn_type
    ∷ u.name
    ∷ u.internal_id
    ∷ u.urn_model
    ∷ show_int u.version
    ∷ xs

-- No part has a colon, and a list of unexpected parts that is there is not empty.
abbrev pub HasParts : Urn → Option (List String) → Type 0
HasParts u none = LacksAll b':' (parts_with u [])
HasParts u (some []) = ⊥
HasParts u (some (x ∷ xs)) = LacksAll b':' (parts_with u (x ∷ xs))
