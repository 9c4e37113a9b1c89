-- ===== src/Status/Output.antt =====
-- `DeviceStatus.__cli_output__`.
use Prim.Native.String.{◌++◌}
use python_miio.Base.{ℕ, String, Option, none, some, List, [], ◌∷◌, if◌then◌else◌}
use python_miio.Python.Value.{null}
use python_miio.Python.Result.{Result, ok, err, key_error, type_error}
use python_miio.Descriptors.Defs.{AccessFlags, Descriptor}
use python_miio.Status.Store.{Store, Attribute, value, descriptors, get_attribute}

-- `AccessFlags.__str__`
unfoldable pub access_text : AccessFlags → String
access_text a =
    (if a.can_read then "r" else "-")
    ++ ((if a.can_write then "w" else "-") ++ (if a.can_execute then "x" else "-"))

abbrev unit_text : Option String → String
unit_text none = ""
unit_text (some unit) = " " ++ unit

-- one line and the lines behind it
abbrev added : Result String → Result String → Result String
added (err e) rest = err e
added (ok line) (err e) = err e
added (ok line) (ok rest) = ok (line ++ rest)

module _ {M : Type 0} where
  -- `getattr(self, descriptor.status_attribute)`
  abbrev read_described : Store M → ℕ → Option String → Result Attribute
  read_described s self none = err type_error
  read_described s self (some attribute) = get_attribute s self attribute

  -- `show` is `str` of what a getter or an embedded container gives
  module _ (show : Attribute → String) where
    unfoldable pub descriptor_line : Descriptor M → Attribute → String
    descriptor_line d v =
        access_text d.access
        ++ (" "
            ++ (d.name ++ (" (" ++ (d.id ++ ("): " ++ (show v ++ (unit_text d.unit ++ "\n")))))))

    -- what the loop adds for a descriptor: a `KeyError` and a `None` add nothing
    abbrev pub line_of : Descriptor M → Result Attribute → Result String
    line_of d (ok (value null)) = ok ""
    line_of d (ok v) = ok (descriptor_line d v)
    line_of d (err key_error) = ok ""
    line_of d (err e) = err e

    unfoldable pub output_lines : Store M → ℕ → List (String × Descriptor M) → Result String
    output_lines s self [] = ok ""
    output_lines s self ((k, d) ∷ ds) =
        added (line_of d (read_described s self d.status_attribute)) (output_lines s self ds)

    unfoldable pub cli_output : Store M → ℕ → Result String
    cli_output s self = output_lines s self (descriptors s self)
