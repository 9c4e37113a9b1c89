-- ===== src/Status/Decorators.antt =====
-- `sensor`, `setting` and `action` of miio/devicestatus.py: the descriptor that a decorator attaches to a
-- getter or a method. The type of the return value is left out, as everywhere.
use python_miio.Base.{
  String, Bool, true, false, not, ◌||◌, Option, none, some, if◌then◌else◌, str_eq,
}
use python_miio.Base.Int.{ℤ, pos, eq_ℤ}
use python_miio.Python.Result.{Result, ok, err, exception}
use python_miio.Descriptors.Defs.{
  Choices, Constraint, unset, range, choice, Descriptor, action, property,
}

-- the decorated function: `__name__` and `__qualname__`
pub record Function : Type 0 where
  pub name : String
  pub qualname : String

-- the argument `id`: a text, or a member of `StandardIdentifier` with its value
pub data GivenId : Type 0 where
  absent : GivenId
  text standard : String → GivenId

-- `_get_qualified_name`
unfoldable pub get_qualified_name : Function → GivenId → String
get_qualified_name func absent = func.qualname
get_qualified_name func (text id) = if str_eq id "" then func.qualname else id
get_qualified_name func (standard value) = value

module _ {M : Type 0} where
  -- `sensor`
  unfoldable pub sensor :
      (name : String) → GivenId → (unit : Option String) → Function → Descriptor M
  sensor name id unit func = record {
    id = get_qualified_name func id;
    name = name;
    unit = unit;
    status_attribute = some func.name;
    access = record { can_read = true; can_write = false; can_execute = false };
    kind = property none none unset;
  }

-- the arguments of `setting` behind `id`
pub record SettingOptions (M : Type 0) : Type 0 where
  pub setter : Option M
  pub setter_name : Option String
  pub unit : Option String
  pub min_value : Option ℤ
  pub max_value : Option ℤ
  pub step : Option ℤ
  pub range_attribute : Option String
  pub choices : Option Choices
  pub choices_attribute : Option String

-- `setter is None and setter_name is None`, negated
abbrev has_setter : {M : Type 0} → Option M → Option String → Bool
has_setter none none = false
has_setter none (some name) = true
has_setter (some setter) name = true

-- the truth of a number, of a text and of a class of choices that may be missing
abbrev pub is_number_set : Option ℤ → Bool
is_number_set none = false
is_number_set (some n) = not (eq_ℤ n (pos 0))

abbrev pub is_text_set : Option String → Bool
is_text_set none = false
is_text_set (some s) = not (str_eq s "")

abbrev pub are_choices_set : Option Choices → Bool
are_choices_set none = false
are_choices_set (some _) = true

-- `n or default`
abbrev number_or : ℤ → Option ℤ → ℤ
number_or default none = default
number_or default (some n) = if eq_ℤ n (pos 0) then default else n

module _ {M : Type 0} where
  -- which of the three descriptors a setting gets
  unfoldable pub setting_constraint : SettingOptions M → Constraint
  setting_constraint o =
      if is_number_set o.min_value || is_number_set o.max_value || is_text_set o.range_attribute
      then range
          (record {
            min_value = number_or (pos 0) o.min_value;
            max_value = o.max_value;
            step = number_or (pos 1) o.step;
          })
          o.range_attribute
      else if are_choices_set o.choices || is_text_set o.choices_attribute
      then choice o.choices o.choices_attribute
      else unset

  -- `setting`
  unfoldable pub setting :
      (name : String) → GivenId → SettingOptions M → Function → Result (Descriptor M)
  setting name id o func =
      if has_setter o.setter o.setter_name
      then ok (record {
        id = get_qualified_name func id;
        name = name;
        unit = o.unit;
        status_attribute = some func.name;
        access = record { can_read = true; can_write = true; can_execute = false };
        kind = property o.setter o.setter_name (setting_constraint o);
      })
      else err exception

  -- `action`
  unfoldable pub describe_action : (name : String) → GivenId → Function → Descriptor M
  describe_action name id func = record {
    id = get_qualified_name func id;
    name = name;
    unit = none;
    status_attribute = none;
    access = record { can_read = false; can_write = false; can_execute = true };
    kind = action none (some func.name);
  }
