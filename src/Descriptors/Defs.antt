-- ===== src/Descriptors/Defs.antt =====
-- miio/descriptors.py. The subclasses of `Descriptor` are the constructors of `Kind`, and those of
-- `PropertyDescriptor` the ones of `Constraint`. `extras` is handed on unread and is left out.
use python_miio.Base.{String, Bool, not, ◌&&◌, Option, List}
use python_miio.Base.Int.{ℤ}

-- `AccessFlags`
pub record AccessFlags : Type 0 where
  pub can_read : Bool
  pub can_write : Bool
  pub can_execute : Bool

-- `ValidSettingRange`; a `RangeDescriptor` of `@setting` may lack the upper bound
pub record ValidSettingRange : Type 0 where
  pub min_value : ℤ
  pub max_value : Option ℤ
  pub step : ℤ

-- the members of an `Enum` of choices
abbrev pub Choices : Type 0
Choices = List (String × ℤ)

pub data Constraint : Type 0 where
  unset : Constraint
  -- the bounds, and `range_attribute`
  range : ValidSettingRange → Option String → Constraint
  -- `choices`, and `choices_attribute`
  choice : Option Choices → Option String → Constraint

-- `M` stands for the bound methods of a device.
pub data Kind (M : Type 0) : Type 0 where
  plain : Kind M
  -- `method` and `method_name`
  action : Option M → Option String → Kind M
  -- `setter`, `setter_name` and the constraint
  property : Option M → Option String → Constraint → Kind M

pub record Descriptor (M : Type 0) : Type 0 where
  pub id : String
  pub name : String
  pub unit : Option String
  pub status_attribute : Option String
  pub access : AccessFlags
  pub kind : Kind M

-- `v.access == AccessFlags.Read`
unfoldable pub is_read_only : AccessFlags → Bool
is_read_only a = a.can_read && not a.can_write && not a.can_execute
