-- ===== src/Cooker/Settings.antt =====
-- `CookerSettings`: flags in the bits of two bytes.
use python_miio.Base.{
  ℕ, zero, suc, ◌+◌, ◌-◌, ◌*◌, ◌/◌, ◌%◌, String, Bool, not, List, [], ◌∷◌, Option, none, some,
  get_elem?, ◌==◌, if◌then◌else◌,
}
use python_miio.Base.Int.{ℤ, pos, negsuc}
use python_miio.Base.Text.{codes}
use python_miio.Python.Result.{Result, ok, index_error, or_raise, ◌>>=◌}
use python_miio.Cooker.Containers.{octets, store}

-- `_settings`
unfoldable pub cooker_settings : Option String → Result (List ℤ)
unfolding octets
cooker_settings none = ok (pos 0 ∷ pos 4 ∷ [])
cooker_settings (some settings) = octets (codes settings)

-- The bit `k` of a number, set and cleared.
unfoldable pub has_bit : ℕ → ℕ → Bool
has_bit zero n = n % 2 == 1
has_bit (suc k) n = has_bit k (n / 2)

unfoldable pub with_bit : ℕ → ℕ → ℕ
with_bit zero n = n / 2 * 2 + 1
with_bit (suc k) n = with_bit k (n / 2) * 2 + n % 2

unfoldable pub without_bit : ℕ → ℕ → ℕ
without_bit zero n = n / 2 * 2
without_bit (suc k) n = without_bit k (n / 2) * 2 + n % 2

-- `v & 2 ** k != 0`, `v | 2 ** k` and `v & (255 - 2 ** k)` for a bit below 8; the bits of -(n + 1) are
-- those of `n` turned over.
unfoldable pub and_bit : ℕ → ℤ → Bool
unfolding has_bit
and_bit k (pos n) = has_bit k n
and_bit k (negsuc n) = not (has_bit k n)

unfoldable pub or_bit : ℕ → ℤ → ℤ
unfolding with_bit without_bit
or_bit k (pos n) = pos (with_bit k n)
or_bit k (negsuc n) = negsuc (without_bit k n)

unfoldable pub and_not_bit : ℕ → ℤ → ℤ
unfolding without_bit
and_not_bit k (pos n) = pos (without_bit k (n % 256))
and_not_bit k (negsuc n) = pos (without_bit k (255 - n % 256))

-- the properties, in the order of the class
pub data Flag : Type 0 where
  pressure_supported led_on auto_keep_warm lid_open_warning lid_open_warning_delayed : Flag
  jingzhu_auto_keep_warm kuaizhu_auto_keep_warm zhuzhou_auto_keep_warm favorite_auto_keep_warm :
      Flag

-- the index of a flag's byte, and its bit
unfoldable pub octet_of : Flag → ℕ
octet_of pressure_supported = 0
octet_of led_on = 0
octet_of auto_keep_warm = 0
octet_of lid_open_warning = 0
octet_of lid_open_warning_delayed = 0
octet_of _ = 1

unfoldable pub bit_of : Flag → ℕ
bit_of pressure_supported = 0
bit_of led_on = 1
bit_of auto_keep_warm = 2
bit_of lid_open_warning = 3
bit_of lid_open_warning_delayed = 4
bit_of jingzhu_auto_keep_warm = 0
bit_of kuaizhu_auto_keep_warm = 1
bit_of zhuzhou_auto_keep_warm = 2
bit_of favorite_auto_keep_warm = 3

-- the getters
unfoldable pub get_flag : Flag → List ℤ → Result Bool
unfolding octet_of bit_of and_bit
get_flag f settings = do
  v ← or_raise (get_elem? settings (octet_of f)) index_error
  ok (and_bit (bit_of f) v)

-- the setters
unfoldable pub set_flag : Flag → Bool → List ℤ → Result (List ℤ)
unfolding octet_of bit_of or_bit and_not_bit store
set_flag f on settings = do
  v ← or_raise (get_elem? settings (octet_of f)) index_error
  store (octet_of f) (if on then or_bit (bit_of f) v else and_not_bit (bit_of f) v) settings
