-- ===== src/Utils/Colors.antt =====
-- Colours and brightness packed into one number: `int_to_rgb`, `rgb_to_int`, `int_to_brightness` and
-- `brightness_and_color_to_int` of miio/utils.py, on numbers that are not negative.
use Prim.Native.Nat.{bit_or}
use python_miio.Base.{ℕ, ◌+◌, ◌*◌, ◌/◌, ◌%◌, ◌^◌, ◌<◌, ◌≡◌, refl, arith}
use python_miio.Base.Bits.{bit_or-shift}

-- red, green and blue
abbrev pub Rgb : Type 0
Rgb = ℕ × ℕ × ℕ

-- `x >> k`, `x << k` and `x & 0xFF`
abbrev shr : ℕ → ℕ → ℕ
shr x k = x / 2 ^ k

abbrev shl : ℕ → ℕ → ℕ
shl x k = x * 2 ^ k

abbrev low_byte : ℕ → ℕ
low_byte x = x % 256

unfoldable pub int_to_rgb : ℕ → Rgb
int_to_rgb x = (low_byte (shr x 16), low_byte (shr x 8), low_byte x)

unfoldable pub rgb_to_int : Rgb → ℕ
rgb_to_int (red, green, blue) = bit_or (bit_or (shl red 16) (shl green 8)) blue

unfoldable pub int_to_brightness : ℕ → ℕ
int_to_brightness x = shr x 24

unfoldable pub brightness_and_color_to_int : ℕ → Rgb → ℕ
brightness_and_color_to_int brightness (red, green, blue) =
    bit_or (bit_or (bit_or (shl brightness 24) (shl red 16)) (shl green 8)) blue

-- Each part is a byte.
abbrev pub IsRgb : Rgb → Type 0
IsRgb (red, green, blue) = (red < 256) × (green < 256) × (blue < 256)

-- Parts that do not overlap are added.
or_of_parts :
    (high low : ℕ) (k : ℕ) (sum : ℕ) → sum ≡ high * 2 ^ k → low < 2 ^ k → bit_or sum low ≡ sum + low
or_of_parts high low k sum e h = rw (e, bit_or-shift k high low h)

rgb_to_int-eq-sum :
    (red green blue : ℕ)
    → IsRgb (red, green, blue)
    → rgb_to_int (red, green, blue) ≡ red * 65536 + green * 256 + blue
unfolding rgb_to_int
rgb_to_int-eq-sum red green blue (hr, hg, hb) =
    let first : bit_or (shl red 16) (shl green 8) ≡ red * 65536 + green * 256 =
      or_of_parts red (green * 256) 16 (red * 65536) refl (omega arith) in
    rw first (
      or_of_parts (red * 256 + green) blue 8 (red * 65536 + green * 256) (omega arith)
        (omega arith))

brightness_and_color_to_int-eq-sum :
    (brightness red green blue : ℕ)
    → IsRgb (red, green, blue)
    → brightness_and_color_to_int brightness (red, green, blue)
      ≡ brightness * 16777216 + red * 65536 + green * 256 + blue
unfolding brightness_and_color_to_int
brightness_and_color_to_int-eq-sum brightness red green blue (hr, hg, hb) =
    let first : bit_or (shl brightness 24) (shl red 16) ≡ brightness * 16777216 + red * 65536 =
      or_of_parts brightness (red * 65536) 24 (brightness * 16777216) refl (omega arith) in
    let second : bit_or (brightness * 16777216 + red * 65536) (shl green 8)
        ≡ brightness * 16777216 + red * 65536 + green * 256 =
      or_of_parts (brightness * 256 + red) (green * 256) 16 (brightness * 16777216 + red * 65536)
        (omega arith) (omega arith) in
    rw (first, second)
      (or_of_parts (brightness * 65536 + red * 256 + green) blue 8
        (brightness * 16777216 + red * 65536 + green * 256) (omega arith) (omega arith))

-- A colour of three bytes is read back from its number, with a brightness packed beside it and without,
-- and so is the brightness. Every number below 2 to the 24 is the number of its colour.
pub int_to_rgb-rgb_to_int :
    (brightness x red green blue : ℕ)
    → IsRgb (red, green, blue)
    → x < 2 ^ 24
    → (int_to_rgb (rgb_to_int (red, green, blue)) ≡ (red, green, blue))
      × (int_to_rgb (brightness_and_color_to_int brightness (red, green, blue))
          ≡ (red, green, blue))
      × (int_to_brightness (brightness_and_color_to_int brightness (red, green, blue)) ≡ brightness)
      × (rgb_to_int (int_to_rgb x) ≡ x)
unfolding int_to_rgb int_to_brightness
int_to_rgb-rgb_to_int brightness x red green blue h hx = (
  rw (rgb_to_int-eq-sum red green blue h) (ground arith),
  rw (brightness_and_color_to_int-eq-sum brightness red green blue h) (ground arith),
  rw (brightness_and_color_to_int-eq-sum brightness red green blue h) (omega arith),
  omega (arith, rgb_to_int-eq-sum (x / 2 ^ 16 % 256) (x / 2 ^ 8 % 256) (x % 256) (omega arith)),
)
