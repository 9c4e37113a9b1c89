-- ===== src/Examples/Colors.antt =====
-- A colour and a brightness, packed and unpacked.
use python_miio.Base.{ℕ, ◌≡◌, arith}
use python_miio.Utils.Colors.{
  int_to_rgb, rgb_to_int, int_to_brightness, brightness_and_color_to_int, IsRgb,
  int_to_rgb-rgb_to_int,
}

abbrev orange : ℕ × ℕ × ℕ
orange = (255, 128, 0)

orange-IsRgb : IsRgb orange
orange-IsRgb = (omega arith, omega arith, omega arith)

int_to_rgb-rgb_to_int_example :
    (int_to_rgb (rgb_to_int orange) ≡ orange)
    × (int_to_rgb (brightness_and_color_to_int 50 orange) ≡ orange)
    × (int_to_brightness (brightness_and_color_to_int 50 orange) ≡ 50)
    × (rgb_to_int (int_to_rgb 1193046) ≡ 1193046)
int_to_rgb-rgb_to_int_example =
    int_to_rgb-rgb_to_int 50 1193046 255 128 0 orange-IsRgb (omega arith)
