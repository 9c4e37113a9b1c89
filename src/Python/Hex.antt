-- ===== src/Python/Hex.antt =====
-- `bytes.fromhex` and `bytes.hex`.
use python_miio.Base.{
  ℕ, ◌+◌, ◌-◌, ◌*◌, ◌/◌, ◌%◌, ◌<◌, ◌≡◌, refl, ap, String, Bool, false, ◌&&◌, ◌||◌, Option, none,
  some, List, [], ◌∷◌, leb, ltb, ◌==◌, All, if◌then◌else◌, arith,
}
use python_miio.Base.Text.{codes}
use python_miio.Python.Result.{Result, ok, err, value_error, or_raise, ◌>>=◌}

unfoldable pub hex_value : ℕ → Option ℕ
hex_value c =
    if leb b'0' c && leb c b'9'
    then some (c - b'0')
    else if leb b'a' c && leb c b'f'
    then some (c - b'a' + 10)
    else if leb b'A' c && leb c b'F'
    then some (c - b'A' + 10)
    else none

-- ASCII white space
unfoldable pub is_space : ℕ → Bool
is_space c = c == 32 || (leb 9 c && leb c 13)

-- Two digits make a byte; white space may stand between bytes. The second argument holds the first
-- digit of a byte, once it is read.
unfoldable pub read_hex : List ℕ → Option ℕ → Result (List ℕ)
read_hex [] none = ok []
read_hex [] (some hi) = err value_error
read_hex (c ∷ s) none =
    let skip = read_hex s none in
    let digit : Result (List ℕ) = (do
      hi ← or_raise (hex_value c) value_error
      read_hex s (some hi)) in
    if is_space c then skip else digit
read_hex (c ∷ s) (some hi) = do
  lo ← or_raise (hex_value c) value_error
  rest ← read_hex s none
  ok ((hi * 16 + lo) ∷ rest)

unfoldable pub from_hex : String → Result (List ℕ)
from_hex s = read_hex (codes s) none

unfoldable pub hex_digit : ℕ → ℕ
hex_digit n = if ltb n 10 then b'0' + n else b'a' + (n - 10)

-- `b.hex()`, as code points
unfoldable pub to_hex : List ℕ → List ℕ
to_hex [] = []
to_hex (n ∷ s) = hex_digit (n / 16) ∷ hex_digit (n % 16) ∷ to_hex s

pub hex_value-hex_digit : (n : ℕ) → n < 16 → hex_value (hex_digit n) ≡ some n
unfolding hex_value hex_digit
hex_value-hex_digit n h = ground arith

pub hex_digit-not_space : (n : ℕ) → n < 16 → is_space (hex_digit n) ≡ false
unfolding is_space hex_digit
hex_digit-not_space n h = ground arith

-- The digits of bytes are read back as the bytes.
pub read_hex-to_hex : (s : List ℕ) → All (λ n. n < 256) s → read_hex (to_hex s) none ≡ ok s
unfolding read_hex to_hex
read_hex-to_hex [] h = refl
read_hex-to_hex (n ∷ s) h =
    rw
      (
        hex_digit-not_space (n / 16) (omega arith),
        hex_value-hex_digit (n / 16) (omega arith),
        hex_value-hex_digit (n % 16) (omega arith),
        read_hex-to_hex s h.1,
      )
      (ap (λ (m : ℕ). ok (m ∷ s)) (omega arith))
