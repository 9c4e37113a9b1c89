-- ===== src/Python/Number.antt =====
-- `int(s)` and `int(s, 16)`, on ASCII characters.
use python_miio.Base.{
  ℕ, zero, suc, ◌+◌, ◌*◌, String, Bool, true, false, ◌&&◌, ◌||◌, List, [], ◌∷◌, Option, none, some,
  ltb, ◌==◌, if◌then◌else◌,
}
use python_miio.Base.Int.{ℤ, pos, negsuc}
use python_miio.Base.Text.{codes}
use python_miio.Python.Hex.{hex_value, is_space}
use python_miio.Python.Result.{Result, ok, err, value_error}

unfoldable pub all_whitespace : List ℕ → Bool
all_whitespace [] = true
all_whitespace (c ∷ s) = is_space c && all_whitespace s

-- a digit below the base
abbrev below : ℕ → Option ℕ → Option ℕ
below base none = none
below base (some d) = if ltb d base then some d else none

unfoldable pub digit_value : ℕ → ℕ → Option ℕ
digit_value base c = below base (hex_value c)

abbrev on_digit : Option ℕ → (ℕ → Option ℕ) → Option ℕ → Option ℕ
on_digit none next otherwise = otherwise
on_digit (some d) next otherwise = next d

-- The rest of a number, with the value so far, and whether the last character was a digit: single
-- underscores may stand between two digits, and white space behind them.
unfoldable pub read_digits : (base : ℕ) → ℕ → Bool → List ℕ → Option ℕ
read_digits base n after_digit [] = if after_digit then some n else none
read_digits base n after_digit (c ∷ s) =
    let underscore = read_digits base n false s in
    on_digit (digit_value base c) (λ d. read_digits base (n * base + d) true s)
      (if after_digit && (c == b'_')
        then underscore
        else if after_digit && all_whitespace (c ∷ s)
        then some n
        else none)

abbrev negated : ℕ → ℤ
negated zero = pos 0
negated (suc n) = negsuc n

abbrev signed : (ℕ → ℤ) → Option ℕ → Result ℤ
signed sign none = err value_error
signed sign (some n) = ok (sign n)

-- a number behind white space and a sign
unfoldable pub read_int : (List ℕ → Option ℕ) → List ℕ → Result ℤ
read_int digits [] = err value_error
read_int digits (c ∷ s) =
    let rest = read_int digits s in
    if is_space c
    then rest
    else if c == b'-'
    then signed negated (digits s)
    else if c == b'+'
    then signed pos (digits s)
    else signed pos (digits (c ∷ s))

-- `int(s)`
unfoldable pub to_int : String → Result ℤ
unfolding read_int read_digits
to_int s = read_int (read_digits 10 0 false) (codes s)

-- the digits behind `0x`, which one underscore may follow
abbrev without_prefix : List ℕ → List ℕ
without_prefix (z ∷ x ∷ u ∷ s) =
    if (z == b'0') && (x == b'x' || x == b'X')
    then (if u == b'_' then s else u ∷ s)
    else z ∷ x ∷ u ∷ s
without_prefix s = s

-- `int(s, 16)`
unfoldable pub to_int16 : List ℕ → Result ℤ
unfolding read_int read_digits
to_int16 s = read_int (λ ds. read_digits 16 0 false (without_prefix ds)) s
