-- ===== src/Base/Bits.antt =====
-- Python's `|` and `&` on numbers: a shifted number or one that fits below it is their sum.
use Prim.Native.Nat.{
  ℕ, zero, suc, ◌+◌, ◌*◌, ◌/◌, ◌%◌, ◌^◌, ◌≤◌, ◌<◌, max, bit_or, digits, bit_or-bitwise,
}
use mathlib.Core.Path.{◌≡◌, refl}
use native.Mathlib.Nat.{mul-add}
use native.Mathlib.Omega.{arith}

-- what `bit_or` computes with a bound on the digits of its first argument
abbrev or_within : ℕ → ℕ → ℕ → ℕ
or_within bound x y = digits (λ rest. rest) max bound x y

or_within_enough : (j k x y : ℕ) → x ≤ j → x ≤ k → or_within j x y ≡ or_within k x y
or_within_enough j k zero y p q = both j k
  where
    both : (j k : ℕ) → or_within j zero y ≡ or_within k zero y
    both zero zero = refl
    both zero (suc k) = refl
    both (suc j) zero = refl
    both (suc j) (suc k) = refl
or_within_enough zero k (suc x) y p q = absurd (omega arith)
or_within_enough (suc j) zero (suc x) y p q = absurd (omega arith)
or_within_enough (suc j) (suc k) (suc x) y p q =
    omega (arith, or_within_enough j k (suc x / 2) (y / 2) (omega arith) (omega arith))

zero-bit_or : (y : ℕ) → bit_or 0 y ≡ y
zero-bit_or y = bit_or-bitwise 0 y

-- The lowest digit of `x | y`, and the rest.
bit_or_digit : (x y : ℕ) → bit_or x y ≡ bit_or (x / 2) (y / 2) * 2 + max (x % 2) (y % 2)
bit_or_digit zero y = omega (arith, zero-bit_or y, zero-bit_or (y / 2))
bit_or_digit (suc x) y = omega (
  arith,
  bit_or-bitwise (suc x) y,
  bit_or-bitwise (suc x / 2) (y / 2),
  or_within_enough x (suc x / 2) (suc x / 2) (y / 2) (omega arith) (omega arith),
)

bit_or-zero_within : (bound x : ℕ) → x ≤ bound → bit_or x 0 ≡ x
bit_or-zero_within bound zero h = refl
bit_or-zero_within zero (suc x) h = absurd (omega arith)
bit_or-zero_within (suc bound) (suc x) h =
    omega (arith, bit_or_digit (suc x) 0, bit_or-zero_within bound (suc x / 2) (omega arith))

-- What fits below a shift is added by `|`.
pub bit_or-shift : (k x y : ℕ) → y < 2 ^ k → bit_or (x * 2 ^ k) y ≡ x * 2 ^ k + y
bit_or-shift zero x y h =
    let none : y ≡ 0 = omega arith in
    let same : x * 2 ^ zero ≡ x = omega arith in
    rw (none, same) (omega (arith, bit_or-zero_within x x (omega arith)))
bit_or-shift (suc k) x y h =
    let power : ℕ = 2 ^ k in
    let twice : 2 ^ suc k ≡ 2 ^ k + 2 ^ k = omega arith in
    let half : x * 2 ^ suc k ≡ x * 2 ^ k + x * 2 ^ k = rw twice (mul-add x (2 ^ k) (2 ^ k)) in
    let top : (x * 2 ^ suc k) / 2 ≡ x * 2 ^ k = omega (arith, half) in
    let rest : bit_or ((x * 2 ^ suc k) / 2) (y / 2) ≡ x * 2 ^ k + y / 2 =
      rw top (bit_or-shift k x (y / 2) (omega arith)) in
    omega (arith, half, bit_or_digit (x * 2 ^ suc k) y, rest)
