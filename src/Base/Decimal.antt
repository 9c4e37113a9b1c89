-- ===== src/Base/Decimal.antt =====
-- `str(n)` for a number, and that different numbers print differently.
use Prim.Native.Char.{Char, code}
use Prim.Native.String.{String}
use Prim.Native.Nat.{ℕ, zero, suc, ◌+◌, ◌-◌, ◌*◌, ◌/◌, ◌%◌, ◌<◌}
use mathlib.Core.Path.{◌≡◌, refl, ap, sym, ◌∙◌}
use mathlib.Core.List.{List, [], ◌∷◌}
use mathlib.Core.Logic.{inl, inr}
use native.Mathlib.Omega.{arith}
use python_miio.Base.Tests.{ltb, ltb→lt, Bool-cases, if◌then◌else◌}
use python_miio.Base.Text.{codes}

digit_char : ℕ → Char
digit_char zero = "0"
digit_char (suc zero) = "1"
digit_char (suc (suc zero)) = "2"
digit_char (suc (suc (suc zero))) = "3"
digit_char (suc (suc (suc (suc zero)))) = "4"
digit_char (suc (suc (suc (suc (suc zero))))) = "5"
digit_char (suc (suc (suc (suc (suc (suc zero)))))) = "6"
digit_char (suc (suc (suc (suc (suc (suc (suc zero))))))) = "7"
digit_char (suc (suc (suc (suc (suc (suc (suc (suc zero)))))))) = "8"
digit_char _ = "9"

text_of : List ℕ → String
text_of [] = String.[]
text_of (d ∷ ds) = String.◌∷◌ (digit_char d) (text_of ds)

-- The digits of a number, in front of those that are there. On fuel: the number itself is enough.
digits : ℕ → ℕ → List ℕ → List ℕ
digits zero n ds = ds
digits (suc fuel) n ds =
    let rest = digits fuel (n / 10) ((n % 10) ∷ ds) in if ltb n 10 then n ∷ ds else rest

unfoldable pub decimal : ℕ → String
unfolding text_of digits digit_char
decimal n = text_of (digits (suc n) n [])

value : ℕ → List ℕ → ℕ
value n [] = n
value n (c ∷ cs) = value (n * 10 + (c - 48)) cs

digit_code : (d : ℕ) → d < 10 → code (digit_char d) ≡ 48 + d
unfolding digit_char
digit_code zero h = refl
digit_code (suc zero) h = refl
digit_code (suc (suc zero)) h = refl
digit_code (suc (suc (suc zero))) h = refl
digit_code (suc (suc (suc (suc zero)))) h = refl
digit_code (suc (suc (suc (suc (suc zero))))) h = refl
digit_code (suc (suc (suc (suc (suc (suc zero)))))) h = refl
digit_code (suc (suc (suc (suc (suc (suc (suc zero))))))) h = refl
digit_code (suc (suc (suc (suc (suc (suc (suc (suc zero)))))))) h = refl
digit_code (suc (suc (suc (suc (suc (suc (suc (suc (suc zero))))))))) h = refl
digit_code (suc (suc (suc (suc (suc (suc (suc (suc (suc (suc d)))))))))) h = absurd (omega arith)

-- reading what is printed goes on from the digits that are there
value-digits :
    (fuel n : ℕ) (ds : List ℕ)
    → n < fuel
    → value 0 (codes (text_of (digits fuel n ds))) ≡ value n (codes (text_of ds))
unfolding value digits text_of
value-digits zero n ds h = absurd (omega arith)
value-digits (suc fuel) n ds h = elim (Bool-cases (ltb n 10)) [
  | inl one ↦
      rw (one, digit_code n (ltb→lt n 10 one))
        (ap (λ (m : ℕ). value m (codes (text_of ds))) (omega arith))
  | inr more ↦
      rw
        (
          more,
          value-digits fuel (n / 10) ((n % 10) ∷ ds) (ground arith),
          digit_code (n % 10) (omega arith),
        )
        (ap (λ (m : ℕ). value m (codes (text_of ds))) (omega arith))
]

-- Reading a printed number gives the number.
value-decimal : (n : ℕ) → value 0 (codes (decimal n)) ≡ n
unfolding decimal value
value-decimal n = value-digits (suc n) n [] (omega arith)

pub decimal_injective : (m n : ℕ) → decimal m ≡ decimal n → m ≡ n
decimal_injective m n e =
    sym (value-decimal m) ∙ ap (λ (s : String). value 0 (codes s)) e ∙ value-decimal n
