-- ===== src/Cooker/Printed.antt =====
-- What the containers of a cooker print, and what they read of it.
use Prim.Native.Char.{code}
use text.Mathlib.TextLemmas.{nil-append, cons-append}
use python_miio.Base.{
  ℕ, zero, suc, ◌+◌, ◌*◌, ◌/◌, ◌%◌, ◌<◌, ◌≡◌, refl, ap, inl, inr, true, false, String, List, [],
  ◌∷◌, map, some, ◌==◌, ltb, Bool-cases, All, arith, length,
}
use python_miio.Base.Int.{pos}
use python_miio.Base.Text.{codes}
use python_miio.Python.Hex.{hex_digit, hex_value-hex_digit, hex_digit-not_space}
use python_miio.Python.Number.{to_int16, read_int, read_digits, digit_value}
use python_miio.Python.Result.{ok}
use python_miio.Cooker.Containers.{
  octets, digit_char, hex_number, hex_of, octet_text, octets_text, temperature_history,
  customizations, interaction_timeouts,
}
use python_miio.Cooker.Settings.{cooker_settings}

code_digit : (d : ℕ) → d < 16 → code (digit_char d) ≡ hex_digit d
unfolding hex_digit
code_digit zero h = refl
code_digit (suc zero) h = refl
code_digit (suc (suc zero)) h = refl
code_digit (suc (suc (suc zero))) h = refl
code_digit (suc (suc (suc (suc zero)))) h = refl
code_digit (suc (suc (suc (suc (suc zero))))) h = refl
code_digit (suc (suc (suc (suc (suc (suc zero)))))) h = refl
code_digit (suc (suc (suc (suc (suc (suc (suc zero))))))) h = refl
code_digit (suc (suc (suc (suc (suc (suc (suc (suc zero)))))))) h = refl
code_digit (suc (suc (suc (suc (suc (suc (suc (suc (suc zero))))))))) h = refl
code_digit (suc (suc (suc (suc (suc (suc (suc (suc (suc (suc zero)))))))))) h = refl
code_digit (suc (suc (suc (suc (suc (suc (suc (suc (suc (suc (suc zero))))))))))) h = refl
code_digit (suc (suc (suc (suc (suc (suc (suc (suc (suc (suc (suc (suc zero)))))))))))) h = refl
code_digit (suc (suc (suc (suc (suc (suc (suc (suc (suc (suc (suc (suc (suc zero))))))))))))) h =
    refl
code_digit (suc (suc (suc (suc (suc (suc (suc (suc (suc (suc (suc (suc (suc (suc zero))))))))))))))
      h =
    refl
code_digit
      (suc (suc (suc (suc (suc (suc (suc (suc (suc (suc (suc (suc (suc (suc (suc zero)))))))))))))))
      h =
    refl
code_digit
      (suc
        (suc (suc (suc (suc (suc (suc (suc (suc (suc (suc (suc (suc (suc (suc (suc d))))))))))))))))
      h =
    absurd (omega arith)

digit_value-hex_digit : (d : ℕ) → d < 16 → digit_value 16 (hex_digit d) ≡ some d
unfolding digit_value
digit_value-hex_digit d h =
    let less : ltb d 16 ≡ true = ground arith in rw (hex_value-hex_digit d h, less)

digit_not_minus : (d : ℕ) → d < 16 → (hex_digit d == b'-') ≡ false
unfolding hex_digit
digit_not_minus d h = ground arith

digit_not_plus : (d : ℕ) → d < 16 → (hex_digit d == b'+') ≡ false
unfolding hex_digit
digit_not_plus d h = ground arith

read_two_digits :
    (c d : ℕ)
    → c < 16
    → d < 16
    → read_digits 16 0 false (hex_digit c ∷ hex_digit d ∷ []) ≡ some (c * 16 + d)
unfolding read_digits
read_two_digits c d hc hd =
    rw (digit_value-hex_digit c hc, digit_value-hex_digit d hd)
      (ap (λ (n : ℕ). some (n * 16 + d)) (omega arith))

to_int16-digits :
    (c d : ℕ) → c < 16 → d < 16 → to_int16 (hex_digit c ∷ hex_digit d ∷ []) ≡ ok (pos (c * 16 + d))
unfolding to_int16 read_int
to_int16-digits c d hc hd =
    rw (
      hex_digit-not_space c hc,
      digit_not_minus c hc,
      digit_not_plus c hc,
      read_two_digits c d hc hd,
    )

-- A byte has two digits.
octet_text-byte :
    (n : ℕ)
    → n < 256
    → octet_text (pos n)
      ≡ String.◌∷◌ (digit_char (n / 16)) (String.◌∷◌ (digit_char (n % 16)) String.[])
unfolding octet_text hex_of hex_number
octet_text-byte zero h = refl
octet_text-byte (suc m) h = elim (Bool-cases (ltb (suc m) 16)) [
  | inl small ↦
      (let high : suc m / 16 ≡ 0 = ground arith in
        let low : suc m % 16 ≡ suc m = ground arith in rw (small, high, low))
  | inr large ↦ (let high : ltb (suc m / 16) 16 ≡ true = ground arith in rw (large, high))
]

abbrev IsByte : ℕ → Type 0
IsByte n = n < 256

-- The text of bytes is read as the bytes.
octets-octets_text :
    (bytes : List ℕ)
    → All IsByte bytes
    → octets (codes (octets_text (map pos bytes))) ≡ ok (map pos bytes)
unfolding octets octets_text
octets-octets_text [] h = refl
octets-octets_text (n ∷ bytes) (h, hs) =
    let high : n / 16 < 16 = omega arith in
    let low : n % 16 < 16 = omega arith in
    let whole : n / 16 * 16 + n % 16 ≡ n = omega arith in
    rw (
      octet_text-byte n h,
      cons-append (digit_char (n / 16)) (String.◌∷◌ (digit_char (n % 16)) String.[])
          (octets_text (map pos bytes)),
      cons-append (digit_char (n % 16)) String.[] (octets_text (map pos bytes)),
      nil-append (octets_text (map pos bytes)),
      code_digit (n / 16) high,
      code_digit (n % 16) low,
      to_int16-digits (n / 16) (n % 16) high low,
      whole,
      octets-octets_text bytes hs,
    )

length-octets_text :
    (bytes : List ℕ)
    → All IsByte bytes
    → length (codes (octets_text (map pos bytes))) ≡ length bytes * 2
unfolding octets_text
length-octets_text [] h = refl
length-octets_text (n ∷ bytes) (h, hs) =
    rw
      (
        octet_text-byte n h,
        cons-append (digit_char (n / 16)) (String.◌∷◌ (digit_char (n % 16)) String.[])
            (octets_text (map pos bytes)),
        cons-append (digit_char (n % 16)) String.[] (octets_text (map pos bytes)),
        nil-append (octets_text (map pos bytes)),
      )
      (omega (arith, length-octets_text bytes hs))

-- What `str` prints of bytes, every container reads back: settings, timeouts and customizations, and the
-- temperatures of which `raw` is the text.
pub octets_text-read :
    (bytes : List ℕ)
    → All IsByte bytes
    → let text = octets_text (map pos bytes) in
      (cooker_settings (some text) ≡ ok (map pos bytes))
      × (interaction_timeouts (some text) ≡ ok (map pos bytes))
      × (customizations text ≡ ok (map pos bytes))
      × (temperature_history text ≡ ok (map pos bytes))
unfolding cooker_settings interaction_timeouts customizations temperature_history
octets_text-read bytes h =
    let text = octets_text (map pos bytes) in
    let reads = octets-octets_text bytes h in
    let even : (length (codes text) % 2 == 0) ≡ true = ground (arith, length-octets_text bytes h) in
    (reads, reads, reads, rw even reads)
