-- ===== src/ChuangmiIr/Backend.antt =====
-- What chuangmi_ir.py calls and does not implement: the integers of `construct`, `base64`, and the
-- arithmetic on floats around the period of a Pronto command. Each is a parameter; the laws state its
-- documented behaviour.
use python_miio.Base.{ℕ, zero, suc, ◌+◌, ◌*◌, ◌^◌, ◌%◌, ◌/◌, ◌<◌, ◌≤◌, ◌≡◌, String, [], ◌∷◌}
use python_miio.Base.Int.{ℤ, pos, negsuc}
use python_miio.Python.Result.{Result, ok, err, construct_error}
use python_miio.Protocol.Backend.{Bytes, big_endian}

-- Numbers that cannot be negative are natural ones; `edge_count` can be -1.
pub record IrBackend : Type 0 where
  -- `Int16ub`, given exactly two bytes
  pub parse_int16ub : Bytes → ℕ
  pub build_int16ul : ℤ → Result Bytes
  pub build_int32ul : ℕ → Result Bytes
  -- `BitStruct("gap" / BitsInteger(4), "pulse" / BitsInteger(4))`, of the gap and the pulse
  pub build_nibbles : ℕ → ℕ → Result Bytes
  -- `base64.b64encode(data).decode()`
  pub b64encode : Bytes → String
  -- `int(obj * (ticks * 0.241246))`, of the ticks and `obj`
  pub pulse_time : ℕ → ℕ → ℕ
  -- `int(round(1000000 / (ticks * 0.241246)))`, which raises for no ticks
  pub frequency : ℕ → Result ℕ

-- The last `k` bytes of a number, the lowest first.
unfoldable pub little_endian : ℕ → ℕ → Bytes
little_endian zero n = []
little_endian (suc k) n = n % 256 ∷ little_endian k (n / 256)

pub record IrLaws (b : IrBackend) : Type 0 where
  pub parse_int16ub_lem : (n : ℕ) → n < 2 ^ 16 → b.parse_int16ub (big_endian 2 n) ≡ n
  pub build_int16ul_fits : (n : ℕ) → n < 2 ^ 16 → b.build_int16ul (pos n) ≡ ok (little_endian 2 n)
  pub build_int16ul_overflow : (n : ℕ) → 2 ^ 16 ≤ n → b.build_int16ul (pos n) ≡ err construct_error
  pub build_int16ul_negative : (n : ℕ) → b.build_int16ul (negsuc n) ≡ err construct_error
  pub build_int32ul_fits : (n : ℕ) → n < 2 ^ 32 → b.build_int32ul n ≡ ok (little_endian 4 n)
  pub build_nibbles_fits :
      (gap pulse : ℕ)
      → gap < 16
      → pulse < 16
      → b.build_nibbles gap pulse ≡ ok ((gap * 16 + pulse) ∷ [])
  pub pulse_time_bound : (ticks n : ℕ) → ticks < 2 ^ 16 → n < 2 ^ 16 → b.pulse_time ticks n < 2 ^ 32
