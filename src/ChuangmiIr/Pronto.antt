-- ===== src/ChuangmiIr/Pronto.antt =====
-- `Pronto` and `ProntoBurstPair`: a Pronto Hex command, parsed field by field.
use python_miio.Base.{ℕ, zero, suc, List, [], ◌∷◌, ◌==◌}
use python_miio.Python.Result.{Result, ok, construct_error, require, ◌>>=◌, ◌>>◌}
use python_miio.Protocol.Backend.{Bytes}
use python_miio.Protocol.Message.{read}
use python_miio.ChuangmiIr.Backend.{IrBackend}

pub record Pair : Type 0 where
  pub pulse : ℕ
  pub gap : ℕ

pub record ProntoData : Type 0 where
  pub frequency : ℕ
  pub intro : List Pair
  pub repeat : List Pair

module _ (b : IrBackend) where
  -- `Int16ub`
  unfoldable pub read_word : Bytes → Result (ℕ × Bytes)
  unfolding read
  read_word s = do (word, rest) ← read 2 s; ok (b.parse_int16ub word, rest)

  -- `ProntoBurstPair`, through `ProntoPulseAdapter`
  unfoldable pub read_pair : ℕ → Bytes → Result (Pair × Bytes)
  read_pair ticks s = do
    (pulse, s) ← read_word s
    (gap, s) ← read_word s
    ok (record { pulse = b.pulse_time ticks pulse; gap = b.pulse_time ticks gap }, s)

  -- `Array(count, ProntoBurstPair)`
  unfoldable pub read_pairs : ℕ → ℕ → Bytes → Result (List Pair × Bytes)
  read_pairs ticks zero s = ok ([], s)
  read_pairs ticks (suc count) s = do
    (pair, s) ← read_pair ticks s
    (pairs, s) ← read_pairs ticks count s
    ok (pair ∷ pairs, s)

  -- `Pronto.parse`; bytes behind the last field are not read
  unfoldable pub parse_pronto : Bytes → Result ProntoData
  parse_pronto s = do
    (zeros, s) ← read_word s
    require (zeros == 0) construct_error
    (ticks, s) ← read_word s
    frequency ← b.frequency ticks
    (intro_len, s) ← read_word s
    (repeat_len, s) ← read_word s
    (intro, s) ← read_pairs ticks intro_len s
    (repeat, s) ← read_pairs ticks repeat_len s
    ok (record { frequency = frequency; intro = intro; repeat = repeat })
