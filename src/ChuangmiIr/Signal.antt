-- ===== src/ChuangmiIr/Signal.antt =====
-- `ChuangmiIrSignal` and `pronto_to_raw`: the times of a command in a table of 16, and its pairs as
-- indices into the table.
use python_miio.Base.{
  ℕ, zero, suc, ◌+◌, ◌*◌, ◌-◌, ◌/◌, String, ◌==◌, ltb, List, [], ◌∷◌, ◌++◌, Option, none, some,
  length, replicate, if◌then◌else◌,
}
use python_miio.Base.Int.{ℤ, pos, negsuc, sub_ℕ}
use python_miio.Python.Hex.{from_hex}
use python_miio.Python.Result.{
  Result, ok, err, key_error, value_error, construct_error, or_raise, require, ◌>>=◌, ◌>>◌,
}
use python_miio.Protocol.Backend.{Bytes}
use python_miio.ChuangmiIr.Backend.{IrBackend}
use python_miio.ChuangmiIr.Pronto.{Pair, ProntoData, parse_pronto}

-- `times.add(t)`; the set is kept as its sorted list
unfoldable pub add_time : ℕ → List ℕ → List ℕ
add_time t [] = t ∷ []
add_time t (u ∷ times) =
    if ltb t u then t ∷ u ∷ times else if t == u then u ∷ times else u ∷ add_time t times

-- `times_sorted`: the loop over the pairs, and `sorted(times)`
unfoldable pub add_times : List Pair → List ℕ → List ℕ
add_times [] times = times
add_times (pair ∷ pairs) times = add_times pairs (add_time pair.gap (add_time pair.pulse times))

-- `times_map[t]`
unfoldable pub index_of : ℕ → List ℕ → Option ℕ
index_of t [] = none
index_of t (u ∷ times) = if t == u then some 0 else next (index_of t times)
  where
    next : Option ℕ → Option ℕ
    next none = none
    next (some i) = some (suc i)

-- `pairs * n`
unfoldable pub repeated : ℕ → List Pair → List Pair
repeated zero pairs = []
repeated (suc n) pairs = pairs ++ repeated n pairs

-- the loop that builds `edge_pairs`
unfoldable pub edge_pairs : List ℕ → List Pair → Result (List Pair)
edge_pairs times [] = ok []
edge_pairs times (pair ∷ pairs) = do
  pulse ← or_raise (index_of pair.pulse times) key_error
  gap ← or_raise (index_of pair.gap times) key_error
  rest ← edge_pairs times pairs
  ok (record { pulse = pulse; gap = gap } ∷ rest)

-- `times_sorted + [0] * (16 - len(times))`
unfoldable pub padded : List ℕ → List ℕ
padded times = times ++ replicate (16 - length times) 0

-- `(this.edge_count + 1) // 2`
abbrev pub edges_counted : ℤ → ℕ
edges_counted (pos n) = (n + 1) / 2
edges_counted (negsuc n) = 0

-- the command with its extra repeats: a command without an intro is played once more
abbrev pub repeats_of : ProntoData → ℕ → ℕ
repeats_of p repeats = elim p.intro [ [] ↦ suc repeats | _ ∷ _ ↦ repeats ]

abbrev pub one_if : ℕ → ℕ
one_if zero = 0
one_if (suc n) = 1

unfoldable pub times_sorted : ProntoData → ℕ → List ℕ
unfolding add_times repeated
times_sorted p repeats = add_times (p.intro ++ repeated (one_if repeats) p.repeat) []

unfoldable pub pairs_played : ProntoData → ℕ → List Pair
unfolding repeated
pairs_played p repeats = p.intro ++ repeated repeats p.repeat

-- `except Exception as ex: raise ValueError`
abbrev pub or_value_error : {A : Type 0} → Result A → Result A
or_value_error (ok a) = ok a
or_value_error (err e) = err value_error

module _ (b : IrBackend) where
  unfoldable pub build_times : List ℕ → Result Bytes
  build_times [] = ok []
  build_times (t ∷ times) = do word ← b.build_int32ul t; rest ← build_times times; ok (word ++ rest)

  unfoldable pub build_edges : List Pair → Result Bytes
  build_edges [] = ok []
  build_edges (pair ∷ pairs) = do
    byte ← b.build_nibbles pair.gap pair.pulse
    rest ← build_edges pairs
    ok (byte ++ rest)

  -- `ChuangmiIrSignal.build`; an `Array` raises for a list of another length
  unfoldable pub build_signal : List ℕ → List Pair → Result Bytes
  build_signal times edges = do
    let edge_count = sub_ℕ (length edges * 2) 1
    magic ← b.build_int16ul (pos 0xA567)
    count ← b.build_int16ul edge_count
    require (length times == 16) construct_error
    table ← build_times times
    require (length edges == edges_counted edge_count) construct_error
    pairs ← build_edges edges
    ok (magic ++ (count ++ (table ++ pairs)))

  -- the part of `pronto_to_raw` behind the parsing
  unfoldable pub signal_of : ProntoData → ℕ → Result (String × ℕ)
  signal_of p repeats = do
    let times = times_sorted p repeats
    edges ← edge_pairs times (pairs_played p repeats)
    signal ← build_signal (padded times) edges
    ok (b.b64encode signal, p.frequency)

  -- `pronto_to_raw`
  unfoldable pub pronto_to_raw : String → ℤ → Result (String × ℕ)
  pronto_to_raw pronto (negsuc n) = err value_error
  pronto_to_raw pronto (pos repeats) = do
    p ← or_value_error (from_hex pronto >>= parse_pronto b)
    signal_of p (repeats_of p repeats)
