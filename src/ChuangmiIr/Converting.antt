-- ===== src/ChuangmiIr/Converting.antt =====
-- What `pronto_to_raw` makes of a parsed command.
use python_miio.Base.{
  String, ℕ, zero, suc, ◌-◌, ◌^◌, ◌<◌, ◌≤◌, ◌≡◌, inl, inr, some, List, [], ◌∷◌, ◌++◌, ◌==◌, length,
  replicate, All, All-append, arith, ltb, Bool-cases,
}
use python_miio.Python.Result.{Result, ok}
use python_miio.Protocol.Backend.{Bytes}
use python_miio.ChuangmiIr.Backend.{IrBackend, IrLaws}
use python_miio.ChuangmiIr.Pronto.{Pair, ProntoData}
use python_miio.ChuangmiIr.Signal.{
  add_time, add_times, repeated, edge_pairs, padded, times_sorted, pairs_played, one_if, signal_of,
}
use python_miio.ChuangmiIr.Times.{played-IsListed, All-repeated}
use python_miio.ChuangmiIr.Decoding.{AllIndex, edge_pairs_found, length-padded, read_signal}
use python_miio.ChuangmiIr.RoundTrip.{build_signal_lem, read_signal-signal_bytes, signal_bytes}

abbrev Fits : ℕ → Type 0
Fits t = t < 2 ^ 32

-- Both times of the pair fit in 32 bits.
abbrev pub PairFits : Pair → Type 0
PairFits pair = (pair.pulse < 2 ^ 32) × (pair.gap < 2 ^ 32)

add_time-Fits : (t : ℕ) (times : List ℕ) → t < 2 ^ 32 → All Fits times → All Fits (add_time t times)
unfolding add_time
add_time-Fits t [] h hs = (h, tt)
add_time-Fits t (u ∷ times) h (k, ks) = elim (Bool-cases (ltb t u)) [
  | inl below ↦ rw below (h, (k, ks))
  | inr above ↦ elim (Bool-cases (t == u)) [
    | inl hit ↦ rw (above, hit) (k, ks)
    | inr miss ↦ rw (above, miss) (k, add_time-Fits t times h ks)
  ]
]

add_times-Fits :
    (pairs : List Pair) (times : List ℕ)
    → All PairFits pairs
    → All Fits times
    → All Fits (add_times pairs times)
unfolding add_times
add_times-Fits [] times hs h = h
add_times-Fits (pair ∷ pairs) times ((p, g), hs) h =
    add_times-Fits pairs _ hs (add_time-Fits pair.gap _ g (add_time-Fits pair.pulse times p h))

replicate-Fits : (n : ℕ) → All Fits (replicate n 0)
replicate-Fits zero = tt
replicate-Fits (suc n) = (omega arith, replicate-Fits n)

-- The table of a command whose times fit.
padded-Fits :
    (p : ProntoData) (repeats : ℕ)
    → All PairFits p.intro
    → All PairFits p.repeat
    → All Fits (padded (times_sorted p repeats))
unfolding padded times_sorted
padded-Fits p repeats hi hr =
    All-append Fits (add_times (p.intro ++ repeated (one_if repeats) p.repeat) []) _
      (add_times-Fits _ []
        (All-append PairFits p.intro _ hi (All-repeated PairFits (one_if repeats) p.repeat hr)) tt)
      (replicate-Fits (16 - length (add_times (p.intro ++ repeated (one_if repeats) p.repeat) [])))

-- The command is converted to a signal, with its frequency, and a reader of signals gets the pairs back.
abbrev pub IsConverted : IrBackend → ProntoData → ℕ → Result (String × ℕ) → Type 0
IsConverted b p repeats result =
    (signal : Bytes) × (result ≡ ok (b.b64encode signal, p.frequency))
    × (read_signal signal ≡ some (pairs_played p repeats))

module _ (b : IrBackend) (laws : IrLaws b) where
  converted :
      (p : ProntoData) (repeats : ℕ) (edges : List Pair)
      → length (times_sorted p repeats) ≤ 16
      → All Fits (padded (times_sorted p repeats))
      → 0 < length edges
      → length edges ≤ 2 ^ 15
      → edge_pairs (times_sorted p repeats) (pairs_played p repeats) ≡ ok edges
      → AllIndex (padded (times_sorted p repeats)) edges (pairs_played p repeats)
      → IsConverted b p repeats (signal_of b p repeats)
  unfolding signal_of
  converted p repeats [] few fits some_edge short found indices = absurd (omega arith)
  converted p repeats (edge ∷ edges) few fits some_edge short found indices =
      let times = padded (times_sorted p repeats) in
      let size = length-padded (times_sorted p repeats) few in
      (
        signal_bytes times (edge ∷ edges),
        rw (
          found,
          build_signal_lem b laws times edge edges (pairs_played p repeats) size fits indices short,
        ),
        read_signal-signal_bytes times (edge ∷ edges) (pairs_played p repeats) size fits indices
            some_edge short,
      )

  -- With at most 16 different times, which fit in 32 bits, and between 1 and 2 ^ 15 pairs to play,
  -- `pronto_to_raw` makes a signal of a parsed command, beside its frequency; a reader of signals, written
  -- from their layout, gets from it the pairs of the intro and of every repeat, in order, with their times.
  pub signal_of_lem :
      (p : ProntoData) (repeats : ℕ)
      → length (times_sorted p repeats) ≤ 16
      → All PairFits p.intro
      → All PairFits p.repeat
      → 0 < length (pairs_played p repeats)
      → length (pairs_played p repeats) ≤ 2 ^ 15
      → IsConverted b p repeats (signal_of b p repeats)
  signal_of_lem p repeats few hi hr some_pair short =
      let (edges, found, indices, size) =
        edge_pairs_found (times_sorted p repeats) (pairs_played p repeats) few
          (played-IsListed p repeats) in
      converted p repeats edges few (padded-Fits p repeats hi hr) (omega arith) (omega arith) found
        indices
