-- ===== src/ChuangmiIr/Limits.antt =====
-- Commands that `pronto_to_raw` cannot convert: too many different times, or nothing to play.
use python_miio.Base.{
  ℕ, suc, ◌*◌, ◌-◌, ◌^◌, ◌<◌, ◌≡◌, refl, inl, inr, ◌⊎◌, true, false, List, [], ◌∷◌, ◌==◌, leb, ltb,
  length, replicate, All, arith, length-append, Bool-cases,
}
use python_miio.Base.Int.{pos}
use python_miio.Python.Result.{ok, err, construct_error}
use python_miio.ChuangmiIr.Backend.{IrBackend, IrLaws, little_endian}
use python_miio.ChuangmiIr.Pronto.{Pair, ProntoData}
use python_miio.ChuangmiIr.Signal.{
  edge_pairs, padded, times_sorted, pairs_played, build_signal, signal_of,
}
use python_miio.ChuangmiIr.Times.{IsListed, index_of-member, played-IsListed}

-- Listed pairs are found, whatever the size of the table.
edge_pairs_total :
    (times : List ℕ) (pairs : List Pair)
    → All (IsListed times) pairs
    → (edges : List Pair) × (edge_pairs times pairs ≡ ok edges)
unfolding edge_pairs
edge_pairs_total times [] h = ([], refl)
edge_pairs_total times (pair ∷ pairs) ((p, g), hs) =
    let (i, found_i, at_i, less_i) = index_of-member pair.pulse times p in
    let (j, found_j, at_j, less_j) = index_of-member pair.gap times g in
    let (edges, rest) = edge_pairs_total times pairs hs in
    (record { pulse = i; gap = j } ∷ edges, rw (found_i, found_j, rest))

length-padded_long : (times : List ℕ) → 16 < length times → (length (padded times) == 16) ≡ false
unfolding padded
length-padded_long times h =
    let size = length-append times (replicate (16 - length times) 0) in ground (arith, size)

module _ (b : IrBackend) (laws : IrLaws b) where
  -- `Int16ul` builds, or raises.
  build_int16ul-cases :
      (n : ℕ)
      → (b.build_int16ul (pos n) ≡ ok (little_endian 2 n))
        ⊎ (b.build_int16ul (pos n) ≡ err construct_error)
  build_int16ul-cases n = elim (Bool-cases (ltb n (2 ^ 16))) [
    | inl small ↦ inl (laws.build_int16ul_fits n (ground arith))
    | inr large ↦ inr (laws.build_int16ul_overflow n (ground arith))
  ]

  build_signal-too_long :
      (times : List ℕ) (edges : List Pair)
      → (length times == 16) ≡ false
      → build_signal b times edges ≡ err construct_error
  unfolding build_signal
  build_signal-too_long times [] h =
      rw (laws.build_int16ul_fits 0xA567 (omega arith), laws.build_int16ul_negative 0)
  build_signal-too_long times (edge ∷ edges) h =
      let n : ℕ = length edges in
      let positive : leb 1 (suc n * 2) ≡ true = ground arith in
      elim (build_int16ul-cases (suc n * 2 - 1)) [
        | inl built ↦ rw (laws.build_int16ul_fits 0xA567 (omega arith), positive, built, h)
        | inr large ↦ rw (laws.build_int16ul_fits 0xA567 (omega arith), positive, large)
      ]

  -- A command with more than 16 different times raises a `ConstructError`, and no `KeyError`.
  pub signal_of-too_many :
      (p : ProntoData) (repeats : ℕ)
      → 16 < length (times_sorted p repeats)
      → signal_of b p repeats ≡ err construct_error
  unfolding signal_of
  signal_of-too_many p repeats many =
      let (edges, found) =
        edge_pairs_total _ (pairs_played p repeats) (played-IsListed p repeats) in
      rw (
        found,
        build_signal-too_long (padded (times_sorted p repeats)) edges
            (length-padded_long (times_sorted p repeats) many),
      )

  -- So does one without a pair to play.
  pub signal_of-nothing :
      (p : ProntoData) (repeats : ℕ)
      → pairs_played p repeats ≡ []
      → signal_of b p repeats ≡ err construct_error
  unfolding signal_of edge_pairs build_signal
  signal_of-nothing p repeats none_played =
      rw (none_played, laws.build_int16ul_fits 0xA567 (omega arith), laws.build_int16ul_negative 0)
