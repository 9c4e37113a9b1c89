-- ===== src/ChuangmiIr/Decoding.antt =====
-- A reader of signals, written from the layout that `ChuangmiIrSignal` declares and apart from the code
-- that builds them.
use python_miio.Base.{
  ℕ, zero, suc, ◌+◌, ◌*◌, ◌/◌, ◌%◌, ◌-◌, ◌^◌, ◌<◌, ◌≤◌, ◌≡◌, refl, ap, Option, none, some, List, [],
  ◌∷◌, ◌++◌, ◌==◌, length, get_elem?, take, drop, replicate, All, arith, if◌then◌else◌,
  length-append, length-replicate, length-replicate,
}
use python_miio.Python.Result.{ok}
use python_miio.Protocol.Backend.{Bytes}
use python_miio.ChuangmiIr.Backend.{little_endian}
use python_miio.ChuangmiIr.Pronto.{Pair}
use python_miio.ChuangmiIr.Signal.{edge_pairs, padded}
use python_miio.ChuangmiIr.Times.{IsListed, index_of-member}

-- a number from its bytes, the lowest first
unfoldable pub le_value : Bytes → ℕ
le_value [] = 0
le_value (c ∷ s) = c + 256 * le_value s

-- the first so many words of four bytes
unfoldable pub read_table : ℕ → Bytes → List ℕ
unfolding le_value
read_table zero s = []
read_table (suc n) s = le_value (take 4 s) ∷ read_table n (drop 4 s)

abbrev pair_of : Option ℕ → Option ℕ → Option (List Pair) → Option (List Pair)
pair_of (some pulse) (some gap) (some pairs) = some (record { pulse = pulse; gap = gap } ∷ pairs)
pair_of _ _ _ = none

-- A byte holds the index of the gap and, in its low half, the one of the pulse.
unfoldable pub read_edges : List ℕ → Bytes → Option (List Pair)
read_edges times [] = some []
read_edges times (c ∷ s) =
    pair_of (get_elem? times (c % 16)) (get_elem? times (c / 16)) (read_edges times s)

-- the pairs of a signal: the mark, the number of edges, 16 times, and a byte for two edges
unfoldable pub read_signal : Bytes → Option (List Pair)
unfolding le_value read_table read_edges
read_signal s =
    let edge_count = le_value (take 2 (drop 2 s)) in
    if le_value (take 2 s) == 0xA567
    then read_edges (read_table 16 (drop 4 s)) (take ((edge_count + 1) / 2) (drop 68 s))
    else none

pub le_value-little_endian : (k n : ℕ) → n < 256 ^ k → le_value (little_endian k n) ≡ n
unfolding le_value little_endian
le_value-little_endian zero n h = ground arith
le_value-little_endian (suc k) n h =
    let more : 256 ^ suc k ≡ 256 ^ k * 256 = omega arith in
    let less : n / 256 < 256 ^ k = omega (arith, more) in
    omega (arith, le_value-little_endian k (n / 256) less)

pub length-little_endian : (k n : ℕ) → length (little_endian k n) ≡ k
unfolding little_endian
length-little_endian zero n = refl
length-little_endian (suc k) n = ap suc (length-little_endian k (n / 256))

-- Indices that fit a half byte, and point to the times of the pairs in the table.
abbrev pub Index : List ℕ → Pair → Pair → Type 0
Index times edge pair =
    (get_elem? times edge.pulse ≡ some pair.pulse)
    × (get_elem? times edge.gap ≡ some pair.gap)
    × (edge.pulse < 16)
    × (edge.gap < 16)

abbrev pub AllIndex : List ℕ → List Pair → List Pair → Type 0
AllIndex times [] [] = Unit
AllIndex times (edge ∷ edges) (pair ∷ pairs) = Index times edge pair × AllIndex times edges pairs
AllIndex times _ _ = ⊥

get_elem?-append :
    (xs ys : List ℕ) (i x : ℕ) → get_elem? xs i ≡ some x → get_elem? (xs ++ ys) i ≡ some x
get_elem?-append [] ys i x h = absurd (ground arith)
get_elem?-append (y ∷ xs) ys zero x h = h
get_elem?-append (y ∷ xs) ys (suc i) x h = get_elem?-append xs ys i x h

-- The indices of listed pairs are found, none is missing, and they point back to the pairs.
pub edge_pairs_found :
    (times : List ℕ) (pairs : List Pair)
    → length times ≤ 16
    → All (IsListed times) pairs
    → (edges : List Pair) × (edge_pairs times pairs ≡ ok edges)
      × AllIndex (padded times) edges pairs
      × (length edges ≡ length pairs)
unfolding edge_pairs padded
edge_pairs_found times [] le h = ([], refl, tt, refl)
edge_pairs_found times (pair ∷ pairs) le ((p, g), hs) =
    let (i, found_i, at_i, less_i) = index_of-member pair.pulse times p in
    let (j, found_j, at_j, less_j) = index_of-member pair.gap times g in
    let (edges, rest, indices, size) = edge_pairs_found times pairs le hs in
    (
      record { pulse = i; gap = j } ∷ edges,
      rw (found_i, found_j, rest),
      (
        (
          get_elem?-append times _ i _ at_i,
          get_elem?-append times _ j _ at_j,
          omega arith,
          omega arith,
        ),
        indices,
      ),
      ap suc size,
    )

pub length-padded : (times : List ℕ) → length times ≤ 16 → length (padded times) ≡ 16
unfolding padded
length-padded times le = omega (
  arith,
  length-append times (replicate (16 - length times) 0),
  length-replicate {A = ℕ} (16 - length times) 0,
)
