-- ===== src/ChuangmiIr/RoundTrip.antt =====
-- What `ChuangmiIrSignal.build` writes, and what a reader makes of it.
use python_miio.Base.{
  ℕ, suc, ◌+◌, ◌*◌, ◌/◌, ◌%◌, ◌-◌, ◌^◌, ◌<◌, ◌≤◌, ◌≡◌, refl, ap, sym, ◌∙◌, some, List, [], ◌∷◌,
  ◌++◌, ==_refl, length, drop, All, arith, leb, true, length-append, take-append_left,
  drop-append_left, take_all, append_assoc,
}
use python_miio.Python.Result.{ok}
use python_miio.Protocol.Backend.{Bytes}
use python_miio.ChuangmiIr.Backend.{IrBackend, IrLaws, little_endian}
use python_miio.ChuangmiIr.Pronto.{Pair}
use python_miio.ChuangmiIr.Signal.{build_times, build_edges, build_signal}
use python_miio.ChuangmiIr.Decoding.{
  le_value-little_endian, length-little_endian, read_table, read_edges, read_signal, AllIndex,
}

unfoldable pub table_bytes : List ℕ → Bytes
table_bytes [] = []
table_bytes (t ∷ times) = little_endian 4 t ++ table_bytes times

length-table_bytes : (times : List ℕ) → length (table_bytes times) ≡ length times * 4
unfolding table_bytes
length-table_bytes [] = refl
length-table_bytes (t ∷ times) = omega (
  arith,
  length-append (little_endian 4 t) (table_bytes times),
  length-little_endian 4 t,
  length-table_bytes times,
)

unfoldable pub edge_bytes : List Pair → Bytes
edge_bytes [] = []
edge_bytes (edge ∷ edges) = (edge.gap * 16 + edge.pulse) ∷ edge_bytes edges

length-edge_bytes : (edges : List Pair) → length (edge_bytes edges) ≡ length edges
unfolding edge_bytes
length-edge_bytes [] = refl
length-edge_bytes (edge ∷ edges) = ap suc (length-edge_bytes edges)

read_table-table_bytes :
    (times : List ℕ) (rest : Bytes)
    → All (λ t. t < 2 ^ 32) times
    → read_table (length times) (table_bytes times ++ rest) ≡ times
unfolding read_table table_bytes
read_table-table_bytes [] rest h = refl
read_table-table_bytes (t ∷ times) rest (h, hs) =
    let size = length-little_endian 4 t in
    rw (
      append_assoc (little_endian 4 t) (table_bytes times) rest,
      take-append_left 4 (little_endian 4 t) (table_bytes times ++ rest) size,
      drop-append_left 4 (little_endian 4 t) (table_bytes times ++ rest) size,
      le_value-little_endian 4 t h,
      read_table-table_bytes times rest hs,
    )

read_edges-edge_bytes :
    (times : List ℕ) (edges pairs : List Pair)
    → AllIndex times edges pairs
    → read_edges times (edge_bytes edges) ≡ some pairs
unfolding read_edges edge_bytes
read_edges-edge_bytes times [] [] h = refl
read_edges-edge_bytes times [] (pair ∷ pairs) h = elim h [ ]
read_edges-edge_bytes times (edge ∷ edges) [] h = elim h [ ]
read_edges-edge_bytes times (edge ∷ edges) (pair ∷ pairs) ((p, g, lp, lg), hs) =
    let low : (edge.gap * 16 + edge.pulse) % 16 ≡ edge.pulse = omega arith in
    let high : (edge.gap * 16 + edge.pulse) / 16 ≡ edge.gap = omega arith in
    rw (low, high, p, g, read_edges-edge_bytes times edges pairs hs)

abbrev pub signal_bytes : List ℕ → List Pair → Bytes
signal_bytes times edges =
    little_endian 2 0xA567
    ++ (little_endian 2 (length edges * 2 - 1) ++ (table_bytes times ++ edge_bytes edges))

-- A signal read back gives the pairs that its edges stand for.
pub read_signal-signal_bytes :
    (times : List ℕ) (edges pairs : List Pair)
    → length times ≡ 16
    → All (λ t. t < 2 ^ 32) times
    → AllIndex times edges pairs
    → 0 < length edges
    → length edges ≤ 2 ^ 15
    → read_signal (signal_bytes times edges) ≡ some pairs
unfolding read_signal
read_signal-signal_bytes times edges pairs size fits indices some_edge few =
    let mark = little_endian 2 0xA567 in
    let count = little_endian 2 (length edges * 2 - 1) in
    let mark_size = length-little_endian 2 0xA567 in
    let count_size = length-little_endian 2 (length edges * 2 - 1) in
    let table = table_bytes times in
    let rest = table ++ edge_bytes edges in
    let body : drop 4 (signal_bytes times edges) ≡ rest =
      ap (drop 4) (sym (append_assoc mark count rest))
      ∙ drop-append_left 4 (mark ++ count) rest
          (length-append mark count ∙ omega (arith, mark_size, count_size)) in
    let tail : drop 68 (signal_bytes times edges) ≡ edge_bytes edges =
      ap (drop 68) (
        ap (λ s. mark ++ s) (sym (append_assoc count table (edge_bytes edges)))
        ∙ sym (append_assoc mark (count ++ table) (edge_bytes edges)))
      ∙ drop-append_left 68 (mark ++ (count ++ table)) (edge_bytes edges) (
          omega (
            arith,
            length-append mark (count ++ table),
            length-append count table,
            mark_size,
            count_size,
            length-table_bytes times,
            size,
          )) in
    let words : read_table 16 rest ≡ times =
      ap (λ n. read_table n rest) (sym size)
      ∙ read_table-table_bytes times (edge_bytes edges) fits in
    let halved : (length edges * 2 - 1 + 1) / 2 ≡ length edges = omega arith in
    rw
      (
        take-append_left 2 mark (count ++ rest) mark_size,
        drop-append_left 2 mark (count ++ rest) mark_size,
        take-append_left 2 count rest count_size,
        le_value-little_endian 2 0xA567 (omega arith),
        le_value-little_endian 2 (length edges * 2 - 1) (omega arith),
      )
      (rw
        (
          body,
          words,
          tail,
          halved,
          take_all (length edges) (edge_bytes edges) (omega (arith, length-edge_bytes edges)),
        )
        (read_edges-edge_bytes times edges pairs indices))

module _ (b : IrBackend) (laws : IrLaws b) where
  build_times_lem :
      (times : List ℕ) → All (λ t. t < 2 ^ 32) times → build_times b times ≡ ok (table_bytes times)
  unfolding build_times table_bytes
  build_times_lem [] h = refl
  build_times_lem (t ∷ times) (h, hs) = rw (laws.build_int32ul_fits t h, build_times_lem times hs)

  build_edges_lem :
      (times : List ℕ) (edges pairs : List Pair)
      → AllIndex times edges pairs
      → build_edges b edges ≡ ok (edge_bytes edges)
  unfolding build_edges edge_bytes
  build_edges_lem times [] [] h = refl
  build_edges_lem times [] (pair ∷ pairs) h = elim h [ ]
  build_edges_lem times (edge ∷ edges) [] h = elim h [ ]
  build_edges_lem times (edge ∷ edges) (pair ∷ pairs) ((p, g, lp, lg), hs) =
      rw (laws.build_nibbles_fits edge.gap edge.pulse lg lp, build_edges_lem times edges pairs hs)

  -- Sixteen times that fit, and edges that point to them, are built.
  pub build_signal_lem :
      (times : List ℕ) (edge : Pair) (edges pairs : List Pair)
      → length times ≡ 16
      → All (λ t. t < 2 ^ 32) times
      → AllIndex times (edge ∷ edges) pairs
      → length (edge ∷ edges) ≤ 2 ^ 15
      → build_signal b times (edge ∷ edges) ≡ ok (signal_bytes times (edge ∷ edges))
  unfolding build_signal
  build_signal_lem times edge edges pairs size fits indices few =
      let n : ℕ = length edges in
      let positive : leb 1 (suc n * 2) ≡ true = ground arith in
      let halved : (suc n * 2 - 1 + 1) / 2 ≡ suc n = omega arith in
      rw (
        positive,
        laws.build_int16ul_fits 0xA567 (omega arith),
        laws.build_int16ul_fits (suc n * 2 - 1) (omega arith),
        size,
        build_times_lem times fits,
        halved,
        ==_refl (suc n),
        build_edges_lem times (edge ∷ edges) pairs indices,
      )
