-- ===== src/ChuangmiIr/HexCommands.antt =====
-- Pronto commands as they are written: words of 16 bits, in hexadecimal digits.
use python_miio.Base.{
  ℕ, ◌/◌, ◌%◌, ◌^◌, ◌<◌, ◌≡◌, refl, sym, true, false, String, List, [], ◌∷◌, ◌++◌, some, map, ◌==◌,
  length, All, arith, subst, append_assoc,
}
use python_miio.Base.Text.{codes}
use python_miio.Base.Split.{has_char}
use python_miio.Python.Hex.{to_hex, hex_digit, hex_value-hex_digit, from_hex, read_hex-to_hex}
use python_miio.Python.Result.{ok}
use python_miio.Protocol.Backend.{Bytes, big_endian}
use python_miio.Protocol.RoundTrip.{read-append, length-big_endian}
use python_miio.ChuangmiIr.Backend.{IrBackend, IrLaws}
use python_miio.ChuangmiIr.Pronto.{Pair, read_word, read_pair, read_pairs}
use python_miio.ChuangmiIr.Texts.{is_hex, is_whitespace, count_groups, is_pronto}

-- `Int16ub`, one after the other
unfoldable pub word_bytes : List ℕ → Bytes
word_bytes [] = []
word_bytes (w ∷ words) = big_endian 2 w ++ word_bytes words

-- the words of burst pairs
unfoldable pub pair_words : List Pair → List ℕ
pair_words [] = []
pair_words (pair ∷ pairs) = pair.pulse ∷ pair.gap ∷ pair_words pairs

-- A raw command: four words, the pairs of the intro and those of the repeat, in units of the period.
pub record RawCommand : Type 0 where
  pub ticks : ℕ
  pub intro : List Pair
  pub repeat : List Pair

abbrev pub command_words : RawCommand → List ℕ
command_words c =
    0 ∷ c.ticks ∷ length c.intro ∷ length c.repeat ∷ (pair_words c.intro ++ pair_words c.repeat)

abbrev pub WordFits : ℕ → Type 0
WordFits w = w < 2 ^ 16

-- Hexadecimal digits are digits, and neither white space nor a colon.
is_hex-hex_digit : (n : ℕ) → n < 16 → is_hex (hex_digit n) ≡ true
unfolding is_hex
is_hex-hex_digit n h = rw (hex_value-hex_digit n h)

digit_not_whitespace : (n : ℕ) → n < 16 → is_whitespace (hex_digit n) ≡ false
unfolding hex_digit is_whitespace
digit_not_whitespace n h = ground arith

digit_not_colon : (n : ℕ) → n < 16 → (hex_digit n == b':') ≡ false
unfolding hex_digit
digit_not_colon n h = ground arith

count_groups-words :
    (w : ℕ) (words : List ℕ)
    → count_groups (to_hex (word_bytes (w ∷ words))) ≡ some (length (w ∷ words))
unfolding count_groups to_hex word_bytes big_endian
count_groups-words w [] = rw (
  is_hex-hex_digit (w / 256 % 256 / 16) (omega arith),
  is_hex-hex_digit (w / 256 % 256 % 16) (omega arith),
  is_hex-hex_digit (w % 256 / 16) (omega arith),
  is_hex-hex_digit (w % 256 % 16) (omega arith),
)
count_groups-words w (v ∷ words) = rw (
  is_hex-hex_digit (w / 256 % 256 / 16) (omega arith),
  is_hex-hex_digit (w / 256 % 256 % 16) (omega arith),
  is_hex-hex_digit (w % 256 / 16) (omega arith),
  is_hex-hex_digit (w % 256 % 16) (omega arith),
  digit_not_whitespace (v / 256 % 256 / 16) (omega arith),
  count_groups-words v words,
)

-- The digits of four words or more are taken for a Pronto command.
pub is_pronto-words :
    (s : String) (u v w x : ℕ) (words : List ℕ)
    → codes s ≡ to_hex (word_bytes (u ∷ v ∷ w ∷ x ∷ words))
    → is_pronto s ≡ true
unfolding is_pronto
is_pronto-words s u v w x words h = rw (h, count_groups-words u (v ∷ w ∷ x ∷ words)) (ground arith)

has_char_code : (k : ℕ) (s : String) → All (λ c. (c == k) ≡ false) (codes s) → has_char k s ≡ false
unfolding has_char
has_char_code k String.[] h = refl
has_char_code k (String.◌∷◌ c s) (h, hs) = rw (h, has_char_code k s hs)

to_hex-All :
    (P : ℕ → Type 0) (bytes : Bytes)
    → ((n : ℕ) → n < 16 → P (hex_digit n))
    → All (λ n. n < 256) bytes
    → All P (to_hex bytes)
unfolding to_hex
to_hex-All P [] h hs = tt
to_hex-All P (c ∷ bytes) h (k, ks) =
    (h (c / 16) (omega arith), (h (c % 16) (omega arith), to_hex-All P bytes h ks))

pub word_bytes-All : (words : List ℕ) → All (λ n. n < 256) (word_bytes words)
unfolding word_bytes big_endian
word_bytes-All [] = tt
word_bytes-All (w ∷ words) = (omega arith, (omega arith, word_bytes-All words))

-- A command in digits has no colon in it, and its bytes are read back.
pub has_char-words :
    (s : String) (words : List ℕ) → codes s ≡ to_hex (word_bytes words) → has_char b':' s ≡ false
has_char-words s words h = has_char_code b':' s (
    subst (All (λ c. (c == b':') ≡ false)) (sym h)
      (to_hex-All _ (word_bytes words) digit_not_colon (word_bytes-All words)))

pub from_hex-words :
    (s : String) (words : List ℕ)
    → codes s ≡ to_hex (word_bytes words)
    → from_hex s ≡ ok (word_bytes words)
unfolding from_hex
from_hex-words s words h = rw h (read_hex-to_hex (word_bytes words) (word_bytes-All words))

-- A burst pair in microseconds.
abbrev pub timed : IrBackend → ℕ → Pair → Pair
timed b ticks pair = record {
  pulse = b.pulse_time ticks pair.pulse;
  gap = b.pulse_time ticks pair.gap;
}

module _ (b : IrBackend) (laws : IrLaws b) where
  pub read_word-word_bytes :
      (w : ℕ) (words : List ℕ) (rest : Bytes)
      → w < 2 ^ 16
      → read_word b (word_bytes (w ∷ words) ++ rest) ≡ ok (w, word_bytes words ++ rest)
  unfolding read_word word_bytes
  read_word-word_bytes w words rest h = rw (
    append_assoc (big_endian 2 w) (word_bytes words) rest,
    read-append 2 (big_endian 2 w) (word_bytes words ++ rest) (length-big_endian 2 w),
    laws.parse_int16ub_lem w h,
  )

  pub read_pairs-words :
      (ticks : ℕ) (pairs : List Pair) (words : List ℕ) (rest : Bytes)
      → All WordFits (pair_words pairs)
      → read_pairs b ticks (length pairs) (word_bytes (pair_words pairs ++ words) ++ rest)
        ≡ ok (map (timed b ticks) pairs, word_bytes words ++ rest)
  unfolding read_pairs read_pair pair_words
  read_pairs-words ticks [] words rest h = refl
  read_pairs-words ticks (pair ∷ pairs) words rest (p, (g, hs)) = rw (
    read_word-word_bytes pair.pulse (pair.gap ∷ (pair_words pairs ++ words)) rest p,
    read_word-word_bytes pair.gap (pair_words pairs ++ words) rest g,
    read_pairs-words ticks pairs words rest hs,
  )
