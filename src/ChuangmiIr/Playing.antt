-- ===== src/ChuangmiIr/Playing.antt =====
-- `play` of a Pronto command in hexadecimal digits, from the text to the call that the device gets.
use python_miio.Base.{
  ℕ, ◌^◌, ◌<◌, ◌≤◌, ◌≡◌, ap, sym, ◌∙◌, String, List, [], ◌∷◌, ◌++◌, some, map, length, All,
  All-left, All-right, append-nil,
}
use python_miio.Base.Int.{pos, negsuc}
use python_miio.Base.Text.{codes}
use python_miio.Python.Hex.{to_hex}
use python_miio.Python.Result.{ok}
use python_miio.Protocol.Backend.{Bytes}
use python_miio.Device.Transport.{Transport}
use python_miio.ChuangmiIr.Backend.{IrBackend, IrLaws}
use python_miio.ChuangmiIr.Pronto.{Pair, ProntoData, parse_pronto}
use python_miio.ChuangmiIr.Signal.{repeats_of, times_sorted, pairs_played, pronto_to_raw, signal_of}
use python_miio.ChuangmiIr.Decoding.{read_signal}
use python_miio.ChuangmiIr.Converting.{PairFits, signal_of_lem}
use python_miio.ChuangmiIr.Commands.{
  play, play_raw, play_pronto, play_pronto_with, parse_command, convert_args,
}
use python_miio.ChuangmiIr.HexCommands.{
  RawCommand, command_words, pair_words, word_bytes, WordFits, timed, read_word-word_bytes,
  read_pairs-words, is_pronto-words, has_char-words, from_hex-words,
}

-- The command with its times in microseconds.
abbrev pub timed_command : IrBackend → ℕ → RawCommand → ProntoData
timed_command b frequency c = record {
  frequency = frequency;
  intro = map (timed b c.ticks) c.intro;
  repeat = map (timed b c.ticks) c.repeat;
}

module _ (b : IrBackend) (laws : IrLaws b) where
  timed-Fits :
      (ticks : ℕ) (pairs : List Pair)
      → ticks < 2 ^ 16
      → All WordFits (pair_words pairs)
      → All PairFits (map (timed b ticks) pairs)
  unfolding pair_words
  timed-Fits ticks [] h hs = tt
  timed-Fits ticks (pair ∷ pairs) h (p, (g, hs)) = (
    (laws.pulse_time_bound ticks pair.pulse h p, laws.pulse_time_bound ticks pair.gap h g),
    timed-Fits ticks pairs h hs,
  )

  parse_pronto-words :
      (c : RawCommand) (f : ℕ) (rest : Bytes)
      → All WordFits (command_words c)
      → b.frequency c.ticks ≡ ok f
      → parse_pronto b (word_bytes (command_words c) ++ rest) ≡ ok (timed_command b f c)
  unfolding parse_pronto
  parse_pronto-words c f rest (z, (t, (i, (r, hs)))) h =
      let hi = All-left WordFits (pair_words c.intro) (pair_words c.repeat) hs in
      let hr = All-right WordFits (pair_words c.intro) (pair_words c.repeat) hs in
      let last =
        rw (append-nil (pair_words c.repeat)) at
          (read_pairs-words b laws c.ticks c.repeat [] rest hr) in
      rw (
        read_word-word_bytes b laws 0 _ rest z,
        read_word-word_bytes b laws c.ticks _ rest t,
        h,
        read_word-word_bytes b laws (length c.intro) _ rest i,
        read_word-word_bytes b laws (length c.repeat) _ rest r,
        read_pairs-words b laws c.ticks c.intro (pair_words c.repeat) rest hi,
        last,
      )

  pronto_to_raw-words :
      (s : String) (c : RawCommand) (f repeats : ℕ)
      → codes s ≡ to_hex (word_bytes (command_words c))
      → All WordFits (command_words c)
      → b.frequency c.ticks ≡ ok f
      → pronto_to_raw b s (pos repeats)
        ≡ signal_of b (timed_command b f c) (repeats_of (timed_command b f c) repeats)
  unfolding pronto_to_raw
  pronto_to_raw-words s c f repeats text fits h =
      let bytes = word_bytes (command_words c) in
      let parsed : parse_pronto b bytes ≡ ok (timed_command b f c) =
        ap (parse_pronto b) (sym (append-nil bytes)) ∙ parse_pronto-words c f [] fits h in
      rw (from_hex-words s (command_words c) text, parsed)

  -- A text without a colon that is a Pronto command goes to `play_pronto`, to be played once.
  play-pronto_text :
      {S : Type 0} (t : Transport S) (s : String) (c : RawCommand) (state : S)
      → codes s ≡ to_hex (word_bytes (command_words c))
      → play t b s state ≡ play_pronto t b s (pos 1) (negsuc 0) state
  unfolding play play_pronto_with parse_command convert_args
  play-pronto_text t s c state text =
      rw (has_char-words s (command_words c) text, is_pronto-words s _ _ _ _ _ text)

  -- A Pronto command written in hexadecimal digits, with a frequency, at most 16 different times and
  -- between 1 and 2 ^ 15 pairs to play: `play` sends one `miIO.ir_play` with that frequency and a signal,
  -- from which a reader of signals gets the pairs of the command, repeats included, in order.
  pub play-words :
      {S : Type 0} (t : Transport S) (s : String) (c : RawCommand) (f : ℕ) (state : S)
      → codes s ≡ to_hex (word_bytes (command_words c))
      → All WordFits (command_words c)
      → b.frequency c.ticks ≡ ok f
      → let p = timed_command b f c in
        let n = repeats_of p 1 in
        length (times_sorted p n) ≤ 16
        → 0 < length (pairs_played p n)
        → length (pairs_played p n) ≤ 2 ^ 15
        → (signal : Bytes) × (play t b s state
            ≡ play_raw t (b.b64encode signal) (pos f) (negsuc 0) state)
          × (read_signal signal ≡ some (pairs_played p n))
  unfolding play_pronto
  play-words t s c f state text fits h few some_pair short =
      let p = timed_command b f c in
      let (z, (ticks, (i, (r, hs)))) = fits in
      let hi = All-left WordFits (pair_words c.intro) (pair_words c.repeat) hs in
      let hr = All-right WordFits (pair_words c.intro) (pair_words c.repeat) hs in
      let (signal, converts, reads) =
        signal_of_lem b laws p (repeats_of p 1) few (timed-Fits c.ticks c.intro ticks hi)
          (timed-Fits c.ticks c.repeat ticks hr) some_pair short in
      (
        signal,
        play-pronto_text t s c state text ∙ rw (pronto_to_raw-words s c f 1 text fits h, converts),
        reads,
      )
