-- ===== src/Examples/Signals.antt =====
-- A remote, with concrete functions for its integers, and a Pronto command that it plays.
use python_miio.Base.{
  ℕ, zero, suc, ◌+◌, ◌*◌, ◌^◌, ◌<◌, ◌≤◌, ◌≡◌, refl, String, List, [], ◌∷◌, some, if◌then◌else◌,
  ◌==◌, ltb, arith, All, length,
}
use python_miio.Base.Int.{ℤ, pos, negsuc}
use python_miio.Base.Text.{codes}
use python_miio.Python.Hex.{to_hex, hex_digit}
use python_miio.Python.Value.{Value, null}
use python_miio.Python.Result.{Result, ok, err, construct_error}
use python_miio.Protocol.Backend.{Bytes, big_endian}
use python_miio.Device.Transport.{Transport}
use python_miio.ChuangmiIr.Backend.{IrBackend, IrLaws, little_endian}
use python_miio.ChuangmiIr.Pronto.{Pair, ProntoData}
use python_miio.ChuangmiIr.Signal.{
  add_time, repeated, times_sorted, pairs_played, add_times, signal_of,
}
use python_miio.ChuangmiIr.Decoding.{read_signal}
use python_miio.ChuangmiIr.Commands.{play, play_raw}
use python_miio.ChuangmiIr.HexCommands.{RawCommand, command_words, pair_words, word_bytes, WordFits}
use python_miio.ChuangmiIr.Playing.{timed_command, play-words}
use python_miio.ChuangmiIr.Converting.{IsConverted, PairFits, signal_of_lem}
use python_miio.ChuangmiIr.Limits.{signal_of-too_many}
use python_miio.Examples.Fixtures.{toy, toy_laws}

abbrev build_word : ℤ → Result Bytes
build_word (negsuc n) = err construct_error
build_word (pos n) = if ltb n (2 ^ 16) then ok (little_endian 2 n) else err construct_error

-- 26 microseconds to a period
unfoldable remote : IrBackend
remote = record {
  parse_int16ub = toy.parse_int16ub;
  build_int16ul = build_word;
  build_int32ul = λ n. if ltb n (2 ^ 32) then ok (little_endian 4 n) else err construct_error;
  build_nibbles =
      λ gap pulse. if ltb gap 16 then ok ((gap * 16 + pulse) ∷ []) else err construct_error;
  b64encode = λ signal. "signal";
  pulse_time = λ ticks n. n * 26;
  frequency = λ ticks. if ticks == 0 then err construct_error else ok 38029;
}

remote_laws : IrLaws remote
unfolding remote
remote_laws = record {
  parse_int16ub_lem = toy_laws.parse_int16ub_lem;
  build_int16ul_fits = λ n h. ground arith;
  build_int16ul_overflow = λ n h. ground arith;
  build_int16ul_negative = λ n. refl;
  build_int32ul_fits = λ n h. ground arith;
  build_nibbles_fits = λ gap pulse g p. ground arith;
  pulse_time_bound = λ ticks n t h. omega arith;
}

abbrev silent : Transport (List Value)
silent = record { send = λ command parameters retries extra s. (ok null, s) }

abbrev burst : RawCommand
burst = record {
  ticks = 109;
  intro = record { pulse = 34; gap = 23 } ∷ record { pulse = 23; gap = 700 } ∷ [];
  repeat = record { pulse = 34; gap = 700 } ∷ [];
}

abbrev burst_text : String
burst_text = "0000006d0002000100220017001702bc002202bc"

burst_in_digits : codes burst_text ≡ to_hex (word_bytes (command_words burst))
unfolding to_hex hex_digit word_bytes big_endian pair_words
burst_in_digits = refl

burst_fits : All WordFits (command_words burst)
unfolding pair_words
burst_fits = ground arith

abbrev burst_data : ProntoData
burst_data = timed_command remote 38029 burst

burst_has_frequency : remote.frequency 109 ≡ ok 38029
unfolding remote
burst_has_frequency = refl

burst_sizes :
    (length (times_sorted burst_data 1) ≤ 16)
    × (0 < length (pairs_played burst_data 1))
    × (length (pairs_played burst_data 1) ≤ 2 ^ 15)
unfolding remote times_sorted pairs_played add_times add_time repeated
burst_sizes = (omega arith, omega arith, omega arith)

play-words_example :
    (signal : Bytes) × (play silent remote burst_text []
      ≡ play_raw silent (remote.b64encode signal) (pos 38029) (negsuc 0) [])
    × (read_signal signal ≡ some (pairs_played burst_data 1))
play-words_example =
    play-words remote remote_laws silent burst_text burst 38029 [] burst_in_digits burst_fits
      burst_has_frequency burst_sizes.0 burst_sizes.1 burst_sizes.2

burst_pairs : All PairFits burst_data.intro × All PairFits burst_data.repeat
unfolding remote
burst_pairs = ground arith

signal_of_lem_example : IsConverted remote burst_data 1 (signal_of remote burst_data 1)
signal_of_lem_example =
    signal_of_lem remote remote_laws burst_data 1 burst_sizes.0 burst_pairs.0 burst_pairs.1
      burst_sizes.1 burst_sizes.2

-- seventeen times
abbrev ramp : ℕ → List Pair
ramp zero = []
ramp (suc n) = record { pulse = n * 2; gap = n * 2 + 1 } ∷ ramp n

abbrev many_times : ProntoData
many_times = record { frequency = 38029; intro = ramp 9; repeat = [] }

too_many : 16 < length (times_sorted many_times 1)
unfolding times_sorted add_times add_time repeated
too_many = omega arith

signal_of-too_many_example : signal_of remote many_times 1 ≡ err construct_error
signal_of-too_many_example = signal_of-too_many remote remote_laws many_times 1 too_many
