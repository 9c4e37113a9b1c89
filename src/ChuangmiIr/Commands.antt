-- ===== src/ChuangmiIr/Commands.antt =====
-- The methods of `ChuangmiIr`.
use python_miio.Base.{
  String, Bool, false, ◌||◌, ◌&&◌, not, List, [], ◌∷◌, if◌then◌else◌, str_eq, length, ltb,
}
use python_miio.Base.Int.{ℤ, pos, negsuc}
use python_miio.Base.Split.{split, has_char}
use python_miio.Python.Value.{Value, obj, arr, str, int, field, end, cons, nil}
use python_miio.Python.Result.{Result, ok, err, value_error, ◌>>=◌ as and_then}
use python_miio.Python.Number.{to_int}
use python_miio.Python.Action.{Action, pure, raise, ◌>>=◌}
use python_miio.Device.Transport.{Transport, call, call_with}
use python_miio.Miot.Urn.{show_int}
use python_miio.ChuangmiIr.Backend.{IrBackend}
use python_miio.ChuangmiIr.Signal.{pronto_to_raw}
use python_miio.ChuangmiIr.Texts.{is_pronto}

-- `{"key": str(key)}`
abbrev pub key_params : ℤ → Value
key_params key = obj (field "key" (str (show_int key)) end)

-- `key < 1 or key > 1000000`, negated
abbrev pub is_slot : ℤ → Bool
is_slot (negsuc n) = false
is_slot (pos n) = ltb 0 n && ltb n 1000001

-- the parameters of `miIO.ir_play`
unfoldable pub play_params : String → ℤ → ℤ → Value
play_params command frequency (negsuc n) =
    obj (field "freq" (int frequency) (field "code" (str command) end))
play_params command frequency (pos n) =
    obj
      (field "freq" (int frequency) (field "code" (str command) (field "length" (int (pos n)) end)))

-- `command_type`, the command and the arguments behind it
unfoldable pub parse_command : String → String × String × List String
parse_command command =
    if has_char b':' command
    then parts (split b':' command)
    else (if is_pronto command then "pronto" else "raw", command, [])
  where
    parts : List String → String × String × List String
    parts (command_type ∷ command' ∷ command_args) = (command_type, command', command_args)
    parts _ = ("", "", [])

-- `[t(v) for v, t in zip(command_args, arg_types)]`
unfoldable pub convert_args : List String → Result (List ℤ)
convert_args [] = ok []
convert_args (v ∷ args) =
    and_then (to_int v) (λ n. and_then (convert_args args) (λ rest. ok (n ∷ rest)))

abbrev pub args_or_value_error : Result (List ℤ) → Result (List ℤ)
args_or_value_error (ok args) = ok args
args_or_value_error (err e) = err value_error

module _ {S : Type 0} (t : Transport S) where
  -- `learn` and `read`
  unfoldable pub learn : ℤ → Action S Value
  learn key =
      if is_slot key then call_with t "miIO.ir_learn" (key_params key) else raise value_error

  unfoldable pub read : ℤ → Action S Value
  read key = if is_slot key then call_with t "miIO.ir_read" (key_params key) else raise value_error

  -- `play_raw`
  unfoldable pub play_raw : String → ℤ → ℤ → Action S Value
  unfolding play_params
  play_raw command frequency length' =
      call_with t "miIO.ir_play" (play_params command frequency length')

  -- `set_indicator_led` and `get_indicator_led`
  unfoldable pub set_indicator_led : Bool → Action S Value
  set_indicator_led indicator_led =
      call_with t "set_indicatorLamp" (arr (cons (str (if indicator_led then "on" else "off")) nil))

  unfoldable pub get_indicator_led : Action S Value
  get_indicator_led = call t "get_indicatorLamp"

  -- `play_raw` with as many of its arguments as are given
  unfoldable pub play_raw_with : String → List ℤ → Action S Value
  play_raw_with command [] = play_raw command (pos 38400) (negsuc 0)
  play_raw_with command (frequency ∷ []) = play_raw command frequency (negsuc 0)
  play_raw_with command (frequency ∷ length' ∷ _) = play_raw command frequency length'

  module _ (b : IrBackend) where
    -- `play_pronto`
    unfoldable pub play_pronto : String → ℤ → ℤ → Action S Value
    play_pronto pronto repeats length' =
        pure (pronto_to_raw b pronto repeats) >>= λ (command, frequency).
        play_raw command (pos frequency) length'

    unfoldable pub play_pronto_with : String → List ℤ → Action S Value
    play_pronto_with pronto [] = play_pronto pronto (pos 1) (negsuc 0)
    play_pronto_with pronto (repeats ∷ []) = play_pronto pronto repeats (negsuc 0)
    play_pronto_with pronto (repeats ∷ length' ∷ _) = play_pronto pronto repeats length'

    abbrev pub play_method : String → String → List ℤ → Action S Value
    play_method command_type command args =
        if str_eq command_type "raw"
        then play_raw_with command args
        else play_pronto_with command args

    abbrev pub play_parsed : String × String × List String → Action S Value
    play_parsed (command_type, command, command_args) =
        if ltb 2 (length command_args)
        then raise value_error
        else if not (str_eq command_type "raw" || str_eq command_type "pronto")
        then raise value_error
        else pure (args_or_value_error (convert_args command_args))
          >>= play_method command_type command

    -- `play`
    unfoldable pub play : String → Action S Value
    play command = play_parsed (parse_command command)
