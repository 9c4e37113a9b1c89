-- ===== src/Cooker/Commands.antt =====
-- The methods of `Cooker` that send a command. What the cooker answers is not looked at.
use python_miio.Base.{ℕ, String, Bool, true, ◌&&◌, ◌||◌, List, [], ◌∷◌, length, ◌==◌, if◌then◌else◌}
use python_miio.Base.Int.{ℤ}
use python_miio.Base.Text.{codes}
use python_miio.Python.Value.{Value, arr, str, null, cons, nil}
use python_miio.Python.Result.{ok, value_error}
use python_miio.Python.Action.{Action, pure, raise, ◌>>=◌}
use python_miio.Device.Transport.{Transport, call_with}
use python_miio.ChuangmiIr.Texts.{is_hex}
use python_miio.Cooker.Containers.{hex_of, octets_text, timeout}

unfoldable pub all_hex : List ℕ → Bool
all_hex [] = true
all_hex (c ∷ s) = is_hex c && all_hex s

-- `_validate_profile`
unfoldable pub validate_profile : String → Bool
validate_profile profile =
    all_hex (codes profile) && (length (codes profile) == 228 || length (codes profile) == 242)

module _ {S : Type 0} (t : Transport S) where
  -- `self.send(command, [parameter])`, whose answer is dropped
  abbrev pub send_one : String → String → Action S Value
  send_one command parameter =
      call_with t command (arr (cons (str parameter) nil)) >>= λ _. pure (ok null)

  -- `start` and `set_menu`
  unfoldable pub start : String → Action S Value
  unfolding validate_profile
  start profile =
      if validate_profile profile then send_one "set_start" profile else raise value_error

  unfoldable pub set_menu : String → Action S Value
  unfolding validate_profile
  set_menu profile =
      if validate_profile profile then send_one "set_menu" profile else raise value_error

  -- `stop`, `stop_outdated_firmware`, `set_no_warnings` and `set_acknowledge`
  abbrev pub stop : Action S Value
  stop = send_one "set_func" "end02"

  abbrev pub stop_outdated_firmware : Action S Value
  stop_outdated_firmware = send_one "set_func" "end"

  abbrev pub set_no_warnings : Action S Value
  set_no_warnings = send_one "set_func" "nowarn"

  abbrev pub set_acknowledge : Action S Value
  set_acknowledge = send_one "set_func" "ack"

  -- `set_interaction`
  unfoldable pub set_interaction : (settings timeouts : List ℤ) → Action S Value
  unfolding octets_text hex_of timeout
  set_interaction settings timeouts = pure (timeout 0 timeouts) >>= λ led_off.
      pure (timeout 1 timeouts) >>= λ lid_open. pure (timeout 2 timeouts) >>= λ lid_open_warning.
      call_with t "set_interaction" (
        arr (
          cons (str (octets_text settings)) (
            cons (str (hex_of led_off))
              (cons (str (hex_of lid_open)) (cons (str (hex_of lid_open_warning)) nil)))))
      >>= λ _. pure (ok null)
