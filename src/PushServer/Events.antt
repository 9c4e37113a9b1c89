-- ===== src/PushServer/Events.antt =====
-- The event that a device is asked to push: `EventInfo` of miio/push_server/eventinfo.py, and
-- `calculated_token_enc` and `_construct_event` of miio/push_server/server.py. That a command is too long
-- is only logged.
use Prim.Native.Char.{Char}
use Prim.Native.String.{◌++◌}
use python_miio.Base.{ℕ, zero, suc, String, Option, none, some, [], ◌∷◌, take, ◌/◌, ◌%◌}
use python_miio.Base.Int.{pos}
use python_miio.Base.Decimal.{decimal}
use python_miio.Base.Split.{replace_char}
use python_miio.Python.Value.{Value, str, int, arr, obj, cons, nil, Fields, field, end}
use python_miio.Python.Result.{Result, err, type_error, map_ok, ◌>>=◌ as and_then}
use python_miio.Python.Action.{Action}
use python_miio.Python.Hex.{from_hex}
use python_miio.Protocol.Backend.{Backend, Bytes}
use python_miio.Protocol.Crypt.{encrypt}
use python_miio.PushServer.Registry.{PushDevice}

pub record EventInfo : Type 0 where
  pub event_action : String
  pub extra : String
  pub event : Option String
  pub command_extra : String
  pub trigger_value : Option Value
  pub trigger_token : String
  pub source_sid : Option String
  pub source_model : Option Value

-- What building an event uses of the rest: the backend of the packets, `json.dumps` without white space,
-- `{x}` in a text, `randint` at its bounds, and two properties of a device that may ask it.
pub record EventTools (S : Type 0) : Type 0 where
  pub backend : Backend
  pub dumps : Value → String
  pub show : Value → String
  pub magic_number : ℕ
  pub device_id_of : PushDevice → Action S ℕ
  pub model_of : PushDevice → Action S Value

-- the digit of a number below 16
abbrev pub nth_char : String → ℕ → Char
nth_char String.[] n = "0"
nth_char (String.◌∷◌ c s) zero = c
nth_char (String.◌∷◌ c s) (suc n) = nth_char s n

-- `b.hex()`
unfoldable pub hex_text : Bytes → String
hex_text [] = String.[]
hex_text (n ∷ s) =
    String.◌∷◌ (nth_char "0123456789abcdef" (n / 16))
      (String.◌∷◌ (nth_char "0123456789abcdef" (n % 16)) (hex_text s))

-- `calculated_token_enc`: 32 digits are the first 16 bytes
unfoldable pub calculated_token_enc : Backend → Option String → Result String
calculated_token_enc b none = err type_error
calculated_token_enc b (some token) = and_then (from_hex token) (λ token_bytes.
    map_ok (λ encrypted. hex_text (take 16 encrypted)) (encrypt b token_bytes token_bytes))

-- `FAKE_DEVICE_MODEL`
abbrev server_model : String
server_model = "chuangmi.plug.v3"

abbrev pub or_default : Option String → String → String
or_default none s = s
or_default (some s) default = s

abbrev trigger_value_field : Option Value → Fields
trigger_value_field none = end
trigger_value_field (some v) = field "value" v end

abbrev every_day : Value
every_day = str "0 0 * * 0,1,2,3,4,5,6"

-- `trigger_data`, from the source's sid and model and the key
unfoldable pub trigger_data : EventInfo → String → Value → String → Value
trigger_data info sid source_model key = obj (
    field "did" (str sid) (
      field "extra" (str info.extra) (
        field "key" (str key) (
          field "model" source_model (
            field "src" (str "device") (
              field "timespan" (arr (cons every_day (cons every_day nil))) (
                field "token" (str info.trigger_token)
                  (trigger_value_field info.trigger_value))))))))

-- `target_data`, from the command, the server's id and address, and the encrypted token
unfoldable pub target_data : EventInfo → String → ℕ → Value → String → Value
target_data info command server_id server_ip token_enc = obj (
    field "command" (str command) (
      field "did" (str (decimal server_id)) (
        field "extra" (str info.command_extra) (
          field "id" (int (pos 0)) (
            field "ip" server_ip (
              field "model" (str server_model)
                (field "token" (str token_enc) (field "value" (str "") end))))))))

unfoldable pub event_data : String → ℕ → Value → Value → Value
event_data event_id magic_number trigger target = arr (
    cons
      (arr (
        cons (str event_id) (
          cons
            (arr (
              cons (str "1.0") (
                cons (int (pos magic_number)) (
                  cons (arr (cons (str "0") (cons trigger nil)))
                    (cons (arr (cons target nil)) nil)))))
            nil)))
      nil)

module _ {S : Type 0} (c : EventTools S) (server_id : ℕ) where
  abbrev payload_with : EventInfo → String → Value → String → Value → String → String
  payload_with info sid source_model event_id server_ip token_enc =
      let command =
        server_model ++ ("." ++ (info.event_action ++ (":" ++ replace_char b'.' "_" sid))) in
      let key =
        "event." ++ (c.show source_model ++ ("." ++ or_default info.event info.event_action)) in
      c.dumps (
        event_data event_id c.magic_number (trigger_data info sid source_model key)
          (target_data info command server_id server_ip token_enc))

  abbrev sid_of : Option String → String
  sid_of none = ""
  sid_of (some sid) = sid

  abbrev value_of : Option Value → Value
  value_of none = str ""
  value_of (some v) = v

  -- what `_construct_event` returns, for an `info` that is filled in
  unfoldable pub event_payload : EventInfo → PushDevice → String → Value → Result String
  event_payload info d event_id server_ip =
      map_ok
        (payload_with info (sid_of info.source_sid) (value_of info.source_model) event_id server_ip)
        (calculated_token_enc c.backend d.token)
