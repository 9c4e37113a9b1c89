-- ===== src/Examples/Fixtures.antt =====
-- A token, a device's answer and a client on the way to it.
use python_miio.Base.{true, some, refl, arith, List, [], ◌∷◌, ◌++◌, replicate}
use python_miio.Base.Int.{pos}
use python_miio.Python.Value.{Value, int, str, obj, Fields, end, field}
use python_miio.Python.Result.{Result, ok}
use python_miio.Protocol.Backend.{Bytes, Backend, BackendLaws, Serializes}
use python_miio.Protocol.Concrete.{backend, backend_laws}
use python_miio.Protocol.Payload.{json}
use python_miio.Protocol.Message.{Message}
use python_miio.Client.Network.{Reception}
use python_miio.Client.State.{Client}

abbrev pub token : Bytes
token = replicate 16 7

abbrev pub device_id : Bytes
device_id = 1 ∷ 2 ∷ 3 ∷ 4 ∷ []

abbrev pub answer_fields : Fields
answer_fields = field "id" (int (pos 6)) (field "result" (str "ok") end)

abbrev pub answer : Value
answer = obj answer_fields

-- one text, which reads as the answer
abbrev pub text : Bytes
text = 123 ∷ 125 ∷ []

abbrev pub bytes_of : Value → Bytes
bytes_of v = text

abbrev pub value_of : Bytes → Result Value
value_of s = ok answer

abbrev pub toy : Backend
toy = backend bytes_of value_of

pub toy_laws : BackendLaws toy
toy_laws = backend_laws bytes_of value_of

pub answer-Serializes : Serializes toy answer
unfolding backend
answer-Serializes = record {
  dumps_no_nul = (λ p. omega arith, (λ p. omega arith, tt));
  loads-dumps = refl;
}

-- the answer in a packet, at the time 100
abbrev pub head : Bytes
head = 0x21 ∷ 0x31 ∷ 0 ∷ 48 ∷ 0 ∷ 0 ∷ 0 ∷ 0 ∷ 1 ∷ 2 ∷ 3 ∷ 4 ∷ 0 ∷ 0 ∷ 0 ∷ 100 ∷ []

abbrev pub payload : Bytes
payload = 123 ∷ 125 ∷ 0 ∷ replicate 13 13

abbrev pub packet : Bytes
packet = head ++ (replicate 16 1 ++ payload)

abbrev pub packet_message : Message
packet_message = record {
  payload = json answer;
  header = record { size = 48; unknown = 0; device_id = device_id; ts = 100 };
  checksum = replicate 16 1;
}

-- bytes 16 to 31 are all 2, which is not the digest
abbrev pub forged : Bytes
forged = head ++ (replicate 16 2 ++ payload)

-- a client that has found its device
abbrev pub client : List Reception → Client
client incoming = record {
  ip = some "10.0.0.2";
  token = token;
  lazy_discover = true;
  id = int (pos 5);
  discovered = true;
  device_ts = 100;
  device_id = device_id;
  network = record { incoming = incoming; refusals = []; outgoing = [] };
}
