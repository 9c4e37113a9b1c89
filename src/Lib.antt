-- ===== src/Lib.antt =====
-- python-miio, a library and command line tool that controls Xiaomi devices over the miIO protocol.
--
-- A device class of miio/device.py hands each command to `MiIOProtocol` of miio/miioprotocol.py,
-- which shakes hands with the device, numbers the request, has miio/protocol.py write it into an
-- encrypted packet, sends that over UDP, waits for the answer and has it read by miio/protocol.py
-- again. What a device offers to its users is kept in a collection of descriptors,
-- miio/descriptorcollection.py.
--
-- Base: numbers, lists, texts, and the decimal text of a number. Python: what the program takes
-- from its language. Value has the values of `json.loads` less the floats, Dict has `dict` in
-- insertion order, Result has exceptions as values (miio/exceptions.py), Action has methods that
-- write an object and may raise, Hex has `bytes.fromhex`, Number `int` of a text.
--
-- Protocol, miio/protocol.py. Backend is a record of what the file calls and does not implement:
-- `hashlib.md5`, AES-CBC and PKCS7 of `cryptography`, `json`, and the integers of `construct`;
-- BackendLaws states their documented behaviour, and Concrete has functions that meet it. Crypt is
-- `Utils`, Payload is `EncryptionAdapter` with its list of quirks, Message is the `Message`
-- structure, its length and checksum. A time is a number of seconds since 1970.
--
-- Client, miio/miioprotocol.py. Network has the sockets: what is received and which sends fail are
-- two scripts, so that every behaviour of a network is a value; a packet sent is put on a list.
-- State is the object, Discovery is `discover` and `send_handshake`, Request is `_id` and
-- `_create_request`, Send is `_handle_error` and `send`. The retry counter of `send` and
-- `send_handshake` is the number they recurse on, so neither needs fuel; the loop of `discover`
-- recurses on the script, at whose end there is a timeout. What is only logged (`debug`, the
-- addresses seen by `discover`) is left out.
--
-- Device, miio/device.py and miio/deviceinfo.py, over Transport, an interface with `send` that
-- `MiIOProtocol` fills (`over_client`). Info is `info` and its cache, Properties is
-- `get_properties`, whose loop is on fuel: as many rounds as there are properties are enough for
-- slices that are not empty. Updates is `update` and its states, `configure_wifi` and `device_id`.
--
-- Descriptors, miio/descriptors.py, miio/descriptorcollection.py and their users in miio/device.py.
-- FreeId is `_get_free_id`, with one test more than there are keys as fuel, which is always enough.
-- Collection has what binding makes of a descriptor, over Host, which says what `getattr` finds on
-- the device. Objects is `add_descriptor` and `descriptors_from_object` over a store of descriptor
-- objects: the objects belong to classes, and adding writes them where they are, also where it
-- raises. `add_fresh` of Collection is the same for a descriptor that has just been made and that
-- nothing else holds, as `GenericMiot` makes them; Sharing relates the two. What a `getattr` of Host
-- finds is taken as fixed and as sending nothing; the members that `getmembers` reads of a device may
-- send and raise. Selection is `_initialize_descriptors`, `actions`, `settings`, `sensors`,
-- `call_action` and `change_setting`. Of a descriptor, `type`, `extras` and `inputs` are handed on
-- unread and are left out.
--
-- PushServer, miio/push_server/server.py and miio/push_server/serverprotocol.py. Registry is the
-- registry of devices and their event ids; Python's loop over a list that its body changes is
-- written with the loop's position. `device.send` is a parameter. Events is `EventInfo` and the
-- event that is built of it, Subscribing has `subscribe_event`, `start` and `stop`; `randint` at
-- its bounds and the two properties of a device that may ask it are parameters. Datagrams has the
-- handlers of `ServerProtocol`, which read and write packets with Protocol; callbacks, methods and
-- the clock are parameters.
--
-- Factory, miio/devicefactory.py. Registry has `register` and `class_for_model`, over device classes
-- that are a parameter, Create has `create`.
--
-- Miot, the devices that are described by a schema. Mapping and Device are miio/miot_device.py:
-- which entries of a mapping are requested, and the calls by ids and by name. Urn, Schema, Describe
-- and Service are miio/miot_models.py: what pydantic has parsed is the input of `new_service` and
-- `new_device_model`, and a service is known to its properties by its id and its URN. Generic is
-- `GenericMiot` of miio/integrations/genericmiot, which makes descriptors of a model and adds them
-- to the collection of Descriptors; Generic/Spec says what it should make, Generic/Status is its
-- status.
--
-- Simulator, miio/devtools/simulators. Of miotsimulator.py, Property is the value of a simulated
-- property and its test, State has the handlers of `get_properties` and `set_properties`, Actions
-- the others. View is the map that a client sees. Miio is miiosimulator.py, where a setter knows
-- its property by its place in the list. `random.randint`, the conversions of types and the text of
-- an exception are parameters.
--
-- MiotCloud, miio/miot_cloud.py. Releases has the list of releases, Cache the directory of files
-- with their times, in seconds. The cloud and the parsing by pydantic are parameters, and writing a
-- file does not fail.
--
-- Status, miio/devicestatus.py. Store has the classes and containers, known by numbers, since the
-- dictionaries of descriptors and of embedded containers belong to the class; the loop of `embed`
-- reads the dictionary that it may be writing. `__getattr__` is on fuel: a name loses characters at
-- every container, so that one step more than it has characters is enough. Decorators has `sensor`,
-- `setting` and `action`, Output the text of a status.
--
-- ChuangmiIr, miio/integrations/chuangmi/remote/chuangmi_ir.py. Backend is a record of the integers
-- of `construct`, of `base64` and of the products of floats. Pronto parses a command, Signal has
-- `pronto_to_raw`, where a set is its sorted list, Texts the regular expression, on ASCII
-- characters, Commands the methods. Decoding is a reader of signals, HexCommands has commands as
-- they are written.
--
-- Cooker, miio/integrations/chunmi/cooker/cooker.py. Containers has the octets in hexadecimal
-- digits and what is read of them, Settings the flags in their bits, Commands the methods and
-- Status `CookerStatus`; a number is printed on fuel, where one step more than the number is enough.
--
-- Utils, the packing of colours of miio/utils.py, on numbers that are not negative.
--
-- Examples has the theorems at concrete inputs.
--
-- Not modelled: the devices under miio/integrations but genericmiot, the infrared remote and the
-- rice cooker. Neither are the command line (miio/click_common.py, miio/cli.py) with the texts that
-- are made for it, logging, the cloud's login (miio/cloud.py), miio/discovery.py and
-- miio/updater.py, and the reading of backups in miio/extract_tokens.py, which only call other
-- libraries.
pub mod Base
pub mod Python
pub mod Protocol
pub mod Client
pub mod Device
pub mod Descriptors
pub mod PushServer
pub mod Factory
pub mod Miot
pub mod Utils
pub mod Examples
pub mod Simulator
pub mod MiotCloud
pub mod Status
pub mod ChuangmiIr
pub mod Cooker
