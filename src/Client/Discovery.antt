-- ===== src/Client/Discovery.antt =====
-- `MiIOProtocol.discover` and `send_handshake`.
use python_miio.Base.{
  ℕ, zero, suc, String, Bool, true, false, Option, none, some, List, [], ◌∷◌, take, if◌then◌else◌,
}
use python_miio.Python.Result.{Error, Result, ok, err, device_exception, is_device_exception}
use python_miio.Python.Action.{Action, pure, raise, ◌>>◌}
use python_miio.Protocol.Backend.{Bytes, Backend}
use python_miio.Protocol.Message.{Message, parse}
use python_miio.Client.Network.{Network, Reception, datagram, timed_out, failed, sendto}
use python_miio.Client.State.{Client, on_network}

-- `helobytes`: the magic, the length 32, and 28 bytes of ones
abbrev pub helobytes : Bytes
helobytes =
    0x21 ∷ 0x31 ∷ 0x00 ∷ 0x20 ∷ 255 ∷ 255 ∷ 255 ∷ 255 ∷ 255 ∷ 255 ∷ 255 ∷ 255 ∷ 255 ∷ 255 ∷ 255
    ∷ 255 ∷ 255 ∷ 255 ∷ 255 ∷ 255 ∷ 255 ∷ 255 ∷ 255 ∷ 255 ∷ 255 ∷ 255 ∷ 255 ∷ 255 ∷ 255 ∷ 255 ∷ 255
    ∷ 255 ∷ []

-- `addr`, and the broadcast address where there is none
abbrev pub target : Option String → String
target none = "<broadcast>"
target (some addr) = addr

abbrev pub is_broadcast : Option String → Bool
is_broadcast none = true
is_broadcast (some addr) = false

-- `for _ in range(n): s.sendto(helobytes, (addr, 54321))`
unfoldable pub send_hellos : ℕ → String → Action Network (Unit {0})
send_hellos zero addr = pure (ok tt)
send_hellos (suc n) addr = do sendto helobytes addr; send_hellos n addr

module _ (b : Backend) where
  -- The `while True` loop over what arrives, with what is left of it. Only a timeout, a failure or,
  -- unless in a broadcast, an answer ends it. The addresses seen so far decide what is logged, and are
  -- left out.
  unfoldable pub listen : Bool → List Reception → Option Message × List Reception
  listen broadcast [] = (none, [])
  listen broadcast (datagram s addr ∷ rest) =
      let go_on = listen broadcast rest in
      elim (parse b (take 1024 s) none) [
        | err _ ↦ (none, rest)
        | ok m ↦ if broadcast then go_on else (some m, rest)
      ]
  listen broadcast (timed_out ∷ rest) = (none, rest)
  listen broadcast (failed ∷ rest) = (none, rest)

  unfoldable pub listen_on : Bool → Action Network (Option Message)
  listen_on broadcast n =
      let (m, rest) = listen broadcast n.incoming in (ok m, record n { incoming = rest })

  unfoldable pub discover : Option String → Action Network (Option Message)
  unfolding send_hellos listen_on
  discover addr = do send_hellos 3 (target addr); listen_on (is_broadcast addr)

  -- The rest of `send_handshake`, from what `discover` has returned.
  unfoldable pub adopt : Option Message → Action Client Message
  adopt none c = (err device_exception, c)
  adopt (some m) c = (
    ok m,
    record c { device_id = m.header.device_id; device_ts = m.header.ts; discovered = true },
  )

  -- The handler of `DeviceException`, with the retry if one is left.
  abbrev pub retry_handshake : Option (Action Client Message) → Error → Action Client Message
  retry_handshake none e = raise e
  retry_handshake (some again) e = if is_device_exception e then again else raise e

  abbrev pub after_discover :
      Option (Action Client Message) → Result (Option Message) → Action Client Message
  after_discover again (ok m) c = adopt m c
  after_discover again (err e) c = retry_handshake again e c

  -- `self.send_handshake(retry_count=n)`. The `try` is around the call of `discover` alone.
  unfoldable pub send_handshake : ℕ → Action Client Message
  send_handshake zero c = let (r, c') = on_network (discover c.ip) c in after_discover none r c'
  send_handshake (suc n) c =
      let (r, c') = on_network (discover c.ip) c in
      after_discover (some (λ c''. send_handshake n c'')) r c'
