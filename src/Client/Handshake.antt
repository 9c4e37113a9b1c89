-- ===== src/Client/Handshake.antt =====
-- What `discover` and `send_handshake` do on every outcome.
use python_miio.Base.{ℕ, zero, suc, ◌≡◌, refl, String, Bool, true, false, Option, none, some, arith}
use python_miio.Python.Result.{Error, Result, ok, err, os_error}
use python_miio.Python.Action.{Action}
use python_miio.Python.Action.Raises.{Raises, Raises-bind}
use python_miio.Protocol.Backend.{Bytes, Backend}
use python_miio.Protocol.Message.{Message}
use python_miio.Client.Network.{sendto}
use python_miio.Client.State.{Client}
use python_miio.Client.Discovery.{
  send_hellos, listen_on, discover, after_discover, send_handshake, target,
}

abbrev pub only_os_error : Error → Bool
only_os_error os_error = true
only_os_error _ = false

sendto-Raises : (m : Bytes) (addr : String) → Raises only_os_error (sendto m addr)
unfolding sendto
sendto-Raises m addr = record { at = λ n e h. ground arith }

send_hellos-Raises : (k : ℕ) (addr : String) → Raises only_os_error (send_hellos k addr)
unfolding send_hellos
send_hellos-Raises zero addr = record { at = λ n e h. cc }
send_hellos-Raises (suc k) addr =
    Raises-bind _ _ (sendto-Raises _ addr) (λ _. send_hellos-Raises k addr)

module _ (b : Backend) where
  -- What is read or fails in the loop is no exception of `discover`: only a refused `sendto` is.
  pub discover-Raises : (addr : Option String) → Raises only_os_error (discover b addr)
  unfolding discover listen_on
  discover-Raises addr =
      Raises-bind _ _ (send_hellos-Raises 3 (target addr)) (λ _. record { at = λ n e h. cc })

  after_discover_raise :
      (again : Action Client Message) (r : Result (Option Message)) (c : Client)
      → ((e : Error) → r ≡ err e → only_os_error e ≡ true)
      → after_discover b (some again) r c ≡ after_discover b none r c
  after_discover_raise again (ok m) c h = refl
  after_discover_raise again (err e) c h = ground (arith, h e refl)

  -- However many retries are asked for, `send_handshake` calls `discover` once.
  pub handshake_without_retries : (n : ℕ) (c : Client) → send_handshake b n c ≡ send_handshake b 0 c
  unfolding send_handshake
  handshake_without_retries zero c = refl
  handshake_without_retries (suc n) c =
      after_discover_raise _ (discover b c.ip c.network).0 _ ((discover-Raises c.ip).at c.network)
