-- ===== src/Client/Bounds.antt =====
-- How many packets a command may cost.
use python_miio.Base.{
  ℕ, zero, suc, ◌+◌, ◌*◌, ◌≤◌, String, Bool, false, Option, none, some, length, length-append,
  arith,
}
use python_miio.Base.Int.{ℤ, pos}
use python_miio.Python.Value.{Value, Fields}
use python_miio.Python.Result.{Error, Result, ok, err}
use python_miio.Python.Action.{Action, modify}
use python_miio.Python.Action.Counts.{Adds, Adds-pure, Adds-weaken, Adds-bind, Adds-try_except}
use python_miio.Protocol.Backend.{Bytes, Backend}
use python_miio.Protocol.Message.{Message, build}
use python_miio.Client.Network.{Network, sendto, recvfrom}
use python_miio.Client.State.{Client, on_network}
use python_miio.Client.Discovery.{
  send_hellos, listen_on, discover, adopt, after_discover, send_handshake, target,
}
use python_miio.Client.Handshake.{handshake_without_retries}
use python_miio.Client.Request.{add_id, next_id, create_request}
use python_miio.Client.Send.{
  send, prepare, ensure_discovered, transmit, transmit_to, not_os_error, exchange, recover,
  retry_receive,
}

-- the packets that have been handed to the network
abbrev pub packets : Client → ℕ
packets c = length c.network.outgoing

abbrev net_packets : Network → ℕ
net_packets n = length n.outgoing

sendto-Adds : (m : Bytes) (addr : String) → Adds net_packets 1 (sendto m addr)
unfolding sendto
sendto-Adds m addr = record { at = λ n. grind (arith, length-append) }

send_hellos-Adds : (k : ℕ) (addr : String) → Adds net_packets k (send_hellos k addr)
unfolding send_hellos
send_hellos-Adds zero addr = record { at = λ n. omega arith }
send_hellos-Adds (suc k) addr =
    Adds-weaken (suc k) _ (Adds-bind _ _ (sendto-Adds _ addr) (λ _. send_hellos-Adds k addr))
      (omega arith)

sendto_from-Adds : (m : Bytes) (addr : String) → Adds packets 1 (on_network (sendto m addr))
sendto_from-Adds m addr = record { at = λ c. (sendto-Adds m addr).at c.network }

transmit_to-Adds : (ip : Option String) (m : Bytes) → Adds packets 1 (transmit_to ip m)
transmit_to-Adds none m = record { at = λ c. omega arith }
transmit_to-Adds (some ip) m =
    Adds-try_except {k = 0} _ _ (sendto_from-Adds m ip) (λ e. Adds-pure (λ _. err (not_os_error e)))

transmit-Adds : (m : Bytes) → Adds packets 1 (transmit m)
unfolding transmit
transmit-Adds m = record { at = λ c. (transmit_to-Adds c.ip m).at c }

recover_last-Adds : (e : Error) → Adds packets 0 (recover none e)
unfolding recover
recover_last-Adds e = record { at = λ c. ground arith }

add_id-Adds : (k : ℤ) → Adds packets 0 (add_id k)
unfolding add_id
add_id-Adds k = record { at = λ c. ground arith }

forget-Adds : Adds packets 0 (modify (λ (c : Client). record c { discovered = false }))
forget-Adds = record { at = λ c. omega arith }

retry_receive-Adds :
    (k : ℕ) (again : Action Client Value)
    → Adds packets k again
    → Adds packets k (retry_receive again)
unfolding retry_receive
retry_receive-Adds k again h =
    Adds-weaken k _ (Adds-bind _ _ (add_id-Adds (pos 100)) λ _. Adds-bind _ _ forget-Adds λ _. h)
      (omega arith)

recover_again-Adds :
    (k : ℕ) (again : Action Client Value) (e : Error)
    → Adds packets k again
    → Adds packets k (recover (some again) e)
unfolding recover
recover_again-Adds k again e h = record {
  at = λ c. ground (arith, h.at c, (retry_receive-Adds k again h).at c);
}

module _ (b : Backend) where
  listen_on-Adds : (broadcast : Bool) → Adds net_packets 0 (listen_on b broadcast)
  unfolding listen_on
  listen_on-Adds broadcast = record { at = λ n. omega arith }

  discover-Adds : (addr : Option String) → Adds net_packets 3 (discover b addr)
  unfolding discover
  discover-Adds addr = Adds-bind _ _ (send_hellos-Adds 3 (target addr)) (λ _. listen_on-Adds _)

  after_discover-le :
      (r : Result (Option Message)) (c : Client) → packets (after_discover b none r c).1 ≤ packets c
  unfolding adopt
  after_discover-le (ok none) c = omega arith
  after_discover-le (ok (some m)) c = omega arith
  after_discover-le (err e) c = omega arith

  first_handshake-Adds : Adds packets 3 (send_handshake b 0)
  unfolding send_handshake
  first_handshake-Adds = record {
    at = λ c. omega (
      arith,
      after_discover-le (discover b c.ip c.network).0
          (record c { network = (discover b c.ip c.network).1 }),
      (discover-Adds c.ip).at c.network,
    );
  }

  send_handshake-Adds : (n : ℕ) → Adds packets 3 (send_handshake b n)
  send_handshake-Adds n = record {
    at = λ c. rw (handshake_without_retries b n c) (first_handshake-Adds.at c);
  }

  ensure_discovered-Adds : Adds packets 3 (ensure_discovered b)
  unfolding ensure_discovered
  ensure_discovered-Adds = record {
    at = λ c. ground (
      arith,
      (Adds-bind _ _ (send_handshake-Adds 3) (λ _. Adds-pure {A = Unit {0}} (λ _. ok tt))).at c,
    );
  }

  create_request-Adds :
      (command : String) (parameters : Option Value) (extra : Option Fields)
      → Adds packets 0 (create_request command parameters extra)
  unfolding create_request next_id
  create_request-Adds command parameters extra = record { at = λ c. ground arith }

  prepare-Adds :
      (command : String) (parameters : Option Value) (extra : Option Fields)
      → Adds packets 4 (prepare b command parameters extra)
  unfolding prepare
  prepare-Adds command parameters extra = Adds-bind _ _ ensure_discovered-Adds λ _.
      Adds-bind _ _ (create_request-Adds command parameters extra) λ request.
        Adds-bind _ _ (Adds-pure (λ c. build b request c.device_id (c.device_ts + 1) c.token))
          λ m. transmit-Adds m

  exchange-Adds : Adds packets 0 (exchange b)
  unfolding exchange recvfrom
  exchange-Adds = record { at = λ c. ground arith }

  send-Adds :
      (n : ℕ) (command : String) (parameters : Option Value) (extra : Option Fields)
      → Adds packets (4 * (n + 1)) (send b n command parameters extra)
  unfolding send
  send-Adds zero command parameters extra =
      Adds-bind _ _ (prepare-Adds command parameters extra)
        λ _. Adds-try_except _ _ exchange-Adds recover_last-Adds
  send-Adds (suc n) command parameters extra =
      Adds-weaken _ _
        (Adds-bind _ _ (prepare-Adds command parameters extra) λ _.
          Adds-try_except _ _ exchange-Adds
            λ e. recover_again-Adds (4 * (n + 1)) _ e (send-Adds n command parameters extra))
        (omega arith)

  -- A command with `n` retries hands at most `4 * (n + 1)` packets to the network, however it ends:
  -- for each attempt three hellos and the command itself.
  pub send_packets :
      (n : ℕ) (command : String) (parameters : Option Value) (extra : Option Fields) (c : Client)
      → packets (send b n command parameters extra c).1 ≤ packets c + 4 * (n + 1)
  send_packets n command parameters extra c = (send-Adds n command parameters extra).at c
