-- ===== src/Client/Network.antt =====
-- The sockets that miio/miioprotocol.py opens. What a device answers, and when a call fails, is not
-- the program's doing: it is read from two scripts. A script that has ended means that nobody
-- answers, and that packets are accepted for sending.
use python_miio.Base.{ℕ, String, Bool, true, false, List, [], ◌∷◌, ◌++◌, take}
use python_miio.Python.Result.{ok, err, os_error, timeout_error}
use python_miio.Python.Action.{Action}
use python_miio.Protocol.Backend.{Bytes}

pub data Reception : Type 0 where
  -- the data, and the address that it comes from
  datagram : Bytes → String → Reception
  timed_out failed : Reception

pub record Network : Type 0 where
  pub incoming : List Reception
  -- for each call of `sendto`, whether it raises `OSError`
  pub refusals : List Bool
  pub outgoing : List (String × Bytes)

abbrev deliver : Bytes → String → List Bool → Action Network (Unit {0})
deliver m addr [] n = (ok tt, record n { outgoing = n.outgoing ++ (addr, m) ∷ [] })
deliver m addr (true ∷ rest) n = (err os_error, record n { refusals = rest })
deliver m addr (false ∷ rest) n =
    (ok tt, record n { refusals = rest; outgoing = n.outgoing ++ (addr, m) ∷ [] })

-- `s.sendto(m, (addr, 54321))`
unfoldable pub sendto : Bytes → String → Action Network (Unit {0})
sendto m addr n = deliver m addr n.refusals n

abbrev receive : ℕ → List Reception → Action Network (Bytes × String)
receive size [] n = (err timeout_error, n)
receive size (datagram s addr ∷ rest) n = (ok (take size s, addr), record n { incoming = rest })
receive size (timed_out ∷ rest) n = (err timeout_error, record n { incoming = rest })
receive size (failed ∷ rest) n = (err os_error, record n { incoming = rest })

-- `s.recvfrom(size)`: what is longer than `size` is cut off
unfoldable pub recvfrom : ℕ → Action Network (Bytes × String)
recvfrom size n = receive size n.incoming n
