-- ===== src/Client/Retries.antt =====
-- How the retries of `send` are used up: by recoverable errors that a device answers with, and by
-- silence.
use python_miio.Base.{
  ℕ, zero, suc, ◌+◌, ◌≡◌, refl, ◌∙◌, String, false, Option, none, some, [], ◌∷◌, ◌++◌, arith,
}
use python_miio.Base.Int.{ℤ, pos, ◌+ℤ◌}
use python_miio.Python.Value.{Value, Fields, int, as_number}
use python_miio.Python.Result.{Error, ok, err, device_exception, recoverable_error, timeout_error}
use python_miio.Protocol.Backend.{Bytes, Backend}
use python_miio.Client.Network.{Network, sendto, recvfrom}
use python_miio.Client.State.{Client}
use python_miio.Client.Discovery.{
  send_hellos, listen, listen_on, discover, target, helobytes, adopt, send_handshake,
}
use python_miio.Client.Handshake.{handshake_without_retries}
use python_miio.Client.Request.{add_id}
use python_miio.Client.Send.{send, prepare, ensure_discovered, exchange, recover, retry_receive}

module _ (b : Backend) (command : String) (parameters : Option Value) (extra : Option Fields) where
  -- `k` attempts in a row that a device has answered with a recoverable error.
  pub data Recoveries : ℕ → Client → Client → Type 0 where
    done : (c : Client) → Recoveries 0 c c
    again :
        {k : ℕ} (c c₁ c₂ c₃ : Client) (code message : Option Value)
        → prepare b command parameters extra c ≡ (ok tt, c₁)
        → exchange b c₁ ≡ (err (recoverable_error code message), c₂)
        → Recoveries k c₂ c₃
        → Recoveries (suc k) c c₃

  step_again :
      (n : ℕ) (c c₁ c₂ : Client) (code message : Option Value)
      → prepare b command parameters extra c ≡ (ok tt, c₁)
      → exchange b c₁ ≡ (err (recoverable_error code message), c₂)
      → send b (suc n) command parameters extra c ≡ send b n command parameters extra c₂
  unfolding send recover
  step_again n c c₁ c₂ code message p x = rw (p, x)

  step_last :
      (c c₁ c₂ : Client) (code message : Option Value)
      → prepare b command parameters extra c ≡ (ok tt, c₁)
      → exchange b c₁ ≡ (err (recoverable_error code message), c₂)
      → send b 0 command parameters extra c ≡ (err device_exception, c₂)
  unfolding send recover
  step_last c c₁ c₂ code message p x = rw (p, x)

  -- After `k` recoverable errors a command with `k + n` retries goes on from where they left the client
  -- as one with `n` retries.
  pub send_recovers :
      (n : ℕ) {k : ℕ} {c c' : Client}
      → Recoveries k c c'
      → send b (k + n) command parameters extra c ≡ send b n command parameters extra c'
  send_recovers n (done c) = let e : 0 + n ≡ n = omega arith in rw e
  send_recovers n (again {k = k} c c₁ c₂ c₃ code message p x r) =
      let e : suc k + n ≡ suc (k + n) = omega arith in
      rw e (step_again (k + n) c c₁ c₂ code message p x ∙ send_recovers n r)

  -- One recoverable error more than there are retries ends the command in a `DeviceException`.
  pub send_exhausted :
      {k : ℕ} {c c' : Client}
      → Recoveries k c c'
      → (n : ℕ) → k ≡ suc n
      → send b n command parameters extra c ≡ (err device_exception, c')
  send_exhausted (done c) n e = absurd (omega arith)
  send_exhausted (again c c₁ c₂ c₃ code message p x (done c₃')) zero e =
      step_last c c₁ c₃' code message p x
  send_exhausted (again c c₁ c₂ c₃ code message p x (again d d₁ d₂ d₃ code' message' p' x' r)) zero
        e =
      absurd (omega arith)
  send_exhausted (again c c₁ c₂ c₃ code message p x r) (suc n) e =
      step_again n c c₁ c₂ code message p x ∙ send_exhausted r n (omega arith)

-- A network on which nobody answers, and which accepts every packet.
pub record IsSilent (c : Client) : Type 0 where
  pub no_answer : c.network.incoming ≡ []
  pub no_refusal : c.network.refusals ≡ []

-- What a network that accepts every packet holds after `k` hellos.
abbrev pub with_hellos : ℕ → String → Network → Network
with_hellos zero addr n = n
with_hellos (suc k) addr n =
    with_hellos k addr (record n { outgoing = n.outgoing ++ (addr, helobytes) ∷ [] })

sendto_accepted :
    (m : Bytes) (addr : String) (n : Network)
    → n.refusals ≡ []
    → sendto m addr n ≡ (ok tt, record n { outgoing = n.outgoing ++ (addr, m) ∷ [] })
unfolding sendto
sendto_accepted m addr n h = ground arith

send_hellos_accepted :
    (k : ℕ) (addr : String) (n : Network)
    → n.refusals ≡ []
    → send_hellos k addr n ≡ (ok tt, with_hellos k addr n)
unfolding send_hellos
send_hellos_accepted zero addr n h = refl
send_hellos_accepted (suc k) addr n h = rw (
  sendto_accepted helobytes addr n h,
  send_hellos_accepted k addr (record n { outgoing = n.outgoing ++ (addr, helobytes) ∷ [] }) h,
)

discover_silent :
    (b : Backend) (addr : Option String) (n : Network)
    → n.refusals ≡ []
    → n.incoming ≡ []
    → discover b addr n ≡ (ok none, with_hellos 3 (target addr) n)
unfolding discover listen_on listen
discover_silent b addr n h h' = rw (send_hellos_accepted 3 (target addr) n h, h') (ground arith)

module _ (b : Backend) where
  handshake_silent :
      (c : Client)
      → IsSilent c
      → send_handshake b 0 c
        ≡ (err device_exception, record c { network = with_hellos 3 (target c.ip) c.network })
  unfolding send_handshake adopt
  handshake_silent c quiet = rw (discover_silent b c.ip c.network quiet.no_refusal quiet.no_answer)

  prepare_silent :
      (command : String) (parameters : Option Value) (extra : Option Fields) (c : Client)
      → IsSilent c
      → c.discovered ≡ false
      → prepare b command parameters extra c
        ≡ (err device_exception, record c { network = with_hellos 3 (target c.ip) c.network })
  unfolding prepare ensure_discovered
  prepare_silent command parameters extra c quiet new =
      ground (arith, handshake_without_retries b 3 c, handshake_silent c quiet)

  send_prepare_fails :
      (n : ℕ) (command : String) (parameters : Option Value) (extra : Option Fields) (c c₁ : Client)
      (e : Error)
      → prepare b command parameters extra c ≡ (err e, c₁)
      → send b n command parameters extra c ≡ (err e, c₁)
  unfolding send
  send_prepare_fails zero command parameters extra c c₁ e p = rw p
  send_prepare_fails (suc n) command parameters extra c c₁ e p = rw p

  exchange_silent : (c : Client) → c.network.incoming ≡ [] → exchange b c ≡ (err timeout_error, c)
  unfolding exchange recvfrom
  exchange_silent c h = rw h

  -- Where nobody answers, one retry is made whatever their number: once the first packet is on its
  -- way, it waits in vain, moves the id on by 100 and falls back on the handshake, whose failure ends
  -- the command in a `DeviceException` after three hellos.
  pub send_silent :
      (n : ℕ) (command : String) (parameters : Option Value) (extra : Option Fields) (c c₁ : Client)
      (z : ℤ)
      → prepare b command parameters extra c ≡ (ok tt, c₁)
      → IsSilent c₁
      → as_number c₁.id ≡ some z
      → send b (suc n) command parameters extra c ≡ (
        err device_exception,
        record c₁ {
          id = int (z +ℤ pos 100);
          discovered = false;
          network = with_hellos 3 (target c₁.ip) c₁.network;
        },
      )
  unfolding send recover retry_receive add_id
  send_silent n command parameters extra c c₁ z p quiet number =
      let c₂ : Client = record c₁ { id = int (z +ℤ pos 100); discovered = false } in
      rw (p, exchange_silent c₁ quiet.no_answer, number)
        (send_prepare_fails n command parameters extra c₂ _ device_exception (
          prepare_silent command parameters extra c₂
            (record { no_answer = quiet.no_answer; no_refusal = quiet.no_refusal }) refl))
