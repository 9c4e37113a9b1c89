-- ===== src/PushServer/NewEvents.antt =====
-- What `subscribe_event` of miio/push_server/server.py leaves of the registry.
use python_miio.Base.{
  ℕ, suc, ◌≡◌, refl, sym, ap, subst, ◌⊎◌, inl, inr, String, Bool-cases, Option, none, some, List,
  [], ◌∷◌, ◌++◌,
}
use python_miio.Python.Value.{Value}
use python_miio.Python.Dict.{text_eq, lookup, insert}
use python_miio.Python.Result.{Error, Result, ok, err}
use python_miio.Python.Action.{Action, pure, resume, get, ◌>>=◌}
use python_miio.PushServer.Registry.{
  PushDevice, PushServer, Registration, registration_of, update_ids, is_ok, none_or_lookup,
}
use python_miio.PushServer.Events.{EventInfo, EventTools, event_payload}
use python_miio.PushServer.Subscribing.{
  Subscription, scene_id, text_or_null, data_frame, new_event_id, fill_info, construct_event,
  subscribed, subscribe_registered, when_started, when_registered, subscribe_event, on_server,
  on_devices, unless_set, change_info, asked_sid, with_event, with_sid, with_model,
}

module _ {C S : Type 0} (c : EventTools S) (server_id : ℕ)
    (send : PushDevice → String → Value → Action S Value) (d : PushDevice)
    (before : Subscription C S) where
  abbrev Failed : Result (Option String) → Type 0
  Failed (ok none) = Unit
  Failed (ok (some event_id)) = ⊥
  Failed (err e) = Unit

  abbrev event_id_of_next : String
  event_id_of_next = scene_id (suc before.server.event_id)

  -- The registry and the counter after a call that has subscribed to nothing.
  abbrev pub IsUnsubscribed : Result (Option String) × Subscription C S → Type 0
  IsUnsubscribed out =
      Failed out.0
      × (out.1.server.registered_devices ≡ before.server.registered_devices)
      × ((out.1.server.event_id ≡ before.server.event_id)
          ⊎ (out.1.server.event_id ≡ suc before.server.event_id))

  -- The registry and the counter after a call that has.
  abbrev pub IsSubscribed : Result (Option String) × Subscription C S → Type 0
  IsSubscribed out =
      (ip : String) × (r : Registration C) × (d.ip ≡ some ip)
      × (lookup ip before.server.registered_devices ≡ some r)
      × (out.0 ≡ ok (some event_id_of_next))
      × (out.1.server.registered_devices
          ≡ insert ip (record r { event_ids = r.event_ids ++ event_id_of_next ∷ [] })
              before.server.registered_devices)
      × (out.1.server.event_id ≡ suc before.server.event_id)

  abbrev Ends : Result (Option String) × Subscription C S → Type 0
  Ends out = IsUnsubscribed out ⊎ IsSubscribed out

  -- What holds between the new id and the answer.
  record IsUnderway (s : Subscription C S) : Type 0 where
    same_registry : s.server.registered_devices ≡ before.server.registered_devices
    counted : s.server.event_id ≡ suc before.server.event_id

  record Keeps {A : Type 0} (m : Action (Subscription C S) A) : Type 0 where
    keeps : (s : Subscription C S) → IsUnderway s → IsUnderway (m s).1

  raised : {e : Error} (s : Subscription C S) → IsUnderway s → Ends (err e, s)
  raised s w = inl (tt, w.same_registry, inr w.counted)

  >>=-Keeps :
      {A B : Type 0} (m : Action (Subscription C S) A) (f : A → Action (Subscription C S) B)
      → Keeps m
      → ((a : A) → Keeps (f a))
      → Keeps (m >>= f)
  >>=-Keeps {A} m f first rest = record { keeps = λ s w. after (m s).0 (m s).1 (first.keeps s w) }
    where
      after : (r : Result A) (s : Subscription C S) → IsUnderway s → IsUnderway (resume r f s).1
      after (ok a) s w = (rest a).keeps s w
      after (err e) s w = w

  then-Ends :
      {A : Type 0} (m : Action (Subscription C S) A)
      (f : A → Action (Subscription C S) (Option String)) (s : Subscription C S)
      → Keeps m
      → IsUnderway s
      → ((a : A) (s' : Subscription C S) → IsUnderway s' → Ends (f a s'))
      → Ends ((m >>= f) s)
  then-Ends {A} m f s k w rest = after (m s).0 (m s).1 (k.keeps s w)
    where
      after : (r : Result A) (s' : Subscription C S) → IsUnderway s' → Ends (resume r f s')
      after (ok a) s' w' = rest a s' w'
      after (err e) s' w' = raised s' w'

  on_devices-Keeps :
      {A : Type 0} (m : Action S A)
      → Keeps (on_server c server_id send (on_devices c server_id send m))
  on_devices-Keeps m = record {
    keeps = λ s w. record { same_registry = w.same_registry; counted = w.counted };
  }

  pure-Keeps : {A : Type 0} (r : Result A) → Keeps (pure r)
  pure-Keeps r = record { keeps = λ s w. w }

  get-Keeps : {A : Type 0} (f : Subscription C S → A) → Keeps (get f)
  get-Keeps f = record { keeps = λ s w. w }

  unless_set-Keeps :
      {A : Type 0} (o : Option A) (m : Action S A) → Keeps (unless_set c server_id send o m)
  unless_set-Keeps none m = on_devices-Keeps m
  unless_set-Keeps (some a) m = pure-Keeps (ok a)

  -- a change of the event alone
  change_info-Keeps : (f : EventInfo → EventInfo) → Keeps (change_info c server_id send f)
  change_info-Keeps f = record {
    keeps = λ s w. record { same_registry = w.same_registry; counted = w.counted };
  }

  fill_info-Keeps : Keeps (fill_info c server_id send d)
  unfolding fill_info
  fill_info-Keeps = >>=-Keeps _ _ (change_info-Keeps with_event) (λ done.
      >>=-Keeps _ _ (get-Keeps (λ s. s.info.source_sid)) (λ given_sid.
        >>=-Keeps _ _ (unless_set-Keeps given_sid (asked_sid c d)) (λ sid.
          >>=-Keeps _ _ (change_info-Keeps (with_sid sid)) (λ done'.
            >>=-Keeps _ _ (get-Keeps (λ s. s.info.source_model)) (λ given_model.
              >>=-Keeps _ _ (unless_set-Keeps given_model (c.model_of d))
                (λ source_model. change_info-Keeps (with_model source_model)))))))

  construct_event-Keeps : (event_id : String) → Keeps (construct_event c server_id send d event_id)
  unfolding construct_event
  construct_event-Keeps event_id = >>=-Keeps _ _ fill_info-Keeps (λ done.
      >>=-Keeps _ _ (get-Keeps (λ s. s.info)) (λ info.
        >>=-Keeps _ _ (get-Keeps (λ s. s.server.server_ip))
          (λ ip. pure-Keeps (event_payload c server_id info d event_id (text_or_null ip)))))

  update_ids_found :
      (f : List String → List String) (ip : String) (r : Registration C) (s : PushServer C S)
      → d.ip ≡ some ip
      → lookup ip s.registered_devices ≡ some r
      → update_ids f d s ≡ (
        ok tt,
        record s {
          registered_devices =
              insert ip (record r { event_ids = f r.event_ids }) s.registered_devices;
        },
      )
  unfolding update_ids registration_of
  update_ids_found f ip r s h k = rw (h, k) refl

  subscribed-Ends :
      (ip : String) (r : Registration C) (response : Value) (s : Subscription C S)
      → d.ip ≡ some ip
      → lookup ip before.server.registered_devices ≡ some r
      → IsUnderway s
      → Ends
          (on_server c server_id send (subscribed c server_id send d event_id_of_next response) s)
  unfolding subscribed
  subscribed-Ends ip r response s h k w = elim (Bool-cases (is_ok response)) [
    | inl agreed ↦
        (let there : lookup ip s.server.registered_devices ≡ some r =
            subst (λ m. lookup ip m ≡ some r) (sym w.same_registry) k in
          rw (agreed, update_ids_found (λ ids. ids ++ event_id_of_next ∷ []) ip r s.server h there)
            (inr (
              ip,
              r,
              h,
              k,
              refl,
              ap (insert ip (record r { event_ids = r.event_ids ++ event_id_of_next ∷ [] }))
                  w.same_registry,
              w.counted,
            )))
    | inr refused ↦ rw refused (inl (tt, w.same_registry, inr w.counted))
  ]

  registered-Ends :
      (ip : String) (r : Registration C)
      → d.ip ≡ some ip
      → lookup ip before.server.registered_devices ≡ some r
      → Ends (subscribe_registered c server_id send d before)
  unfolding subscribe_registered new_event_id
  registered-Ends ip r h k =
      then-Ends (construct_event c server_id send d event_id_of_next) _
        (record before { server = record before.server { event_id = suc before.server.event_id } })
        (construct_event-Keeps event_id_of_next) (record { same_registry = refl; counted = refl })
        (λ payload s w.
          then-Ends
            (on_server c server_id send
              (on_devices c server_id send (send d "send_data_frame" (data_frame payload))))
            _ s (on_devices-Keeps (send d "send_data_frame" (data_frame payload))) w
            (λ response s' w'. subscribed-Ends ip r response s' h k w'))

  -- No device without an address is registered.
  found_at :
      (ip : Option String) (r : Registration C)
      → d.ip ≡ ip
      → registration_of d before.server ≡ some r
      → (a : String) × (d.ip ≡ some a) × (lookup a before.server.registered_devices ≡ some r)
  unfolding registration_of
  found_at (some a) r h k =
      (a, h, subst (λ o. none_or_lookup o before.server.registered_devices ≡ some r) h k)
  found_at none r h k =
      let missing : none ≡ some r =
        subst (λ o. none_or_lookup o before.server.registered_devices ≡ some r) h k in
      cc

  started-Ends :
      (server_ip : Option String) (r : Registration C)
      → registration_of d before.server ≡ some r
      → Ends (when_started c server_id send server_ip d before)
  started-Ends none r k = inl (tt, refl, inl refl)
  started-Ends (some a) r k =
      let (ip, h, there) = found_at d.ip r refl k in registered-Ends ip r h there

  subscribe-Ends :
      (o : Option (Registration C))
      → registration_of d before.server ≡ o
      → Ends (when_registered c server_id send o d before)
  subscribe-Ends none k = inl (tt, refl, inl refl)
  subscribe-Ends (some r) k = started-Ends before.server.server_ip r k

-- Subscribing to an event either leaves the registry of devices as it was, and then returns nothing or
-- raises, or the device was registered, the id that is returned is made of the next number, and the
-- registry differs only by this id behind those of the device. The number goes up by one then, and
-- otherwise goes up by one or stays.
pub subscribe_event_lem :
    {C S : Type 0} (c : EventTools S) (server_id : ℕ)
    (send : PushDevice → String → Value → Action S Value) (d : PushDevice) (s : Subscription C S)
    → IsUnsubscribed c server_id send d s (subscribe_event c server_id send d s)
      ⊎ IsSubscribed c server_id send d s (subscribe_event c server_id send d s)
unfolding subscribe_event
subscribe_event_lem c server_id send d s =
    subscribe-Ends c server_id send d s (registration_of d s.server) refl
