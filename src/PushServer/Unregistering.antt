-- ===== src/PushServer/Unregistering.antt =====
-- What unregistering asks of a device, and what it leaves.
use python_miio.Base.{
  ℕ, zero, suc, ◌≤◌, ◌≡◌, ◌≢◌, refl, sym, ap, subst, ◌∙◌, String, none, some, List, [], ◌∷◌, ◌++◌,
  All, length, length-append, append_assoc, arith, get_elem?, str_eq_iff, str_eq_refl,
}
use python_miio.Python.Value.{Value, arr, cons, nil, str}
use python_miio.Python.Dict.{
  text_eq, lookup, insert, erase, lookup-insert_self, insert-insert_self, erase-insert_self,
  insert_present,
}
use python_miio.Python.Result.{ok}
use python_miio.Python.Action.{Action}
use python_miio.PushServer.Registry.{
  PushDevice, PushServer, Registration, registration_of, is_ok, remove_id, update_ids,
  unsubscribe_event, unsubscribe_from, pop_registration, unregister_miio_device,
}

-- No text is listed twice.
abbrev pub IsDistinct : List String → Type 0
IsDistinct [] = Unit
IsDistinct (x ∷ xs) = All (λ y. y ≢ x) xs × IsDistinct xs

-- every second member, from the first on, and the others
abbrev pub every_other : List String → List String
every_other [] = []
every_other (x ∷ []) = x ∷ []
every_other (x ∷ y ∷ xs) = x ∷ every_other xs

abbrev pub left_over : List String → List String
left_over [] = []
left_over (x ∷ []) = []
left_over (x ∷ y ∷ xs) = y ∷ left_over xs

abbrev pub ok_reply : Value
ok_reply = arr (cons (str "ok") nil)

remove_id-append :
    (x : String) (pre rest : List String)
    → IsDistinct (pre ++ x ∷ rest)
    → remove_id x (pre ++ x ∷ rest) ≡ pre ++ rest
unfolding remove_id
remove_id-append x [] rest h = rw (str_eq_refl x)
remove_id-append x (y ∷ pre) rest (fresh, h) =
    let apart : y ≢ x = λ e. last_of pre fresh (sym e) in
    ground (arith, apart, str_eq_iff y x, remove_id-append x pre rest h)
  where
    last_of : (pre : List String) → All (λ z. z ≢ y) (pre ++ x ∷ rest) → x ≢ y
    last_of [] a = a.0
    last_of (z ∷ pre) a = last_of pre a.1

get_elem?-append :
    (pre rest : List String) → get_elem? (pre ++ rest) (length pre) ≡ get_elem? rest 0
get_elem?-append [] rest = refl
get_elem?-append (x ∷ pre) rest = get_elem?-append pre rest

get_elem?_end : (i : ℕ) (xs : List String) → length xs ≤ i → get_elem? xs i ≡ none
get_elem?_end i [] h = refl
get_elem?_end zero (x ∷ xs) h = absurd (omega arith)
get_elem?_end (suc i) (x ∷ xs) h = get_elem?_end i xs (omega arith)

IsDistinct-remove :
    (x : String) (pre rest : List String) → IsDistinct (pre ++ x ∷ rest) → IsDistinct (pre ++ rest)
IsDistinct-remove x [] rest h = h.1
IsDistinct-remove x (y ∷ pre) rest (fresh, h) = (without pre fresh, IsDistinct-remove x pre rest h)
  where
    without :
        (pre : List String) → All (λ z. z ≢ y) (pre ++ x ∷ rest) → All (λ z. z ≢ y) (pre ++ rest)
    without [] a = a.1
    without (z ∷ pre) a = (a.0, without pre a.1)

-- what a device keeps of the commands for a list of ids
abbrev pub after_all : {S : Type 0} → (S → String → S) → S → List String → S
after_all log w [] = w
after_all log w (x ∷ xs) = after_all log (log w x) xs

-- A device that agrees to forget every event, and keeps of that what `log` says.
abbrev pub Agrees :
    {S : Type 0}
    → (PushDevice → String → Value → Action S Value)
    → PushDevice
    → (S → String → S)
    → Type 0
Agrees {S} send d log =
    (x : String) (w : S) → send d "miIO.xdel" (arr (cons (str x) nil)) w ≡ (ok ok_reply, log w x)

module _ {C S : Type 0} (send : PushDevice → String → Value → Action S Value) (d : PushDevice)
    (log : S → String → S) (agrees : Agrees send d log) (ip : String) (at_ip : d.ip ≡ some ip)
    (s : PushServer C S) (r : Registration C) where
  -- the server once the device has `ids` left, and has kept `w`
  abbrev with_ids : List String → S → PushServer C S
  with_ids ids w = record s {
    registered_devices = insert ip (record r { event_ids = ids }) s.registered_devices;
    devices = w;
  }

  registration_of-with_ids :
      (ids : List String) (w : S)
      → registration_of d (with_ids ids w) ≡ some (record r { event_ids = ids })
  unfolding registration_of
  registration_of-with_ids ids w = rw at_ip (lookup-insert_self ip _ s.registered_devices)

  update_ids-with_ids :
      (f : List String → List String) (ids : List String) (w : S)
      → update_ids f d (with_ids ids w) ≡ (ok tt, with_ids (f ids) w)
  unfolding update_ids
  update_ids-with_ids f ids w = rw (
    registration_of-with_ids ids w,
    at_ip,
    insert-insert_self ip (record r { event_ids = ids }) (record r { event_ids = f ids })
        s.registered_devices,
  )

  unsubscribe_event-with_ids :
      (x : String) (ids : List String) (w : S)
      → unsubscribe_event send d x (with_ids ids w)
        ≡ (ok ok_reply, with_ids (remove_id x ids) (log w x))
  unfolding unsubscribe_event is_ok
  unsubscribe_event-with_ids x ids w =
      rw (agrees x w, update_ids-with_ids (remove_id x) ids (log w x))

  -- A round takes out the id at its position, and moves on.
  unsubscribe_round :
      (fuel : ℕ) (pre rest : List String) (x : String) (w : S)
      → IsDistinct (pre ++ x ∷ rest)
      → unsubscribe_from send (suc fuel) (length pre) d (with_ids (pre ++ x ∷ rest) w)
        ≡ unsubscribe_from send fuel (suc (length pre)) d (with_ids (pre ++ rest) (log w x))
  unfolding unsubscribe_from
  unsubscribe_round fuel pre rest x w h = rw (
    registration_of-with_ids (pre ++ x ∷ rest) w,
    get_elem?-append pre (x ∷ rest),
    unsubscribe_event-with_ids x (pre ++ x ∷ rest) w,
    remove_id-append x pre rest h,
  )

  unsubscribe_from-end :
      (fuel i : ℕ) (ids : List String) (w : S)
      → length ids ≤ i
      → unsubscribe_from send fuel i d (with_ids ids w) ≡ (ok tt, with_ids ids w)
  unfolding unsubscribe_from
  unsubscribe_from-end zero i ids w h = refl
  unsubscribe_from-end (suc fuel) i ids w h =
      rw (registration_of-with_ids ids w, get_elem?_end i ids h)

  -- The loop from the position behind `pre` on.
  unsubscribe_from-with_ids :
      (fuel : ℕ) (pre rest : List String) (w : S)
      → length rest ≤ fuel
      → IsDistinct (pre ++ rest)
      → unsubscribe_from send fuel (length pre) d (with_ids (pre ++ rest) w)
        ≡ (ok tt, with_ids (pre ++ left_over rest) (after_all log w (every_other rest)))
  unsubscribe_from-with_ids fuel pre [] w enough h =
      unsubscribe_from-end fuel (length pre) (pre ++ []) w (omega (arith, length-append pre []))
  unsubscribe_from-with_ids zero pre (x ∷ rest) w enough h = absurd (omega arith)
  unsubscribe_from-with_ids (suc fuel) pre (x ∷ []) w enough h =
      unsubscribe_round fuel pre [] x w h
      ∙ unsubscribe_from-end fuel (suc (length pre)) (pre ++ []) (log w x)
          (omega (arith, length-append pre []))
  unsubscribe_from-with_ids (suc fuel) pre (x ∷ y ∷ rest) w enough h =
      let next : suc (length pre) ≡ length (pre ++ y ∷ []) =
        omega (arith, length-append pre (y ∷ [])) in
      let split : (zs : List String) → pre ++ y ∷ zs ≡ (pre ++ y ∷ []) ++ zs =
        λ zs. sym (append_assoc pre (y ∷ []) zs) in
      unsubscribe_round fuel pre (y ∷ rest) x w h
      ∙ rw (next, split rest, split (left_over rest))
          (unsubscribe_from-with_ids fuel (pre ++ y ∷ []) rest (log w x) (omega arith)
            (subst IsDistinct (split rest) (IsDistinct-remove x pre (y ∷ rest) h)))

  registration_found : lookup ip s.registered_devices ≡ some r → registration_of d s ≡ some r
  unfolding registration_of
  registration_found found = rw (at_ip, found)

  popped :
      (t : PushServer C S)
      → pop_registration send d.ip t
        ≡ (ok tt, record t { registered_devices = erase ip t.registered_devices })
  unfolding pop_registration
  popped t = rw at_ip

  -- A registered device that agrees to forget every event is asked to forget every second one of its
  -- events only, from the first on, the others being skipped; then it is taken out of the registry.
  pub unregister_miio_device_lem :
      lookup ip s.registered_devices ≡ some r
      → IsDistinct r.event_ids
      → unregister_miio_device send d s ≡ (
        ok tt,
        record s {
          registered_devices = erase ip s.registered_devices;
          devices = after_all log s.devices (every_other r.event_ids);
        },
      )
  unfolding unregister_miio_device
  unregister_miio_device_lem found h =
      let same : with_ids r.event_ids s.devices ≡ s =
        ap (λ x. record s { registered_devices = x })
          (insert_present ip r s.registered_devices found) in
      let loop : unsubscribe_from send (length r.event_ids) 0 d s ≡ (
        ok tt,
        with_ids (left_over r.event_ids) (after_all log s.devices (every_other r.event_ids)),
      ) =
        ap (unsubscribe_from send (length r.event_ids) 0 d) (sym same)
        ∙ unsubscribe_from-with_ids (length r.event_ids) [] r.event_ids s.devices (omega arith) h in
      rw (
        registration_found found,
        loop,
        popped
            (with_ids (left_over r.event_ids) (after_all log s.devices (every_other r.event_ids))),
        erase-insert_self ip (record r { event_ids = left_over r.event_ids }) s.registered_devices,
      )
