-- ===== src/Gatekeeping/Hello/Again.antt =====
-- A device is itself again when it comes back (gatekeeping/net.go, `handleHelloFromNewClient`).
use masc_server.Prelude.{
  ℕ, String, Bool, true, false, ◌≡◌, refl, ◌≢◌, ◌∙◌, sym, ap, subst, Option, none, some, List, [],
  ◌∷◌, arith, if◌then◌else◌, string_key, eq_iff, ◌==◌,
}
use masc_server.Errors.Results.{Result, Done, ok, failed, ok-injective}
use masc_server.Gatekeeping.{
  StoreDevice, GatekeeperStore, GateDevice, Unmarshal, Container, MessageHello, find_device,
  create_device, once_described, recognise, claimed, identify, once_refreshed, refreshed, greet,
  open_container, handle_hello_from_new_client,
}
use masc_server.Gatekeeping.Hello.{name_in, DeviceLaws, Fine, find_device-id, handle_hello-Fine}

module _ {D : Type 0} (store : GatekeeperStore D) where
  -- Other hellos, of any clients.
  unfoldable pub hellos : Unmarshal → List (ℕ × String) → D → D
  hellos json [] s = s
  hellos json ((now, raw) ∷ rest) s =
      hellos json rest (handle_hello_from_new_client store json now raw s).0

module _ {D : Type 0} (store : GatekeeperStore D)
    (name_of : String → D → Option (Option String)) where
  module _ (laws : DeviceLaws store name_of) where
    Recognised : String → Option String → D × Result GateDevice → Type 0
    Recognised id n r = (d : GateDevice) → r.1 ≡ ok d → (d.id ≡ id) × (d.name ≡ n)

    once_described-Recognised :
        (now : ℕ) (hello : MessageHello) (k : StoreDevice) (r : D × Done)
        → Recognised k.id k.name (once_described store now hello k r)
    unfolding once_described Recognised
    once_described-Recognised now hello k (s, failed e) d q = cc
    once_described-Recognised now hello k (s, ok u) d q =
        let e = ok-injective _ _ q in
        (ap (λ (x : GateDevice). x.id) (sym e), ap (λ (x : GateDevice). x.name) (sym e))

    recognise-Recognised :
        (now : ℕ) (hello : MessageHello) (id : String) (n : Option String) (o : Option StoreDevice)
        (s : D)
        → name_in o ≡ some n
        → ((k : StoreDevice) → o ≡ some k → k.id ≡ id)
        → Recognised id n (recognise store now hello o s)
    unfolding recognise Recognised
    recognise-Recognised now hello id n none s named own = λ d q. cc
    recognise-Recognised now hello id n (some k) s named own =
        by_test (k.self_description == hello.self_description)
      where
        told : (r : D × Done) → Recognised id n (once_described store now hello k r)
        told r d e =
            let (i, m) = once_described-Recognised now hello k r d e in
            (i ∙ own k refl, m ∙ ground (arith, named))

        by_test :
            (b : Bool)
            → Recognised id n (
                if b
                then once_described store now hello k (s, ok tt)
                else once_described store now hello k
                    (store.set_device_self_description k.id hello.self_description s))
        by_test true = told (s, ok tt)
        by_test false = told (store.set_device_self_description k.id hello.self_description s)

    identify-Recognised :
        (now : ℕ) (hello : MessageHello) (id : String) (n : Option String) (s : D)
        → name_of id s ≡ some n
        → id ≢ ""
        → Recognised id n (identify store now hello id s)
    unfolding identify claimed Recognised
    identify-Recognised now hello id n s known filled = by_test (id == "") refl
      where
        by_list :
            (r : Result (List StoreDevice))
            → store.get_devices s ≡ r
            → Recognised id n (claimed store now hello id r s)
        by_list (failed e) q = λ d r. cc
        by_list (ok ds) q =
            recognise-Recognised now hello id n (find_device id ds) s (laws.lists s ds q id ∙ known)
              (λ k found. find_device-id store name_of laws id ds k found)

        by_test :
            (b : Bool)
            → (id == "") ≡ b
            → Recognised id n (
                if b
                then create_device store now hello s
                else claimed store now hello id (store.get_devices s) s)
        by_test true e = absurd (filled ((eq_iff id "").0 e))
        by_test false e = by_list (store.get_devices s) refl

    refreshed-Recognised :
        (id : String) (n : Option String) (r : D × Result GateDevice)
        → Recognised id n r
        → Recognised id n (refreshed store r)
    unfolding refreshed Recognised
    refreshed-Recognised id n (s, failed e) h = λ d q. cc
    refreshed-Recognised id n (s, ok g) h = after (store.refresh_last_seen_for_device g.id s)
      where
        after : (r : D × Done) → Recognised id n (once_refreshed store g r)
        after (t, failed e) d q = cc
        after (t, ok u) d q = h d q

    handle_hello-Recognised :
        (json : Unmarshal) (now : ℕ) (raw : String) (c : Container) (n : Option String) (s : D)
        → json.container raw ≡ ok c
        → name_of c.device_id s ≡ some n
        → c.device_id ≢ ""
        → Recognised c.device_id n (handle_hello_from_new_client store json now raw s)
    unfolding handle_hello_from_new_client open_container greet Recognised
    handle_hello-Recognised json now raw c n s parses known filled =
        subst (λ r. Recognised c.device_id n (open_container store json now r s)) (sym parses)
          (by_hello (json.hello c.content))
      where
        by_hello :
            (r : Result MessageHello) → Recognised c.device_id n (greet store now c.device_id r s)
        by_hello (failed e) = λ d q. cc
        by_hello (ok hello) =
            refreshed-Recognised c.device_id n (identify store now hello c.device_id s)
              (identify-Recognised now hello c.device_id n s known filled)

    hellos-known :
        (json : Unmarshal) (others : List (ℕ × String)) (s : D) (id : String) (n : Option String)
        → name_of id s ≡ some n
        → name_of id (hellos store json others s) ≡ some n
    unfolding hellos Fine
    hellos-known json [] s id n known = known
    hellos-known json ((now, raw) ∷ rest) s id n known =
        hellos-known json rest _ id n
          ((handle_hello-Fine store name_of laws json now raw s).0 id n known)

    -- Where the store keeps its laws: a client whose hello was answered by an id and a name, and that
    -- says hello with that id again, is given the same id and name, whatever other hellos came between.
    pub hello_again :
        (json : Unmarshal) (now later : ℕ) (message again : String) (s : D) (d d' : GateDevice)
        (c : Container) (others : List (ℕ × String))
        → (handle_hello_from_new_client store json now message s).1 ≡ ok d
        → json.container again ≡ ok c
        → c.device_id ≡ d.id
        → (handle_hello_from_new_client store json later again
            (hellos store json others (handle_hello_from_new_client store json now message s).0)).1
          ≡ ok d'
        → (d'.id ≡ d.id) × (d'.name ≡ d.name)
    unfolding Fine Recognised
    hello_again json now later message again s d d' c others first parses claims second =
        let s1 = (handle_hello_from_new_client store json now message s).0 in
        let (known, filled) = (handle_hello-Fine store name_of laws json now message s).1 d first in
        let still = hellos-known json others s1 d.id d.name known in
        let (i, m) =
          handle_hello-Recognised json later again c d.name (hellos store json others s1) parses
            (rw claims still) (rw claims filled) d' second in
        (i ∙ claims, m)
