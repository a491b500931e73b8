-- ===== src/Gatekeeping/Hello.antt =====
-- The identity of devices (gatekeeping/net.go, `handleHelloFromNewClient`):
-- what a hello leaves in the store.
pub mod Again
use masc_server.Prelude.{
  ℕ, String, Bool, true, false, ◌≡◌, refl, ◌≢◌, ◌∙◌, sym, ap, subst, Option, none, some, List, [],
  ◌∷◌, arith, if◌then◌else◌, string_key, eq_iff, ◌==◌, same_refl, Bool-cases, ◌⊎◌, inl, inr,
}
use masc_server.Errors.{GoError}
use masc_server.Errors.Results.{Result, Done, ok, failed, ok-injective}
use masc_server.Gatekeeping.{
  StoreDevice, GatekeeperStore, GateDevice, Unmarshal, Container, MessageHello, find_device,
  device_with, once_created, create_device, once_described, recognise, claimed, identify,
  once_refreshed, refreshed, greet, open_container, handle_hello_from_new_client,
}

abbrev pub name_in : Option StoreDevice → Option (Option String)
name_in none = none
name_in (some d) = some d.name

-- What the gatekeeper relies on from its store, where `name_of` finds the name of a device.
pub record DeviceLaws {D : Type 0} (store : GatekeeperStore D)
    (name_of : String → D → Option (Option String)) : Type 0 where
  pub lists :
      (s : D) (known : List StoreDevice)
      → store.get_devices s ≡ ok known
      → (id : String) → name_in (find_device id known) ≡ name_of id s
  -- A device is created under an id that is new and not empty.
  pub creates :
      (description : String) (d : StoreDevice) (s s' : D)
      → store.create_new_device description s ≡ (s', ok d)
      → (d.id ≢ "")
        × (name_of d.id s ≡ none)
        × ((id : String) → name_of id s' ≡ (if d.id == id then some d.name else name_of id s))
  pub creates_not :
      (description : String) (e : GoError) (s s' : D)
      → store.create_new_device description s ≡ (s', failed e)
      → (id : String) → name_of id s' ≡ name_of id s
  pub refreshes :
      (id j : String) (s : D) → name_of j (store.refresh_last_seen_for_device id s).0 ≡ name_of j s
  pub describes :
      (id description j : String) (s : D)
      → name_of j (store.set_device_self_description id description s).0 ≡ name_of j s

module _ {D : Type 0} (store : GatekeeperStore D)
    (name_of : String → D → Option (Option String)) where
  abbrev IsKnown : D → GateDevice → Type 0
  IsKnown s d = (name_of d.id s ≡ some d.name) × (d.id ≢ "")

  -- Known devices keep their names, and the device of the result is known.
  pub Fine : D → D × Result GateDevice → Type 0
  Fine s r =
      ((id : String) (n : Option String) → name_of id s ≡ some n → name_of id r.0 ≡ some n)
      × ((d : GateDevice) → r.1 ≡ ok d → IsKnown r.0 d)

  module _ (laws : DeviceLaws store name_of) where
    create_device-Fine :
        (now : ℕ) (hello : MessageHello) (s : D) → Fine s (create_device store now hello s)
    unfolding create_device once_created Fine
    create_device-Fine now hello s = after _ refl
      where
        after :
            (r : D × Result StoreDevice)
            → store.create_new_device hello.self_description s ≡ r
            → Fine s (once_created store now hello r)
        after (s', failed e) q = (λ id n known. laws.creates_not _ e s s' q id ∙ known, λ d r. cc)
        after (s', ok c) q =
            let (filled, new, names) = laws.creates _ c s s' q in
            (
              λ id n known. ground (arith, names id, new, eq_iff c.id id),
              λ d r.
                  subst (IsKnown s') (ok-injective _ _ r)
                    (names c.id ∙ rw (same_refl c.id) refl, filled),
            )

    once_described-Fine :
        (now : ℕ) (hello : MessageHello) (k : StoreDevice) (s : D) (r : D × Done)
        → ((j : String) → name_of j r.0 ≡ name_of j s)
        → name_of k.id s ≡ some k.name
        → k.id ≢ ""
        → Fine s (once_described store now hello k r)
    unfolding once_described Fine
    once_described-Fine now hello k s (s', failed e) same known filled =
        (λ id n q. same id ∙ q, λ d q. cc)
    once_described-Fine now hello k s (s', ok u) same known filled = (
      λ id n q. same id ∙ q,
      λ d q. subst (IsKnown s') (ok-injective _ _ q) (same k.id ∙ known, filled),
    )

    pub find_device-id :
        (id : String) (known : List StoreDevice) (k : StoreDevice)
        → find_device id known ≡ some k
        → k.id ≡ id
    unfolding find_device
    find_device-id id [] k e = cc
    find_device-id id (d ∷ ds) k e = ground (arith, find_device-id id ds k, eq_iff d.id id)

    recognise-Fine :
        (now : ℕ) (hello : MessageHello) (o : Option StoreDevice) (s : D)
        → ((k : StoreDevice) → o ≡ some k → (name_of k.id s ≡ some k.name) × (k.id ≢ ""))
        → Fine s (recognise store now hello o s)
    unfolding recognise
    recognise-Fine now hello none s known = create_device-Fine now hello s
    recognise-Fine now hello (some k) s known =
        elim (Bool-cases (k.self_description == hello.self_description)) [
          | inl e ↦ rw e (
              once_described-Fine now hello k s (s, ok tt) (λ j. refl) (known k refl).0
                (known k refl).1)
          | inr e ↦ rw e (
              once_described-Fine now hello k s
                (store.set_device_self_description k.id hello.self_description s)
                (λ j. laws.describes k.id hello.self_description j s) (known k refl).0
                (known k refl).1)
        ]

    claimed-Fine :
        (now : ℕ) (hello : MessageHello) (id : String) (r : Result (List StoreDevice)) (s : D)
        → store.get_devices s ≡ r
        → id ≢ ""
        → Fine s (claimed store now hello id r s)
    unfolding claimed Fine
    claimed-Fine now hello id (failed e) s q filled = (λ j n known. known, λ d r. cc)
    claimed-Fine now hello id (ok known) s q filled =
        recognise-Fine now hello (find_device id known) s (λ k found.
          let own = find_device-id id known k found in
          (rw own (sym (laws.lists s known q id) ∙ ap name_in found), rw own filled))

    identify-Fine :
        (now : ℕ) (hello : MessageHello) (id : String) (s : D)
        → Fine s (identify store now hello id s)
    unfolding identify
    identify-Fine now hello id s = elim (Bool-cases (id == "")) [
      | inl e ↦ rw e (create_device-Fine now hello s)
      | inr e ↦ rw e (claimed-Fine now hello id _ s refl (λ q. ground (arith, eq_iff id "")))
    ]

    refreshed-Fine : (s : D) (r : D × Result GateDevice) → Fine s r → Fine s (refreshed store r)
    unfolding refreshed Fine
    refreshed-Fine s (s', failed e) h = (h.0, λ d q. cc)
    refreshed-Fine s (s', ok d) h =
        after (store.refresh_last_seen_for_device d.id s') (λ j. laws.refreshes d.id j s')
      where
        after :
            (r : D × Done)
            → ((j : String) → name_of j r.0 ≡ name_of j s')
            → Fine s (once_refreshed store d r)
        after (t, failed e) same = (λ id n known. same id ∙ h.0 id n known, λ x q. cc)
        after (t, ok u) same = (
          λ id n known. same id ∙ h.0 id n known,
          λ x q.
              subst (IsKnown t) (ok-injective _ _ q) (same d.id ∙ (h.1 d refl).0, (h.1 d refl).1),
        )

    pub handle_hello-Fine :
        (json : Unmarshal) (now : ℕ) (raw : String) (s : D)
        → Fine s (handle_hello_from_new_client store json now raw s)
    unfolding handle_hello_from_new_client open_container greet Fine
    handle_hello-Fine json now raw s = by_container (json.container raw)
      where
        by_hello : (id : String) (r : Result MessageHello) → Fine s (greet store now id r s)
        by_hello id (failed e) = (λ j n known. known, λ d q. cc)
        by_hello id (ok hello) =
            refreshed-Fine s (identify store now hello id s) (identify-Fine now hello id s)

        by_container : (r : Result Container) → Fine s (open_container store json now r s)
        by_container (failed e) = (λ j n known. known, λ d q. cc)
        by_container (ok c) = by_hello c.device_id (json.hello c.content)
