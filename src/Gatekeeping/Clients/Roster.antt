-- ===== src/Gatekeeping/Clients/Roster.antt =====
-- `GetDevices` lists the store's devices with what the gate knows of them (gatekeeping/net.go).
use masc_server.Prelude.{
  String, true, false, ◌≡◌, refl, ap, none, some, List, [], ◌∷◌, arith, Dict, lookup, insert,
  lookup-insert, string_key, eq_iff, Any, Option-cases, ◌⊎◌, inl, inr,
}
use masc_server.Errors.Results.{ok}
use masc_server.Gatekeeping.{
  StoreDevice, GatekeeperStore, GateDevice, Protected, NetGatekeeper, Unmarshal,
}
use masc_server.Gatekeeping.Clients.{
  ListedDevice, index_online, list_device, list_each, listed, get_devices,
}

-- A client is online with the device.
abbrev pub Online : String → Dict String GateDevice → Type 0
Online id online = Any (λ e. e.1.id ≡ id) online

-- A listed device is the store's, is connected exactly if a client is online with it, and has the
-- roles that such a client said, or none.
abbrev pub ListedAs : Dict String GateDevice → StoreDevice → ListedDevice → Type 0
ListedAs online d l =
    (l.id ≡ d.id)
    × (l.name ≡ d.name)
    × (l.self_description ≡ d.self_description)
    × (l.last_seen ≡ d.last_seen)
    × (((l.is_connected ≡ true) × Any (λ e. (e.1.id ≡ d.id) × (e.1.roles ≡ l.roles)) online)
        ⊎ ((l.is_connected ≡ false) × (l.roles ≡ []) × (¬ Online d.id online)))

abbrev pub AllListed : Dict String GateDevice → List StoreDevice → List ListedDevice → Type 0
AllListed online [] [] = Unit
AllListed online (d ∷ ds) (l ∷ ls) = ListedAs online d l × AllListed online ds ls
AllListed online _ _ = ⊥

module _ {D P : Type 0} (store : GatekeeperStore D) (guarded : Protected P) (json : Unmarshal) where
  index_online_cases :
      (id : String) (online index : Dict String GateDevice)
      → ((g : GateDevice) × (lookup id (index_online store guarded json online index) ≡ some g)
          × (Any (λ e. (e.1.id ≡ id) × (e.1.roles ≡ g.roles)) online ⊎ (lookup id index ≡ some g)))
        ⊎ ((lookup id (index_online store guarded json online index) ≡ none)
            × (¬ Online id online)
            × (lookup id index ≡ none))
  unfolding index_online
  index_online_cases id [] index = elim (Option-cases (lookup id index)) [
    | inl e ↦ inr (e, (λ n. n), e)
    | inr (g, e) ↦ inl (g, e, inr e)
  ]
  index_online_cases id ((c, d) ∷ rest) index =
      elim (index_online_cases id rest (insert d.id d index)) [
        | inl (g, e, inl more) ↦ inl (g, e, inl (inr more))
        | inl (g, e, inr now) ↦ inl (g, e, this g now)
        | inr (e, absent, before) ↦ inr (
          e,
          (λ n. elim n [
            | inl same ↦ ground (arith, lookup-insert d.id id d index, eq_iff d.id id)
            | inr more ↦ absent more
          ]),
          ground (arith, lookup-insert d.id id d index),
        )
      ]
    where
      which :
          (g : GateDevice)
          → lookup id (insert d.id d index) ≡ some g
          → ((d.id ≡ id) × (d ≡ g)) ⊎ (lookup id index ≡ some g)
      which g now = ground (arith, lookup-insert d.id id d index, eq_iff d.id id)

      this :
          (g : GateDevice)
          → lookup id (insert d.id d index) ≡ some g
          → Any (λ e. (e.1.id ≡ id) × (e.1.roles ≡ g.roles)) ((c, d) ∷ rest)
            ⊎ (lookup id index ≡ some g)
      this g now = elim (which g now) [
        | inl (same, e) ↦ inl (inl (same, ap (λ (x : GateDevice). x.roles) e))
        | inr before ↦ inr before
      ]

  list_each-AllListed :
      (online : Dict String GateDevice) (ds : List StoreDevice)
      → AllListed online ds
          (list_each store guarded json ds (index_online store guarded json online []))
  unfolding list_each list_device lookup
  list_each-AllListed online [] = tt
  list_each-AllListed online (d ∷ ds) = (head, list_each-AllListed online ds)
    where
      index : Dict String GateDevice
      index = index_online store guarded json online []

      head : ListedAs online d (list_device store guarded json d (lookup d.id index))
      head = elim (index_online_cases d.id online []) [
        | inl (g, e, inl some_one) ↦ rw e ((refl, refl, refl, refl, inl (refl, some_one)))
        | inl (g, e, inr impossible) ↦ absurd (cc impossible)
        | inr (e, absent, _) ↦ rw e ((refl, refl, refl, refl, inr (refl, refl, absent)))
      ]

  -- Where the store lists its devices, `GetDevices` returns them in that order, each with the store's
  -- id, name, description and time: it is connected exactly if a client is online with its id, and has
  -- then the roles that such a client said; else it has none.
  pub get_devices-AllListed :
      (gk : NetGatekeeper D P) (ds : List StoreDevice)
      → store.get_devices gk.store ≡ ok ds
      → (ls : List ListedDevice) × (get_devices store guarded json gk ≡ ok ls)
        × AllListed gk.online_devices ds ls
  unfolding get_devices listed
  get_devices-AllListed gk ds e = (
    list_each store guarded json ds (index_online store guarded json gk.online_devices []),
    rw e refl,
    list_each-AllListed gk.online_devices ds,
  )
