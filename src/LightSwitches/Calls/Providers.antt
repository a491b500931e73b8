-- ===== src/LightSwitches/Calls/Providers.antt =====
-- Accepting a provider of light switches, and its end, keep the light switches as they are stored
-- (lightswitch/manager.go).
use masc_server.Prelude.{ℕ, String, ◌≡◌, refl, Option, none, some, List, Dict, lookup, nat_key, All}
use masc_server.Errors.{GoError, nil, native, masc}
use masc_server.Errors.Results.{Result, Done, ok, failed}
use masc_server.Messages.Incoming.{MessageLightSwitchOffers}
use masc_server.LightSwitches.{SwitchStore, LightSwitch, SwitchManager}
use masc_server.LightSwitches.Calls.{
  register_each, once_registered, register, once_offered, once_sent, accept_light_switch_provider,
  let_go, provider_over,
}
use masc_server.LightSwitches.Calls.Mirror.{
  SwitchLaws, Stored, Mirrored, create_all-Fine, Keeps-Mirrored, register_each-Mirrored,
  remove_each-Mirrored,
}

module _ {L : Type 0} (store : SwitchStore L) where
  module _ (find : ℕ → L → Option (List ℕ)) (laws : SwitchLaws store find) where
    abbrev pub Good : SwitchManager L → Type 0
    Good m = Mirrored store find m.store m.active

    register-Good :
        (lifetime : ℕ) (r : L × Result (List LightSwitch)) (m : SwitchManager L)
        → Mirrored store find r.0 m.active
        → ((xs : List LightSwitch) → r.1 ≡ ok xs → All (Stored store find r.0) xs)
        → Good (register store lifetime r m).0
    unfolding register
    register-Good lifetime (s, failed e) m h stored = h
    register-Good lifetime (s, ok switches) m h stored =
        after (register_each store switches m.active)
          (register_each-Mirrored store find switches s m.active (stored switches refl) h)
      where
        after :
            (r : Dict ℕ LightSwitch × Done)
            → Mirrored store find s r.0
            → Good (once_registered store lifetime switches r (record m { store = s })).0
        after (active, failed e) k = k
        after (active, ok u) k = k

    once_offered-Good :
        (lifetime now : ℕ) (random : String → String) (offers : Option MessageLightSwitchOffers)
        (m : SwitchManager L)
        → Good m
        → Good (once_offered store lifetime now random offers m).0
    unfolding once_offered
    once_offered-Good lifetime now random none m h = h
    once_offered-Good lifetime now random (some offers) m h =
        let (keeps, stored) =
          create_all-Fine store find laws now random offers.device_id offers.light_switches
            m.store in
        register-Good lifetime _ m (Keeps-Mirrored store find m.store _ m.active keeps h) stored

    once_sent-Good :
        (err : GoError) (m : SwitchManager L) (next : SwitchManager L × Done)
        → Good m
        → Good next.0
        → Good (once_sent store err m next).0
    unfolding once_sent
    once_sent-Good nil m next h k = k
    once_sent-Good (native s) m next h k = h
    once_sent-Good (masc e) m next h k = h

    pub provider_over-Good :
        (lifetime : ℕ) (m : SwitchManager L) → Good m → Good (provider_over store lifetime m)
    unfolding provider_over let_go
    provider_over-Good lifetime m h = over_with (lookup lifetime m.waiting)
      where
        over_with : (o : Option (List ℕ)) → Good (let_go store lifetime o m)
        over_with none = h
        over_with (some ids) = remove_each-Mirrored store find ids m.store m.active h

    pub accept-Good :
        (lifetime now : ℕ) (random : String → String) (actor : String)
        (offers : Option MessageLightSwitchOffers) (m : SwitchManager L)
        → Good m
        → Good (accept_light_switch_provider store lifetime now random actor offers m).0
    unfolding accept_light_switch_provider
    accept-Good lifetime now random actor offers m h =
        once_sent-Good _ _ _ h (once_offered-Good lifetime now random offers _ h)
