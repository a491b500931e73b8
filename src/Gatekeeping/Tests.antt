-- ===== src/Gatekeeping/Tests.antt =====
-- A gate with one known device, its store in memory, and the agency behind it.
use masc_server.Prelude.{
  String, true, false, ◌≡◌, refl, ◌≢◌, ap, sym, subst, Option, none, some, List, [], ◌∷◌, arith,
  ◌==◌, eq_iff, string_key, if◌then◌else◌,
}
use masc_server.Errors.{GoError, nil}
use masc_server.Errors.Results.{Result, ok, failed, ok-injective}
use masc_server.Errors.Generators.{new_internal_error}
use masc_server.Acting.Agency.{Agency, new_protected_agency, welcome_device, say_goodbye_to_device}
use masc_server.Gatekeeping.{
  StoreDevice, GatekeeperStore, GateDevice, Protected, NetGatekeeper, Unmarshal, new_net_gatekeeper,
  wake_up_and_protect, find_device, handle_hello_from_new_client,
}
use masc_server.Gatekeeping.Clients.{done, raw, ListedDevice, get_devices, accept_client}
use masc_server.Gatekeeping.Clients.Pumps.{arrives, goes, run, IsLive, run-new-IsLive}
use masc_server.Gatekeeping.Clients.Roster.{AllListed, get_devices-AllListed}
use masc_server.Gatekeeping.Hello.{name_in, DeviceLaws}
use masc_server.Gatekeeping.Hello.Again.{hellos, hello_again}

abbrev Shelf : Type 0
Shelf = List StoreDevice

abbrev described : String → String → Shelf → Shelf
described id text [] = []
described id text (d ∷ ds) =
    (if d.id == id then record d { self_description = text } else d) ∷ described id text ds

abbrev phone : String → StoreDevice
phone text = record { id = "phone-1"; name = some "Ada"; self_description = text; last_seen = 0 }

abbrev created : String → Option StoreDevice → Shelf → Shelf × Result StoreDevice
created text none s = (phone text ∷ s, ok (phone text))
created text (some d) s = (s, failed (new_internal_error "no further device" none))

-- A store for one new device, "phone-1".
abbrev shelf : GatekeeperStore Shelf
shelf = record {
  get_devices = λ s. ok s;
  create_new_device = λ text s. created text (find_device "phone-1" s) s;
  refresh_last_seen_for_device = λ id s. (s, ok tt);
  set_device_name = λ id name s. (s, ok tt);
  delete_device = λ id s. (s, ok tt);
  set_device_self_description = λ id text s. (described id text s, ok tt);
}

abbrev name_of : String → Shelf → Option (Option String)
name_of id s = name_in (find_device id s)

name_of-described : (id text j : String) (s : Shelf) → name_of j (described id text s) ≡ name_of j s
unfolding find_device
name_of-described id text j [] = refl
name_of-described id text j (d ∷ ds) = ground (arith, name_of-described id text j ds)

abbrev Filed : StoreDevice → Shelf → Shelf → Type 0
Filed d s s' =
    (d.id ≢ "")
    × (name_of d.id s ≡ none)
    × ((id : String) → name_of id s' ≡ (if d.id == id then some d.name else name_of id s))

phone-Filed :
    (text : String) (s : Shelf)
    → find_device "phone-1" s ≡ none
    → Filed (phone text) s (phone text ∷ s)
unfolding find_device
phone-Filed text s q =
    (λ z. let t : false ≡ true = (eq_iff "phone-1" "").1 z in cc, rw q refl, λ id. ground arith)

created_ok :
    (text : String) (o : Option StoreDevice) (d : StoreDevice) (s s' : Shelf)
    → find_device "phone-1" s ≡ o
    → created text o s ≡ (s', ok d)
    → Filed d s s'
created_ok text none d s s' q e =
    let made = ok-injective _ _ (ap (λ (r : Shelf × Result StoreDevice). r.1) e) in
    let kept = ap (λ (r : Shelf × Result StoreDevice). r.0) e in
    subst (λ (x : StoreDevice). Filed x s s') made
      (subst (λ (t : Shelf). Filed (phone text) s t) kept (phone-Filed text s q))
created_ok text (some k) d s s' q e = cc

created_failed :
    (text : String) (o : Option StoreDevice) (x : GoError) (s s' : Shelf)
    → created text o s ≡ (s', failed x)
    → (id : String) → name_of id s' ≡ name_of id s
created_failed text none x s s' e id = cc
created_failed text (some k) x s s' e id =
    ap (name_of id) (sym (ap (λ (r : Shelf × Result StoreDevice). r.0) e))

shelf_laws : DeviceLaws shelf name_of
shelf_laws = record {
  lists = λ s known e id. ap (name_of id) (sym (ok-injective _ _ e));
  creates = λ text d s s' e. created_ok text (find_device "phone-1" s) d s s' refl e;
  creates_not = λ text x s s' e. created_failed text (find_device "phone-1" s) x s s' e;
  refreshes = λ id j s. refl;
  describes = λ id text j s. name_of-described id text j s;
}

-- Every raw message is a hello of a team base; its text is the id that it claims.
abbrev json : Unmarshal
json = record {
  container = λ raw. ok (record { device_id = raw; content = raw });
  hello = λ raw. ok (record { self_description = raw; roles = "team-base" ∷ [] });
}

abbrev agency : Protected Agency
agency = record {
  welcome_device = λ d a. welcome_device (λ n. "actor") (record { id = d.id; roles = d.roles }) a;
  say_goodbye_to_device = λ id a. ((say_goodbye_to_device id a).0, nil);
}

abbrev gate : NetGatekeeper Shelf Agency
gate = wake_up_and_protect shelf new_protected_agency (new_net_gatekeeper shelf [])

run-new-IsLive_example :
    IsLive shelf agency json
      (run shelf agency json (arrives "c" 1 done ∷ arrives "c" 2 (raw "") ∷ goes "c" ∷ []) gate)
run-new-IsLive_example =
    run-new-IsLive shelf agency json [] new_protected_agency
      (arrives "c" 1 done ∷ arrives "c" 2 (raw "") ∷ goes "c" ∷ [])

abbrev entered : NetGatekeeper Shelf Agency
entered = (accept_client shelf agency json "c" ((1, done) ∷ (2, raw "") ∷ []) gate).0

get_devices-AllListed_example :
    (ls : List ListedDevice) × (get_devices shelf agency json entered ≡ ok ls)
    × AllListed entered.online_devices entered.store ls
get_devices-AllListed_example = get_devices-AllListed shelf agency json entered entered.store refl

abbrev ada : String → GateDevice
ada text = record {
  id = "phone-1";
  name = some "Ada";
  self_description = text;
  is_connected = true;
  last_seen = 4;
  roles = "team-base" ∷ [];
  pumps = 0;
}

first_hello : (handle_hello_from_new_client shelf json 4 "" []).1 ≡ ok (ada "")
unfolding handle_hello_from_new_client find_device
first_hello = refl

second_hello :
    (handle_hello_from_new_client shelf json 4 "phone-1" (
      hellos shelf json
        ((5, "phone-1") ∷ [])
        (handle_hello_from_new_client shelf json 4 "" []).0)).1
    ≡ ok (ada "phone-1")
unfolding handle_hello_from_new_client find_device hellos
second_hello = refl

hello_again_example : ((ada "phone-1").id ≡ (ada "").id) × ((ada "phone-1").name ≡ (ada "").name)
hello_again_example =
    hello_again shelf name_of shelf_laws json 4 4 "" "phone-1" [] (ada "") (ada "phone-1")
      (record { device_id = "phone-1"; content = "phone-1" }) ((5, "phone-1") ∷ []) first_hello refl
      refl second_hello
