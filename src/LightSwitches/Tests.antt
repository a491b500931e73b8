-- ===== src/LightSwitches/Tests.antt =====
-- The manager of the light switches with a store for one light switch.
use masc_server.Prelude.{
  ℕ, String, true, ◌≡◌, refl, ap, sym, subst, Option, none, some, List, [], ◌∷◌, arith, ◌==◌, ◌&&◌,
  string_key, nat_key, nat_same_iff, if◌then◌else◌, lookup, insert, delete,
}
use masc_server.Errors.{GoError, cast}
use masc_server.Errors.Results.{Result, Done, ok, failed, ok-injective}
use masc_server.Errors.Generators.{new_resource_not_found_error, new_internal_error}
use masc_server.Messages.Incoming.{MessageLightSwitchOffers}
use masc_server.Acting.Actors.{new_actor, hire, send}
use masc_server.Casting.{Stage}
use masc_server.LightSwitches.{
  StoreSwitch, EditLightSwitch, SwitchStore, SwitchManager, new_manager,
  create_light_switches_from_provider_message, is_not_found,
}
use masc_server.LightSwitches.Calls.{
  accept_light_switch_provider, provider_over, update_in_store, update_active,
  delete_light_switch_by_id,
}
use masc_server.LightSwitches.Calls.Mirror.{SwitchLaws, renewed}
use masc_server.LightSwitches.Calls.Updates.{at, without}
use masc_server.LightSwitches.Calls.Runs.{
  Turn, accepts, over, deletes, updates_store, updates_active, turn, run, Apart, MirroredAfter,
  run-Mirrored,
}
use masc_server.LightSwitches.Calls.Lifetimes.{provider_over-accept}

abbrev Drawer : Type 0
Drawer = Option StoreSwitch

abbrev missing : GoError
missing = new_resource_not_found_error "light switch not found" none

abbrev find : ℕ → Drawer → Option (List ℕ)
find id none = none
find id (some st) = if st.id == id then some st.assignments else none

abbrev search : String → String → Drawer → Result StoreSwitch
search device provider none = failed missing
search device provider (some st) =
    if (st.device == device) && (st.provider_id == provider) then ok st else failed missing

abbrev create : StoreSwitch → Drawer → Drawer × Result StoreSwitch
create given none = (some (record given { id = 7 }), ok (record given { id = 7 }))
create given (some st) = (some st, failed (new_internal_error "no further light switch" none))

abbrev update : ℕ → EditLightSwitch → Drawer → Drawer × Done
update id payload none = (none, failed missing)
update id payload (some st) =
    if st.id == id
    then (some (record st { name = payload.name; assignments = payload.assignments }), ok tt)
    else (some st, failed missing)

abbrev drop : ℕ → Drawer → Drawer × Done
drop id none = (none, failed missing)
drop id (some st) = if st.id == id then (none, ok tt) else (some st, failed missing)

abbrev drawer : SwitchStore Drawer
drawer = record {
  light_switches = λ s. ok [];
  light_switch_by_device_and_provider_id = search;
  update_light_switch_by_id = update;
  delete_light_switch_by_id = drop;
  create_light_switch = create;
  refresh_last_seen_for_light_switch_by_id = λ id s. (s, ok tt);
}

searches_law :
    (device provider : String) (stored : StoreSwitch) (s : Drawer)
    → search device provider s ≡ ok stored
    → find stored.id s ≡ some stored.assignments
searches_law device provider stored none e = cc
searches_law device provider stored (some st) e = ground (arith, nat_same_iff st.id stored.id)

creates_law :
    (given c : StoreSwitch) (s s' : Drawer)
    → create given s ≡ (s', ok c)
    → (c.assignments ≡ given.assignments)
      × (find c.id s ≡ none)
      × ((id : ℕ) → find id s' ≡ (if c.id == id then some given.assignments else find id s))
creates_law given c none s' e =
    let made = ok-injective _ _ (ap (λ (r : Drawer × Result StoreSwitch). r.1) e) in
    let kept = ap (λ (r : Drawer × Result StoreSwitch). r.0) e in
    subst
      (λ (x : StoreSwitch).
        (x.assignments ≡ given.assignments)
        × (find x.id none ≡ none)
        × ((id : ℕ) → find id s' ≡ (if x.id == id then some given.assignments else none)))
      made (refl, refl, λ id. ap (find id) (sym kept))
creates_law given c (some st) s' e = cc

creates_not_law :
    (given : StoreSwitch) (x : GoError) (s s' : Drawer)
    → create given s ≡ (s', failed x)
    → (id : ℕ) → find id s' ≡ find id s
creates_not_law given x none s' e id = cc
creates_not_law given x (some st) s' e id =
    ap (find id) (sym (ap (λ (r : Drawer × Result StoreSwitch). r.0) e))

updates_law :
    (id : ℕ) (payload : EditLightSwitch) (s s' : Drawer)
    → update id payload s ≡ (s', ok tt)
    → (j : ℕ) → find j s' ≡ (if id == j then renewed payload.assignments (find j s) else find j s)
updates_law id payload none s' e j = cc
updates_law id payload (some st) s' e j = ground (arith, nat_same_iff st.id id)

updates_not_law :
    (id : ℕ) (payload : EditLightSwitch) (x : GoError) (s s' : Drawer)
    → update id payload s ≡ (s', failed x)
    → (j : ℕ) → find j s' ≡ find j s
updates_not_law id payload x none s' e j = ap (find j) (sym (ap (λ (r : Drawer × Done). r.0) e))
updates_not_law id payload x (some st) s' e j = ground arith

deletes_law :
    (id : ℕ) (s s' : Drawer)
    → drop id s ≡ (s', ok tt)
    → (j : ℕ) → find j s' ≡ (if id == j then none else find j s)
deletes_law id none s' e j = cc
deletes_law id (some st) s' e j = ground (arith, nat_same_iff st.id id)

deletes_not_law :
    (id : ℕ) (x : GoError) (s s' : Drawer)
    → drop id s ≡ (s', failed x)
    → (j : ℕ) → find j s' ≡ find j s
deletes_not_law id x none s' e j = ap (find j) (sym (ap (λ (r : Drawer × Done). r.0) e))
deletes_not_law id x (some st) s' e j = ground arith

drawer_laws : SwitchLaws drawer find
drawer_laws = record {
  searches = searches_law;
  creates = creates_law;
  creates_not = creates_not_law;
  updates = updates_law;
  updates_not = updates_not_law;
  deletes = deletes_law;
  deletes_not = deletes_not_law;
  refreshes = λ id j s. refl;
}

-- Every actor is hired.
abbrev stage : Stage
stage = record {
  actor = λ id. (hire "switches" (new_actor id "light-switch-provider")).0;
  listed = λ id. true;
}

abbrev draw : String → String
draw provider = "unknown-3"

abbrev offers : MessageLightSwitchOffers
offers = record {
  device_id = "bridge";
  light_switches = record { provider_id = "in-0"; light_switch_type = "hi-lo" } ∷ [];
}

abbrev manager : SwitchManager Drawer
manager = new_manager drawer none stage

abbrev door : EditLightSwitch
door = record { name = some "Door"; assignments = 3 ∷ 4 ∷ [] }

-- While the light switch is updated a deletion is refused, and the end of the provider waits.
abbrev turns : List Turn
turns =
    accepts 1 5 draw "provider" (some offers)
    ∷ updates_store 7 door
    ∷ deletes 7
    ∷ over 1
    ∷ updates_active 0
    ∷ over 1
    ∷ accepts 2 6 draw "provider" (some offers)
    ∷ updates_store 7 door
    ∷ []

turns-Apart : Apart drawer turns (manager, [])
unfolding turn at without accept_light_switch_provider provider_over update_in_store update_active
    delete_light_switch_by_id new_manager send hire new_actor
    create_light_switches_from_provider_message is_not_found cast new_resource_not_found_error
    lookup insert delete
turns-Apart = (tt, (tt, (tt, (tt, (tt, (tt, (tt, (tt, tt))))))))

run-Mirrored_example : MirroredAfter drawer find (run drawer turns (manager, []))
run-Mirrored_example = run-Mirrored drawer find drawer_laws none stage turns turns-Apart

accepted : (accept_light_switch_provider drawer 1 5 draw "provider" (some offers) manager).1 ≡ ok tt
unfolding accept_light_switch_provider new_manager send hire new_actor
    create_light_switches_from_provider_message is_not_found cast new_resource_not_found_error
    lookup
accepted = refl

new_lifetime : lookup 1 manager.waiting ≡ none
unfolding lookup new_manager
new_lifetime = refl

provider_over-accept_example :
    lookup 7
      (provider_over drawer 1
        (accept_light_switch_provider drawer 1 5 draw "provider" (some offers) manager).0).active
    ≡ lookup 7 manager.active
provider_over-accept_example =
    provider_over-accept drawer 1 5 draw "provider" (some offers) manager new_lifetime accepted 7
