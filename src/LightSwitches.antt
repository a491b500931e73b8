-- ===== src/LightSwitches.antt =====
-- The manager of the light switches (lightswitch/manager.go and lightswitch/lightswitch.go). What a
-- running light switch does to the fixtures stands in Lighting.
pub mod Calls
pub mod Listing
mod Tests
use masc_server.Prelude.{
  ℕ, suc, String, Bool, true, false, Option, none, some, List, [], ◌∷◌, map, if◌then◌else◌, Dict,
  lookup, insert, delete, string_key, nat_key, ◌==◌,
}
use masc_server.Errors.{
  Code, not_found, Error, GoError, error_code, cast, Details, nil, native, masc, wrap, other,
}
use masc_server.Errors.Results.{Result, Done, ok, failed}
use masc_server.Errors.Generators.{new_internal_error, new_bad_request_err}
use masc_server.Messages.{no_content}
use masc_server.Messages.Incoming.{OfferedLightSwitch, MessageLightSwitchOffers}
use masc_server.Acting.Actors.{send}
use masc_server.Casting.{Stage, put}

-- `stores.LightSwitch` and `stores.EditLightSwitch`
pub record StoreSwitch : Type 0 where
  pub id : ℕ
  pub device : String
  pub device_name : Option String
  pub provider_id : String
  pub name : Option String
  pub switch_type : String
  pub last_seen : ℕ
  pub assignments : List ℕ

pub record EditLightSwitch : Type 0 where
  pub name : Option String
  pub assignments : List ℕ

-- `ManagerStore`, whose state is an `L`; `GetFixtures`, which is only passed on, is left out.
pub record SwitchStore (L : Type 0) : Type 0 where
  pub light_switches : L → Result (List StoreSwitch)
  pub light_switch_by_device_and_provider_id : String → String → L → Result StoreSwitch
  pub update_light_switch_by_id : ℕ → EditLightSwitch → L → L × Done
  pub delete_light_switch_by_id : ℕ → L → L × Done
  pub create_light_switch : StoreSwitch → L → L × Result StoreSwitch
  pub refresh_last_seen_for_light_switch_by_id : ℕ → L → L × Done

-- `lightSwitchHiLo`, the only kind, with its `lightSwitchBase`. The code never sets the ids of the
-- device and of the provider.
pub record LightSwitch : Type 0 where
  pub id : ℕ
  pub name : Option String
  pub device_id : String
  pub provider_id : String
  pub last_seen : ℕ
  pub assignments : List ℕ
  pub is_high : Bool

-- `manager` with its store and the actors. `waiting` holds the goroutines that wait for the end of a
-- provider, each with the light switches that it is to remove; a provider's lifetime has a number.
pub record SwitchManager (L : Type 0) : Type 0 where
  pub store : L
  pub active : Dict ℕ LightSwitch
  pub waiting : Dict ℕ (List ℕ)
  pub stage : Stage

-- `newLightSwitchHiLo`, at a time.
unfoldable pub new_light_switch_hi_lo : ℕ → ℕ → LightSwitch
new_light_switch_hi_lo id now = record {
  id = id;
  name = none;
  device_id = "";
  provider_id = "";
  last_seen = now;
  assignments = [];
  is_high = false;
}

-- `setAssignments` and `setName`. The nil slice is the empty one.
unfoldable pub set_assignments : List ℕ → LightSwitch → LightSwitch
set_assignments assignments ls = record ls { assignments = assignments }

unfoldable pub set_name : Option String → LightSwitch → LightSwitch
set_name name ls = record ls { name = name }

is_code_not_found : Code → Bool
is_code_not_found not_found = true
is_code_not_found _ = false

cast_not_found : Error × Bool → Bool
unfolding is_code_not_found
cast_not_found (e, false) = false
cast_not_found (e, true) = is_code_not_found (error_code e)

-- `e, ok := errors.Cast(err)`, with the test that the error is a missing resource.
unfoldable pub is_not_found : GoError → Bool
unfolding cast_not_found
is_not_found err = cast_not_found (cast err)

module _ {L : Type 0} (store : SwitchStore L) where
  -- `NewManager`
  unfoldable pub new_manager : L → Stage → SwitchManager L
  new_manager s st = record { store = s; active = []; waiting = []; stage = st }

  -- `newLightSwitchByIDAndType`, and then the assignments of the stored light switch.
  instantiate : ℕ → StoreSwitch → Result LightSwitch
  instantiate now stored =
      if stored.switch_type == "hi-lo"
      then ok (set_assignments stored.assignments (new_light_switch_hi_lo stored.id now))
      else failed (
          wrap
            (new_internal_error "unknown light switch type"
              (some (("light_switch_type", other 0) ∷ [])))
            "new light switch by id and type"
            (some (("light_switch_id", other 0) ∷ ("light_switch_type", other 1) ∷ [])))

  once_created : ℕ → L × Result StoreSwitch → L × Result LightSwitch
  unfolding instantiate
  once_created now (s, failed e) = (s, failed (wrap e "create light switch" none))
  once_created now (s, ok stored) = (s, instantiate now stored)

  once_refreshed : ℕ → StoreSwitch → L × Done → L × Result LightSwitch
  unfolding instantiate
  once_refreshed now stored (s, failed e) = (
    s,
    failed (
        wrap e "refresh last seen for light switch"
          (some (("light_switch_id", other stored.id) ∷ []))),
  )
  once_refreshed now stored (s, ok _) = (s, instantiate now stored)

  -- What follows the search for an offered light switch.
  once_searched :
      ℕ → String → String → OfferedLightSwitch → Result StoreSwitch → L → L × Result LightSwitch
  unfolding once_created once_refreshed
  once_searched now drawn device offered (failed e) s =
      let created =
        store.create_light_switch
          (record {
            id = 0;
            device = device;
            device_name = none;
            provider_id = offered.provider_id;
            name = some drawn;
            switch_type = offered.light_switch_type;
            last_seen = now;
            assignments = [];
          })
          s in
      if is_not_found e then once_created now created else (
        s,
        failed (
            wrap e "light switch by device and provider id"
              (some (("device_id", other 0) ∷ ("provider_id", other 1) ∷ []))),
      )
  once_searched now drawn device offered (ok stored) s =
      let refreshed = store.refresh_last_seen_for_light_switch_by_id stored.id s in
      if stored.switch_type == offered.light_switch_type
      then once_refreshed now stored refreshed
      else (
        s,
        failed (
            new_internal_error "light switch type mismatch"
              (some (("type_from_stored", other 0) ∷ ("type_from_offered", other 1) ∷ []))),
      )

  create_one : ℕ → (String → String) → String → OfferedLightSwitch → L → L × Result LightSwitch
  unfolding once_searched
  create_one now random device offered s =
      once_searched now (random offered.provider_id) device offered
        (store.light_switch_by_device_and_provider_id device offered.provider_id s) s

  with_switch : LightSwitch → Result (List LightSwitch) → Result (List LightSwitch)
  with_switch ls (failed e) = failed e
  with_switch ls (ok rest) = ok (ls ∷ rest)

  further : L → Result LightSwitch → L × Result (List LightSwitch) → L × Result (List LightSwitch)
  unfolding with_switch
  further s (failed e) rest = (s, failed e)
  further s (ok ls) (s', rest) = (s', with_switch ls rest)

  -- `createLightSwitchesFromProviderMessage`, at a time. `randomLightSwitchName` draws a name for each
  -- provider id.
  unfoldable pub create_light_switches_from_provider_message :
      ℕ → (String → String) → String → List OfferedLightSwitch → L → L × Result (List LightSwitch)
  unfolding create_one further
  create_light_switches_from_provider_message now random device [] s = (s, ok [])
  create_light_switches_from_provider_message now random device (offered ∷ rest) s =
      let (s', one) = create_one now random device offered s in
      further s' one (create_light_switches_from_provider_message now random device rest s')
