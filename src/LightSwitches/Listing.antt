-- ===== src/LightSwitches/Listing.antt =====
-- The lists of light switches (lightswitch/manager.go): those that are online, and all.
use masc_server.Prelude.{
  ℕ, String, Bool, true, false, Option, none, some, List, [], ◌∷◌, Dict, lookup, nat_key,
}
use masc_server.Errors.{wrap}
use masc_server.Errors.Results.{Result, ok, failed}
use masc_server.LightSwitches.{StoreSwitch, SwitchStore, LightSwitch, SwitchManager}

-- `LightSwitch` of messages/light_switches.go.
pub record ListedSwitch : Type 0 where
  pub id : ℕ
  pub device_id : String
  pub device_name : Option String
  pub provider_id : String
  pub switch_type : String
  pub name : Option String
  pub features : List String
  pub is_online : Bool
  pub last_seen : ℕ
  pub assignments : List ℕ

abbrev switches_of : Dict ℕ LightSwitch → List LightSwitch
switches_of [] = []
switches_of ((id, ls) ∷ rest) = ls ∷ switches_of rest

module _ {L : Type 0} (store : SwitchStore L) where
  -- `OnlineLightSwitches`
  unfoldable pub online_light_switches : SwitchManager L → List LightSwitch
  online_light_switches m = switches_of m.active

  is_active : Option LightSwitch → Bool
  is_active none = false
  is_active (some ls) = true

  -- A light switch has no features, whether it is online or not.
  list_switch : Dict ℕ LightSwitch → StoreSwitch → ListedSwitch
  unfolding is_active
  list_switch active st = record {
    id = st.id;
    device_id = st.device;
    device_name = st.device_name;
    provider_id = st.provider_id;
    switch_type = st.switch_type;
    name = st.name;
    features = [];
    is_online = is_active (lookup st.id active);
    last_seen = st.last_seen;
    assignments = st.assignments;
  }

  list_switches : Dict ℕ LightSwitch → List StoreSwitch → List ListedSwitch
  unfolding list_switch
  list_switches active [] = []
  list_switches active (st ∷ rest) = list_switch active st ∷ list_switches active rest

  listed : SwitchManager L → Result (List StoreSwitch) → Result (List ListedSwitch)
  unfolding list_switches
  listed m (failed e) = failed (wrap e "light switches from store" none)
  listed m (ok stored) = ok (list_switches m.active stored)

  -- `LightSwitches`
  unfoldable pub light_switches : SwitchManager L → Result (List ListedSwitch)
  unfolding listed
  light_switches m = listed m (store.light_switches m.store)
