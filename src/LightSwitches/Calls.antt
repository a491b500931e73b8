-- ===== src/LightSwitches/Calls.antt =====
-- The calls of the manager of the light switches (lightswitch/manager.go). Registering light switches
-- and removing them holds the manager's lock alone. The creation of offered light switches, an update
-- and a deletion hold it for reading: an update is two steps, a deletion changes the store only, and
-- nothing is taken to come between the creation of light switches and their registration.
pub mod Mirror
pub mod Providers
pub mod Updates
pub mod Runs
pub mod Lifetimes
use masc_server.Prelude.{
  ℕ, suc, String, Bool, true, false, Option, none, some, List, [], ◌∷◌, map, if◌then◌else◌, Dict,
  lookup, insert, delete, string_key, nat_key, ◌==◌,
}
use masc_server.Errors.{
  Code, not_found, Error, GoError, error_code, cast, Details, nil, native, masc, wrap, other,
}
use masc_server.Errors.Results.{Result, Done, ok, failed}
use masc_server.Errors.Generators.{new_internal_error, new_bad_request_err}
use masc_server.Messages.{no_content}
use masc_server.Messages.Incoming.{OfferedLightSwitch, MessageLightSwitchOffers}
use masc_server.Acting.Actors.{send}
use masc_server.Casting.{Stage, put}
use masc_server.LightSwitches.{
  EditLightSwitch, SwitchStore, LightSwitch, SwitchManager, set_assignments, set_name,
  create_light_switches_from_provider_message,
}

module _ {L : Type 0} (store : SwitchStore L) where
  -- A light switch that is registered already ends the loop.
  unless_registered :
      ℕ
      → Option LightSwitch
      → Dict ℕ LightSwitch
      → Dict ℕ LightSwitch × Done
      → Dict ℕ LightSwitch × Done
  unless_registered id none active rest = rest
  unless_registered id (some _) active rest = (
    active,
    failed (
        new_internal_error "light switch already registered"
          (some (("light_switch_id", other id) ∷ []))),
  )

  -- The loop of `AcceptLightSwitchProvider` that registers the light switches. Those before one that is
  -- registered already stay registered.
  pub register_each : List LightSwitch → Dict ℕ LightSwitch → Dict ℕ LightSwitch × Done
  unfolding unless_registered
  register_each [] active = (active, ok tt)
  register_each (ls ∷ rest) active =
      unless_registered ls.id (lookup ls.id active) active
        (register_each rest (insert ls.id ls active))

  ids_of : List LightSwitch → List ℕ
  ids_of = map (λ ls. ls.id)

  -- The goroutine that waits for the end of the provider is started if all are registered.
  once_registered :
      ℕ → List LightSwitch → Dict ℕ LightSwitch × Done → SwitchManager L → SwitchManager L × Done
  unfolding ids_of
  once_registered lifetime switches (active, failed e) m = (record m { active = active }, failed e)
  once_registered lifetime switches (active, ok _) m =
      (record m { active = active; waiting = insert lifetime (ids_of switches) m.waiting }, ok tt)

  register : ℕ → L × Result (List LightSwitch) → SwitchManager L → SwitchManager L × Done
  unfolding register_each once_registered
  register lifetime (s, failed e) m = (
    record m { store = s },
    failed (
        wrap e "add light switches from provider message"
          (some (("message_offers", other 0) ∷ []))),
  )
  register lifetime (s, ok switches) m =
      once_registered lifetime switches (register_each switches m.active) (record m { store = s })

  -- What follows the request for light switches; `none` is the end of the provider before an offer.
  once_offered :
      ℕ
      → ℕ
      → (String → String)
      → Option MessageLightSwitchOffers
      → SwitchManager L
      → SwitchManager L × Done
  unfolding register
  once_offered lifetime now random none m = (m, ok tt)
  once_offered lifetime now random (some offers) m =
      register lifetime
        (create_light_switches_from_provider_message store now random offers.device_id
          offers.light_switches m.store)
        m

  once_sent : GoError → SwitchManager L → SwitchManager L × Done → SwitchManager L × Done
  once_sent nil m next = next
  once_sent (native s) m next =
      (m, failed (wrap (native s) "request light switches from provider" none))
  once_sent (masc e) m next =
      (m, failed (wrap (masc e) "request light switches from provider" none))

  -- `AcceptLightSwitchProvider` for the actor with the id, whose lifetime has a number of its own, given
  -- the offer that its newsletter reads. The newsletter itself is left out.
  unfoldable pub accept_light_switch_provider :
      ℕ
      → ℕ
      → (String → String)
      → String
      → Option MessageLightSwitchOffers
      → SwitchManager L
      → SwitchManager L × Done
  unfolding once_offered once_sent
  accept_light_switch_provider lifetime now random actor offers m =
      let (a, err) =
        send (record { message_type = "get-light-switch-offers"; content = no_content })
          (m.stage.actor actor) in
      let m' : SwitchManager L = record m { stage = put actor a m.stage } in
      once_sent err m' (once_offered lifetime now random offers m')

  pub remove_each : List ℕ → Dict ℕ LightSwitch → Dict ℕ LightSwitch
  remove_each [] active = active
  remove_each (id ∷ ids) active = remove_each ids (delete id active)

  let_go : ℕ → Option (List ℕ) → SwitchManager L → SwitchManager L
  unfolding remove_each
  let_go lifetime none m = m
  let_go lifetime (some ids) m = record m {
    active = remove_each ids m.active;
    waiting = delete lifetime m.waiting;
  }

  -- The goroutine that waits for the end of a provider, when it ends.
  unfoldable pub provider_over : ℕ → SwitchManager L → SwitchManager L
  unfolding let_go
  provider_over lifetime m = let_go lifetime (lookup lifetime m.waiting) m

  edited : EditLightSwitch → LightSwitch → LightSwitch
  edited payload ls = set_assignments payload.assignments (set_name payload.name ls)

  edit_active : ℕ → EditLightSwitch → Option LightSwitch → SwitchManager L → SwitchManager L
  unfolding edited
  edit_active id payload none m = m
  edit_active id payload (some ls) m = record m { active = insert id (edited payload ls) m.active }

  once_updated : ℕ → L × Done → SwitchManager L → SwitchManager L × Done
  once_updated id (s, failed e) m = (
    record m { store = s },
    failed (
        wrap e "update light switch by id in store"
          (some (("light_switch_id", other id) ∷ ("payload", other 0) ∷ []))),
  )
  once_updated id (s, ok _) m = (record m { store = s }, ok tt)

  -- The first part of `UpdateLightSwitchByID`, and the second one, which follows where the first has no
  -- error. The call holds the lock for reading only, so that other updates may come in between.
  unfoldable pub update_in_store : ℕ → EditLightSwitch → SwitchManager L → SwitchManager L × Done
  unfolding once_updated
  update_in_store id payload m =
      once_updated id (store.update_light_switch_by_id id payload m.store) m

  unfoldable pub update_active : ℕ → EditLightSwitch → SwitchManager L → SwitchManager L
  unfolding edit_active
  update_active id payload m = edit_active id payload (lookup id m.active) m

  once_deleted : ℕ → L × Done → SwitchManager L → SwitchManager L × Done
  once_deleted id (s, failed e) m = (
    record m { store = s },
    failed (wrap e "delete light switch by id" (some (("light_switch_id", other id) ∷ []))),
  )
  once_deleted id (s, ok _) m = (record m { store = s }, ok tt)

  delete_if_offline : ℕ → Option LightSwitch → SwitchManager L → SwitchManager L × Done
  unfolding once_deleted
  delete_if_offline id (some _) m =
      (m, failed (new_bad_request_err "light switch still online" none))
  delete_if_offline id none m = once_deleted id (store.delete_light_switch_by_id id m.store) m

  -- `DeleteLightSwitchByID`. That the light switch is offline stays so while the lock is held.
  unfoldable pub delete_light_switch_by_id : ℕ → SwitchManager L → SwitchManager L × Done
  unfolding delete_if_offline
  delete_light_switch_by_id id m = delete_if_offline id (lookup id m.active) m
