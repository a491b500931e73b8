-- ===== src/Lighting/Manager/Calls.antt =====
-- The calls that bring fixtures online and offline, rename, delete and list them (lighting/manager.go).
pub mod Offline
pub mod Mirror
pub mod Runs
pub mod Online
use masc_server.Prelude.{
  ℕ, suc, ◌+◌, String, Bool, true, false, Option, none, some, List, [], ◌∷◌, map, ltb,
  if◌then◌else◌, Dict, lookup, insert, delete, string_key, nat_key, ◌==◌,
}
use masc_server.Errors.{GoError, nil, native, masc, wrap}
use masc_server.Errors.Results.{Result, Done, ok, failed}
use masc_server.Errors.Generators.{new_resource_not_found_error, new_context_aborted_error}
use masc_server.Messages.{OutgoingMessage, no_content}
use masc_server.Messages.Incoming.{OfferedFixture, MessageFixtureOffers}
use masc_server.Acting.Actors.{send}
use masc_server.Casting.{Stage, put}
use masc_server.Lighting.{in_context, toggle_enabled}
use masc_server.Lighting.Fixtures.{
  Fixture, reset, set_actor, set_update_notifier, actor_id, is_online, apply_fixture,
}
use masc_server.Lighting.Manager.{ManagerStore, StoredManager, add_fixtures_from_provider_message}

-- The outcome that an error of Go stands for.
unfoldable pub done_unless : String → GoError → Done
done_unless context nil = ok tt
done_unless context (native s) = failed (wrap (native s) context none)
done_unless context (masc e) = failed (wrap (masc e) context none)

module _ {S : Type 0} (store : ManagerStore S) where
  -- Go's order of what follows a step that may fail.
  abbrev pub and_then : StoredManager S × Done → StoredManager S × Done → StoredManager S × Done
  and_then (m, failed e) next = (m, failed e)
  and_then (m, ok _) next = next

  write_applied : ℕ → StoredManager S → Fixture × Stage × GoError → StoredManager S × Done
  unfolding done_unless
  write_applied id m (f, st, err) = (
    record m { fixtures = insert id f m.fixtures; stage = st },
    done_unless "apply initial state for fixture" err,
  )

  -- The actor of a fixture is set, and its initial state applied.
  start_fixture : String → ℕ → Option Fixture → StoredManager S → StoredManager S × Done
  unfolding write_applied
  start_fixture actor id none m = (m, ok tt)
  start_fixture actor id (some f) m =
      write_applied id m
        (apply_fixture (reset (set_update_notifier (set_actor (some actor) f))) m.stage)

  refreshed : String → S × Done → StoredManager S → StoredManager S × Done
  refreshed context (s, failed e) m = (record m { store = s }, failed (wrap e context none))
  refreshed context (s, ok _) m = (record m { store = s }, ok tt)

  pub refresh : String → ℕ → StoredManager S → StoredManager S × Done
  unfolding refreshed
  refresh context id m = refreshed context (store.refresh_last_seen_for_fixture id m.store) m

  -- One round of the loop of `AcceptFixtureProvider` over the accepted fixtures.
  unfoldable pub bring_online : String → ℕ → StoredManager S → StoredManager S × Done
  unfolding refresh start_fixture
  bring_online actor id m =
      let (m', e) = refresh "set fixture online" id m in
      and_then (m', e) (start_fixture actor id (lookup id m'.fixtures) m')

  unfoldable pub bring_all_online : String → List ℕ → StoredManager S → StoredManager S × Done
  unfolding bring_online
  bring_all_online actor [] m = (m, ok tt)
  bring_all_online actor (id ∷ ids) m =
      let (m', e) = bring_online actor id m in and_then (m', e) (bring_all_online actor ids m')

  online_if_added : String → StoredManager S × Result (List ℕ) → StoredManager S × Done
  unfolding bring_all_online
  online_if_added actor (m, failed e) =
      (m, failed (wrap e "add fixtures from provider message" none))
  online_if_added actor (m, ok ids) = bring_all_online actor ids m

  -- What follows the request for fixtures; `none` is the end of the context before an offer came.
  accept_offers :
      ℕ
      → (String → String)
      → String
      → Option MessageFixtureOffers
      → StoredManager S
      → StoredManager S × Done
  unfolding online_if_added
  accept_offers now random actor none m =
      (m, failed (new_context_aborted_error "request available fixtures"))
  accept_offers now random actor (some offers) m =
      online_if_added actor
        (add_fixtures_from_provider_message store now random offers.device_id offers.fixtures m)

  -- `AcceptFixtureProvider` for the actor with the id, given the offer that its newsletter reads. The
  -- newsletter itself, which lasts as long as the call, is left out.
  unfoldable pub accept_fixture_provider :
      ℕ
      → (String → String)
      → String
      → Option MessageFixtureOffers
      → StoredManager S
      → StoredManager S × Done
  unfolding done_unless accept_offers
  accept_fixture_provider now random actor offers m =
      let (a, err) =
        send (record { message_type = "get-fixture-offers"; content = no_content })
          (m.stage.actor actor) in
      let m' : StoredManager S = record m { stage = put actor a m.stage } in
      and_then (m', done_unless "request fixtures from provider" err)
        (accept_offers now random actor offers m')

  -- `HandleFixtureStateUpdated` of the broadcaster, as a call of the manager.
  pub handle_fixture_state_updated : StoredManager S → StoredManager S
  handle_fixture_state_updated m = record m { updates = suc m.updates }

  -- One round of `SayGoodbyeToFixtureProvider` over the manager's fixtures.
  pub send_offline : String → ℕ → Fixture → StoredManager S → StoredManager S × Done
  unfolding refresh
  send_offline actor id f m =
      if actor_id f == actor
      then refresh "set fixture offline" id
          (record m { fixtures = insert id (set_actor none f) m.fixtures })
      else (m, ok tt)

  send_all_offline : String → Dict ℕ Fixture → StoredManager S → StoredManager S × Done
  unfolding send_offline
  send_all_offline actor [] m = (m, ok tt)
  send_all_offline actor ((id, f) ∷ rest) m =
      let (m', e) = send_offline actor id f m in and_then (m', e) (send_all_offline actor rest m')

  -- `SayGoodbyeToFixtureProvider`
  unfoldable pub say_goodbye_to_fixture_provider : String → StoredManager S → StoredManager S × Done
  unfolding send_all_offline handle_fixture_state_updated
  say_goodbye_to_fixture_provider actor m =
      let (m', e) = send_all_offline actor m.fixtures m in
      and_then (m', e) (handle_fixture_state_updated m', ok tt)

  renamed : ℕ → Option String → Fixture → S × Done → StoredManager S → StoredManager S × Done
  unfolding handle_fixture_state_updated
  renamed id name f (s, failed e) m =
      (record m { store = s }, failed (wrap e "set fixture name in store" none))
  renamed id name f (s, ok _) m = (
    handle_fixture_state_updated
        (record m { store = s; fixtures = insert id (record f { name = name }) m.fixtures }),
    ok tt,
  )

  rename : ℕ → Option String → Option Fixture → StoredManager S → StoredManager S × Done
  unfolding renamed
  rename id name none m = (m, failed (new_resource_not_found_error "fixture not found" none))
  rename id name (some f) m = renamed id name f (store.set_fixture_name id name m.store) m

  -- `SetFixtureName`. The text and the details of its error leave out the ids.
  unfoldable pub set_fixture_name : ℕ → Option String → StoredManager S → StoredManager S × Done
  unfolding rename
  set_fixture_name id name m = rename id name (lookup id m.fixtures) m

  deleted : ℕ → S × Done → StoredManager S → StoredManager S × Done
  unfolding handle_fixture_state_updated
  deleted id (s, failed e) m =
      (record m { store = s }, failed (wrap e "delete fixture from store" none))
  deleted id (s, ok _) m = (
    handle_fixture_state_updated (record m { store = s; fixtures = delete id m.fixtures }),
    ok tt,
  )

  -- `DeleteFixture`
  unfoldable pub delete_fixture : ℕ → StoredManager S → StoredManager S × Done
  unfolding deleted
  delete_fixture id m = deleted id (store.delete_fixture id m.store) m
