-- ===== src/Lighting/Manager.antt =====
-- The manager of the fixtures (lighting/manager.go). A call holds the manager's lock for all that it
-- changes, so each is one step; the two locked parts of `AcceptFixtureProvider` follow each other.
pub mod Calls
pub mod Store
pub mod Load
pub mod Listing
pub mod Offers
mod Memory
mod Tests
use masc_server.Prelude.{
  ℕ, suc, ◌+◌, String, Bool, true, false, Option, none, some, List, [], ◌∷◌, ◌&&◌, map, ltb,
  if◌then◌else◌, Dict, lookup, insert, delete, string_key, nat_key, ◌==◌,
}
use masc_server.Errors.{GoError, nil, native, masc, mk_error, internal, other, wrap}
use masc_server.Errors.Results.{Result, Done, ok, failed}
use masc_server.Errors.Generators.{new_resource_not_found_error, new_context_aborted_error}
use masc_server.Messages.{OutgoingMessage, no_content}
use masc_server.Messages.Incoming.{OfferedFixture, MessageFixtureOffers}
use masc_server.Acting.Actors.{Actor, send}
use masc_server.Casting.{Stage, put}
use masc_server.Lighting.{in_context, toggle_enabled}
use masc_server.Lighting.Fixtures.{
  Fixture, new_fixture, reset, set_actor, set_update_notifier, actor_id, is_online, apply_fixture,
}

-- `stores.Fixture`
pub record StoreFixture : Type 0 where
  pub id : ℕ
  pub device : String
  pub provider_id : String
  pub name : Option String
  pub fixture_type : String
  pub last_seen : ℕ

-- `ManagerStore`, whose state is an `S`.
pub record ManagerStore (S : Type 0) : Type 0 where
  pub get_fixtures : S → Result (List StoreFixture)
  pub create_fixture : StoreFixture → S → S × Result StoreFixture
  pub delete_fixture : ℕ → S → S × Done
  pub set_fixture_name : ℕ → Option String → S → S × Done
  pub refresh_last_seen_for_fixture : ℕ → S → S × Done

-- `StoredManager` with its store and the actors. `updates` counts the calls of the broadcaster's
-- `HandleFixtureStateUpdated` that the manager makes itself.
pub record StoredManager (S : Type 0) : Type 0 where
  pub store : S
  pub fixtures : Dict ℕ Fixture
  pub updates : ℕ
  pub stage : Stage

module _ {S : Type 0} (store : ManagerStore S) where
  -- `NewStoredManager`
  unfoldable pub new_stored_manager : S → Stage → StoredManager S
  new_stored_manager s st = record { store = s; fixtures = []; updates = 0; stage = st }

  name_or : Option String → Option String → Option String
  name_or none old = old
  name_or (some name) old = some name

  -- The fixture that `LoadKnownFixtures` makes of one of the store.
  loaded : ℕ → StoreFixture → Fixture
  unfolding name_or
  loaded now known =
      let f = new_fixture known.id known.fixture_type now in
      set_update_notifier (record f {
        name = name_or known.name f.name;
        device_id = known.device;
        basic = record f.basic { provider_id = known.provider_id };
        last_seen = known.last_seen;
      })

  load_each : ℕ → List StoreFixture → Dict ℕ Fixture → Dict ℕ Fixture
  unfolding loaded
  load_each now [] fixtures = fixtures
  load_each now (known ∷ rest) fixtures =
      load_each now rest (insert known.id (loaded now known) fixtures)

  load_result : ℕ → Result (List StoreFixture) → StoredManager S → StoredManager S × Done
  unfolding load_each
  load_result now (failed e) m = (m, failed (wrap e "retrieve fixtures from store" none))
  load_result now (ok known) m = (record m { fixtures = load_each now known m.fixtures }, ok tt)

  -- `LoadKnownFixtures`, at a time.
  unfoldable pub load_known_fixtures : ℕ → StoredManager S → StoredManager S × Done
  unfolding load_result
  load_known_fixtures now m = load_result now (store.get_fixtures m.store) m

  -- The search for a fixture of a device by its provider's id.
  unfoldable pub find_known : String → String → Dict ℕ Fixture → Option Fixture
  find_known device provider [] = none
  find_known device provider ((id, f) ∷ rest) =
      if (f.device_id == device) && (f.basic.provider_id == provider)
      then some f
      else find_known device provider rest

  -- The error for a fixture whose type has changed. Its text and details leave out what `%v` prints.
  type_changed : GoError
  type_changed = masc (
      mk_error internal nil "fixture from device already known with another type"
        (some (("knownType", other 0) ∷ ("newType", other 1) ∷ [])))

  pub created_fixture : ℕ → String → String → StoreFixture → Fixture
  created_fixture now device provider created =
      let f = new_fixture created.id created.fixture_type now in
      record f {
        device_id = device;
        name = created.name;
        basic = record f.basic { provider_id = provider };
      }

  added :
      ℕ → String → String → StoredManager S → S × Result StoreFixture → StoredManager S × Result ℕ
  unfolding created_fixture
  added now device provider m (s, failed e) = (
    record m { store = s },
    failed (
        wrap e "create fixture from device"
          (some (("provider_id", other 0) ∷ ("device_id", other 1) ∷ []))),
  )
  added now device provider m (s, ok created) = (
    record m {
      store = s;
      fixtures = insert created.id (created_fixture now device provider created) m.fixtures;
    },
    ok created.id,
  )

  pub add_with :
      ℕ
      → String
      → OfferedFixture
      → Option Fixture
      → String
      → StoredManager S
      → StoredManager S × Result ℕ
  unfolding type_changed added
  add_with now device offered (some f) drawn m =
      if f.fixture_type == offered.fixture_type then (m, ok f.id) else (m, failed type_changed)
  add_with now device offered none drawn m = added now device offered.provider_id m (
      store.create_fixture
        (record {
          id = 0;
          device = device;
          provider_id = offered.provider_id;
          name = some drawn;
          fixture_type = offered.fixture_type;
          last_seen = now;
        })
        m.store)

  -- One round of `addFixturesFromProviderMessage`: the id of the fixture that is known or created.
  unfoldable pub add_offered :
      ℕ → String → OfferedFixture → String → StoredManager S → StoredManager S × Result ℕ
  unfolding add_with
  add_offered now device offered drawn m =
      add_with now device offered (find_known device offered.provider_id m.fixtures) drawn m

  pub with_id : ℕ → Result (List ℕ) → Result (List ℕ)
  with_id id (failed e) = failed e
  with_id id (ok ids) = ok (id ∷ ids)

  pub further :
      StoredManager S
      → Result ℕ
      → StoredManager S × Result (List ℕ)
      → StoredManager S × Result (List ℕ)
  unfolding with_id
  further m (failed e) rest = (m, failed e)
  further m (ok id) (m', ids) = (m', with_id id ids)

  -- `addFixturesFromProviderMessage`, at a time. `randomFixtureName` draws a name for each provider id;
  -- a fixture is returned as its id.
  unfoldable pub add_fixtures_from_provider_message :
      ℕ
      → (String → String)
      → String
      → List OfferedFixture
      → StoredManager S
      → StoredManager S × Result (List ℕ)
  unfolding further add_offered
  add_fixtures_from_provider_message now random device [] m = (m, ok [])
  add_fixtures_from_provider_message now random device (offered ∷ rest) m =
      let (m', id) = add_offered now device offered (random offered.provider_id) m in
      further m' id (add_fixtures_from_provider_message now random device rest m')
