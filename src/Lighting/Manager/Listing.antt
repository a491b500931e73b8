-- ===== src/Lighting/Manager/Listing.antt =====
-- The lists of fixtures (lighting/manager.go): all of them by the time at which they were last seen,
-- those that are online, and the states that operators are told.
pub mod LatestFirst
use masc_server.Prelude.{
  ℕ, String, Bool, Option, List, [], ◌∷◌, ltb, if◌then◌else◌, Dict, string_key, nat_key,
}
use masc_server.Messages.{Content}
use masc_server.Lighting.Fixtures.{Fixture, is_online, fixture_message}
use masc_server.Lighting.Manager.{ManagerStore, StoredManager}

-- `MessageFixtureStatesFixture` of messages/lighting.go.
pub record FixtureState : Type 0 where
  pub id : ℕ
  pub fixture_type : String
  pub device_id : String
  pub provider_id : String
  pub name : Option String
  pub is_online : Bool
  pub is_enabled : Bool
  pub is_locating : Bool
  pub state : Content

fixtures_of : Dict ℕ Fixture → List Fixture
fixtures_of [] = []
fixtures_of ((id, f) ∷ rest) = f ∷ fixtures_of rest

-- `sort.Slice` by the test that a fixture was seen after another one.
insert_by_last_seen : Fixture → List Fixture → List Fixture
insert_by_last_seen f [] = f ∷ []
insert_by_last_seen f (g ∷ rest) =
    let further = insert_by_last_seen f rest in
    if ltb g.last_seen f.last_seen then f ∷ g ∷ rest else g ∷ further

sort_by_last_seen : List Fixture → List Fixture
unfolding insert_by_last_seen
sort_by_last_seen [] = []
sort_by_last_seen (f ∷ rest) = insert_by_last_seen f (sort_by_last_seen rest)

those_online : List Fixture → List Fixture
those_online [] = []
those_online (f ∷ rest) =
    let further = those_online rest in if is_online f then f ∷ further else further

-- `State` is the content of the message of `Apply`.
state_of : Fixture → FixtureState
state_of f = record {
  id = f.id;
  fixture_type = f.fixture_type;
  device_id = f.device_id;
  provider_id = f.basic.provider_id;
  name = f.name;
  is_online = is_online f;
  is_enabled = f.basic.is_enabled;
  is_locating = f.basic.is_locating;
  state = (fixture_message f.basic f.brightness).content;
}

states_of : List Fixture → List FixtureState
unfolding state_of
states_of [] = []
states_of (f ∷ rest) = state_of f ∷ states_of rest

module _ {S : Type 0} (store : ManagerStore S) where
  -- `Fixtures`
  unfoldable pub fixtures : StoredManager S → List Fixture
  unfolding fixtures_of sort_by_last_seen
  fixtures m = sort_by_last_seen (fixtures_of m.fixtures)

  -- `OnlineFixtures`
  unfoldable pub online_fixtures : StoredManager S → List Fixture
  unfolding fixtures those_online
  online_fixtures m = those_online (fixtures m)

  -- `FixtureStates`
  unfoldable pub fixture_states : StoredManager S → List FixtureState
  unfolding fixtures states_of
  fixture_states m = states_of (fixtures m)
