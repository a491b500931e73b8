-- ===== src/Lighting/Manager/Tests.antt =====
-- The manager of the fixtures with a provider of two fixtures, one of which is stored already.
use masc_server.Prelude.{
  ℕ, String, Bool, true, ◌&&◌, false, ◌≡◌, refl, none, some, List, [], ◌∷◌, All, passing, lookup,
  nat_key, insert, Dict, Distinct,
}
use masc_server.Errors.Results.{ok}
use masc_server.Messages.Incoming.{MessageFixtureOffers}
use masc_server.Acting.Actors.{new_actor, hire, send}
use masc_server.Casting.{Stage, put}
use masc_server.Lighting.{send_state_update}
use masc_server.Lighting.Fixtures.{
  Fixture, new_fixture, new_basic_fixture, reset, set_actor, set_update_notifier, actor_id,
  apply_fixture, is_online,
}
use masc_server.Lighting.Manager.{
  StoredManager, find_known, new_stored_manager, load_known_fixtures,
  add_fixtures_from_provider_message,
}
use masc_server.Lighting.Manager.Store.{Entry, Mirrors}
use masc_server.Lighting.Manager.Memory.{Rows, memory, find, memory_laws}
use masc_server.Lighting.Manager.Load.{load_known_fixtures-Mirrors}
use masc_server.Lighting.Manager.Calls.{accept_fixture_provider, say_goodbye_to_fixture_provider}
use masc_server.Lighting.Manager.Calls.Mirror.{Good}
use masc_server.Lighting.Manager.Calls.Runs.{
  Call, accepts, leaves, names, deletes, run, run-Mirrors,
}
use masc_server.Lighting.Manager.Calls.Offline.{left_by, lookup-say_goodbye_to_fixture_provider}
use masc_server.Lighting.Manager.Calls.Online.{AtWork, accept_fixture_provider-AtWork}
use masc_server.Lighting.Manager.Listing.{online_fixtures}
use masc_server.Lighting.Manager.Listing.LatestFirst.{LatestFirst, online_fixtures_lem}
use masc_server.Lighting.Manager.Offers.Again.{IsSupported, add_again}

abbrev stored : Dict ℕ Entry
stored =
    (
      1,
      record {
        device = "bridge";
        provider_id = "out-0";
        name = some "Desk";
        fixture_type = "basic";
      },
    )
    ∷ []

stored_once : Distinct stored
unfolding lookup
stored_once = (refl, tt)

abbrev rows : Rows
rows = (stored, stored_once)

-- Every actor is hired.
abbrev stage : Stage
stage = record {
  actor = λ id. (hire "lighting" (new_actor id "fixture-provider")).0;
  listed = λ id. true;
}

abbrev draw : String → String
draw provider = "unknown-7"

abbrev offers : MessageFixtureOffers
offers = record {
  device_id = "bridge";
  fixtures =
      record { provider_id = "out-0"; fixture_type = "basic" }
      ∷ record { provider_id = "out-1"; fixture_type = "dimmer" }
      ∷ [];
}

abbrev manager : StoredManager Rows
manager = (load_known_fixtures memory 5 (new_stored_manager memory rows stage)).0

loads : (load_known_fixtures memory 5 (new_stored_manager memory rows stage)).1 ≡ ok tt
unfolding load_known_fixtures
loads = refl

manager-Good : Good memory find manager
manager-Good = load_known_fixtures-Mirrors memory find memory_laws 5 rows stage loads

abbrev calls : List Call
calls =
    accepts 6 draw "provider" (some offers)
    ∷ names 3 (some "Door")
    ∷ deletes 1
    ∷ leaves "provider"
    ∷ []

run-Mirrors_example :
    Mirrors find (run memory calls manager).store (run memory calls manager).fixtures
run-Mirrors_example = run-Mirrors memory find memory_laws 5 rows stage loads calls

supported : All IsSupported offers.fixtures
supported = (refl, (refl, tt))

adds :
    (add_fixtures_from_provider_message memory 6 draw "bridge" offers.fixtures manager).1
    ≡ ok (1 ∷ 3 ∷ [])
unfolding add_fixtures_from_provider_message load_known_fixtures new_stored_manager find_known
    insert set_update_notifier new_fixture new_basic_fixture
adds = refl

add_again_example :
    add_fixtures_from_provider_message memory 8 draw "bridge" offers.fixtures
      (add_fixtures_from_provider_message memory 6 draw "bridge" offers.fixtures manager).0
    ≡ (
      (add_fixtures_from_provider_message memory 6 draw "bridge" offers.fixtures manager).0,
      ok (1 ∷ 3 ∷ []),
    )
add_again_example =
    add_again memory find memory_laws 6 draw "bridge" offers.fixtures manager (1 ∷ 3 ∷ []) supported
      manager-Good adds 8 draw

abbrev lit : StoredManager Rows
lit = (accept_fixture_provider memory 6 draw "provider" (some offers) manager).0

accepted : (accept_fixture_provider memory 6 draw "provider" (some offers) manager).1 ≡ ok tt
unfolding accept_fixture_provider load_known_fixtures new_stored_manager send hire new_actor
    add_fixtures_from_provider_message find_known insert set_update_notifier new_fixture
    new_basic_fixture lookup apply_fixture send_state_update reset set_actor put
accepted = refl

accept_fixture_provider-AtWork_example :
    All (AtWork memory "provider" "bridge" lit.fixtures) offers.fixtures
accept_fixture_provider-AtWork_example =
    accept_fixture_provider-AtWork memory find memory_laws 6 draw "provider" offers manager
      supported manager-Good accepted

-- Two fixtures of two providers.
abbrev lamp : ℕ → String → Fixture
lamp id actor = record {
  id = id;
  device_id = "bridge";
  fixture_type = "basic";
  name = none;
  last_seen = id;
  brightness = none;
  basic = record {
    provider_id = "out-0";
    actor = some actor;
    is_enabled = true;
    is_locating = false;
    notified = some 0;
  };
}

abbrev busy : StoredManager Rows
busy = record {
  store = rows;
  fixtures = (1, lamp 1 "provider") ∷ (3, lamp 3 "other") ∷ [];
  updates = 0;
  stage = stage;
}

busy_once : Distinct busy.fixtures
unfolding lookup
busy_once = (refl, (refl, tt))

left : (say_goodbye_to_fixture_provider memory "provider" busy).1 ≡ ok tt
unfolding say_goodbye_to_fixture_provider actor_id
left = refl

lookup-say_goodbye_to_fixture_provider_example :
    lookup 3 (say_goodbye_to_fixture_provider memory "provider" busy).0.fixtures
    ≡ left_by memory "provider" (lookup 3 busy.fixtures)
lookup-say_goodbye_to_fixture_provider_example =
    lookup-say_goodbye_to_fixture_provider memory "provider" busy busy_once left 3

-- Is a fixture on?
abbrev enabled : Fixture → Bool
enabled f = f.basic.is_enabled

online_fixtures_lem_example :
    LatestFirst (online_fixtures memory busy)
    × (passing enabled (online_fixtures memory busy)
        ≡ passing (λ entry. is_online entry.1 && enabled entry.1) busy.fixtures)
online_fixtures_lem_example = online_fixtures_lem memory busy enabled
