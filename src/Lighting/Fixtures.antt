-- ===== src/Lighting/Fixtures.antt =====
-- Fixtures as their manager sees them (lighting/fixture.go, lighting/fixture_basic.go and
-- lighting/fixture_dimmer.go).
use masc_server.Prelude.{
  ℕ, String, Bool, true, false, Option, none, some, if◌then◌else◌, string_key, nat_key, ◌==◌,
}
use masc_server.Errors.{GoError}
use masc_server.Messages.{OutgoingMessage, fixture_dimmer_state}
use masc_server.Casting.{Stage}
use masc_server.Lighting.{BasicFixture, send_state_update, state_message}

-- A fixture. The brightness, in whole percent, is that of a dimmer, and `none` for a basic fixture.
pub record Fixture : Type 0 where
  pub id : ℕ
  pub device_id : String
  pub fixture_type : String
  pub name : Option String
  pub last_seen : ℕ
  pub brightness : Option ℕ
  pub basic : BasicFixture

-- `newBasicFixture`, at a time.
unfoldable pub new_basic_fixture : ℕ → ℕ → Fixture
new_basic_fixture id now = record {
  id = id;
  device_id = "";
  fixture_type = "basic";
  name = none;
  last_seen = now;
  brightness = none;
  basic = record {
    provider_id = "";
    actor = none;
    is_enabled = false;
    is_locating = false;
    notified = none;
  };
}

full_brightness : Option ℕ → Option ℕ
full_brightness none = none
full_brightness (some b) = some 100

-- `Reset`, which changes a dimmer only.
unfoldable pub reset : Fixture → Fixture
unfolding full_brightness
reset f = record f { brightness = full_brightness f.brightness }

-- `newDimmerFixture`
unfoldable pub new_dimmer_fixture : ℕ → ℕ → Fixture
unfolding reset new_basic_fixture
new_dimmer_fixture id now =
    reset (record (new_basic_fixture id now) { fixture_type = "dimmer"; brightness = some 0 })

-- `newFixture`: a type that is not supported gives a basic fixture.
unfoldable pub new_fixture : ℕ → String → ℕ → Fixture
new_fixture id fixture_type now =
    if fixture_type == "dimmer" then new_dimmer_fixture id now else new_basic_fixture id now

-- `setActor`
unfoldable pub set_actor : Option String → Fixture → Fixture
set_actor actor f = record f { basic = record f.basic { actor = actor } }

started : Option ℕ → Option ℕ
started none = some 0
started (some n) = some n

-- `setUpdateNotifier` with the manager's broadcaster.
unfoldable pub set_update_notifier : Fixture → Fixture
unfolding started
set_update_notifier f = record f { basic = record f.basic { notified = started f.basic.notified } }

id_or : Option String → String
id_or none = "sad life"
id_or (some id) = id

-- `actorID`
unfoldable pub actor_id : Fixture → String
unfolding id_or
actor_id f = id_or f.basic.actor

online_by : Option String → Bool
online_by none = false
online_by (some _) = true

-- `IsOnline`
unfoldable pub is_online : Fixture → Bool
unfolding online_by
is_online f = online_by f.basic.actor

dimmer_message : BasicFixture → ℕ → OutgoingMessage
dimmer_message f b = record {
  message_type = "fixture-dimmer-state";
  content = fixture_dimmer_state f.provider_id f.is_enabled f.is_locating b;
}

pub fixture_message : BasicFixture → Option ℕ → OutgoingMessage
unfolding dimmer_message
fixture_message f none = state_message f
fixture_message f (some b) = dimmer_message f b

-- `Apply` of a basic fixture or of a dimmer.
unfoldable pub apply_fixture : Fixture → Stage → Fixture × Stage × GoError
unfolding fixture_message state_message
apply_fixture f st =
    let (basic, st', err) = send_state_update (fixture_message f.basic f.brightness) f.basic st in
    (record f { basic = basic }, st', err)
