-- ===== src/Lighting.antt =====
-- Basic fixtures (lighting/fixture_basic.go), their toggling by the manager (lighting/manager.go) and
-- the light switch that toggles them (lightswitch/light_switch_hi_lo.go).
pub mod Toggle
pub mod Fixtures
pub mod Manager
mod Tests
use masc_server.Prelude.{
  ℕ, zero, suc, String, Bool, true, false, not, ◌&&◌, Option, none, some, List, [], ◌∷◌, ◌++◌,
  if◌then◌else◌, Dict, lookup, insert, string_key, ◌==◌,
}
use masc_server.Errors.{GoError, nil, native, masc, wrap}
use masc_server.Errors.Generators.{new_resource_not_found_error}
use masc_server.Messages.{OutgoingMessage, fixture_basic_state}
use masc_server.Acting.Actors.{Actor, send}
use masc_server.Casting.{Stage, put}

-- `basicFixture`, as far as its state can be applied: an actor is known by its id, and `notified`
-- counts the calls of the update notifier and is `none` where there is none.
pub record BasicFixture : Type 0 where
  pub provider_id : String
  pub actor : Option String
  pub is_enabled : Bool
  pub is_locating : Bool
  pub notified : Option ℕ

-- `SetEnabled`
unfoldable pub set_enabled : Bool → BasicFixture → BasicFixture
set_enabled is_enabled f = record f {
  is_enabled = is_enabled;
  is_locating = is_enabled && f.is_locating;
}

-- `ToggleEnabled`
unfoldable pub toggle_enabled : BasicFixture → BasicFixture
toggle_enabled f = record f {
  is_enabled = not f.is_enabled;
  is_locating = if not (not f.is_enabled) then false else f.is_locating;
}

-- `SetLocating`
unfoldable pub set_locating : Bool → BasicFixture → BasicFixture
set_locating is_locating f = record f { is_locating = is_locating }

notify : Option ℕ → Option ℕ
notify none = none
notify (some n) = some (suc n)

-- An error in a context, if there is one.
in_context : String → GoError → GoError
in_context context nil = nil
in_context context (native s) = wrap (native s) context none
in_context context (masc e) = wrap (masc e) context none

state_message : BasicFixture → OutgoingMessage
state_message f = record {
  message_type = "fixture-basic-state";
  content = fixture_basic_state f.provider_id f.is_enabled f.is_locating;
}

send_to : OutgoingMessage → Option String → Stage → Stage × GoError
unfolding in_context
send_to m none st = (st, nil)
send_to m (some id) st = let (a, err) = send m (st.actor id) in (put id a st, in_context "send" err)

-- `sendStateUpdate`
unfoldable pub send_state_update :
    OutgoingMessage → BasicFixture → Stage → BasicFixture × Stage × GoError
unfolding notify send_to
send_state_update message f st =
    let (st', err) = send_to message f.actor st in
    (record f { notified = notify f.notified }, st', err)

-- `Apply`
unfoldable pub apply : BasicFixture → Stage → BasicFixture × Stage × GoError
unfolding send_state_update state_message
apply f st = send_state_update (state_message f) f st

-- The manager's fixtures and the actors.
pub record Lights : Type 0 where
  pub fixtures : Dict String BasicFixture
  pub stage : Stage

unfoldable pub toggled : Option BasicFixture → String → Lights → Lights × GoError
unfolding apply toggle_enabled in_context
toggled none id l = (l, new_resource_not_found_error "fixture not found" none)
toggled (some f) id l =
    let (f', st, err) = apply (toggle_enabled f) l.stage in
    (record { fixtures = insert id f' l.fixtures; stage = st }, in_context "fixture apply" err)

-- `ToggleFixtureEnabledByID`
unfoldable pub toggle_fixture_enabled_by_id : String → Lights → Lights × GoError
unfolding toggled
toggle_fixture_enabled_by_id id l = toggled (lookup id l.fixtures) id l

-- `lightSwitchHiLo`
pub record LightSwitchHiLo : Type 0 where
  pub assignments : List String
  pub is_high : Bool

-- The toggling of all assigned fixtures. The code starts a goroutine for each and waits for them;
-- the manager's lock orders their writes. An error is only logged.
unfoldable pub toggle_each : List String → Lights → Lights
unfolding toggle_fixture_enabled_by_id
toggle_each [] l = l
toggle_each (id ∷ ids) l = toggle_each ids (toggle_fixture_enabled_by_id id l).0

-- `handleMessage`
unfoldable pub handle_hi_lo : Bool → LightSwitchHiLo × Lights → LightSwitchHiLo × Lights
unfolding toggle_each
handle_hi_lo is_high (ls, l) = (
  record ls { is_high = is_high },
  if not ls.is_high && is_high then toggle_each ls.assignments l else l,
)

-- The messages that `run` receives, one after the other.
unfoldable pub handle_all : List Bool → LightSwitchHiLo × Lights → LightSwitchHiLo × Lights
handle_all [] x = x
handle_all (m ∷ ms) x = handle_all ms (handle_hi_lo m x)
