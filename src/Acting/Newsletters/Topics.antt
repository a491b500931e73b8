-- ===== src/Acting/Newsletters/Topics.antt =====
-- The message types of newsletters as one family (acting/subscriptions.go).
use masc_server.Prelude.{String, Option}
use masc_server.Messages.Incoming.{
  MessageSetDeviceName, MessageDeleteDevice, MessageRoleAssignments, MessageReadyState,
  MessagePlayerJoin, MessagePlayerLeave, MessageFixtureOffers, MessageSetFixtureName,
  MessageDeleteFixture, MessageSetFixturesEnabled, MessageSetFixturesLocating,
  MessageLightSwitchHiLoState, MessageLightSwitchOffers, MessageUpdateLightSwitch,
  MessageDeleteLightSwitch,
}
use masc_server.Acting.Subscriptions.{SubscriptionManager}
use masc_server.Acting.Newsletters.{Newsletter}
use masc_server.Acting.Newsletters.Subscribing.{
  subscribe_message_type_set_device_name, subscribe_message_type_delete_device,
  subscribe_message_type_get_devices, subscribe_message_type_role_assignments,
  subscribe_message_type_abort_match, subscribe_message_type_ready_state,
  subscribe_message_type_player_join, subscribe_message_type_player_leave,
  subscribe_message_type_fixture_offers, subscribe_message_type_set_fixture_name,
  subscribe_message_type_get_fixtures, subscribe_message_type_delete_fixture,
  subscribe_message_type_get_fixture_states, subscribe_message_type_set_fixtures_enabled,
  subscribe_message_type_set_fixtures_locating, subscribe_message_type_light_switch_hi_lo_state,
  subscribe_message_type_light_switch_offers, subscribe_message_type_update_light_switch,
  subscribe_message_type_delete_light_switch,
}

-- The message types that newsletters exist for, as a type of their own.
pub data Topic : Type 0 where
  set_device_name delete_device get_devices role_assignments abort_match ready_state player_join
        player_leave fixture_offers set_fixture_name get_fixtures delete_fixture get_fixture_states
        set_fixtures_enabled set_fixtures_locating light_switch_hi_lo_state light_switch_offers
        update_light_switch delete_light_switch :
      Topic

abbrev pub message_type : Topic → String
message_type set_device_name = "set-device-name"
message_type delete_device = "delete-device"
message_type get_devices = "get-devices"
message_type role_assignments = "role-assignments"
message_type abort_match = "abort-match"
message_type ready_state = "ready-state"
message_type player_join = "player-join"
message_type player_leave = "player-leave"
message_type fixture_offers = "fixture-offers"
message_type set_fixture_name = "set-fixture-name"
message_type get_fixtures = "get-fixtures"
message_type delete_fixture = "delete-fixture"
message_type get_fixture_states = "get-fixture-states"
message_type set_fixtures_enabled = "set-fixtures-enabled"
message_type set_fixtures_locating = "set-fixtures-locating"
message_type light_switch_hi_lo_state = "light-switch-hi-lo-state"
message_type light_switch_offers = "light-switch-offers"
message_type update_light_switch = "update-light-switch"
message_type delete_light_switch = "delete-light-switch"

-- What a newsletter passes on.
abbrev pub Payload : Topic → Type 0
Payload set_device_name = MessageSetDeviceName
Payload delete_device = MessageDeleteDevice
Payload get_devices = Unit
Payload role_assignments = MessageRoleAssignments
Payload abort_match = Unit
Payload ready_state = MessageReadyState
Payload player_join = MessagePlayerJoin
Payload player_leave = MessagePlayerLeave
Payload fixture_offers = MessageFixtureOffers
Payload set_fixture_name = MessageSetFixtureName
Payload get_fixtures = Unit
Payload delete_fixture = MessageDeleteFixture
Payload get_fixture_states = Unit
Payload set_fixtures_enabled = MessageSetFixturesEnabled
Payload set_fixtures_locating = MessageSetFixturesLocating
Payload light_switch_hi_lo_state = MessageLightSwitchHiLoState
Payload light_switch_offers = MessageLightSwitchOffers
Payload update_light_switch = MessageUpdateLightSwitch
Payload delete_light_switch = MessageDeleteLightSwitch

-- The function for each topic, given how JSON is decoded for each.
module _ (unmarshal : (topic : Topic) → String → Option (Payload topic)) where
  unfoldable pub subscribe_topic :
      (topic : Topic) → SubscriptionManager → SubscriptionManager × Newsletter (Payload topic)
  unfolding subscribe_message_type_set_device_name subscribe_message_type_delete_device
      subscribe_message_type_get_devices subscribe_message_type_role_assignments
      subscribe_message_type_abort_match subscribe_message_type_ready_state
      subscribe_message_type_player_join subscribe_message_type_player_leave
      subscribe_message_type_fixture_offers subscribe_message_type_set_fixture_name
      subscribe_message_type_get_fixtures subscribe_message_type_delete_fixture
      subscribe_message_type_get_fixture_states subscribe_message_type_set_fixtures_enabled
      subscribe_message_type_set_fixtures_locating subscribe_message_type_light_switch_hi_lo_state
      subscribe_message_type_light_switch_offers subscribe_message_type_update_light_switch
      subscribe_message_type_delete_light_switch
  subscribe_topic set_device_name m =
      subscribe_message_type_set_device_name (unmarshal set_device_name) m
  subscribe_topic delete_device m = subscribe_message_type_delete_device (unmarshal delete_device) m
  subscribe_topic get_devices m = subscribe_message_type_get_devices m
  subscribe_topic role_assignments m =
      subscribe_message_type_role_assignments (unmarshal role_assignments) m
  subscribe_topic abort_match m = subscribe_message_type_abort_match m
  subscribe_topic ready_state m = subscribe_message_type_ready_state (unmarshal ready_state) m
  subscribe_topic player_join m = subscribe_message_type_player_join (unmarshal player_join) m
  subscribe_topic player_leave m = subscribe_message_type_player_leave (unmarshal player_leave) m
  subscribe_topic fixture_offers m =
      subscribe_message_type_fixture_offers (unmarshal fixture_offers) m
  subscribe_topic set_fixture_name m =
      subscribe_message_type_set_fixture_name (unmarshal set_fixture_name) m
  subscribe_topic get_fixtures m = subscribe_message_type_get_fixtures m
  subscribe_topic delete_fixture m =
      subscribe_message_type_delete_fixture (unmarshal delete_fixture) m
  subscribe_topic get_fixture_states m = subscribe_message_type_get_fixture_states m
  subscribe_topic set_fixtures_enabled m =
      subscribe_message_type_set_fixtures_enabled (unmarshal set_fixtures_enabled) m
  subscribe_topic set_fixtures_locating m =
      subscribe_message_type_set_fixtures_locating (unmarshal set_fixtures_locating) m
  subscribe_topic light_switch_hi_lo_state m =
      subscribe_message_type_light_switch_hi_lo_state (unmarshal light_switch_hi_lo_state) m
  subscribe_topic light_switch_offers m =
      subscribe_message_type_light_switch_offers (unmarshal light_switch_offers) m
  subscribe_topic update_light_switch m =
      subscribe_message_type_update_light_switch (unmarshal update_light_switch) m
  subscribe_topic delete_light_switch m =
      subscribe_message_type_delete_light_switch (unmarshal delete_light_switch) m
