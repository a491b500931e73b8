-- ===== src/Acting/Newsletters/Subscribing.antt =====
-- acting/subscriptions.go: the functions that subscribe to one message type each.
use masc_server.Prelude.{String, Option}
use masc_server.Messages.Incoming.{
  MessageSetDeviceName, MessageDeleteDevice, MessageRoleAssignments, MessageReadyState,
  MessagePlayerJoin, MessagePlayerLeave, MessageFixtureOffers, MessageSetFixtureName,
  MessageDeleteFixture, MessageSetFixturesEnabled, MessageSetFixturesLocating,
  MessageLightSwitchHiLoState, MessageLightSwitchOffers, MessageUpdateLightSwitch,
  MessageDeleteLightSwitch,
}
use masc_server.Acting.Subscriptions.{SubscriptionManager}
use masc_server.Acting.Newsletters.{
  Newsletter, NotifyingNewsletter, subscribe_decoded, subscribe_notify_for_message_type,
}

unfoldable pub subscribe_message_type_set_device_name :
    (String → Option MessageSetDeviceName)
    → SubscriptionManager
    → SubscriptionManager × Newsletter MessageSetDeviceName
unfolding subscribe_decoded
subscribe_message_type_set_device_name unmarshal m = subscribe_decoded "set-device-name" unmarshal m

unfoldable pub subscribe_message_type_delete_device :
    (String → Option MessageDeleteDevice)
    → SubscriptionManager
    → SubscriptionManager × Newsletter MessageDeleteDevice
unfolding subscribe_decoded
subscribe_message_type_delete_device unmarshal m = subscribe_decoded "delete-device" unmarshal m

unfoldable pub subscribe_message_type_get_devices :
    SubscriptionManager → SubscriptionManager × NotifyingNewsletter
unfolding subscribe_notify_for_message_type
subscribe_message_type_get_devices m = subscribe_notify_for_message_type "get-devices" m

unfoldable pub subscribe_message_type_role_assignments :
    (String → Option MessageRoleAssignments)
    → SubscriptionManager
    → SubscriptionManager × Newsletter MessageRoleAssignments
unfolding subscribe_decoded
subscribe_message_type_role_assignments unmarshal m =
    subscribe_decoded "role-assignments" unmarshal m

unfoldable pub subscribe_message_type_abort_match :
    SubscriptionManager → SubscriptionManager × NotifyingNewsletter
unfolding subscribe_notify_for_message_type
subscribe_message_type_abort_match m = subscribe_notify_for_message_type "abort-match" m

unfoldable pub subscribe_message_type_ready_state :
    (String → Option MessageReadyState)
    → SubscriptionManager
    → SubscriptionManager × Newsletter MessageReadyState
unfolding subscribe_decoded
subscribe_message_type_ready_state unmarshal m = subscribe_decoded "ready-state" unmarshal m

unfoldable pub subscribe_message_type_player_join :
    (String → Option MessagePlayerJoin)
    → SubscriptionManager
    → SubscriptionManager × Newsletter MessagePlayerJoin
unfolding subscribe_decoded
subscribe_message_type_player_join unmarshal m = subscribe_decoded "player-join" unmarshal m

unfoldable pub subscribe_message_type_player_leave :
    (String → Option MessagePlayerLeave)
    → SubscriptionManager
    → SubscriptionManager × Newsletter MessagePlayerLeave
unfolding subscribe_decoded
subscribe_message_type_player_leave unmarshal m = subscribe_decoded "player-leave" unmarshal m

unfoldable pub subscribe_message_type_fixture_offers :
    (String → Option MessageFixtureOffers)
    → SubscriptionManager
    → SubscriptionManager × Newsletter MessageFixtureOffers
unfolding subscribe_decoded
subscribe_message_type_fixture_offers unmarshal m = subscribe_decoded "fixture-offers" unmarshal m

unfoldable pub subscribe_message_type_set_fixture_name :
    (String → Option MessageSetFixtureName)
    → SubscriptionManager
    → SubscriptionManager × Newsletter MessageSetFixtureName
unfolding subscribe_decoded
subscribe_message_type_set_fixture_name unmarshal m =
    subscribe_decoded "set-fixture-name" unmarshal m

unfoldable pub subscribe_message_type_get_fixtures :
    SubscriptionManager → SubscriptionManager × NotifyingNewsletter
unfolding subscribe_notify_for_message_type
subscribe_message_type_get_fixtures m = subscribe_notify_for_message_type "get-fixtures" m

unfoldable pub subscribe_message_type_delete_fixture :
    (String → Option MessageDeleteFixture)
    → SubscriptionManager
    → SubscriptionManager × Newsletter MessageDeleteFixture
unfolding subscribe_decoded
subscribe_message_type_delete_fixture unmarshal m = subscribe_decoded "delete-fixture" unmarshal m

unfoldable pub subscribe_message_type_get_fixture_states :
    SubscriptionManager → SubscriptionManager × NotifyingNewsletter
unfolding subscribe_notify_for_message_type
subscribe_message_type_get_fixture_states m =
    subscribe_notify_for_message_type "get-fixture-states" m

unfoldable pub subscribe_message_type_set_fixtures_enabled :
    (String → Option MessageSetFixturesEnabled)
    → SubscriptionManager
    → SubscriptionManager × Newsletter MessageSetFixturesEnabled
unfolding subscribe_decoded
subscribe_message_type_set_fixtures_enabled unmarshal m =
    subscribe_decoded "set-fixtures-enabled" unmarshal m

unfoldable pub subscribe_message_type_set_fixtures_locating :
    (String → Option MessageSetFixturesLocating)
    → SubscriptionManager
    → SubscriptionManager × Newsletter MessageSetFixturesLocating
unfolding subscribe_decoded
subscribe_message_type_set_fixtures_locating unmarshal m =
    subscribe_decoded "set-fixtures-locating" unmarshal m

unfoldable pub subscribe_message_type_light_switch_hi_lo_state :
    (String → Option MessageLightSwitchHiLoState)
    → SubscriptionManager
    → SubscriptionManager × Newsletter MessageLightSwitchHiLoState
unfolding subscribe_decoded
subscribe_message_type_light_switch_hi_lo_state unmarshal m =
    subscribe_decoded "light-switch-hi-lo-state" unmarshal m

unfoldable pub subscribe_message_type_light_switch_offers :
    (String → Option MessageLightSwitchOffers)
    → SubscriptionManager
    → SubscriptionManager × Newsletter MessageLightSwitchOffers
unfolding subscribe_decoded
subscribe_message_type_light_switch_offers unmarshal m =
    subscribe_decoded "light-switch-offers" unmarshal m

unfoldable pub subscribe_message_type_update_light_switch :
    (String → Option MessageUpdateLightSwitch)
    → SubscriptionManager
    → SubscriptionManager × Newsletter MessageUpdateLightSwitch
unfolding subscribe_decoded
subscribe_message_type_update_light_switch unmarshal m =
    subscribe_decoded "update-light-switch" unmarshal m

unfoldable pub subscribe_message_type_delete_light_switch :
    (String → Option MessageDeleteLightSwitch)
    → SubscriptionManager
    → SubscriptionManager × Newsletter MessageDeleteLightSwitch
unfolding subscribe_decoded
subscribe_message_type_delete_light_switch unmarshal m =
    subscribe_decoded "delete-light-switch" unmarshal m
