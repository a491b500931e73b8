-- ===== src/Messages/Incoming.antt =====
-- The contents of the messages that actors receive from their devices (the package messages).
-- An id that Go keeps as an int is a natural number here: the database draws them from 1 on.
use masc_server.Prelude.{ℕ, String, Bool, Option, List}
use masc_server.Messages.{RoleAssignment}

pub record MessageSetDeviceName : Type 0 where
  pub device_id : String
  pub name : String

pub record MessageDeleteDevice : Type 0 where
  pub device_id : String

pub record MessageRoleAssignments : Type 0 where
  pub assignments : List RoleAssignment

pub record MessageReadyState : Type 0 where
  pub is_ready : Bool

pub record MessagePlayerJoin : Type 0 where
  pub user : String
  pub request_guest : Bool

pub record MessagePlayerLeave : Type 0 where
  pub player : String

pub record OfferedFixture : Type 0 where
  pub provider_id : String
  pub fixture_type : String

pub record MessageFixtureOffers : Type 0 where
  pub device_id : String
  pub fixtures : List OfferedFixture

pub record MessageSetFixtureName : Type 0 where
  pub fixture_id : ℕ
  pub name : Option String

pub record MessageDeleteFixture : Type 0 where
  pub fixture_id : ℕ

pub record MessageSetFixturesEnabledFixtureState : Type 0 where
  pub fixture_id : ℕ
  pub is_enabled : Bool

pub record MessageSetFixturesEnabled : Type 0 where
  pub fixtures : List MessageSetFixturesEnabledFixtureState

pub record MessageSetFixturesLocatingFixtureState : Type 0 where
  pub fixture_id : ℕ
  pub is_locating : Bool

pub record MessageSetFixturesLocating : Type 0 where
  pub fixtures : List MessageSetFixturesLocatingFixtureState

pub record MessageLightSwitchHiLoState : Type 0 where
  pub is_high : Bool

pub record OfferedLightSwitch : Type 0 where
  pub provider_id : String
  pub light_switch_type : String

pub record MessageLightSwitchOffers : Type 0 where
  pub device_id : String
  pub light_switches : List OfferedLightSwitch

pub record MessageUpdateLightSwitch : Type 0 where
  pub light_switch_id : ℕ
  pub name : Option String
  pub assignments : List ℕ

pub record MessageDeleteLightSwitch : Type 0 where
  pub light_switch_id : ℕ
