-- ===== src/Acting/Roles.antt =====
-- The role types of acting/acting.go and `getRole`.
use masc_server.Prelude.{
  String, Bool, false, ◌||◌, Option, none, some, List, [], ◌∷◌, ◌==◌, string_key, if◌then◌else◌,
}

abbrev pub device_manager : String
device_manager = "device-manager"

abbrev pub fixture_manager : String
fixture_manager = "fixture-manager"

abbrev pub fixture_operator : String
fixture_operator = "fixture-operator"

abbrev pub fixture_provider : String
fixture_provider = "fixture-provider"

abbrev pub game_master : String
game_master = "game-master"

abbrev pub global_monitor : String
global_monitor = "global-spectator"

abbrev pub match_monitor : String
match_monitor = "match-monitor"

abbrev pub light_switch_manager : String
light_switch_manager = "light-switch-manager"

abbrev pub light_switch_provider : String
light_switch_provider = "light-switch-provider"

abbrev pub log_monitor : String
log_monitor = "log-monitor"

abbrev pub team_base : String
team_base = "team-base"

abbrev pub team_base_monitor : String
team_base_monitor = "team-base-spectator"

-- The cases of the `switch` in `getRole`.
abbrev pub listed_roles : List String
listed_roles =
    device_manager ∷ fixture_manager ∷ fixture_operator ∷ fixture_provider ∷ game_master
    ∷ global_monitor ∷ light_switch_manager ∷ light_switch_provider ∷ log_monitor ∷ team_base
    ∷ team_base_monitor ∷ []

is_listed : String → List String → Bool
is_listed r [] = false
is_listed r (x ∷ xs) = r == x || is_listed r xs

-- `getRole`; `none` is the flag false.
unfoldable pub get_role : String → Option String
unfolding is_listed
get_role r = if is_listed r listed_roles then some r else none
