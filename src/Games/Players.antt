-- ===== src/Games/Players.antt =====
-- games/player_management.go: who plays in which team, and the office that lets players join.
pub mod Log
pub mod Teams
pub mod Office
use masc_server.Prelude.{
  String, Bool, true, false, Option, none, some, List, [], ◌∷◌, ◌++◌, if◌then◌else◌, Dict, lookup,
  insert, delete, string_key, ◌==◌,
}
use masc_server.Errors.{GoError, nil, native, masc, mk_error, bad_request, str, wrap, blame_user}
use masc_server.Messages.{OutgoingMessage, no_content, join_open}
use masc_server.Acting.Actors.{Actor, send, actor_error_message_from_error}

-- `PlayerManagementUpdate`
pub record Update : Type 0 where
  pub user : String
  pub team : String
  pub has_joined : Bool

-- `PlayerManagement`: `updates` is `none` for the nil channel, and else what was sent, the newest
-- first. The receiver is taken to accept each update.
pub record PlayerManagement : Type 0 where
  pub active : Dict String String
  pub updates : Option (List Update)

-- `NewPlayerManagement`
unfoldable pub new_player_management : Bool → PlayerManagement
new_player_management with_channel = record {
  active = [];
  updates = if with_channel then some [] else none;
}

-- `IsActive`
unfoldable pub is_active : String → PlayerManagement → Bool
is_active id pm = elim (lookup id pm.active) [ none ↦ false | some team ↦ true ]

publish : Update → Option (List Update) → Option (List Update)
publish u none = none
publish u (some l) = some (u ∷ l)

-- What follows the lookup of the user in `AddPlayer` and in `RemovePlayer`.
unfoldable pub added : Option String → String → String → PlayerManagement → PlayerManagement × Bool
unfolding publish
added (some _) id team pm = (pm, false)
added none id team pm = (
  record {
    active = insert id team pm.active;
    updates = publish (record { user = id; team = team; has_joined = true }) pm.updates;
  },
  true,
)

unfoldable pub removed : Option String → String → PlayerManagement → PlayerManagement × Bool
unfolding publish
removed none id pm = (pm, false)
removed (some team) id pm = (
  record {
    active = delete id pm.active;
    updates = publish (record { user = id; team = team; has_joined = false }) pm.updates;
  },
  true,
)

-- `AddPlayer`
unfoldable pub add_player : String → String → PlayerManagement → PlayerManagement × Bool
unfolding added
add_player id team pm = added (lookup id pm.active) id team pm

-- `RemovePlayer`
unfoldable pub remove_player : String → PlayerManagement → PlayerManagement × Bool
unfolding removed
remove_player id pm = removed (lookup id pm.active) id pm

-- `PlayerManagementPlayer`
pub record Player : Type 0 where
  pub team : String
  pub user : String

in_team : String → Dict String String → List Player
in_team team [] = []
in_team team ((user, key) ∷ m) =
    let rest = in_team team m in
    if key == team then record { team = team; user = user } ∷ rest else rest

-- `PlayersInTeam`
unfoldable pub players_in_team : String → PlayerManagement → List Player
unfolding in_team
players_in_team team pm = in_team team pm.active

all_players : Dict String String → List Player
all_players [] = []
all_players ((user, team) ∷ m) = record { team = team; user = user } ∷ all_players m

-- `ActivePlayers`
unfoldable pub active_players : PlayerManagement → List Player
unfolding all_players
active_players pm = all_players pm.active
