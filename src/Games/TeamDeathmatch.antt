-- ===== src/Games/TeamDeathmatch.antt =====
-- The team deathmatch (games/mode_team_deathmatch/mode_team_deathmatch.go): its configuration, its
-- phases, the assignment of its roles and the filling of its teams.
pub mod Config
pub mod Roles
pub mod Fill
use masc_server.Prelude.{
  ℕ, ◌+◌, String, Bool, true, false, Option, none, some, List, [], ◌∷◌, ◌++◌, map, length,
}
use masc_server.Errors.{GoError, nil}
use masc_server.Errors.Generators.{new_match_already_started_error}
use masc_server.Games.Players.{PlayerManagement, Player, players_in_team}

-- `MatchPhase` (messages/games.go)
pub data MatchPhase : Type 0 where
  init setup countdown running post end : MatchPhase

-- `player`; a player who is filled in has the zero of `lives`.
pub record TeamPlayer : Type 0 where
  pub id : String
  pub is_alive : Bool
  pub lives : ℕ

-- `team`. An actor is known by its id.
pub record Team : Type 0 where
  pub key : String
  pub bases : List String
  pub monitors : List String
  pub players : List TeamPlayer

-- `MessageMatchStatus`, without the times and the configuration.
pub record MatchStatus : Type 0 where
  pub match_phase : MatchPhase
  pub is_active : Bool
  pub player_count : ℕ

-- `Match` with its `BaseMatch`: `team_count` is that of its configuration, `statuses` is what was
-- sent to `StatusUpdates`, oldest first, and a monitor is `none` where the slice has nil.
pub record Match : Type 0 where
  pub team_count : ℕ
  pub phase : MatchPhase
  pub is_active : Bool
  pub game_master : String
  pub player_management : PlayerManagement
  pub teams : List Team
  pub monitors : List (Option String)
  pub statuses : List MatchStatus

unfoldable pub player_count : List Team → ℕ
player_count [] = 0
player_count (t ∷ ts) = length t.players + player_count ts

-- `notifyMatchStatus`
unfoldable pub notify_match_status : Match → Match
notify_match_status m = record m {
  statuses =
      m.statuses
      ++ record {
        match_phase = m.phase;
        is_active = m.is_active;
        player_count = player_count m.teams;
      }
        ∷ [];
}

-- `changePhase`
unfoldable pub change_phase : MatchPhase → Match → Match
unfolding notify_match_status
change_phase p m = notify_match_status (record m { phase = p })

-- `Start`, up to the goroutine that it starts.
unfoldable pub start : Match → Match × GoError
unfolding notify_match_status
start m = elim m.phase [
  | init ↦ (notify_match_status (record m { phase = setup }), nil)
  | _ ↦ (m, new_match_already_started_error)
]

-- `participatingActors`
unfoldable pub participating_actors : List Team → List (Option String) → List (Option String)
participating_actors [] monitors = monitors
participating_actors (t ∷ ts) monitors =
    map some t.bases ++ map some t.monitors ++ participating_actors ts monitors

new_player : Player → TeamPlayer
new_player p = record { id = p.user; is_alive = false; lives = 0 }

fill : PlayerManagement → List Team → List Team
unfolding new_player
fill pm [] = []
fill pm (t ∷ ts) = record t { players = map new_player (players_in_team t.key pm) } ∷ fill pm ts

-- `fillTeams`
unfoldable pub fill_teams : Match → Match
unfolding fill
fill_teams m = record m { teams = fill m.player_management m.teams }
