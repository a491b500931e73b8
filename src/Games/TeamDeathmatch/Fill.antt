-- ===== src/Games/TeamDeathmatch/Fill.antt =====
-- What filling the teams leaves
-- (games/mode_team_deathmatch/mode_team_deathmatch.go).
use masc_server.Prelude.{String, some, ◌≡◌, ◌↔◌, string_key, Any, lookup}
use masc_server.Games.Players.{PlayerManagement}
use masc_server.Games.TeamDeathmatch.{Team}

-- Exactly the users who are active in a team are among its players.
abbrev pub Filled : PlayerManagement → Team → Type 0
Filled pm t = (id : String) → Any (λ p. p.id ≡ id) t.players ↔ (lookup id pm.active ≡ some t.key)
