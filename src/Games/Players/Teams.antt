-- ===== src/Games/Players/Teams.antt =====
-- The players of a team (games/player_management.go).
use masc_server.Prelude.{
  String, some, [], ◌∷◌, lookup, string_key, eq_iff, arith, ◌≡◌, ◌↔◌, Distinct, Dict, Any,
}
use masc_server.Games.Players.{PlayerManagement, in_team, players_in_team}

module _ (team : String) where
  in_team-lookup :
      (user : String) (m : Dict String String)
      → Any (λ p. p.user ≡ user) (in_team team m)
      → Distinct m
      → lookup user m ≡ some team
  unfolding in_team lookup
  in_team-lookup user [] a d = elim a [ ]
  in_team-lookup user ((id, key) ∷ m) a d =
      ground (arith, in_team-lookup user m, eq_iff id user, eq_iff key team)

  lookup-in_team :
      (user : String) (m : Dict String String)
      → lookup user m ≡ some team
      → Any (λ p. p.user ≡ user) (in_team team m)
  unfolding in_team lookup
  lookup-in_team user [] h = cc
  lookup-in_team user ((id, key) ∷ m) h =
      ground (arith, lookup-in_team user m, eq_iff id user, eq_iff key team)

-- Where no user is active twice, exactly the users who are active in a team are among its players.
pub players_in_team_iff :
    (team user : String) (pm : PlayerManagement)
    → Distinct pm.active
    → Any (λ p. p.user ≡ user) (players_in_team team pm) ↔ (lookup user pm.active ≡ some team)
unfolding players_in_team
players_in_team_iff team user pm d =
    (λ a. in_team-lookup team user pm.active a d, lookup-in_team team user pm.active)
