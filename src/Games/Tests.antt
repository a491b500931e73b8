-- ===== src/Games/Tests.antt =====
-- Players, teams and the configuration at concrete inputs (games/player_management.go and
-- games/mode_team_deathmatch/mode_team_deathmatch.go).
use masc_server.Prelude.{
  ℕ, zero, suc, String, true, false, none, some, List, [], ◌∷◌, ◌++◌, ◌≡◌, ◌≢◌, refl, inl, inr,
  arith, string_key, ltb,
}
use masc_server.Errors.{GoError, nil}
use masc_server.Acting.Subscriptions.{new_subscription_manager}
use masc_server.Acting.Actors.{Actor}
use masc_server.Casting.{Stage}
use masc_server.Casting.Run.{finished, assigns}
use masc_server.Games.Players.{PlayerManagement, new_player_management}
use masc_server.Games.Players.Log.{Request, join, leave, Faithful, serve_all, updates-Faithful}
use masc_server.Games.Players.Office.{Event, player_join, guest_join, player_leave}
use masc_server.Games.Ready.{Step, answers, notifies, returned, request_and_await_ready}
use masc_server.Games.Ready.Ends.{request_and_await_ready-ends}
use masc_server.Games.Ready.Everybody.{Told, request_and_await_ready-Told}
use masc_server.Games.TeamDeathmatch.{Match, setup, Team}
use masc_server.Games.TeamDeathmatch.Config.{
  pos, Floats, ConfigRequest, config_from_request, config_from_request_lem, Answers,
}
use masc_server.Games.TeamDeathmatch.Roles.{perform_role_assignment}
use masc_server.Games.TeamDeathmatch.Roles.NoSecondTeam.{perform_role_assignment-fails}

abbrev requests : List Request
requests = join "ann" "team-0" ∷ join "bob" "team-1" ∷ join "ann" "team-1" ∷ leave "bob" ∷ []

updates-Faithful_example : Faithful (serve_all requests (new_player_management true))
updates-Faithful_example = updates-Faithful requests

abbrev base : Actor
base = record {
  id = "a";
  role = "team-base";
  contract = record { name = "a"; valid = true; cancelled = false };
  is_connected = true;
  subscriptions = some new_subscription_manager;
  sent = [];
  woken = 0;
}

abbrev events : List Event
events = guest_join (inl "ann") ∷ player_join (inl "ann") ∷ player_leave "bob" ∷ []

abbrev players : PlayerManagement
players = record { active = ("ann", "team-0") ∷ ("bob", "team-1") ∷ []; updates = none }

abbrev team : String → Team
team key = record { key = key; bases = "a" ∷ []; monitors = []; players = [] }

abbrev two_teams : Match
two_teams = record {
  team_count = 2;
  phase = setup;
  is_active = true;
  game_master = "gm";
  player_management = players;
  teams = team "team-0" ∷ team "team-1" ∷ [];
  monitors = [];
  statuses = [];
}

-- Only the first two numbers are printed as they are.
abbrev print : ℕ → String
print zero = "0"
print (suc n) = "1"

abbrev stage : Stage
stage = record { actor = λ id. base; listed = λ id. true }

perform_role_assignment-fails_example :
    (err : GoError) × (err ≢ nil)
    × (perform_role_assignment print (assigns [] ∷ []) two_teams stage
        ≡ (two_teams, stage, finished err))
perform_role_assignment-fails_example =
    perform_role_assignment-fails print (assigns [] ∷ []) two_teams stage refl (omega arith)

-- Tenths in place of floats.
abbrev tenths : Floats ℕ
tenths = record { below_zero = λ x. false; above_one = λ x. ltb 10 x; two_fifths = 4 }

abbrev too_large : ConfigRequest ℕ
too_large = record {
  team_count = some (pos 4);
  lives_per_player = none;
  respawn_team_size = some 11;
}

config_from_request_lem_example : Answers tenths too_large (config_from_request tenths too_large)
config_from_request_lem_example = config_from_request_lem tenths too_large

-- The first actor takes its answer back before the second one is ready.
abbrev steps : List Step
steps =
    answers "gm" true
    ∷ notifies
    ∷ answers "gm" false
    ∷ answers "base" true
    ∷ notifies
    ∷ answers "gm" true
    ∷ notifies
    ∷ []

request_and_await_ready-Told_example :
    let (updates, wait) = request_and_await_ready (λ id. id) false steps ("gm" ∷ "base" ∷ []) in
    Told ("gm" ∷ "base" ∷ []) updates wait
request_and_await_ready-Told_example =
    request_and_await_ready-Told (λ id. id) steps "gm" ("base" ∷ [])

-- Both answer in turn, each followed by its notification, of which the last is left out.
abbrev turns : List Step
turns = answers "gm" true ∷ notifies ∷ answers "base" true ∷ []

request_and_await_ready-ends_example :
    (request_and_await_ready
      (λ id. id)
      false
      (turns ++ notifies ∷ (answers "base" false ∷ notifies ∷ []))
      ("gm" ∷ "base" ∷ [])).1
    ≡ returned nil
request_and_await_ready-ends_example =
    request_and_await_ready-ends (λ id. id) turns (answers "base" false ∷ notifies ∷ []) "gm"
      ("base" ∷ []) (inl refl, (tt, (inr (inl refl), tt))) (inr (inl refl), (tt, tt))
      (refl, (refl, tt))
