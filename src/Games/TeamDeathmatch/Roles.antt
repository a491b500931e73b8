-- ===== src/Games/TeamDeathmatch/Roles.antt =====
-- `performRoleAssignment` of games/mode_team_deathmatch/mode_team_deathmatch.go. What `fmt` prints
-- for a number is a parameter.
pub mod NoSecondTeam
use Prim.Native.String.{◌++◌ as ◌^◌}
use masc_server.Prelude.{
  ℕ, zero, suc, String, Bool, true, false, Option, none, some, List, [], ◌∷◌, ◌++◌, map, ◌⊎◌, inl,
  inr,
}
use masc_server.Errors.{GoError, nil, native, masc, mk_error, internal, wrap}
use masc_server.Acting.Roles.{team_base, team_base_monitor, match_monitor}
use masc_server.Casting.{ActorRequest, Casting, Stage, new_casting, add_request, get_winners}
use masc_server.Casting.Run.{Reply, Outcome, waiting, panicked, finished, perform_and_hire}
use masc_server.Games.TeamDeathmatch.{
  Match, MatchPhase, init, setup, countdown, running, post, end, Team,
}

-- A step on a casting, after one that may have failed.
abbrev pub then_request :
    String → Casting × GoError → (Casting → Casting × GoError) → Casting × GoError
then_request context (c, nil) next = next c
then_request context (c, native s) next = (c, wrap (native s) context none)
then_request context (c, masc e) next = (c, wrap (masc e) context none)

-- A step on a casting, after one whose error is returned as it is.
abbrev pub returned : Casting × GoError → (Casting → Casting × GoError) → Casting × GoError
returned (c, nil) next = next c
returned (c, native s) next = (c, native s)
returned (c, masc e) next = (c, masc e)

-- The request for the monitors of a team's base. It has no minimum and no maximum.
abbrev pub team_base_monitor_request : ActorRequest
team_base_monitor_request = record {
  displayed_name = "Team Base Monitor";
  key = "team-base-monitor";
  role = team_base_monitor;
  min = none;
  max = none;
}

abbrev pub match_monitor_request : ActorRequest
match_monitor_request = record {
  displayed_name = "Match Monitor";
  key = "match-monitor";
  role = match_monitor;
  min = none;
  max = none;
}

module _ (print : ℕ → String) where
  -- The request for the bases of team `i`.
  abbrev pub team_base_request : ℕ → ActorRequest
  team_base_request i = record {
    displayed_name = "Team Base " ^ print i;
    key = "team-base-" ^ print i;
    role = team_base;
    min = some 1;
    max = none;
  }

  -- The loop that adds the requests of the teams, from team `i` on, for `n` teams.
  unfoldable pub add_team_requests : ℕ → ℕ → Casting → Casting × GoError
  add_team_requests i zero c = (c, nil)
  add_team_requests i (suc n) c =
      then_request "add actor request for team base" (add_request (team_base_request i) c) λ c.
        then_request "add actor request for team base monitor"
          (add_request team_base_monitor_request c) (add_team_requests (suc i) n)

  -- All requests of the match.
  unfoldable pub match_requests : ℕ → Casting × GoError
  unfolding add_team_requests
  match_requests n = returned (add_team_requests 0 n new_casting) λ c.
      then_request "add actor request for match monitor" (add_request match_monitor_request c)
        λ c. (c, nil)

  new_team : ℕ → List String → List String → Team
  new_team i bases monitors = record {
    key = "team-" ^ print i;
    bases = bases;
    monitors = monitors;
    players = [];
  }

  -- The winners of one key, or the error with the context of the caller.
  winners_or : String → Option (List String) × GoError → List String ⊎ GoError
  winners_or context (none, err) = inr (wrap err context none)
  winners_or context (some ids, err) = inl ids

  with_team :
      ℕ → List String ⊎ GoError → List String ⊎ GoError → List Team × GoError → List Team × GoError
  unfolding new_team
  with_team i (inr err) monitors rest = ([], err)
  with_team i (inl bases) (inr err) rest = ([], err)
  with_team i (inl bases) (inl monitors) (ts, err) = (new_team i bases monitors ∷ ts, err)

  -- The loop that makes the teams, from team `i` on, for `n` teams.
  unfoldable pub collect_teams : ℕ → ℕ → Casting → List Team × GoError
  unfolding with_team winners_or
  collect_teams i zero c = ([], nil)
  collect_teams i (suc n) c =
      with_team i
        (winners_or "retrieve team base winners" (get_winners (team_base_request i).key c))
        (winners_or "retrieve team base monitor winners"
          (get_winners team_base_monitor_request.key c))
        (collect_teams (suc i) n c)

  -- The monitors of the match. The code makes a slice for them and then copies each winner to its
  -- own place in the slice of winners, so that the slice of the match keeps its nils.
  with_monitors : Match → List String ⊎ GoError → Match × GoError
  with_monitors m (inr err) = (m, err)
  with_monitors m (inl ids) = (record m { monitors = map (λ id. none) ids }, nil)

  with_teams : Match → Casting → List Team × GoError → Match × GoError
  unfolding with_monitors winners_or
  with_teams m c (ts, nil) =
      with_monitors (record m { teams = ts })
        (winners_or "retrieve match monitor winners" (get_winners match_monitor_request.key c))
  with_teams m c (ts, native s) = (record m { teams = ts }, native s)
  with_teams m c (ts, masc e) = (record m { teams = ts }, masc e)

  -- What follows the castings of `PerformAndHire`.
  unfoldable pub after_casting : Match → Casting × Stage × Outcome → Match × Stage × Outcome
  unfolding with_teams collect_teams
  after_casting m (c, st, waiting) = (m, st, waiting)
  after_casting m (c, st, panicked) = (m, st, panicked)
  after_casting m (c, st, finished nil) =
      let (m', err) = with_teams m c (collect_teams 0 m.team_count c) in (m', st, finished err)
  after_casting m (c, st, finished (native s)) =
      (m, st, finished (wrap (native s) "perform role assignment" none))
  after_casting m (c, st, finished (masc e)) =
      (m, st, finished (wrap (masc e) "perform role assignment" none))

  with_requests : List Reply → Match → Stage → Casting × GoError → Match × Stage × Outcome
  unfolding after_casting
  with_requests replies m st (c, nil) =
      after_casting m (perform_and_hire replies m.game_master c st)
  with_requests replies m st (c, native s) = (m, st, finished (native s))
  with_requests replies m st (c, masc e) = (m, st, finished (masc e))

  -- `performRoleAssignment`
  unfoldable pub perform_role_assignment : List Reply → Match → Stage → Match × Stage × Outcome
  unfolding with_requests match_requests
  perform_role_assignment replies m st = elim m.phase [
    | setup ↦ with_requests replies m st (match_requests m.team_count)
    | _ ↦ (
      m,
      st,
      finished
          (masc (mk_error internal nil "perform role assignment only allowed in setup phase" none)),
    )
  ]
