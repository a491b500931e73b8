-- ===== src/Games/TeamDeathmatch/Roles/NoSecondTeam.antt =====
-- The requests of a team deathmatch with more than one team
-- (games/mode_team_deathmatch/mode_team_deathmatch.go).
use masc_server.Prelude.{
  ℕ, zero, suc, ◌≤◌, String, true, List, ◌≡◌, ◌≢◌, refl, arith, string_key, same_refl, ◌∙◌,
}
use masc_server.Errors.{GoError, nil, native, masc, wrap}
use masc_server.Casting.{ActorRequest, Casting, Stage, add_request, key_taken, new_casting}
use masc_server.Casting.Requests.{add_request_cases, key_taken-append}
use masc_server.Casting.Run.{Reply, finished}
use masc_server.Games.TeamDeathmatch.{Match, setup}
use masc_server.Games.TeamDeathmatch.Roles.{
  then_request, returned, team_base_monitor_request, team_base_request, add_team_requests,
  match_requests, with_requests, perform_role_assignment,
}

-- Once a request for the monitors has been added, there is no further one.
add_request-taken :
    (r : ActorRequest) (c : Casting) → key_taken r.key c.requests ≡ true → (add_request r c).1 ≢ nil
add_request-taken r c t e = ground (arith, add_request_cases r c)

add_request-keeps :
    (key : String) (r : ActorRequest) (c : Casting)
    → key_taken key c.requests ≡ true
    → key_taken key (add_request r c).0.requests ≡ true
unfolding add_request
add_request-keeps key r c t = ground (arith, key_taken-append key c.requests r)

add_request-takes :
    (r : ActorRequest) (c : Casting)
    → (add_request r c).1 ≡ nil
    → key_taken r.key (add_request r c).0.requests ≡ true
unfolding add_request wrap
add_request-takes r c e = ground (arith, key_taken-append r.key c.requests r, same_refl r.key)

then_request-fails :
    (context : String) (x : Casting × GoError) (next : Casting → Casting × GoError)
    → (x.1 ≡ nil → (next x.0).1 ≢ nil)
    → (then_request context x next).1 ≢ nil
unfolding wrap
then_request-fails context (c, nil) next h = h refl
then_request-fails context (c, native s) next h = λ q. cc
then_request-fails context (c, masc e) next h = λ q. cc

returned-fails :
    (x : Casting × GoError) (next : Casting → Casting × GoError)
    → x.1 ≢ nil
    → (returned x next).1 ≢ nil
returned-fails (c, nil) next h = absurd (h refl)
returned-fails (c, native s) next h = h
returned-fails (c, masc e) next h = h

module _ (print : ℕ → String) where
  -- A second team has no request for its monitors.
  add_team_requests-taken :
      (i n : ℕ) (c : Casting)
      → key_taken team_base_monitor_request.key c.requests ≡ true
      → (add_team_requests print i (suc n) c).1 ≢ nil
  unfolding add_team_requests
  add_team_requests-taken i n c t =
      then_request-fails _ (add_request (team_base_request print i) c) _ λ e.
        then_request-fails _
          (add_request team_base_monitor_request (add_request (team_base_request print i) c).0) _
          λ e'. absurd (
            add_request-taken team_base_monitor_request _
              (add_request-keeps team_base_monitor_request.key (team_base_request print i) c t) e')

  add_team_requests-fails :
      (i n : ℕ) (c : Casting) → (add_team_requests print i (suc (suc n)) c).1 ≢ nil
  unfolding add_team_requests
  add_team_requests-fails i n c =
      then_request-fails _ (add_request (team_base_request print i) c) _ λ e.
        then_request-fails _
          (add_request team_base_monitor_request (add_request (team_base_request print i) c).0) _
          λ e'. add_team_requests-taken (suc i) n _ (
            add_request-takes team_base_monitor_request
              (add_request (team_base_request print i) c).0 e')

  match_requests-fails : (n : ℕ) → 2 ≤ n → (match_requests print n).1 ≢ nil
  unfolding match_requests
  match_requests-fails zero h = absurd (omega arith)
  match_requests-fails (suc zero) h = absurd (omega arith)
  match_requests-fails (suc (suc n)) h =
      returned-fails (add_team_requests print 0 (suc (suc n)) new_casting) _
        (add_team_requests-fails 0 n new_casting)

  with_requests-fails :
      (replies : List Reply) (m : Match) (st : Stage) (x : Casting × GoError)
      → x.1 ≢ nil
      → (err : GoError) × (err ≢ nil) × (with_requests print replies m st x ≡ (m, st, finished err))
  unfolding with_requests
  with_requests-fails replies m st (c, nil) h = absurd (h refl)
  with_requests-fails replies m st (c, native s) h = (native s, h, refl)
  with_requests-fails replies m st (c, masc e) h = (masc e, h, refl)

-- With two or more teams, the assignment of roles in the setup phase returns an error before the
-- game master is asked: neither the match nor any actor changes, whatever would be replied.
pub perform_role_assignment-fails :
    (print : ℕ → String) (replies : List Reply) (m : Match) (st : Stage)
    → m.phase ≡ setup
    → 2 ≤ m.team_count
    → (err : GoError) × (err ≢ nil)
      × (perform_role_assignment print replies m st ≡ (m, st, finished err))
unfolding perform_role_assignment
perform_role_assignment-fails print replies m st p h =
    let q : perform_role_assignment print replies m st
        ≡ with_requests print replies m st (match_requests print m.team_count) =
      simp (p, perform_role_assignment) in
    let (err, ne, e) =
      with_requests-fails print replies m st (match_requests print m.team_count)
        (match_requests-fails print m.team_count h) in
    (err, ne, q ∙ e)
