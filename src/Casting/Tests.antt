-- ===== src/Casting/Tests.antt =====
-- Runs of a casting at concrete inputs (casting/casting.go).
use masc_server.Prelude.{
  String, true, false, none, some, List, [], ◌∷◌, ◌++◌, ◌≡◌, ◌≢◌, ◌↔◌, ◌⊎◌, refl, All, string_key,
  ◌==◌, if◌then◌else◌, lookup, insert,
}
use masc_server.Errors.{GoError, nil}
use masc_server.Messages.{RoleAssignment}
use masc_server.Acting.Subscriptions.{new_subscription_manager}
use masc_server.Acting.Actors.{
  Actor, new_actor, subscribe_message_type, send, unsubscribe_actor, hire,
}
use masc_server.Casting.{
  ActorRequest, Casting, ready, casting, Stage, new_casting, add_request, get_winners,
  fail_internal, assure_casting_requests_alter_allowed, put, winners_of,
}
use masc_server.Casting.Hiring.{AllHired, SameHired, IsBadRequest, hire_winners_lem}
use masc_server.Casting.Satisfied.{
  Satisfied, assure_winners_satisfy_requests_iff, set_winners_lem, assigned,
}
use masc_server.Casting.Requests.{Bounded, add_request_iff}
use masc_server.Errors.Generators.{new_context_aborted_error}
use masc_server.Casting.Assign.{set_winners, assure_winners_satisfy_requests}
use masc_server.Casting.Hire.{hire_winners, to_hire}
use masc_server.Casting.Run.{
  Reply, aborts, assigns, finished, Outcome, perform_and_hire, ask, perform_loop, ask_with,
  handle_reply,
}
use masc_server.Casting.Outcome.{Achieved, perform_and_hire-Achieved, perform_and_hire-stuck}

-- A game master who is hired, and two actors who are not.
abbrev master : Actor
master = record {
  id = "gm";
  role = "game-master";
  contract = record { name = "gm"; valid = true; cancelled = false };
  is_connected = true;
  subscriptions = some new_subscription_manager;
  sent = [];
  woken = 0;
}

abbrev stage : Stage
stage = record {
  actor = λ id. if id == "gm" then master else new_actor id "team-base";
  listed = λ id. true;
}

abbrev one_base : ActorRequest
one_base = record {
  displayed_name = "Team Base 0";
  key = "team-base-0";
  role = "team-base";
  min = some 1;
  max = some 2;
}

abbrev one_request : Casting
one_request = record new_casting { requests = one_base ∷ [] }

abbrev base_for : String → RoleAssignment
base_for id = record { key = "team-base-0"; actor_id = id }

-- The jury first assigns nobody and then one actor.
abbrev replies : List Reply
replies = assigns [] ∷ assigns (base_for "a" ∷ []) ∷ []

abbrev run : Casting × Stage × Outcome
run = perform_and_hire replies "gm" one_request stage

run_ok : run ≡ (run.0, run.1, finished nil)
unfolding perform_and_hire assure_casting_requests_alter_allowed new_casting perform_loop ask
    ask_with subscribe_message_type send handle_reply unsubscribe_actor put set_winners
    assure_winners_satisfy_requests lookup insert hire_winners to_hire hire new_actor
run_ok = refl

perform_and_hire-Achieved_example : (run.0.requests ≡ one_request.requests) × Achieved run.0 run.1
perform_and_hire-Achieved_example =
    perform_and_hire-Achieved replies "gm" one_request run.0 stage run.1 run_ok

-- The context ends before the jury replies.
abbrev aborted_run : Casting × Stage × Outcome
aborted_run = perform_and_hire (aborts ∷ []) "gm" one_request stage

abbrev abortion : GoError
abortion = new_context_aborted_error "perform casting"

aborted_run_fails : aborted_run ≡ (aborted_run.0, aborted_run.1, finished abortion)
unfolding perform_and_hire assure_casting_requests_alter_allowed new_casting perform_loop ask
    ask_with subscribe_message_type send handle_reply unsubscribe_actor put
aborted_run_fails = refl

abortion_is_error : abortion ≢ nil
unfolding new_context_aborted_error
abortion_is_error q = cc

perform_and_hire-stuck_example :
    (aborted_run.0.state ≡ casting)
    × (add_request one_base aborted_run.0
        ≡ (aborted_run.0, fail_internal "already performing casting"))
    × (perform_and_hire replies "gm" aborted_run.0 stage
        ≡ (aborted_run.0, stage, finished (fail_internal "already performing casting")))
    × (get_winners "team-base-0" aborted_run.0 ≡ (none, fail_internal "casting not done yet"))
unfolding new_casting
perform_and_hire-stuck_example =
    perform_and_hire-stuck (aborts ∷ []) replies "gm" "gm" one_request aborted_run.0 stage
      aborted_run.1 stage abortion one_base "team-base-0" refl abortion_is_error aborted_run_fails

-- Two winners, of whom the second is the game master, who is hired already.
abbrev two_winners : Casting
two_winners = record one_request { winners = ("team-base-0", "a" ∷ "gm" ∷ []) ∷ [] }

hire_winners_lem_example :
    (st' : Stage) × (bad : GoError) × (hire_winners two_winners stage ≡ some (st', bad, nil))
    × ((bad ≡ nil) × AllHired (to_hire two_winners.winners) stage st'
        ⊎ IsBadRequest bad × SameHired st' stage)
hire_winners_lem_example = hire_winners_lem two_winners stage

add_request_iff_example :
    (((add_request one_base one_request).1 ≡ nil) ↔ (
      (one_request.state ≡ ready)
      × All (λ q. q.key ≢ "team-base-0") one_request.requests
      × Bounded (some 1) (some 2)))
    × ((((add_request one_base one_request).1 ≡ nil)
          × ((add_request one_base one_request).0
              ≡ record one_request { requests = one_request.requests ++ one_base ∷ [] }))
        ⊎ ((add_request one_base one_request).0 ≡ one_request))
add_request_iff_example = add_request_iff one_base one_request

assure_winners_satisfy_requests_iff_example :
    (assure_winners_satisfy_requests two_winners ≡ nil)
    ↔ All (Satisfied two_winners.winners) two_winners.requests
assure_winners_satisfy_requests_iff_example = assure_winners_satisfy_requests_iff two_winners

set_winners_lem_example :
    All (λ a. stage.listed a.actor_id ≡ true) (base_for "a" ∷ [])
    × (winners_of "team-base-0" (set_winners stage (base_for "a" ∷ []) one_request).0.winners
        ≡ assigned "team-base-0" (base_for "a" ∷ []))
unfolding set_winners
set_winners_lem_example = set_winners_lem stage (base_for "a" ∷ []) one_request "team-base-0" refl
