-- ===== src/Games/Ready.antt =====
-- games/ready.go: the wait until everybody is ready. Each section under the awaiter's locks is one
-- step, and the goroutines of the actors run in any order. What `Name` returns for an actor is a
-- parameter, and the receiver of the updates is taken to accept each.
pub mod Everybody
pub mod Ends
use masc_server.Prelude.{
  ℕ, zero, suc, String, Bool, true, false, ◌&&◌, not, Option, none, some, List, [], ◌∷◌,
  if◌then◌else◌, Dict, insert, string_key, nat_key, ◌==◌,
}
use masc_server.Errors.{GoError, nil, wrap}
use masc_server.Errors.Generators.{new_context_aborted_error}
use masc_server.Casting.{is_nil}

-- `ReadyStateUpdateActorState` with the fields of its `ActorRepresentation`.
pub record ActorState : Type 0 where
  pub actor : String
  pub name : String
  pub is_ready : Bool

-- `ReadyStateUpdate`
pub record ReadyStateUpdate : Type 0 where
  pub is_everybody_ready : Bool
  pub actor_states : List ActorState

-- `readyAwaiter`: `ready_state_updates` is what was sent, the newest first, and `signals` counts the
-- sends to `done`. An actor is known by its id.
pub record ReadyAwaiter : Type 0 where
  pub is_accepting : Bool
  pub ready_state_updates : List ReadyStateUpdate
  pub ready_states : Dict String Bool
  pub original_err : GoError
  pub signals : ℕ

-- The initial states: nobody is ready.
unfoldable pub not_ready : List String → Dict String Bool → Dict String Bool
not_ready [] states = states
not_ready (a ∷ actors) states = not_ready actors (insert a false states)

-- The awaiter once a goroutine has been started for each actor.
unfoldable pub new_ready_awaiter : List String → ReadyAwaiter
unfolding not_ready
new_ready_awaiter actors = record {
  is_accepting = true;
  ready_state_updates = [];
  ready_states = not_ready actors [];
  original_err = nil;
  signals = 0;
}

-- The loop that also finds out whether everybody is ready.
everybody : Dict String Bool → Bool
everybody [] = true
everybody ((a, is_ready) ∷ states) = is_ready && everybody states

states_of : (String → String) → Dict String Bool → List ActorState
states_of name [] = []
states_of name ((a, is_ready) ∷ states) =
    record { actor = a; name = name a; is_ready = is_ready } ∷ states_of name states

-- The update is sent; if everybody is ready no further one is accepted and the wait ends.
published : Bool → ReadyStateUpdate → ReadyAwaiter → ReadyAwaiter
published false u ra = record ra { ready_state_updates = u ∷ ra.ready_state_updates }
published true u ra = record ra {
  ready_state_updates = u ∷ ra.ready_state_updates;
  is_accepting = false;
  signals = suc ra.signals;
}

-- `handleReadyStateUpdate`
unfoldable pub handle_ready_state_update : (String → String) → ReadyAwaiter → ReadyAwaiter
unfolding published everybody states_of
handle_ready_state_update name ra =
    if ra.is_accepting
    then published (everybody ra.ready_states)
        (record {
          is_everybody_ready = everybody ra.ready_states;
          actor_states = states_of name ra.ready_states;
        })
        ra
    else ra

-- `handleError`
unfoldable pub handle_error : GoError → ReadyAwaiter → ReadyAwaiter
handle_error err ra =
    if ra.is_accepting && is_nil ra.original_err
    then record ra { original_err = err; is_accepting = false; signals = suc ra.signals }
    else ra

-- The steps of `areYouReadyForActor`: the actor's answer is stored, the awaiter is told of it, or the
-- request could not be sent.
pub data Step : Type 0 where
  answers : String → Bool → Step
  notifies : Step
  fails : GoError → Step

unfoldable pub step : (String → String) → Step → ReadyAwaiter → ReadyAwaiter
unfolding handle_ready_state_update handle_error
step name (answers a is_ready) ra = record ra { ready_states = insert a is_ready ra.ready_states }
step name notifies ra = handle_ready_state_update name ra
step name (fails err) ra = handle_error (wrap err "send ready-state request to actor" none) ra

unfoldable pub run : (String → String) → List Step → ReadyAwaiter → ReadyAwaiter
run name [] ra = ra
run name (s ∷ steps) ra = run name steps (step name s ra)

-- What the wait comes to: `aborted` tells whether the context's end is taken.
pub data Wait : Type 0 where
  waiting : Wait
  returned : GoError → Wait

unfoldable pub await : Bool → ReadyAwaiter → Wait
await aborted ra =
    if aborted
    then returned (new_context_aborted_error "wait until everybody ready")
    else if ra.signals == 0
    then waiting
    else returned ra.original_err

-- `RequestAndAwaitReady` up to the end of its wait, with the updates that it has sent, the newest first.
-- The call then returns that result once its goroutines have ended, which `requests.Wait` waits for.
unfoldable pub request_and_await_ready :
    (String → String) → Bool → List Step → List String → List ReadyStateUpdate × Wait
unfolding run await new_ready_awaiter
request_and_await_ready name aborted steps [] = ([], returned nil)
request_and_await_ready name aborted steps (a ∷ actors) =
    let ra = run name steps (new_ready_awaiter (a ∷ actors)) in
    (ra.ready_state_updates, await aborted ra)
