-- ===== src/Casting.antt =====
-- casting/casting.go: a jury assigns actors to requested roles, and the winners are hired.
pub mod Assign
pub mod Hire
pub mod Run
pub mod Requests
pub mod Satisfied
pub mod Hiring
pub mod Judging
pub mod Outcome
mod Tests
use masc_server.Prelude.{
  ℕ, zero, suc, ◌+◌, String, Bool, true, false, Option, none, some, List, [], ◌∷◌, ◌++◌,
  if◌then◌else◌, not, Dict, lookup, insert, string_key, nat_key, ◌==◌, ◌&&◌, ◌||◌, ltb, length, map,
}
use Prim.Native.Nat.{◌%◌}
use masc_server.Errors.{
  GoError, nil, native, masc, mk_error, internal, bad_request, unexpected, str, int64, other, wrap,
  print_error, aborted,
}
use masc_server.Errors.Generators.{new_context_aborted_error}
use masc_server.Messages.{
  OutgoingMessage, RoleAssignment, RoleAssignmentOrder, request_role_assignments,
}
use masc_server.Acting.Subscriptions.{Subscription}
use masc_server.Acting.Actors.{
  Actor, hire, fire, send, subscribe_message_type, unsubscribe_actor,
  actor_error_message_from_error,
}

-- `ActorRequest`; `none` is an invalid `nulls.UInt32`.
pub record ActorRequest : Type 0 where
  pub displayed_name : String
  pub key : String
  pub role : String
  pub min : Option ℕ
  pub max : Option ℕ

pub data CastingState : Type 0 where
  ready casting done : CastingState

-- `casting`. An actor is known by its id. The nil map of winners is the empty one.
pub record Casting : Type 0 where
  pub jury : String
  pub requests : List ActorRequest
  pub state : CastingState
  pub winners : Dict String (List String)

-- The actors by their ids, and what `Agency.ActorByID` finds. While a casting goes on, no other
-- part of the program is taken to use them.
pub record Stage : Type 0 where
  pub actor : String → Actor
  pub listed : String → Bool

unfoldable pub new_casting : Casting
new_casting = record { jury = ""; requests = []; state = ready; winners = [] }

unfoldable pub put : String → Actor → Stage → Stage
put id a st = record st { actor = λ j. if id == j then a else st.actor j }

abbrev pub u32 : ℕ → ℕ
u32 n = n % 4294967296

pub fail_internal : String → GoError
fail_internal message = masc (mk_error internal nil message none)

-- `assureCastingRequestsAlterAllowed`
unfoldable pub assure_casting_requests_alter_allowed : CastingState → GoError
unfolding fail_internal
assure_casting_requests_alter_allowed casting = fail_internal "already performing casting"
assure_casting_requests_alter_allowed done = fail_internal "casting already done"
assure_casting_requests_alter_allowed ready = nil

invalid_request : String → String → GoError
invalid_request key message =
    masc (mk_error internal nil message (some (("castingKey", str key) ∷ [])))

pub key_taken : String → List ActorRequest → Bool
key_taken key [] = false
key_taken key (r ∷ rs) = r.key == key || key_taken key rs

max_too_small : Option ℕ → Bool
max_too_small none = false
max_too_small (some max) = ltb max 1

min_above_max : Option ℕ → Option ℕ → Bool
min_above_max (some min) (some max) = ltb max min
min_above_max _ none = false
min_above_max none (some max) = false

-- `assureValidActorRequest`
unfoldable pub assure_valid_actor_request : ActorRequest → List ActorRequest → GoError
unfolding key_taken max_too_small min_above_max invalid_request
assure_valid_actor_request r rs =
    if key_taken r.key rs
    then invalid_request r.key "request for casting key already exists"
    else if max_too_small r.max
    then invalid_request r.key "max value must not be less than 1"
    else if min_above_max r.min r.max
    then invalid_request r.key "max value must not exceed min value"
    else nil

abbrev pub is_nil : GoError → Bool
is_nil nil = true
is_nil (native s) = false
is_nil (masc e) = false

-- `AddRequest`, where no other call of it comes between the check for a duplicate and the addition.
unfoldable pub add_request : ActorRequest → Casting → Casting × GoError
add_request r c =
    let allowed = assure_casting_requests_alter_allowed c.state in
    let valid = assure_valid_actor_request r c.requests in
    if not (is_nil allowed)
    then (c, allowed)
    else if not (is_nil valid)
    then (c, wrap valid "assure valid actor request" none)
    else (record c { requests = c.requests ++ r ∷ [] }, nil)

-- `c.winners[key]`, which is the nil slice where the key is missing.
abbrev pub winners_of : String → Dict String (List String) → List String
winners_of key w = elim (lookup key w) [ none ↦ [] | some ids ↦ ids ]

-- `GetWinners`
unfoldable pub get_winners : String → Casting → Option (List String) × GoError
get_winners key c = elim c.state [
  | done ↦ elim (lookup key c.winners) [
    | none ↦ (
      none,
      masc (mk_error internal nil "unknown casting key" (some (("castingKey", str key) ∷ []))),
    )
    | some l ↦ (some l, nil)
  ]
  | _ ↦ (none, fail_internal "casting not done yet")
]

single : Option (List String) × GoError → Option String × GoError
unfolding fail_internal
single (none, err) = (none, err)
single (some (id ∷ []), err) = (some id, nil)
single (some _, err) = (none, fail_internal "winner count does not match expected")

-- `GetWinner`
unfoldable pub get_winner : String → Casting → Option String × GoError
unfolding single
get_winner key c = single (get_winners key c)
