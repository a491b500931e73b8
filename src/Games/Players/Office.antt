-- ===== src/Games/Players/Office.antt =====
-- The handler of one actor's joins and leaves, `handlePlayerJoins` of games/player_management.go.
pub mod Turns
pub mod Loop
pub mod Handler
use masc_server.Prelude.{
  String, Bool, true, false, Option, none, some, List, [], ◌∷◌, if◌then◌else◌, not, ◌⊎◌, inl, inr,
}
use masc_server.Errors.{GoError, nil, native, masc, mk_error, bad_request, str, wrap, blame_user}
use masc_server.Messages.{OutgoingMessage, no_content, join_open}
use masc_server.Acting.Subscriptions.{Subscription}
use masc_server.Acting.Actors.{
  Actor, send, actor_error_message_from_error, subscribe_message_type, unsubscribe_actor,
}
use masc_server.Casting.{is_nil}
use masc_server.Games.Players.{PlayerManagement, add_player, remove_player}

-- What the loop receives: a join with the user that is asked for, a join of a guest, or a leave. Where
-- the provider is asked, its answer comes along. A receive from a closed newsletter is one with the
-- empty id, since the code does not test for it.
pub data Event : Type 0 where
  player_join : String ⊎ GoError → Event
  guest_join : String ⊎ GoError → Event
  player_leave : String → Event

-- The players, the actor, and the error with which the handler returns, if it does.
abbrev pub Served : Type 0
Served = PlayerManagement × Actor × GoError

blame : String → String → GoError
blame message player = masc (mk_error bad_request nil message (some (("player", str player) ∷ [])))

-- `if blameErr := actor.Send(...); blameErr != nil { return errors.Wrap(...) }`
told_or_returned : PlayerManagement → String → Actor × GoError → Served
told_or_returned pm context (a, nil) = (pm, a, nil)
told_or_returned pm context (a, native s) = (pm, a, wrap (native s) context none)
told_or_returned pm context (a, masc e) = (pm, a, wrap (masc e) context none)

tell : GoError → String → PlayerManagement → Actor → Served
unfolding told_or_returned
tell err context pm a = told_or_returned pm context (send (actor_error_message_from_error err) a)

joined : Actor → String → PlayerManagement × Bool → Served
unfolding tell blame
joined a id (pm, true) = (pm, a, nil)
joined a id (pm, false) =
    tell (blame "player already joined match" id) "notify actor that player already joined" pm a

left : Actor → String → PlayerManagement × Bool → Served
unfolding tell blame
left a id (pm, true) = (pm, a, nil)
left a id (pm, false) =
    tell (blame "player did not join the match" id) "notify actor that player did not join" pm a

-- One turn of the loop.
unfoldable pub serve_event : String → Event → PlayerManagement → Actor → Served
unfolding joined left tell
serve_event team (guest_join (inl id)) pm a = joined a id (add_player id team pm)
serve_event team (guest_join (inr err)) pm a = (pm, a, wrap err "request guest user" none)
serve_event team (player_join (inl id)) pm a = joined a id (add_player id team pm)
serve_event team (player_join (inr err)) pm a =
    if blame_user err
    then tell err "notify actor for error after user retrieval" pm a
    else (pm, a, wrap err "retrieve user" none)
serve_event team (player_leave id) pm a = left a id (remove_player id pm)

-- The rest runs where no error has been returned.
and_then : Served → (PlayerManagement → Actor → Served) → Served
and_then (pm, a, nil) next = next pm a
and_then (pm, a, native s) next = (pm, a, native s)
and_then (pm, a, masc x) next = (pm, a, masc x)

-- The loop, until the context is done.
unfoldable pub serve_events : String → List Event → PlayerManagement → Actor → Served
unfolding serve_event and_then
serve_events team [] pm a = (pm, a, nil)
serve_events team (e ∷ es) pm a = and_then (serve_event team e pm a) (serve_events team es)

-- `actor.Send`, whose error the handler returns.
pub notify : OutgoingMessage → String → PlayerManagement → Actor → Served
unfolding told_or_returned
notify message context pm a = told_or_returned pm context (send message a)

abbrev join_opened : String → OutgoingMessage
join_opened team = record { message_type = "player-join-open"; content = join_open team }

abbrev join_closed : OutgoingMessage
join_closed = record { message_type = "player-join-closed"; content = no_content }

-- The handler between its two subscriptions and their end.
unfoldable pub hold_office : String → List Event → PlayerManagement → Actor → Served
unfolding notify and_then serve_events
hold_office team es pm a =
    and_then (notify (join_opened team) "notify player join open" pm a)
      λ pm a. and_then (serve_events team es pm a) (notify join_closed "notify player join closed")

-- The end of the subscriptions, which an error skips; `none` is the panic on a nil manager.
close_office : Subscription → Subscription → Served → Option Served
close_office s t (pm, a, nil) = elim (unsubscribe_actor s a) [
  | none ↦ none
  | some b ↦ elim (unsubscribe_actor t b) [ none ↦ none | some c ↦ some (pm, c, nil) ]
]
close_office s t (pm, a, native x) = some (pm, a, native x)
close_office s t (pm, a, masc x) = some (pm, a, masc x)

-- `handlePlayerJoins`
unfoldable pub handle_player_joins : String → List Event → PlayerManagement → Actor → Option Served
unfolding hold_office close_office
handle_player_joins team es pm a = elim (subscribe_message_type "player-join" a) [
  | none ↦ none
  | some (b, s) ↦ elim (subscribe_message_type "player-leave" b) [
    | none ↦ none
    | some (c, t) ↦ close_office s t (hold_office team es pm c)
  ]
]
