-- ===== src/Casting/Run.antt =====
-- `PerformAndHire` of casting/casting.go, against the replies of the jury.
use masc_server.Prelude.{
  String, Option, none, some, List, [], ◌∷◌, if◌then◌else◌, not, string_key, nat_key,
}
use masc_server.Errors.{GoError, nil, native, masc, wrap}
use masc_server.Errors.Generators.{new_context_aborted_error}
use masc_server.Messages.{RoleAssignment, request_role_assignments}
use masc_server.Acting.Subscriptions.{Subscription}
use masc_server.Acting.Actors.{
  Actor, send, subscribe_message_type, unsubscribe_actor, actor_error_message_from_error,
}
use masc_server.Casting.{
  casting, done, Casting, Stage, put, is_nil, fail_internal, assure_casting_requests_alter_allowed,
}
use masc_server.Casting.Assign.{set_winners, assure_winners_satisfy_requests}
use masc_server.Casting.Hire.{hire_winners}

-- What ends the wait for a reply: the context is done, the newsletter is closed, or assignments.
pub data Reply : Type 0 where
  aborts closes : Reply
  assigns : List RoleAssignment → Reply

-- `waiting` means that no reply has come yet.
pub data Outcome : Type 0 where
  waiting panicked : Outcome
  finished : GoError → Outcome

pub data Asked : Type 0 where
  no_manager : Asked
  refused : Stage → GoError → Asked
  asked : Stage → Subscription → Asked

unfoldable pub sent_request : Subscription → Stage → GoError → Asked
sent_request sub st nil = asked st sub
sent_request sub st (native s) = refused st (wrap (native s) "request role assignments" none)
sent_request sub st (masc e) = refused st (wrap (masc e) "request role assignments" none)

-- The head of the loop: subscribe to the jury's assignments and ask for them. The orders that the
-- function has built are not sent: the code passes nil.
unfoldable pub ask_with : Option (Actor × Subscription) → Casting → Stage → Asked
unfolding sent_request
ask_with none c st = no_manager
ask_with (some (a, sub)) c st =
    let (a', err) =
      send
        (record {
          message_type = "request-role-assignments";
          content = request_role_assignments [];
        })
        a in
    sent_request sub (put c.jury a' st) err

unfoldable pub ask : Casting → Stage → Asked
ask c st = ask_with (subscribe_message_type "role-assignments" (st.actor c.jury)) c st

-- How one reply is handled: ask again, return an error, leave the loop, or panic.
pub data Judged : Type 0 where
  again : Casting → Stage → Judged
  stop : Casting → Stage → GoError → Judged
  won : Casting → Stage → Judged
  broken : Judged

unfoldable pub answered : Casting → Stage → GoError → Judged
answered c st nil = again c st
answered c st (native s) = stop c st (wrap nil "notify jury for invalid role assignments" none)
answered c st (masc e) = stop c st (wrap nil "notify jury for invalid role assignments" none)

-- A bad assignment is reported to the jury. If that fails, the code wraps the error of the request,
-- which is nil here.
unfoldable pub complain : GoError → Casting → Stage → Judged
unfolding answered
complain err c st =
    let (a, e) = send (actor_error_message_from_error err) (st.actor c.jury) in
    answered c (put c.jury a st) e

unfoldable pub conclude : Casting → Stage → GoError → GoError → Judged
unfolding complain
conclude c st bad err =
    if not (is_nil err)
    then stop c st (wrap err "hire winners" none)
    else if not (is_nil bad)
    then complain (wrap bad "hire winners from assignment message" none) c st
    else won c st

unfoldable pub hire_them : Casting → Stage → Judged
unfolding conclude
hire_them c st = elim (hire_winners c st) [
  | none ↦ broken
  | some (st', bad, err) ↦ conclude c st' bad err
]

unfoldable pub check_them : Casting → Stage → Judged
unfolding hire_them
check_them c st =
    if is_nil (assure_winners_satisfy_requests c)
    then hire_them c st
    else complain (wrap (assure_winners_satisfy_requests c) "assure winners satisfy requests" none)
        c st

-- The assignments are set, checked and hired.
unfoldable pub judge : List RoleAssignment → Casting → Stage → Judged
unfolding check_them
judge l c st =
    let (c', err) = set_winners st l c in
    if is_nil err
    then check_them c' st
    else complain (wrap err "set winners from assignment message" none) c' st

-- What follows `UnsubscribeOrLogError`, which panics on a nil manager.
unfoldable pub unsubscribed : Option Actor → Casting → Stage → (Stage → Judged) → Judged
unsubscribed none c st next = broken
unsubscribed (some a) c st next = next (put c.jury a st)

unfoldable pub handle_reply : Reply → Subscription → Casting → Stage → Judged
unfolding unsubscribed judge fail_internal
handle_reply aborts sub c st =
    unsubscribed (unsubscribe_actor sub (st.actor c.jury)) c st
      λ st'. stop c st' (new_context_aborted_error "perform casting")
handle_reply closes sub c st = stop c st (fail_internal "no assignments received")
handle_reply (assigns l) sub c st =
    unsubscribed (unsubscribe_actor sub (st.actor c.jury)) c st (judge l c)

-- What follows the request to the jury.
unfoldable pub once_asked :
    (Stage → Subscription → Casting × Stage × Outcome)
    → Casting
    → Stage
    → Asked
    → Casting × Stage × Outcome
once_asked next c st no_manager = (c, st, panicked)
once_asked next c st (refused st' err) = (c, st', finished err)
once_asked next c st (asked st' sub) = next st' sub

-- What follows a reply.
unfoldable pub once_judged :
    (Casting → Stage → Casting × Stage × Outcome)
    → Casting
    → Stage
    → Judged
    → Casting × Stage × Outcome
once_judged loop c st (again c' st') = loop c' st'
once_judged loop c st (stop c' st' err) = (c', st', finished err)
once_judged loop c st (won c' st') = (record c' { state = done }, st', finished nil)
once_judged loop c st broken = (c, st, panicked)

-- The loop, over the replies that come.
unfoldable pub perform_loop : List Reply → Casting → Stage → Casting × Stage × Outcome
unfolding once_asked once_judged
perform_loop [] c st = once_asked (λ st' sub. (c, st', waiting)) c st (ask c st)
perform_loop (r ∷ rs) c st =
    once_asked (λ st' sub. once_judged (perform_loop rs) c st' (handle_reply r sub c st')) c st
      (ask c st)

-- `PerformAndHire`
unfoldable pub perform_and_hire : List Reply → String → Casting → Stage → Casting × Stage × Outcome
perform_and_hire replies jury c st =
    let allowed = assure_casting_requests_alter_allowed c.state in
    let run = perform_loop replies (record c { state = casting; jury = jury }) st in
    if is_nil allowed then run else (c, st, finished allowed)
