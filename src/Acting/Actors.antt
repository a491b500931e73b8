-- ===== src/Acting/Actors.antt =====
-- `netActor` of acting/acting.go: hiring, firing and messages. Each method holds the contract's
-- lock, and is one step on the actor's state.
pub mod Contracts
pub mod Rehire
use masc_server.Prelude.{
  ℕ, zero, suc, String, Bool, true, false, Option, none, some, List, [], ◌∷◌, ◌++◌, if◌then◌else◌,
  not, ◌&&◌, ◌≡◌, ◌⊎◌, arith,
}
use masc_server.Errors.{GoError, nil, masc, mk_error, internal, protocol_violation, str}
use masc_server.Errors.Generators.{new_internal_error}
use masc_server.Messages.{
  Content, OutgoingMessage, no_content, you_are_in, error_content, message_error_from_error,
}
use masc_server.Acting.Subscriptions.{
  SubscriptionManager, Subscription, Message, new_subscription_manager, subscribe, unsubscribe,
  handle_message, cancel_all_subscriptions,
}

-- `Contract`, without the context: whether that has ended stands in `cancelled`.
pub record Contract : Type 0 where
  pub name : String
  pub valid : Bool
  pub cancelled : Bool

-- `netActor`. `sent` is what the actor passed to its device, oldest first, and `none` in `subscriptions` is
-- the nil manager. Each contract has a goroutine that waits for its end and then fires the actor;
-- `woken` counts those that have woken up and have not yet called `fire`.
pub record Actor : Type 0 where
  pub id : String
  pub role : String
  pub contract : Contract
  pub is_connected : Bool
  pub subscriptions : Option SubscriptionManager
  pub sent : List OutgoingMessage
  pub woken : ℕ

abbrev pub no_contract : Contract
no_contract = record { name = ""; valid = false; cancelled = true }

-- The literal in `boot`.
unfoldable pub new_actor : String → String → Actor
new_actor id role = record {
  id = id;
  role = role;
  contract = no_contract;
  is_connected = true;
  subscriptions = none;
  sent = [];
  woken = 0;
}

-- `forceSend`
unfoldable pub force_send : OutgoingMessage → Actor → Actor × Bool
force_send message a =
    if a.is_connected then (record a { sent = a.sent ++ message ∷ [] }, true) else (a, false)

-- `Contract.Cancel`. To end a context again has no effect.
unfoldable pub cancel : Actor → Actor
cancel a =
    if a.contract.cancelled
    then a
    else record a { contract = record (a.contract) { cancelled = true }; woken = suc a.woken }

hired_by : String → Actor × Bool → Actor × GoError
unfolding new_internal_error
hired_by name (a, false) =
    (a, new_internal_error "notifying actor failed for being hired failed" none)
hired_by name (a, true) =
    (record a { contract = record { name = name; valid = true; cancelled = false } }, nil)

-- `Hire`
unfoldable pub hire : String → Actor → Actor × GoError
unfolding hired_by force_send
hire name a =
    if a.contract.valid
    then (
      a,
      masc (mk_error internal nil "actor is already hired" (some (("actorID", str a.id) ∷ []))),
    )
    else hired_by name (
        force_send (record { message_type = "you-are-in"; content = you_are_in a.id a.role })
          (record a { subscriptions = some new_subscription_manager }))

unfoldable pub is_hired : Actor → Bool
is_hired a = a.contract.valid

end_contract : Actor → Actor
unfolding cancel force_send
end_contract a =
    let told = (force_send (record { message_type = "fired"; content = no_content }) a).0 in
    record (cancel told) { contract = no_contract }

-- `fire`; `none` is the panic of the deferred call on a nil subscription manager. That call comes after
-- the contract's lock is let go of; here both are one step.
unfoldable pub fire : Actor → Option Actor
unfolding end_contract
fire a = elim a.subscriptions [
  | none ↦ none
  | some m ↦ some (record (if a.contract.valid then end_contract a else a) {
    subscriptions = some (cancel_all_subscriptions m);
  })
]

-- The goroutine that `Hire` starts: one that has woken up fires the actor.
unfoldable pub wake : Actor → Option Actor
unfolding fire
wake a = elim a.woken [ zero ↦ some a | suc n ↦ fire (record a { woken = n }) ]

sent_or_failed : Actor × Bool → Actor × GoError
unfolding new_internal_error
sent_or_failed (a, true) = (a, nil)
sent_or_failed (a, false) = (a, new_internal_error "could not force send message" none)

-- `Send`
unfoldable pub send : OutgoingMessage → Actor → Actor × GoError
unfolding sent_or_failed force_send
send message a = if a.contract.valid then sent_or_failed (force_send message a) else (
  a,
  masc (
      mk_error internal nil "actor must not send when not hired or hiring"
        (some (("id", str a.id) ∷ []))),
)

pub send-subscriptions :
    (m : OutgoingMessage) (a : Actor) → (send m a).0.subscriptions ≡ a.subscriptions
unfolding send sent_or_failed force_send
send-subscriptions m a = ground arith

-- An actor that a message can be sent to.
abbrev pub reachable : Actor → Bool
reachable a = a.contract.valid && a.is_connected

pub reachable-send :
    (m : OutgoingMessage) (a : Actor)
    → (reachable (send m a).0 ≡ reachable a) × (((send m a).1 ≡ nil) ⊎ (reachable a ≡ false))
unfolding send sent_or_failed force_send
reachable-send m a = ground arith

-- `SubscribeMessageType`; `none` is the panic on a nil manager.
unfoldable pub subscribe_message_type : String → Actor → Option (Actor × Subscription)
subscribe_message_type t a = elim a.subscriptions [
  | none ↦ none
  | some m ↦ some (record a { subscriptions = some (subscribe t m).0 }, (subscribe t m).1)
]

-- `Unsubscribe`; its error is only logged by the callers.
unfoldable pub unsubscribe_actor : Subscription → Actor → Option Actor
unsubscribe_actor sub a = elim a.subscriptions [
  | none ↦ none
  | some m ↦ some (record a { subscriptions = some (unsubscribe sub m).0 })
]

-- `NewForbiddenMessageError`
unfoldable pub new_forbidden_message_error : Message → GoError
new_forbidden_message_error m = masc (
    mk_error protocol_violation nil "forbidden message type"
      (some (("message_type", str m.message_type) ∷ ("message_content", str m.content) ∷ [])))

-- `ActorErrorMessageFromError`
unfoldable pub actor_error_message_from_error : GoError → OutgoingMessage
actor_error_message_from_error e = record {
  message_type = "error";
  content = error_content (message_error_from_error e);
}

answer : Message → List Subscription → Actor → Actor
unfolding send actor_error_message_from_error new_forbidden_message_error
answer message [] a =
    (send (actor_error_message_from_error (new_forbidden_message_error message)) a).0
answer message (s ∷ l) a = a

-- `handleIncomingMessage`: a message that nobody takes is answered by an error.
unfoldable pub handle_incoming_message : (Subscription → Bool) → Message → Actor → Option Actor
unfolding answer
handle_incoming_message takes message a = elim a.subscriptions [
  | none ↦ none
  | some m ↦ some (answer message (handle_message takes message m) a)
]
