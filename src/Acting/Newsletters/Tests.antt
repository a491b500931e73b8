-- ===== src/Acting/Newsletters/Tests.antt =====
-- The theorems on newsletters at concrete messages.
use masc_server.Prelude.{
  String, Bool, true, false, ◌≡◌, refl, ◌≢◌, arith, Option, none, some, List, [], ◌∷◌, map, ◌==◌,
  string_key, if◌then◌else◌,
}
use masc_server.Errors.{nil}
use masc_server.Messages.Incoming.{MessageReadyState}
use masc_server.Acting.Subscriptions.{
  Subscription, SubscriptionManager, Message, new_subscription_manager, subscribe,
}
use masc_server.Acting.Subscriptions.Coherence.{Coherent, new-Coherent, subscribe-Coherent}
use masc_server.Acting.Newsletters.{read, taken, missed, unsubscribe_newsletter}
use masc_server.Acting.Newsletters.Topics.{ready_state, delete_device, subscribe_topic}
use masc_server.Acting.Newsletters.Delivery.{
  Encode, Unmarshal, Letter, own, foreign, sealed, own_payloads, turns,
}
use masc_server.Acting.Newsletters.Ends.{receive-sealed, turns-unsubscribe_newsletter}

-- JSON for two of the topics.
abbrev encode_ready : Bool → String
encode_ready true = "{\"is_ready\":true}"
encode_ready false = "{\"is_ready\":false}"

abbrev encode : Encode
encode ready_state m = encode_ready m.is_ready
encode delete_device m = m.device_id
encode _ m = "{}"

abbrev unmarshal_ready : String → Option MessageReadyState
unmarshal_ready raw =
    if raw == "{\"is_ready\":true}"
    then some (record { is_ready = true })
    else if raw == "{\"is_ready\":false}"
    then some (record { is_ready = false })
    else none

abbrev unmarshal : Unmarshal
unmarshal ready_state = unmarshal_ready
unmarshal _ = λ raw. none

law_of : (b : Bool) → unmarshal_ready (encode_ready b) ≡ some (record { is_ready = b })
law_of true = refl
law_of false = refl

law : (p : MessageReadyState) → unmarshal ready_state (encode ready_state p) ≡ some p
law p = law_of p.is_ready

other_topic : delete_device ≢ ready_state
other_topic e = cc

-- A manager with one subscription to the same messages.
abbrev manager : SubscriptionManager
manager = (subscribe "ready-state" new_subscription_manager).0

manager-Coherent : Coherent manager
manager-Coherent = (subscribe-Coherent "ready-state" new_subscription_manager new-Coherent).0

abbrev ready : Bool → Letter ready_state
ready b = own (record { is_ready = b })

abbrev stray : Letter ready_state
stray = foreign delete_device other_topic (record { device_id = "d" })

receive-sealed_example :
    (subscribe_topic unmarshal ready_state manager).1.receive (
      turns
        (subscribe_topic unmarshal ready_state manager).1.subscription
        (subscribe_topic unmarshal ready_state manager).0
        (map (sealed encode ready_state) (ready true ∷ stray ∷ ready false ∷ [])))
    ≡ record {
      received = own_payloads ready_state (ready true ∷ stray ∷ ready false ∷ []);
      parse_errors = 0;
      closed = false;
    }
receive-sealed_example =
    receive-sealed encode unmarshal ready_state law manager manager-Coherent
      (ready true ∷ stray ∷ ready false ∷ [])

abbrev messages : List Message
messages = record { message_type = "ready-state"; content = "{\"is_ready\":true}" } ∷ []

abbrev first : Subscription
first = record { message_type = "ready-state"; token = 1 }

turns-unsubscribe_newsletter_example :
    let (m', n) = subscribe_topic unmarshal ready_state manager in
    ((unsubscribe_newsletter "a" n m').1 ≡ nil)
    × (turns n.subscription (unsubscribe_newsletter "a" n m').0 messages ≡ [])
    × (turns first (unsubscribe_newsletter "a" n m').0 messages ≡ turns first manager messages)
unfolding subscribe_topic subscribe new_subscription_manager
turns-unsubscribe_newsletter_example =
    turns-unsubscribe_newsletter "a" unmarshal ready_state manager manager-Coherent first
      (λ e. omega (arith, e)) messages

-- A broken message is skipped, and the one that the lifetime ends on is lost.
read_test :
    read
      (unmarshal ready_state)
      (taken "oops" ∷ taken "{\"is_ready\":true}" ∷ missed "{\"is_ready\":true}" ∷ [])
    ≡ record { received = record { is_ready = true } ∷ []; parse_errors = 1; closed = true }
unfolding read
read_test = refl
