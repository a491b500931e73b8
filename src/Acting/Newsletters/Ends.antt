-- ===== src/Acting/Newsletters/Ends.antt =====
-- What reaches the readers of newsletters (acting/subscriptions.go), and its end.
use masc_server.Prelude.{
  ℕ, suc, String, true, false, ◌≡◌, refl, subst, ◌∙◌, ◌≢◌, none, some, List, [], ◌∷◌, map, arith,
  lookup, lookup-insert, nat_key, string_key, same_refl,
}
use masc_server.Errors.{GoError, nil}
use masc_server.Acting.Subscriptions.{
  Subscription, SubscriptionManager, Message, subscribe, unsubscribe,
}
use masc_server.Acting.Subscriptions.Coherence.{
  Coherent, Registered, subscribe-Coherent, unsubscribe-Coherent, unsubscribe_ok_iff,
  lookup-unsubscribe, lookup-unsubscribe_self,
}
use masc_server.Acting.Subscriptions.Delivery.{handle_message_once}
use masc_server.Acting.Newsletters.{subscribe_decoded, unsubscribe_newsletter, unsubscribe_error}
use masc_server.Acting.Newsletters.Topics.{Topic, Payload, message_type, subscribe_topic}
use masc_server.Acting.Newsletters.Delivery.{
  Encode, Unmarshal, Letter, sealed, own_payloads, Filed, turns, subscribe_topic_lem, read-turns,
}

subscribe-Filed : (t : String) (m : SubscriptionManager) → Filed (subscribe t m).1 (subscribe t m).0
unfolding subscribe
subscribe-Filed t m =
    lookup-insert (suc m.counter) (suc m.counter) (subscribe t m).1 m.by_token
    ∙ rw (same_refl (suc m.counter))

message_type-subscribe : (t : String) (m : SubscriptionManager) → (subscribe t m).1.message_type ≡ t
unfolding subscribe
message_type-subscribe t m = refl

-- What a device sends is what is read: where JSON decodes what it encodes for a topic, the newsletter
-- of the topic, subscribed at a manager whose indexes agree, passes on the letters of the topic in
-- their order and nothing else, however they are mixed with letters of other topics, and logs no
-- message as broken.
pub receive-sealed :
    (encode : Encode) (u : Unmarshal) (t : Topic)
    → ((p : Payload t) → u t (encode t p) ≡ some p)
    → (m : SubscriptionManager) → Coherent m
    → (letters : List (Letter t))
    → (subscribe_topic u t m).1.receive (
        turns
          (subscribe_topic u t m).1.subscription
          (subscribe_topic u t m).0
          (map (sealed encode t) letters))
      ≡ record { received = own_payloads t letters; parse_errors = 0; closed = false }
unfolding subscribe_decoded
receive-sealed encode u t law m h letters =
    let (m', sub) = subscribe (message_type t) m in
    rw (subscribe_topic_lem u t m) (
      read-turns encode u t law sub m' (message_type-subscribe (message_type t) m)
        (subscribe-Coherent (message_type t) m h).0 (subscribe-Filed (message_type t) m) letters)

turns-same :
    (other : Subscription) (m m' : SubscriptionManager)
    → Coherent m
    → Coherent m'
    → lookup other.token m'.by_token ≡ lookup other.token m.by_token
    → (msgs : List Message) → turns other m' msgs ≡ turns other m msgs
turns-same other m m' h h' e [] = refl
turns-same other m m' h h' e (msg ∷ msgs) = rw (
  handle_message_once (λ s. true) msg m other.token h (λ s e. refl),
  handle_message_once (λ s. true) msg m' other.token h' (λ s e. refl),
  e,
  turns-same other m m' h h' e msgs,
)

no_turns :
    (sub : Subscription) (m : SubscriptionManager)
    → Coherent m
    → lookup sub.token m.by_token ≡ none
    → (msgs : List Message) → turns sub m msgs ≡ []
no_turns sub m h e [] = refl
no_turns sub m h e (msg ∷ msgs) =
    rw (handle_message_once (λ s. true) msg m sub.token h (λ s e. refl), e, no_turns sub m h e msgs)

unsubscribe_error-nil : (id : String) (err : GoError) → err ≡ nil → unsubscribe_error id err ≡ nil
unfolding unsubscribe_error
unsubscribe_error-nil id err e = rw e

module _ (t : String) (m : SubscriptionManager) (h : Coherent m) where
  sub : Subscription
  sub = (subscribe t m).1

  with_sub : SubscriptionManager
  with_sub = (subscribe t m).0

  after : SubscriptionManager
  unfolding sub with_sub
  after = (unsubscribe sub with_sub).0

  with_sub-Coherent : Coherent with_sub
  unfolding with_sub
  with_sub-Coherent = (subscribe-Coherent t m h).0

  sub-Registered : Registered sub with_sub
  unfolding sub with_sub
  sub-Registered = (sub, subscribe-Filed t m, refl)

  after-Coherent : Coherent after
  unfolding after
  after-Coherent = unsubscribe-Coherent sub with_sub with_sub-Coherent

  lookup-after : (k : ℕ) → k ≢ sub.token → lookup k after.by_token ≡ lookup k m.by_token
  unfolding after sub with_sub subscribe
  lookup-after k ne = ground (
    arith,
    lookup-unsubscribe sub with_sub with_sub-Coherent k,
    lookup-insert (suc m.counter) k sub m.by_token,
  )

-- A newsletter that was subscribed at a manager whose indexes agree is unsubscribed without an error;
-- afterwards no message reaches it, and every other subscription is sent what it was sent before.
pub turns-unsubscribe_newsletter :
    (id : String) (u : Unmarshal) (t : Topic) (m : SubscriptionManager)
    → Coherent m
    → (other : Subscription) → other.token ≢ (subscribe_topic u t m).1.subscription.token
    → (msgs : List Message)
    → let (m', n) = subscribe_topic u t m in
      ((unsubscribe_newsletter id n m').1 ≡ nil)
      × (turns n.subscription (unsubscribe_newsletter id n m').0 msgs ≡ [])
      × (turns other (unsubscribe_newsletter id n m').0 msgs ≡ turns other m msgs)
unfolding unsubscribe_newsletter subscribe_decoded after sub with_sub
turns-unsubscribe_newsletter id u t m h other ne msgs =
    let ty = message_type t in
    let apart : other.token ≢ (sub ty m h).token =
      subst (λ x. other.token ≢ x.1.subscription.token) (subscribe_topic_lem u t m) ne in
    rw (subscribe_topic_lem u t m) (
      unsubscribe_error-nil id _ (
          (unsubscribe_ok_iff (sub ty m h) (with_sub ty m h) (with_sub-Coherent ty m h)).1
            (sub-Registered ty m h)),
      no_turns (sub ty m h) (after ty m h) (after-Coherent ty m h)
          (lookup-unsubscribe_self (sub ty m h) (with_sub ty m h) (with_sub-Coherent ty m h)
            (sub-Registered ty m h))
          msgs,
      turns-same other m (after ty m h) h (after-Coherent ty m h)
          (lookup-after ty m h other.token apart) msgs,
    )
