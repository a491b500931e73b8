-- ===== src/Acting/Subscriptions/Delivery.antt =====
-- To whom a message is forwarded, and that nobody is left after all subscriptions are cancelled.
use masc_server.Prelude.{
  ℕ, String, ◌≡◌, refl, ap, ◌⊎◌, ◌∙◌, inl, inr, ◌≢◌, List, [], ◌∷◌, none, some, arith, nat_key,
  string_key, lookup, Option-cases, true, Bool, Distinct, All, All-mono, Dict, same_refl,
  nat_same_iff,
}
use masc_server.Acting.Subscriptions.Slots.{times}
use masc_server.Acting.Subscriptions.Coherence.{
  Coherent, expected, new-Coherent, subscribe-Coherent, unsubscribe-Coherent, lookup-unsubscribe,
  lookup-unsubscribe_self,
}
use masc_server.Acting.Subscriptions.{
  Subscription, SubscriptionManager, Message, subs_of, forward, handle_message,
  new_subscription_manager, subscribe, unsubscribe, values, unsubscribe_each,
  cancel_all_subscriptions,
}

times-forward :
    (takes : Subscription → Bool) (k : ℕ) (l : List Subscription)
    → All (λ s. s.token ≡ k → takes s ≡ true) l
    → times k (forward takes l) ≡ times k l
unfolding forward
times-forward takes k [] h = refl
times-forward takes k (s ∷ l) h = ground (arith, times-forward takes k l h.1)

-- Where the two indexes of a manager agree and the receivers with a token take what is sent: a
-- message is forwarded once to the subscription that is filed under the token if it is for the type
-- of the message, and else not at all to that token.
pub handle_message_once :
    (takes : Subscription → Bool) (msg : Message) (m : SubscriptionManager) (k : ℕ)
    → Coherent m
    → ((s : Subscription) → s.token ≡ k → takes s ≡ true)
    → times k (handle_message takes msg m) ≡ expected msg.message_type (lookup k m.by_token)
unfolding handle_message
handle_message_once takes msg m k h all =
    times-forward takes k (subs_of msg.message_type m) (everywhere _) ∙ h.counted msg.message_type k
  where
    everywhere : (l : List Subscription) → All (λ s. s.token ≡ k → takes s ≡ true) l
    everywhere [] = tt
    everywhere (s ∷ l) = (all s, everywhere l)

-- The calls on a manager, one after the other as its lock orders them.
pub data Call : Type 0 where
  subscribes : String → Call
  unsubscribes : Subscription → Call
  cancels : Call

pub step : Call → SubscriptionManager → SubscriptionManager
step (subscribes t) m = (subscribe t m).0
step (unsubscribes s) m = (unsubscribe s m).0
step cancels m = cancel_all_subscriptions m

pub run : List Call → SubscriptionManager → SubscriptionManager
run [] m = m
run (c ∷ cs) m = run cs (step c m)

unsubscribe_each-Coherent :
    (l : List Subscription) (m : SubscriptionManager) → Coherent m → Coherent (unsubscribe_each l m)
unfolding unsubscribe_each
unsubscribe_each-Coherent [] m h = h
unsubscribe_each-Coherent (s ∷ l) m h =
    unsubscribe_each-Coherent l (unsubscribe s m).0 (unsubscribe-Coherent s m h)

cancel_all_subscriptions-Coherent :
    (m : SubscriptionManager) → Coherent m → Coherent (cancel_all_subscriptions m)
unfolding cancel_all_subscriptions
cancel_all_subscriptions-Coherent m h = unsubscribe_each-Coherent (values m.by_token) m h

step-Coherent : (c : Call) (m : SubscriptionManager) → Coherent m → Coherent (step c m)
unfolding step
step-Coherent (subscribes t) m h = (subscribe-Coherent t m h).0
step-Coherent (unsubscribes s) m h = unsubscribe-Coherent s m h
step-Coherent cancels m h = cancel_all_subscriptions-Coherent m h

run-Coherent : (cs : List Call) (m : SubscriptionManager) → Coherent m → Coherent (run cs m)
unfolding run
run-Coherent [] m h = h
run-Coherent (c ∷ cs) m h = run-Coherent cs (step c m) (step-Coherent c m h)

-- After any calls on a new manager the two indexes agree.
pub run-new-Coherent : (cs : List Call) → Coherent (run cs new_subscription_manager)
run-new-Coherent cs = run-Coherent cs _ new-Coherent

-- What `CancelAllSubscriptions` passes on: each is filed as it stands, or no longer.
abbrev FiledOrGone : SubscriptionManager → Subscription → Type 0
FiledOrGone m s = (lookup s.token m.by_token ≡ some s) ⊎ (lookup s.token m.by_token ≡ none)

unsubscribe-FiledOrGone :
    (s : Subscription) (m : SubscriptionManager)
    → Coherent m
    → (s' : Subscription) → FiledOrGone m s'
    → FiledOrGone (unsubscribe s m).0 s'
unsubscribe-FiledOrGone s m h s' f = ground (arith, lookup-unsubscribe s m h s'.token)

unsubscribe_frees :
    (s : Subscription) (m : SubscriptionManager)
    → Coherent m
    → FiledOrGone m s
    → lookup s.token (unsubscribe s m).0.by_token ≡ none
unsubscribe_frees s m h (inl e) = lookup-unsubscribe_self s m h (s, e, refl)
unsubscribe_frees s m h (inr e) = ground (arith, lookup-unsubscribe s m h s.token)

unsubscribe_each-All :
    (l : List Subscription) (m : SubscriptionManager)
    → Coherent m
    → All (FiledOrGone m) l
    → (k : ℕ) → (lookup k m.by_token ≡ none) ⊎ (times k l ≢ 0)
    → lookup k (unsubscribe_each l m).by_token ≡ none
unfolding unsubscribe_each
unsubscribe_each-All [] m h own k (inl e) = e
unsubscribe_each-All [] m h own k (inr q) = absurd (q refl)
unsubscribe_each-All (s ∷ l) m h own k c =
    unsubscribe_each-All l (unsubscribe s m).0 (unsubscribe-Coherent s m h)
      (All-mono (unsubscribe-FiledOrGone s m h) l own.1) k
      (ground (arith, c, unsubscribe_frees s m h own.0, lookup-unsubscribe s m h k))

-- Each entry stands under its own token in the whole index `d'`.
values-Filed :
    (d d' : Dict ℕ Subscription)
    → Distinct d
    → ((k : ℕ) (s : Subscription) → lookup k d ≡ some s → (lookup k d' ≡ some s) × (s.token ≡ k))
    → All (λ s. lookup s.token d' ≡ some s) (values d)
unfolding values lookup
values-Filed [] d' u h = tt
values-Filed ((k, s) ∷ d) d' u h =
    let (filed, q) = h k s (rw (same_refl k)) in
    (simp q filed, values-Filed d d' u.1 (λ j s' e. h j s' (ground (arith, u.0))))

times-values :
    (d : Dict ℕ Subscription) (k : ℕ) (s : Subscription)
    → lookup k d ≡ some s
    → s.token ≡ k
    → times k (values d) ≢ 0
unfolding values lookup
times-values [] k s e q = cc
times-values ((j, s') ∷ d) k s e q = ground (arith, times-values d k s)

-- After `CancelAllSubscriptions` no token is filed.
pub lookup-cancel_all_subscriptions :
    (m : SubscriptionManager) (k : ℕ)
    → Coherent m
    → lookup k (cancel_all_subscriptions m).by_token ≡ none
unfolding cancel_all_subscriptions
lookup-cancel_all_subscriptions m k h =
    unsubscribe_each-All (values m.by_token) m h
      (All-mono (λ s e. inl e) (values m.by_token)
        (values-Filed m.by_token m.by_token h.unique (λ j s e. (e, h.own j s e))))
      k
      (elim (Option-cases (lookup k m.by_token)) [
        | inl e ↦ inl e
        | inr (s, e) ↦ inr (times-values m.by_token k s e (h.own k s e))
      ])

nobody : (l : List Subscription) → ((k : ℕ) → times k l ≡ 0) → l ≡ []
nobody [] h = refl
nobody (s ∷ l) h = ground (arith, h s.token, nat_same_iff s.token s.token)

-- After `CancelAllSubscriptions` on a manager whose two indexes agree no message is forwarded to
-- anybody, whatever the message and whoever still reads.
pub handle_message-cancel_all_subscriptions :
    (takes : Subscription → Bool) (msg : Message) (m : SubscriptionManager)
    → Coherent m
    → handle_message takes msg (cancel_all_subscriptions m) ≡ []
unfolding handle_message forward
handle_message-cancel_all_subscriptions takes msg m h =
    rw (nobody (subs_of msg.message_type (cancel_all_subscriptions m)) none_left)
  where
    after : Coherent (cancel_all_subscriptions m)
    after = cancel_all_subscriptions-Coherent m h

    none_left : (k : ℕ) → times k (subs_of msg.message_type (cancel_all_subscriptions m)) ≡ 0
    none_left k =
        after.counted msg.message_type k
        ∙ ap (expected msg.message_type) (lookup-cancel_all_subscriptions m k h)
