-- ===== src/Acting/Subscriptions.antt =====
-- acting/subscriptions.go: the subscription manager of an actor.
-- A call holds the manager's lock for all that it changes, so each is one step on the state. A
-- subscription object is a value here; that its lifetime has ended is kept in `ended`.
pub mod Slots
pub mod Coherence
pub mod Delivery
use masc_server.Prelude.{
  ℕ, suc, ◌+◌, ◌-◌, String, Bool, true, false, Option, none, some, List, [], ◌∷◌, ◌++◌, Dict,
  lookup, insert, delete, nat_key, string_key, ◌==◌, if◌then◌else◌,
}
use masc_server.Errors.{GoError, nil, masc, mk_error, internal, other}

pub record Subscription : Type 0 where
  pub message_type : String
  pub token : ℕ

pub record Message : Type 0 where
  pub message_type : String
  pub content : String

pub record SubscriptionManager : Type 0 where
  pub by_type : Dict String (List Subscription)
  pub by_token : Dict ℕ Subscription
  pub counter : ℕ
  pub ended : List Subscription

unfoldable pub new_subscription_manager : SubscriptionManager
new_subscription_manager = record { by_type = []; by_token = []; counter = 0; ended = [] }

abbrev pub or_empty : Option (List Subscription) → List Subscription
or_empty none = []
or_empty (some l) = l

-- `m.subscriptionsByMessageType[t]`, which is the nil slice where the key is missing.
pub subs_of : String → SubscriptionManager → List Subscription
subs_of t m = or_empty (lookup t m.by_type)

-- `SubscribeMessageType`. The write of an empty slice at a missing key is overwritten at once.
unfoldable pub subscribe : String → SubscriptionManager → SubscriptionManager × Subscription
unfolding subs_of
subscribe t m =
    let sub : Subscription = record { message_type = t; token = suc m.counter } in
    (
      record m {
        by_type = insert t (subs_of t m ++ sub ∷ []) m.by_type;
        by_token = insert (suc m.counter) sub m.by_token;
        counter = suc m.counter;
      },
      sub,
    )

-- The loop of `HandleMessage`. `takes` says whether the send to a subscriber happened before
-- the end of its lifetime was seen.
forward : (Subscription → Bool) → List Subscription → List Subscription
forward takes [] = []
forward takes (s ∷ l) = let rest = forward takes l in if takes s then s ∷ rest else rest

-- `HandleMessage`: the subscriptions that the content was sent to. The code returns their number.
unfoldable pub handle_message :
    (Subscription → Bool) → Message → SubscriptionManager → List Subscription
unfolding subs_of forward
handle_message takes msg m = forward takes (subs_of msg.message_type m)

-- The search of `Unsubscribe`; `none` is -1.
pub find_pos : ℕ → List Subscription → Option ℕ
find_pos k [] = none
find_pos k (s ∷ l) =
    let rest = find_pos k l in
    if s.token == k then some 0 else (elim rest [ none ↦ none | some i ↦ some (suc i) ])

write : List Subscription → ℕ → Subscription → List Subscription
write [] i v = []
write (s ∷ l) ℕ.zero v = v ∷ l
write (s ∷ l) (suc i) v = s ∷ write l i v

last_of : Subscription → List Subscription → Subscription
last_of s [] = s
last_of s (s' ∷ l) = last_of s' l

-- `l[:len(l)-1]`
drop_last : List Subscription → List Subscription
drop_last [] = []
drop_last (s ∷ []) = []
drop_last (s ∷ s' ∷ l) = s ∷ drop_last (s' ∷ l)

-- The last entry takes the place of the one at `pos`, and the slice is cut by one.
pub swap_remove : ℕ → List Subscription → List Subscription
unfolding write last_of drop_last
swap_remove pos [] = []
swap_remove pos (s ∷ l) = drop_last (write (s ∷ l) pos (last_of s l))

failure : Subscription → String → GoError
failure sub message = masc (mk_error internal nil message (some (("token", other sub.token) ∷ [])))

pub remove_found : Subscription → List Subscription → ℕ → SubscriptionManager → SubscriptionManager
unfolding swap_remove
remove_found sub l pos m = record m {
  by_type = insert sub.message_type (swap_remove pos l) m.by_type;
  by_token = delete sub.token m.by_token;
}

remove_from :
    Subscription → Option (List Subscription) → SubscriptionManager → SubscriptionManager × GoError
unfolding find_pos remove_found failure
remove_from sub none m =
    (m, failure sub "no subscriptions for token by message type although it should exist. what?")
remove_from sub (some l) m = elim (find_pos sub.token l) [
  | none ↦ (m, failure sub "subscription with token not found in subscriptions by message type")
  | some pos ↦ (remove_found sub l pos m, nil)
]

-- `SubscriptionManager.Unsubscribe`. The texts of the errors leave out what `%v` prints.
unfoldable pub unsubscribe : Subscription → SubscriptionManager → SubscriptionManager × GoError
unfolding remove_from
unsubscribe sub m =
    let m' = record m { ended = sub ∷ m.ended } in
    elim (lookup sub.token m.by_token) [
      | none ↦ (m', failure sub "unknown message subscription token")
      | some _ ↦ remove_from sub (lookup sub.message_type m.by_type) m'
    ]

pub values : Dict ℕ Subscription → List Subscription
values [] = []
values ((k, s) ∷ d) = s ∷ values d

-- The calls of `Unsubscribe` that `CancelAllSubscriptions` starts, in the order in which they get
-- the lock. Their errors are only logged.
pub unsubscribe_each : List Subscription → SubscriptionManager → SubscriptionManager
unsubscribe_each [] m = m
unsubscribe_each (s ∷ l) m = unsubscribe_each l (unsubscribe s m).0

unfoldable pub cancel_all_subscriptions : SubscriptionManager → SubscriptionManager
unfolding values unsubscribe_each
cancel_all_subscriptions m = unsubscribe_each (values m.by_token) m
