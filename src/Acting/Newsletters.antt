-- ===== src/Acting/Newsletters.antt =====
-- acting/subscriptions.go: newsletters, which read a subscription's raw messages and pass them on
-- decoded. The goroutine of a newsletter is a loop over what it meets in its `select`s.
pub mod Subscribing
pub mod Topics
pub mod Delivery
pub mod Ends
mod Tests
use Prim.Native.String.{◌++◌ as concat}
use masc_server.Prelude.{ℕ, zero, suc, String, Bool, true, false, Option, none, some, List, [], ◌∷◌}
use masc_server.Errors.{GoError, nil, native, masc, wrap}
use masc_server.Acting.Subscriptions.{Subscription, SubscriptionManager, subscribe, unsubscribe}

-- What the goroutine of a newsletter meets: the end of the subscription's lifetime; a raw message
-- that the reader waits for; or one that the lifetime ends on before the reader takes it.
pub data Turn : Type 0 where
  over : Turn
  taken missed : String → Turn

-- What the reader got, how many messages were logged as broken, and whether the channel is closed.
pub record Reading {ℓ} (A : Type ℓ) : Type ℓ where
  pub received : List A
  pub parse_errors : ℕ
  pub closed : Bool

module _ {ℓ} {A : Type ℓ} where
  abbrev pub waiting : Reading A
  waiting = record { received = []; parse_errors = 0; closed = false }

  abbrev pub finished : Reading A
  finished = record { received = []; parse_errors = 0; closed = true }

  -- `decodeAsJSONOrLogSubscriptionParseError`: where the decoding fails, the loop goes on with the
  -- next message after the log entry; else it goes on with the message.
  unfoldable pub decoded_or_logged : Option A → Reading A → (A → Reading A) → Reading A
  decoded_or_logged none next use_it = record next { parse_errors = suc next.parse_errors }
  decoded_or_logged (some m) next use_it = use_it m

  -- The goroutine of a newsletter, where `unmarshal` is `json.Unmarshal`.
  unfoldable pub read : (String → Option A) → List Turn → Reading A
  unfolding decoded_or_logged
  read unmarshal [] = waiting
  read unmarshal (over ∷ turns) = finished
  read unmarshal (taken raw ∷ turns) =
      let next = read unmarshal turns in
      decoded_or_logged (unmarshal raw) next (λ m. record next { received = m ∷ next.received })
  read unmarshal (missed raw ∷ turns) =
      let next = read unmarshal turns in decoded_or_logged (unmarshal raw) next (λ m. finished)

-- A newsletter: its subscription, and how its channel is fed.
pub record Newsletter {ℓ} (A : Type ℓ) : Type ℓ where
  pub subscription : Subscription
  pub receive : List Turn → Reading A

abbrev pub NotifyingNewsletter : Type 0
NotifyingNewsletter = Newsletter Unit

-- What all functions below do with their message type.
unfoldable pub subscribe_decoded {ℓ} :
    {A : Type ℓ}
    → String
    → (String → Option A)
    → SubscriptionManager
    → SubscriptionManager × Newsletter A
subscribe_decoded message_type unmarshal m =
    let (m', sub) = subscribe message_type m in
    (m', record { subscription = sub; receive = read unmarshal })

-- `SubscribeNotifyForMessageType`. The content of a message is not read.
unfoldable pub subscribe_notify_for_message_type :
    String → SubscriptionManager → SubscriptionManager × NotifyingNewsletter
unfolding subscribe_decoded
subscribe_notify_for_message_type message_type m = subscribe_decoded message_type (λ raw. some tt) m

-- The error of a newsletter's manager in its context, and what is left of the error in the log.
unsubscribe_error : String → GoError → GoError
unsubscribe_error id nil = nil
unsubscribe_error id (native s) =
    wrap (native s) (concat "unsubscribe message type for actor " id) none
unsubscribe_error id (masc e) = wrap (masc e) (concat "unsubscribe message type for actor " id) none

-- `Unsubscribe`, for the actor with the id.
unfoldable pub unsubscribe_newsletter {ℓ} :
    {A : Type ℓ} → String → Newsletter A → SubscriptionManager → SubscriptionManager × GoError
unfolding unsubscribe_error
unsubscribe_newsletter id n m =
    let (m', err) = unsubscribe n.subscription m in (m', unsubscribe_error id err)

-- `UnsubscribeOrLogError`, which logs the error of `Unsubscribe`.
unfoldable pub unsubscribe_or_log_error {ℓ} :
    {A : Type ℓ} → String → Newsletter A → SubscriptionManager → SubscriptionManager
unfolding unsubscribe_newsletter
unsubscribe_or_log_error id n m = (unsubscribe_newsletter id n m).0
