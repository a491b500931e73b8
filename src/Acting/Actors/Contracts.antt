-- ===== src/Acting/Actors/Contracts.antt =====
-- What holds of an actor through any sequence of calls, and what hiring and firing do.
use masc_server.Prelude.{
  ℕ, zero, suc, ◌<◌, String, Bool, true, false, Option, none, some, List, [], ◌∷◌, ◌++◌,
  if◌then◌else◌, ◌≡◌, refl, ◌≢◌, ◌⊎◌, inl, inr, ◌↔◌, arith, Option-cases, string_key,
}
use masc_server.Errors.{nil}
use masc_server.Messages.{OutgoingMessage, you_are_in}
use masc_server.Acting.Subscriptions.{Subscription, Message}
use masc_server.Acting.Actors.{
  Actor, new_actor, cancel, hire, fire, wake, is_hired, send, subscribe_message_type,
  handle_incoming_message,
}

-- Hiring succeeds exactly for a connected actor that is not hired. It tells the actor and makes
-- it hired; where it fails, neither the contract nor what was sent changes.
pub hire_lem :
    (name : String) (a : Actor)
    → (((hire name a).1 ≡ nil) ↔ ((is_hired a ≡ false) × (a.is_connected ≡ true)))
      × (((hire name a).1 ≡ nil)
            × (is_hired (hire name a).0 ≡ true)
            × ((hire name a).0.sent
                ≡ a.sent
                  ++ record { message_type = "you-are-in"; content = you_are_in a.id a.role } ∷ [])
          ⊎ ((hire name a).1 ≢ nil)
            × ((hire name a).0.contract ≡ a.contract)
            × ((hire name a).0.sent ≡ a.sent))
unfolding hire is_hired
hire_lem name a = ground arith

-- What holds of an actor between two calls: one that is hired, or has a goroutine that will fire
-- it, has a subscription manager, and a contract that has ended while it is in force is
-- awaited by such a goroutine.
pub record Steady (a : Actor) : Type 0 where
  pub hired_managed : a.contract.valid ≡ true → a.subscriptions ≢ none
  pub woken_managed : 0 < a.woken → a.subscriptions ≢ none
  pub ended_awaited : a.contract.valid ≡ true → a.contract.cancelled ≡ true → 0 < a.woken

pub data Action : Type 0 where
  hires : String → Action
  fires wakes cancels disconnects : Action
  sends : OutgoingMessage → Action
  subscribes : String → Action
  receives : (Subscription → Bool) → Message → Action

-- `none` is a panic. A contract that is no longer in force has ended already, so its end changes
-- nothing.
unfoldable pub act : Action → Actor → Option Actor
act (hires name) a = some (hire name a).0
act fires a = fire a
act wakes a = wake a
act cancels a = some (if a.contract.valid then cancel a else a)
act disconnects a = some (record a { is_connected = false })
act (sends m) a = some (send m a).0
act (subscribes t) a = elim (subscribe_message_type t a) [ none ↦ none | some r ↦ some r.0 ]
act (receives takes m) a = handle_incoming_message takes m a

-- A new actor is steady.
pub new_actor-Steady : (id role : String) → Steady (new_actor id role)
unfolding new_actor
new_actor-Steady id role = ground arith

-- Every call keeps an actor steady.
pub act-Steady : (c : Action) (a b : Actor) → Steady a → act c a ≡ some b → Steady b
unfolding act hire fire wake cancel send subscribe_message_type handle_incoming_message
act-Steady (hires name) a b h e = ground arith
act-Steady fires a b h e = ground arith
act-Steady wakes a b h e = ground arith
act-Steady cancels a b h e = ground arith
act-Steady disconnects a b h e = ground arith
act-Steady (sends m) a b h e = ground arith
act-Steady (subscribes t) a b h e = ground arith
act-Steady (receives takes m) a b h e = ground arith

-- Calls one after the other; the first panic ends them.
unfoldable pub act_all : List Action → Actor → Option Actor
act_all [] a = some a
act_all (c ∷ cs) a = elim (act c a) [ none ↦ none | some b ↦ act_all cs b ]

act_all-Steady : (cs : List Action) (a b : Actor) → Steady a → act_all cs a ≡ some b → Steady b
unfolding act_all
act_all-Steady [] a b h e = ground arith
act_all-Steady (c ∷ cs) a b h e = elim (Option-cases (act c a)) [
  | inl f ↦ ground arith
  | inr (a', f) ↦ act_all-Steady cs a' b (act-Steady c a a' h f) (ground arith)
]

fired :
    (a : Actor)
    → Steady a
    → (is_hired a ≡ false) ⊎ ((b : Actor) × (fire a ≡ some b) × (is_hired b ≡ false))
unfolding fire is_hired
fired a h = elim (Option-cases (fire a)) [
  | inl e ↦ inl (ground arith)
  | inr (b, e) ↦ inr (b, e, ground arith)
]

woken_fires : (a : Actor) → Steady a → wake a ≢ none
unfolding wake
woken_fires a h e = ground arith

-- Whatever was called on an actor since it was created: it is not hired, or firing it works and
-- leaves it not hired; and no goroutine that waits for the end of a contract panics.
pub fire_after :
    (id role : String) (cs : List Action) (a : Actor)
    → act_all cs (new_actor id role) ≡ some a
    → ((is_hired a ≡ false) ⊎ ((b : Actor) × (fire a ≡ some b) × (is_hired b ≡ false)))
      × (wake a ≢ none)
fire_after id role cs a e =
    let h = act_all-Steady cs (new_actor id role) a (new_actor-Steady id role) e in
    (fired a h, woken_fires a h)

-- All goroutines that have woken up, one after the other.
pub wake_all : ℕ → Actor → Option Actor
wake_all zero a = some a
wake_all (suc n) a = elim (wake a) [ none ↦ none | some b ↦ wake_all n b ]

wake-Steady : (a b : Actor) → Steady a → wake a ≡ some b → Steady b
unfolding act
wake-Steady a b h e = act-Steady wakes a b h e

wake_idle :
    (a b : Actor) → wake a ≡ some b → 0 < a.woken ⊎ (is_hired a ≡ false) → is_hired b ≡ false
unfolding wake is_hired
wake_idle a b e h = ground arith

wake_all-suc : (n : ℕ) (a b : Actor) → wake a ≡ some b → wake_all (suc n) a ≡ wake_all n b
unfolding wake_all
wake_all-suc n a b e = ground arith

wake_all_idle :
    (n : ℕ) (a : Actor)
    → Steady a
    → is_hired a ≡ false
    → (b : Actor) × (wake_all n a ≡ some b) × (is_hired b ≡ false)
unfolding wake_all
wake_all_idle zero a h v = (a, refl, v)
wake_all_idle (suc n) a h v = elim (Option-cases (wake a)) [
  | inl e ↦ absurd (woken_fires a h e)
  | inr (b, e) ↦
      rw (wake_all-suc n a b e) (wake_all_idle n b (wake-Steady a b h e) (wake_idle a b e (inr v)))
]

wake_all_woken :
    (n : ℕ) (a : Actor)
    → Steady a
    → 0 < a.woken
    → 0 < n
    → (b : Actor) × (wake_all n a ≡ some b) × (is_hired b ≡ false)
wake_all_woken zero a h w p = elim p [ ]
wake_all_woken (suc n) a h w p = elim (Option-cases (wake a)) [
  | inl e ↦ absurd (woken_fires a h e)
  | inr (b, e) ↦
      rw (wake_all-suc n a b e) (wake_all_idle n b (wake-Steady a b h e) (wake_idle a b e (inl w)))
]

cancel-Steady :
    (a : Actor) → Steady a → is_hired a ≡ true → Steady (cancel a) × (0 < (cancel a).woken)
unfolding cancel is_hired
cancel-Steady a h v = ground arith

-- Ending the contract of a hired actor that is steady leaves it not hired once the goroutines that
-- have woken up have run; none of them panics.
pub wake_all-cancel :
    (a : Actor)
    → Steady a
    → is_hired a ≡ true
    → (b : Actor) × (wake_all (cancel a).woken (cancel a) ≡ some b) × (is_hired b ≡ false)
wake_all-cancel a h v =
    let (steady, more) = cancel-Steady a h v in
    wake_all_woken (cancel a).woken (cancel a) steady more more
