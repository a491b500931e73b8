-- ===== src/Acting/Tests.antt =====
-- Actors, subscriptions and devices at concrete inputs (acting/acting.go and
-- acting/subscriptions.go).
use Prim.Native.String.{◌++◌ as ◌^◌, count}
use package.text.Mathlib.TextLemmas.{length-append}
use masc_server.Prelude.{
  ℕ, zero, suc, String, true, false, none, some, List, [], ◌∷◌, ◌++◌, ◌≡◌, ◌≢◌, ◌↔◌, ◌⊎◌, refl, All,
  inl, arith, string_key, nat_key, lookup, map, ap,
}
use masc_server.Errors.{nil, blame_user}
use masc_server.Messages.{no_content}
use masc_server.Acting.Roles.{team_base, match_monitor, game_master, get_role}
use masc_server.Acting.Subscriptions.{
  Subscription, Message, SubscriptionManager, new_subscription_manager, unsubscribe, handle_message,
  cancel_all_subscriptions,
}
use masc_server.Acting.Subscriptions.Slots.{times}
use masc_server.Acting.Subscriptions.Coherence.{Coherent, Registered, expected, unsubscribe_ok_iff}
use masc_server.Acting.Subscriptions.Delivery.{
  Call, subscribes, unsubscribes, run, run-new-Coherent, handle_message_once,
  handle_message-cancel_all_subscriptions,
}
use masc_server.Acting.Actors.{Actor, new_actor, hire, fire, wake, cancel, is_hired}
use masc_server.Acting.Actors.Contracts.{
  Steady, hires, act, act-Steady, act_all, fire_after, new_actor-Steady, wake_all, wake_all-cancel,
}
use masc_server.Acting.Actors.Rehire.{wake-hire-fire}
use masc_server.Acting.Agency.{
  Device, ActorDevice, Agency, new_protected_agency, welcome_device, create_actors, booted,
  shutdown, say_goodbye_to_device,
}
use masc_server.Acting.Agency.Welcome.{welcome_device-match_monitor, welcome_device-known_lem}
use masc_server.Acting.Agency.Goodbye.{LeftBehind, say_goodbye_to_device_lem}

abbrev second : Subscription
second = record { message_type = "ready-state"; token = 2 }

-- Three subscriptions, of which the second is ended.
abbrev calls : List Call
calls =
    subscribes "ready-state"
    ∷ subscribes "ready-state"
    ∷ subscribes "player-join"
    ∷ unsubscribes second
    ∷ []

abbrev manager : SubscriptionManager
manager = run calls new_subscription_manager

run-new-Coherent_example : Coherent manager
run-new-Coherent_example = run-new-Coherent calls

abbrev ready_message : Message
ready_message = record { message_type = "ready-state"; content = "{}" }

handle_message_once_example :
    times 1 (handle_message (λ s. true) ready_message manager)
    ≡ expected "ready-state" (lookup 1 manager.by_token)
handle_message_once_example =
    handle_message_once (λ s. true) ready_message manager 1 run-new-Coherent_example (λ s e. refl)

handle_message-cancel_all_subscriptions_example :
    handle_message (λ s. true) ready_message (cancel_all_subscriptions manager) ≡ []
handle_message-cancel_all_subscriptions_example =
    handle_message-cancel_all_subscriptions (λ s. true) ready_message manager
      run-new-Coherent_example

abbrev first : Subscription
first = record { message_type = "ready-state"; token = 1 }

unsubscribe_ok_iff_example : ((unsubscribe first manager).1 ≡ nil) ↔ Registered first manager
unsubscribe_ok_iff_example = unsubscribe_ok_iff first manager run-new-Coherent_example

-- An actor that is hired.
abbrev base : Actor
base = new_actor "a" "team-base"

abbrev hired_base : Actor
hired_base = (hire "blue" base).0

hired_once : act_all (hires "blue" ∷ []) base ≡ some hired_base
unfolding act_all act
hired_once = refl

fire_after_example :
    ((is_hired hired_base ≡ false)
      ⊎ ((b : Actor) × (fire hired_base ≡ some b) × (is_hired b ≡ false)))
    × (wake hired_base ≢ none)
fire_after_example = fire_after "a" "team-base" (hires "blue" ∷ []) hired_base hired_once

hired_base-Steady : Steady hired_base
unfolding act
hired_base-Steady =
    act-Steady (hires "blue") base hired_base (new_actor-Steady "a" "team-base") refl

hired_base-is_hired : is_hired hired_base ≡ true
unfolding hire is_hired new_actor
hired_base-is_hired = refl

wake_all-cancel_example :
    (b : Actor) × (wake_all (cancel hired_base).woken (cancel hired_base) ≡ some b)
    × (is_hired b ≡ false)
wake_all-cancel_example = wake_all-cancel hired_base hired_base-Steady hired_base-is_hired

abbrev fired_base : Actor
fired_base = record hired_base {
  contract = record { name = ""; valid = false; cancelled = true };
  sent = (hire "blue" base).0.sent ++ record { message_type = "fired"; content = no_content } ∷ [];
  woken = 1;
}

wake-hire-fire_example :
    (is_hired (hire "red" fired_base).0 ≡ true)
    × ((d : Actor) × (wake (hire "red" fired_base).0 ≡ some d) × (is_hired d ≡ false))
unfolding hire fire new_actor cancel new_subscription_manager cancel_all_subscriptions
wake-hire-fire_example =
    wake-hire-fire "red" hired_base fired_base (hire "red" fired_base).0 hired_base-is_hired refl
      refl refl

-- Ids that differ from each other.
abbrev uuid : ℕ → String
uuid zero = ""
uuid (suc n) = "u" ^ uuid n

count-uuid : (n : ℕ) → count (uuid n) ≡ n
count-uuid zero = refl
count-uuid (suc n) = omega (arith, length-append "u" (uuid n), count-uuid n)

uuid_inj : (i j : ℕ) → uuid i ≡ uuid j → i ≡ j
uuid_inj i j e = omega (arith, ap count e, count-uuid i, count-uuid j)

abbrev phone : Device
phone = record { id = "phone"; roles = team_base ∷ game_master ∷ [] }

abbrev welcomed : Agency
welcomed = (welcome_device uuid phone new_protected_agency).0

abbrev phone_actors : List Actor
phone_actors = create_actors uuid 0 phone.roles

phone_roles_known : All (λ r. get_role r ≢ none) phone.roles
unfolding get_role
phone_roles_known = (λ q. cc, (λ q. cc, tt))

tablet-ne : phone.id ≢ "tablet"
tablet-ne e = omega (arith, ap count e)

welcome_device-known_lem_example :
    let (b, err) = welcome_device uuid phone new_protected_agency in
    (err ≡ nil)
    × (map (λ (c : Actor). c.role) phone_actors ≡ phone.roles)
    × (lookup "phone" b.actor_devices ≡ some (booted phone phone_actors))
    × All (λ c. lookup c.id (booted phone phone_actors).actors ≡ some c) phone_actors
    × All (λ c. (c.contract.valid ≡ false) × (c.is_connected ≡ true)) phone_actors
    × (lookup "tablet" b.actor_devices ≡ lookup "tablet" new_protected_agency.actor_devices)
unfolding new_protected_agency
welcome_device-known_lem_example =
    welcome_device-known_lem uuid uuid_inj phone new_protected_agency "tablet" phone_roles_known
      tablet-ne

abbrev screen : Device
screen = record { id = "screen"; roles = match_monitor ∷ [] }

welcome_device-match_monitor_example :
    ((welcome_device uuid screen new_protected_agency).0 ≡ new_protected_agency)
    × (blame_user (welcome_device uuid screen new_protected_agency).1 ≡ true)
welcome_device-match_monitor_example =
    welcome_device-match_monitor uuid screen new_protected_agency (inl refl)

abbrev lent : ActorDevice
lent = record { device = phone; actors = ("a", hired_base) ∷ []; routing = true; sent = [] }

abbrev lending : Agency
lending = record new_protected_agency { actor_devices = ("phone", lent) ∷ [] }

say_goodbye_to_device_lem_example :
    let (b, gone) = say_goodbye_to_device "phone" lending in
    (lookup "phone" b.actor_devices ≡ none)
    × (lookup "tablet" b.actor_devices ≡ lookup "tablet" lending.actor_devices)
    × (gone ≡ some (shutdown lent))
    × LeftBehind (lookup "a" lent.actors) (lookup "a" (shutdown lent).actors)
unfolding lookup
say_goodbye_to_device_lem_example =
    say_goodbye_to_device_lem "phone" "tablet" "a" lending lent refl (hired_base-Steady, tt)
      tablet-ne

abbrev idle : ActorDevice
idle = record lent { actors = ("a", base) ∷ ("b", hired_base) ∷ [] }
