-- ===== src/Acting/Agency.antt =====
-- `netActorDevice` and `ProtectedAgency` of acting/acting.go. The agency's lock makes each method
-- one step. The ids that `uuid.New` draws are a parameter: `uuid n` is the n-th.
pub mod Welcome
pub mod Goodbye
use masc_server.Prelude.{
  ℕ, zero, suc, ◌+◌, String, Bool, true, false, Option, none, some, List, [], ◌∷◌, ◌++◌,
  if◌then◌else◌, not, Dict, lookup, insert, delete, string_key, nat_key, ◌==◌, ◌&&◌, ◌⊎◌, inl, inr,
  map,
}
use masc_server.Errors.{GoError, nil, masc, mk_error, bad_request, str, wrap}
use masc_server.Messages.{OutgoingMessage}
use masc_server.Acting.Roles.{get_role}
use masc_server.Acting.Subscriptions.{Subscription, Message}
use masc_server.Acting.Actors.{
  Actor, new_actor, cancel, actor_error_message_from_error, handle_incoming_message,
}

-- The fields of `gatekeeping.Device` that the agency reads.
pub record Device : Type 0 where
  pub id : String
  pub roles : List String

-- `netActorDevice`. `sent` holds the messages to the device that belong to no actor.
pub record ActorDevice : Type 0 where
  pub device : Device
  pub actors : Dict String Actor
  pub routing : Bool
  pub sent : List OutgoingMessage

-- `ProtectedAgency`. A recipient is known by a number; `told` holds the calls of
-- `HandleNewActor` that were started, and `drawn` the number of ids drawn.
pub record Agency : Type 0 where
  pub actor_devices : Dict String ActorDevice
  pub new_actor_subscribers : List ℕ
  pub told : List (ℕ × Actor)
  pub drawn : ℕ

unfoldable pub new_protected_agency : Agency
new_protected_agency = record {
  actor_devices = [];
  new_actor_subscribers = [];
  told = [];
  drawn = 0;
}

-- The first loop of `boot`: the first unknown role, or all role types.
unfoldable pub check_roles : List String → String ⊎ List String
check_roles [] = inr []
check_roles (r ∷ rs) = elim (get_role r) [
  | none ↦ inl r
  | some role ↦ elim (check_roles rs) [ inl bad ↦ inl bad | inr roles ↦ inr (role ∷ roles) ]
]

module _ (uuid : ℕ → String) where
  -- The second loop of `boot`.
  unfoldable pub create_actors : ℕ → List String → List Actor
  create_actors n [] = []
  create_actors n (r ∷ rs) = new_actor (uuid n) r ∷ create_actors (suc n) rs

abbrev pub by_id : List Actor → Dict String Actor → Dict String Actor
by_id [] d = d
by_id (a ∷ l) d = by_id l (insert a.id a d)

unknown_role : String → GoError
unknown_role role = masc (mk_error bad_request nil "unknown role" (some (("role", str role) ∷ [])))

-- The loops that satisfy the subscriptions to new actors.
tell : List ℕ → List Actor → List (ℕ × Actor)
tell recipients [] = []
tell recipients (a ∷ l) = map (λ r. (r, a)) recipients ++ tell recipients l

abbrev pub booted : Device → List Actor → ActorDevice
booted device l = record { device = device; actors = by_id l []; routing = true; sent = [] }

count_roles : List String → ℕ
count_roles [] = 0
count_roles (r ∷ rs) = suc (count_roles rs)

pub register : (ℕ → String) → Device → List String → Agency → Agency
unfolding create_actors tell count_roles
register uuid device roles a =
    let created = create_actors uuid a.drawn roles in
    record a {
      actor_devices = insert device.id (booted device created) a.actor_devices;
      told = a.told ++ tell a.new_actor_subscribers created;
      drawn = a.drawn + count_roles roles;
    }

-- `WelcomeDevice` with `boot`
unfoldable pub welcome_device : (ℕ → String) → Device → Agency → Agency × GoError
unfolding register unknown_role
welcome_device uuid device a = elim (check_roles device.roles) [
  | inl role ↦ (a, wrap (unknown_role role) "boot actor device" none)
  | inr roles ↦ (register uuid device roles a, nil)
]

-- The loop of `shutdown`.
pub leave : Actor → Actor
leave a =
    let gone = record a { is_connected = false } in if a.contract.valid then cancel gone else gone

map_actors : (Actor → Actor) → Dict String Actor → Dict String Actor
map_actors f [] = []
map_actors f ((k, a) ∷ d) = (k, f a) ∷ map_actors f d

unfoldable pub shutdown : ActorDevice → ActorDevice
unfolding leave map_actors
shutdown d = record d { actors = map_actors leave d.actors; routing = false }

-- `SayGoodbyeToDevice`, which always returns nil. The device that was shut down is returned too: its actors
-- live on in the hands of those who hired them.
unfoldable pub say_goodbye_to_device : String → Agency → Agency × Option ActorDevice
say_goodbye_to_device id a = elim (lookup id a.actor_devices) [
  | none ↦ (a, none)
  | some d ↦ (record a { actor_devices = delete id a.actor_devices }, some (shutdown d))
]

-- `ActorByID`
unfoldable pub actor_by_id : String → Dict String ActorDevice → Option Actor
actor_by_id id [] = none
actor_by_id id ((k, d) ∷ ds) = elim (lookup id d.actors) [
  | some a ↦ some a
  | none ↦ actor_by_id id ds
]

available_in : String → Dict String Actor → List Actor
available_in role [] = []
available_in role ((k, a) ∷ d) =
    let rest = available_in role d in
    if not a.contract.valid && a.role == role then a ∷ rest else rest

-- `AvailableActors`
unfoldable pub available_actors : String → Dict String ActorDevice → List Actor
unfolding available_in
available_actors role [] = []
available_actors role ((k, d) ∷ ds) = available_in role d.actors ++ available_actors role ds

unfoldable pub open_agency : Agency → Agency
open_agency a = record a { actor_devices = [] }

shutdown_all : Dict String ActorDevice → Dict String ActorDevice
unfolding shutdown
shutdown_all [] = []
shutdown_all ((k, d) ∷ ds) = (k, shutdown d) ∷ shutdown_all ds

unfoldable pub close_agency : Agency → Agency
unfolding shutdown_all
close_agency a = record a { actor_devices = shutdown_all a.actor_devices }

has : ℕ → List ℕ → Bool
has r [] = false
has r (x ∷ xs) = let rest = has r xs in if x == r then true else rest

without : ℕ → List ℕ → List ℕ
without r [] = []
without r (x ∷ xs) = let rest = without r xs in if x == r then rest else x ∷ rest

unfoldable pub subscribe_new_actors : ℕ → Agency → Agency
unfolding has
subscribe_new_actors r a =
    if has r a.new_actor_subscribers
    then a
    else record a { new_actor_subscribers = a.new_actor_subscribers ++ r ∷ [] }

unfoldable pub unsubscribe_new_actors : ℕ → Agency → Agency
unfolding has without
unsubscribe_new_actors r a =
    if has r a.new_actor_subscribers
    then record a { new_actor_subscribers = without r a.new_actor_subscribers }
    else a

unknown_actor : String → GoError
unknown_actor id = masc (mk_error bad_request nil "unknown actor" (some (("id", str id) ∷ [])))

-- One message in `routeIncoming`; `none` is a panic.
unfoldable pub route_incoming :
    (Subscription → Bool) → String → Message → ActorDevice → Option ActorDevice
unfolding unknown_actor
route_incoming takes id message d = elim (lookup id d.actors) [
  | none ↦
      some (record d { sent = d.sent ++ actor_error_message_from_error (unknown_actor id) ∷ [] })
  | some a ↦ elim (handle_incoming_message takes message a) [
    | none ↦ none
    | some a' ↦ some (record d { actors = insert id a' d.actors })
  ]
]
