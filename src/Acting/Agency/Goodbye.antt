-- ===== src/Acting/Agency/Goodbye.antt =====
-- Saying goodbye to a device, and who is available for hire.
use masc_server.Prelude.{
  ◌<◌, String, Option, none, some, true, false, List, [], ◌∷◌, ◌++◌, Dict, lookup, lookup-delete,
  string_key, ◌⊎◌, inl, inr, ◌≡◌, ◌≢◌, arith, Any, All, All-append, Option-cases, Bool-cases, ◌==◌,
  eq_iff,
}
use masc_server.Acting.Actors.{Actor, cancel, is_hired}
use masc_server.Acting.Actors.Contracts.{Steady}
use masc_server.Acting.Agency.{
  ActorDevice, Agency, leave, map_actors, shutdown, say_goodbye_to_device, actor_by_id,
  available_in, available_actors,
}

-- An actor whose device is gone: it is disconnected, and a contract that is in force has ended and
-- a goroutine is going to fire it.
abbrev pub Left : Actor → Type 0
Left a =
    (a.is_connected ≡ false)
    × ((a.contract.valid ≡ false) ⊎ (a.contract.cancelled ≡ true) × (0 < a.woken))

leave-Left : (a : Actor) → Steady a → Left (leave a)
unfolding leave cancel
leave-Left a h = ground arith

-- What is found of an actor before and after its device is gone: the same actor, hired as before,
-- that has left.
abbrev pub LeftBehind : Option Actor → Option Actor → Type 0
LeftBehind none none = Unit
LeftBehind none (some b) = ⊥
LeftBehind (some a) none = ⊥
LeftBehind (some a) (some b) =
    (b.id ≡ a.id)
    × (b.role ≡ a.role)
    × (is_hired b ≡ is_hired a)
    × (b.subscriptions ≡ a.subscriptions)
    × Left b

leave-LeftBehind : (a : Actor) → Steady a → LeftBehind (some a) (some (leave a))
unfolding leave cancel is_hired
leave-LeftBehind a h = ground arith

map_actors-LeftBehind :
    (key : String) (d : Dict String Actor)
    → All (λ e. Steady e.1) d
    → LeftBehind (lookup key d) (lookup key (map_actors leave d))
unfolding map_actors lookup
map_actors-LeftBehind key [] h = tt
map_actors-LeftBehind key ((k, a) ∷ d) h = elim (Bool-cases (k == key)) [
  | inl e ↦ rw e (leave-LeftBehind a h.0)
  | inr e ↦ rw e (map_actors-LeftBehind key d h.1)
]

-- After the goodbye to a registered device, whose actors are in a consistent state, it is no longer
-- registered and any other device is as it was. Under each key the device that was shut down has an
-- actor exactly if it had one before: the same one, hired as before, but disconnected, with its
-- contract ended and a goroutine awake to fire it if it is hired.
pub say_goodbye_to_device_lem :
    (id other key : String) (a : Agency) (d : ActorDevice)
    → lookup id a.actor_devices ≡ some d
    → All (λ e. Steady e.1) d.actors
    → id ≢ other
    → let (b, gone) = say_goodbye_to_device id a in
      (lookup id b.actor_devices ≡ none)
      × (lookup other b.actor_devices ≡ lookup other a.actor_devices)
      × (gone ≡ some (shutdown d))
      × LeftBehind (lookup key d.actors) (lookup key (shutdown d).actors)
unfolding say_goodbye_to_device shutdown
say_goodbye_to_device_lem id other key a d e h ne = (
  ground (arith, lookup-delete id id a.actor_devices, eq_iff id id),
  ground (arith, lookup-delete id other a.actor_devices, eq_iff id other),
  ground arith,
  map_actors-LeftBehind key d.actors h,
)

available_in_sound :
    (role : String) (d : Dict String Actor)
    → All (λ a. (is_hired a ≡ false) × (a.role ≡ role)) (available_in role d)
unfolding available_in is_hired
available_in_sound role [] = tt
available_in_sound role ((k, a) ∷ d) = ground (arith, available_in_sound role d, eq_iff a.role role)

available_actors_sound :
    (role : String) (ds : Dict String ActorDevice)
    → All (λ a. (is_hired a ≡ false) × (a.role ≡ role)) (available_actors role ds)
unfolding available_actors
available_actors_sound role [] = tt
available_actors_sound role ((k, d) ∷ ds) =
    All-append _ (available_in role d.actors) (available_actors role ds)
      (available_in_sound role d.actors) (available_actors_sound role ds)

Any-append_left : (P : Actor → Type 0) (xs ys : List Actor) → Any P xs → Any P (xs ++ ys)
Any-append_left P [] ys m = elim m [ ]
Any-append_left P (x ∷ xs) ys (inl p) = inl p
Any-append_left P (x ∷ xs) ys (inr m) = inr (Any-append_left P xs ys m)

Any-append_right : (P : Actor → Type 0) (xs ys : List Actor) → Any P ys → Any P (xs ++ ys)
Any-append_right P [] ys m = m
Any-append_right P (x ∷ xs) ys m = inr (Any-append_right P xs ys m)

available_in_complete :
    (role id : String) (d : Dict String Actor) (a : Actor)
    → lookup id d ≡ some a
    → is_hired a ≡ false
    → a.role ≡ role
    → Any (λ b. b ≡ a) (available_in role d)
unfolding available_in is_hired lookup
available_in_complete role id [] a e v r = cc
available_in_complete role id ((k, b) ∷ d) a e v r =
    ground (
      arith,
      available_in_complete role id d a,
      eq_iff k id,
      eq_iff a.role role,
      eq_iff b.role role,
    )

available_actors_complete :
    (role id : String) (ds : Dict String ActorDevice) (a : Actor)
    → actor_by_id id ds ≡ some a
    → is_hired a ≡ false
    → a.role ≡ role
    → Any (λ b. b ≡ a) (available_actors role ds)
unfolding available_actors actor_by_id
available_actors_complete role id [] a e v r = cc
available_actors_complete role id ((k, d) ∷ ds) a e v r = elim (Option-cases (lookup id d.actors)) [
  | inl f ↦
      Any-append_right _ (available_in role d.actors) _
        (available_actors_complete role id ds a (ground arith) v r)
  | inr (b, f) ↦
      Any-append_left _ (available_in role d.actors) _
        (available_in_complete role id d.actors a (ground arith) v r)
]

-- Everybody who is offered for a role is not hired and has that role; and whoever is found by an
-- id, is not hired and has the role is offered.
pub available_actors_lem :
    (role id : String) (ds : Dict String ActorDevice) (a : Actor)
    → actor_by_id id ds ≡ some a
    → is_hired a ≡ false
    → a.role ≡ role
    → Any (λ b. b ≡ a) (available_actors role ds)
      × All (λ b. (is_hired b ≡ false) × (b.role ≡ role)) (available_actors role ds)
available_actors_lem role id ds a e v r =
    (available_actors_complete role id ds a e v r, available_actors_sound role ds)
