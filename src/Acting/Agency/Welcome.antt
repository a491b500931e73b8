-- ===== src/Acting/Agency/Welcome.antt =====
-- Welcoming a device: all of its roles become actors, or none.
use masc_server.Prelude.{
  ℕ, suc, ◌<◌, String, none, some, true, false, List, [], ◌∷◌, Dict, lookup, insert, lookup-insert,
  string_key, inl, inr, ◌≡◌, refl, ◌≢◌, arith, Any, Any-mono, map, All, Option-cases, eq_iff, ap,
}
use masc_server.Errors.{nil, wrap}
use masc_server.Errors.{blame_user}
use masc_server.Acting.Roles.{get_role, match_monitor}
use masc_server.Acting.Actors.{Actor, new_actor}
use masc_server.Acting.Agency.{
  Device, Agency, check_roles, create_actors, by_id, booted, welcome_device, register,
}

-- A role type comes back as it was given.
get_role-eq : (r : String) {role : String} → get_role r ≡ some role → role ≡ r
unfolding get_role
get_role-eq r e = ground arith

check_roles-unknown :
    (rs : List String)
    → Any (λ r. get_role r ≡ none) rs
    → (bad : String) × (check_roles rs ≡ inl bad)
unfolding check_roles
check_roles-unknown [] m = elim m [ ]
check_roles-unknown (r ∷ rs) (inl e) = (r, ground arith)
check_roles-unknown (r ∷ rs) (inr m) = elim (Option-cases (get_role r)) [
  | inl e ↦ (r, ground arith)
  | inr (role, e) ↦ let (bad, f) = check_roles-unknown rs m in (bad, ground arith)
]

check_roles-known : (rs : List String) → All (λ r. get_role r ≢ none) rs → check_roles rs ≡ inr rs
unfolding check_roles
check_roles-known [] h = refl
check_roles-known (r ∷ rs) h = elim (Option-cases (get_role r)) [
  | inl e ↦ absurd (h.0 e)
  | inr (role, e) ↦ ground (arith, get_role-eq r e, check_roles-known rs h.1)
]

module _ (uuid : ℕ → String) (device : Device) (a : Agency) where
  -- A device that offers an unknown role is refused whole: no actor of it is registered, the
  -- agency stays as it was, and the error blames the device.
  pub welcome_device-unknown :
      Any (λ r. get_role r ≡ none) device.roles
      → ((welcome_device uuid device a).0 ≡ a)
        × (blame_user (welcome_device uuid device a).1 ≡ true)
  unfolding welcome_device blame_user wrap
  welcome_device-unknown h = let (bad, e) = check_roles-unknown device.roles h in ground arith

  -- In particular every device that offers the role of a match monitor is refused, although
  -- that is one of the role types.
  pub welcome_device-match_monitor :
      Any (λ r. r ≡ match_monitor) device.roles
      → ((welcome_device uuid device a).0 ≡ a)
        × (blame_user (welcome_device uuid device a).1 ≡ true)
  unfolding get_role
  welcome_device-match_monitor h =
      welcome_device-unknown (Any-mono (λ r e. ap get_role e) device.roles h)

  welcome_device-known :
      All (λ r. get_role r ≢ none) device.roles
      → welcome_device uuid device a ≡ (register uuid device device.roles a, nil)
  unfolding welcome_device
  welcome_device-known h = rw (check_roles-known device.roles h, welcome_device)

lookup-by_id_ne :
    (id : String) (l : List Actor) (d : Dict String Actor)
    → All (λ a. a.id ≢ id) l
    → lookup id (by_id l d) ≡ lookup id d
lookup-by_id_ne id [] d h = refl
lookup-by_id_ne id (a ∷ l) d h =
    ground
      (arith, lookup-by_id_ne id l (insert a.id a d) h.1, lookup-insert a.id id a d, eq_iff a.id id)

module _ (uuid : ℕ → String) (fresh : (i j : ℕ) → uuid i ≡ uuid j → i ≡ j) where
  create_actors-ne :
      (k n : ℕ) (roles : List String)
      → k < n
      → All (λ a. a.id ≢ uuid k) (create_actors uuid n roles)
  unfolding create_actors new_actor
  create_actors-ne k n [] h = tt
  create_actors-ne k n (r ∷ rs) h =
      ((λ e. omega (arith, fresh n k e)), create_actors-ne k (suc n) rs (omega arith))

  lookup-by_id :
      (n : ℕ) (roles : List String) (d : Dict String Actor)
      → All
          (λ a. lookup a.id (by_id (create_actors uuid n roles) d) ≡ some a)
          (create_actors uuid n roles)
  unfolding create_actors new_actor
  lookup-by_id n [] d = tt
  lookup-by_id n (r ∷ rs) d = (
    rw
        (lookup-by_id_ne (uuid n) (create_actors uuid (suc n) rs) _
          (create_actors-ne n (suc n) rs (omega arith)))
        (rw (lookup-insert (uuid n) (uuid n)) (ground (arith, eq_iff (uuid n) (uuid n)))),
    lookup-by_id (suc n) rs _,
  )

  roles-create_actors :
      (n : ℕ) (roles : List String)
      → map (λ (c : Actor). c.role) (create_actors uuid n roles) ≡ roles
  unfolding create_actors new_actor
  roles-create_actors n [] = refl
  roles-create_actors n (r ∷ rs) = ap (◌∷◌ r) (roles-create_actors (suc n) rs)

  create_actors-new :
      (n : ℕ) (roles : List String)
      → All (λ c. (c.contract.valid ≡ false) × (c.is_connected ≡ true)) (create_actors uuid n roles)
  unfolding create_actors new_actor
  create_actors-new n [] = tt
  create_actors-new n (r ∷ rs) = ((refl, refl), create_actors-new (suc n) rs)

  -- A device whose roles are all known is registered under its id with one actor for each role, in the
  -- order of the roles, if the ids drawn differ: each is not hired, connected and found by its id on
  -- the device. The entry of any other device stays.
  pub welcome_device-known_lem :
      (device : Device) (a : Agency) (id : String)
      → All (λ r. get_role r ≢ none) device.roles
      → device.id ≢ id
      → let (b, err) = welcome_device uuid device a in
        let created = create_actors uuid a.drawn device.roles in
        (err ≡ nil)
        × (map (λ (c : Actor). c.role) created ≡ device.roles)
        × (lookup device.id b.actor_devices ≡ some (booted device created))
        × All (λ c. lookup c.id (booted device created).actors ≡ some c) created
        × All (λ c. (c.contract.valid ≡ false) × (c.is_connected ≡ true)) created
        × (lookup id b.actor_devices ≡ lookup id a.actor_devices)
  unfolding register
  welcome_device-known_lem device a id h ne = rw (welcome_device-known uuid device a h) (
    refl,
    roles-create_actors a.drawn device.roles,
    rw (lookup-insert device.id device.id) (ground (arith, eq_iff device.id device.id)),
    lookup-by_id a.drawn device.roles [],
    create_actors-new a.drawn device.roles,
    ground (
      arith,
      lookup-insert device.id id (booted device (create_actors uuid a.drawn device.roles))
          a.actor_devices,
      eq_iff device.id id,
    ),
  )
