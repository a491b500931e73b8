-- ===== src/LightSwitches/Calls/Mirror.antt =====
-- The assignments of the active light switches are those of the store (lightswitch/manager.go).
use masc_server.Prelude.{
  ℕ, String, Bool, true, false, ◌≡◌, refl, ◌∙◌, subst, Option, none, some, List, [], ◌∷◌, arith,
  if◌then◌else◌, Dict, lookup, insert, delete, lookup-insert, lookup-delete, nat_key, nat_same_iff,
  string_key, ◌==◌, same_refl, All,
}
use masc_server.Errors.{GoError}
use masc_server.Errors.Results.{Result, Done, ok, failed, ok-injective}
use masc_server.Messages.Incoming.{OfferedLightSwitch}
use masc_server.LightSwitches.{
  StoreSwitch, EditLightSwitch, SwitchStore, LightSwitch, new_light_switch_hi_lo, set_assignments,
  is_not_found, instantiate, once_created, once_refreshed, once_searched, create_one, with_switch,
  further, create_light_switches_from_provider_message,
}
use masc_server.LightSwitches.Calls.{unless_registered, register_each, remove_each}

abbrev pub renewed : List ℕ → Option (List ℕ) → Option (List ℕ)
renewed assignments none = none
renewed assignments (some old) = some assignments

-- What the manager relies on from its store, where `find` finds the assignments of a light switch. A
-- call that fails changes nothing.
pub record SwitchLaws {L : Type 0} (store : SwitchStore L) (find : ℕ → L → Option (List ℕ))
    : Type 0 where
  pub searches :
      (device provider : String) (stored : StoreSwitch) (s : L)
      → store.light_switch_by_device_and_provider_id device provider s ≡ ok stored
      → find stored.id s ≡ some stored.assignments
  -- A light switch is created under an id that is new.
  pub creates :
      (given created : StoreSwitch) (s s' : L)
      → store.create_light_switch given s ≡ (s', ok created)
      → (created.assignments ≡ given.assignments)
        × (find created.id s ≡ none)
        × ((id : ℕ) → find id s' ≡ (if created.id == id then some given.assignments else find id s))
  pub creates_not :
      (given : StoreSwitch) (e : GoError) (s s' : L)
      → store.create_light_switch given s ≡ (s', failed e)
      → (id : ℕ) → find id s' ≡ find id s
  pub updates :
      (id : ℕ) (payload : EditLightSwitch) (s s' : L)
      → store.update_light_switch_by_id id payload s ≡ (s', ok tt)
      → (j : ℕ) → find j s' ≡ (if id == j then renewed payload.assignments (find j s) else find j s)
  pub updates_not :
      (id : ℕ) (payload : EditLightSwitch) (e : GoError) (s s' : L)
      → store.update_light_switch_by_id id payload s ≡ (s', failed e)
      → (j : ℕ) → find j s' ≡ find j s
  pub deletes :
      (id : ℕ) (s s' : L)
      → store.delete_light_switch_by_id id s ≡ (s', ok tt)
      → (j : ℕ) → find j s' ≡ (if id == j then none else find j s)
  pub deletes_not :
      (id : ℕ) (e : GoError) (s s' : L)
      → store.delete_light_switch_by_id id s ≡ (s', failed e)
      → (j : ℕ) → find j s' ≡ find j s
  pub refreshes :
      (id j : ℕ) (s : L) → find j (store.refresh_last_seen_for_light_switch_by_id id s).0 ≡ find j s

module _ {L : Type 0} (store : SwitchStore L) (find : ℕ → L → Option (List ℕ)) where
  abbrev pub Stored : L → LightSwitch → Type 0
  Stored s ls = find ls.id s ≡ some ls.assignments

  -- What is stored stays so.
  abbrev pub Keeps : L → L → Type 0
  Keeps s s' = (id : ℕ) (a : List ℕ) → find id s ≡ some a → find id s' ≡ some a

  abbrev Fine : L → L × Result LightSwitch → Type 0
  Fine s r = Keeps s r.0 × ((ls : LightSwitch) → r.1 ≡ ok ls → Stored r.0 ls)

  -- Each active light switch stands under its id, and has the assignments that are stored for it.
  abbrev pub Mirrored : L → Dict ℕ LightSwitch → Type 0
  Mirrored s active =
      (id : ℕ) (ls : LightSwitch)
      → lookup id active ≡ some ls
      → (ls.id ≡ id) × (find id s ≡ some ls.assignments)

  instantiate-Stored :
      (now : ℕ) (stored : StoreSwitch) (s : L)
      → find stored.id s ≡ some stored.assignments
      → (ls : LightSwitch) → instantiate store now stored ≡ ok ls
      → Stored s ls
  unfolding instantiate set_assignments new_light_switch_hi_lo
  instantiate-Stored now stored s known ls = by_test (stored.switch_type == "hi-lo") _
    where
      made : LightSwitch
      made = set_assignments stored.assignments (new_light_switch_hi_lo stored.id now)

      by_test : (b : Bool) (e : GoError) → (if b then ok made else failed e) ≡ ok ls → Stored s ls
      by_test true e q = subst (Stored s) (ok-injective _ _ q) known
      by_test false e q = cc

  module _ (laws : SwitchLaws store find) where
    created-Fine :
        (now : ℕ) (given : StoreSwitch) (s : L) (r : L × Result StoreSwitch)
        → store.create_light_switch given s ≡ r
        → Fine s (once_created store now r)
    unfolding once_created
    created-Fine now given s (s', failed e) q =
        (λ id a known. laws.creates_not given e s s' q id ∙ known, λ ls r. cc)
    created-Fine now given s (s', ok c) q =
        let (same, new, finds) = laws.creates given c s s' q in
        (
          λ id a known. ground (arith, finds id, new, nat_same_iff c.id id),
          instantiate-Stored now c s' (finds c.id ∙ rw (same_refl c.id, same) refl),
        )

    refreshed-Fine :
        (now : ℕ) (stored : StoreSwitch) (s : L) (r : L × Done)
        → ((j : ℕ) → find j r.0 ≡ find j s)
        → find stored.id s ≡ some stored.assignments
        → Fine s (once_refreshed store now stored r)
    unfolding once_refreshed
    refreshed-Fine now stored s (s', failed e) same known = (λ id a k. same id ∙ k, λ ls r. cc)
    refreshed-Fine now stored s (s', ok u) same known =
        (λ id a k. same id ∙ k, instantiate-Stored now stored s' (same stored.id ∙ known))

    create_one-Fine :
        (now : ℕ) (random : String → String) (device : String) (offered : OfferedLightSwitch)
        (s : L)
        → Fine s (create_one store now random device offered s)
    unfolding create_one once_searched
    create_one-Fine now random device offered s = by_search _ refl
      where
        either :
            (b : Bool) (r : L × Result LightSwitch) (e : GoError)
            → Fine s r
            → Fine s (if b then r else (s, failed e))
        either true r e h = h
        either false r e h = (λ id a k. k, λ ls q. cc)

        by_search :
            (r : Result StoreSwitch)
            → store.light_switch_by_device_and_provider_id device offered.provider_id s ≡ r
            → Fine s (once_searched store now (random offered.provider_id) device offered r s)
        by_search (failed e) q = either (is_not_found e) _ _ (created-Fine now _ s _ refl)
        by_search (ok stored) q = either (stored.switch_type == offered.light_switch_type) _ _ (
            refreshed-Fine now stored s (store.refresh_last_seen_for_light_switch_by_id stored.id s)
              (λ j. laws.refreshes stored.id j s)
              (laws.searches device offered.provider_id stored s q))

    pub create_all-Fine :
        (now : ℕ) (random : String → String) (device : String) (os : List OfferedLightSwitch)
        (s : L)
        → Keeps s (create_light_switches_from_provider_message store now random device os s).0
          × ((switches : List LightSwitch)
              → (create_light_switches_from_provider_message store now random device os s).1
                ≡ ok switches
              → All
                  (Stored
                    (create_light_switches_from_provider_message store now random device os s).0)
                  switches)
    unfolding create_light_switches_from_provider_message further with_switch
    create_all-Fine now random device [] s =
        (λ id a k. k, λ switches q. subst (All (Stored s)) (ok-injective _ _ q) tt)
    create_all-Fine now random device (o ∷ os) s =
        let r = create_one store now random device o s in
        joined r.0 r.1 _ (create_one-Fine now random device o s)
          (create_all-Fine now random device os r.0)
      where
        listed :
            (t : L) (ls : LightSwitch) (r : Result (List LightSwitch))
            → Stored t ls
            → ((xs : List LightSwitch) → r ≡ ok xs → All (Stored t) xs)
            → (xs : List LightSwitch) → with_switch store ls r ≡ ok xs
            → All (Stored t) xs
        listed t ls (failed e) h k = λ xs q. cc
        listed t ls (ok rest) h k =
            λ xs q. subst (All (Stored t)) (ok-injective _ _ q) (h, k rest refl)

        joined :
            (s1 : L) (one : Result LightSwitch) (rest : L × Result (List LightSwitch))
            → Fine s (s1, one)
            → Keeps s1 rest.0 × ((xs : List LightSwitch) → rest.1 ≡ ok xs → All (Stored rest.0) xs)
            → Keeps s (further store s1 one rest).0
              × ((xs : List LightSwitch)
                  → (further store s1 one rest).1 ≡ ok xs
                  → All (Stored (further store s1 one rest).0) xs)
        joined s1 (failed e) rest h k = (h.0, λ xs q. cc)
        joined s1 (ok ls) (s2, r) h k = (
          λ id a known. k.0 id a (h.0 id a known),
          listed s2 ls r (k.0 ls.id ls.assignments (h.1 ls refl)) k.1,
        )

  pub Keeps-Mirrored :
      (s s' : L) (active : Dict ℕ LightSwitch) → Keeps s s' → Mirrored s active → Mirrored s' active
  Keeps-Mirrored s s' active keeps h id ls q =
      ((h id ls q).0, keeps id ls.assignments (h id ls q).1)

  unless_registered-Mirrored :
      (id : ℕ) (o : Option LightSwitch) (s : L) (active : Dict ℕ LightSwitch)
      (rest : Dict ℕ LightSwitch × Done)
      → Mirrored s active
      → Mirrored s rest.0
      → Mirrored s (unless_registered store id o active rest).0
  unfolding unless_registered
  unless_registered-Mirrored id none s active rest h k = k
  unless_registered-Mirrored id (some x) s active rest h k = h

  pub register_each-Mirrored :
      (switches : List LightSwitch) (s : L) (active : Dict ℕ LightSwitch)
      → All (Stored s) switches
      → Mirrored s active
      → Mirrored s (register_each store switches active).0
  unfolding register_each
  register_each-Mirrored [] s active stored h = h
  register_each-Mirrored (ls ∷ rest) s active stored h =
      unless_registered-Mirrored ls.id (lookup ls.id active) s active _ h (
        register_each-Mirrored rest s (insert ls.id ls active) stored.1 (λ id x q.
          ground
            (arith, lookup-insert ls.id id ls active, h id x, stored.0, nat_same_iff ls.id id)))

  pub remove_each-Mirrored :
      (ids : List ℕ) (s : L) (active : Dict ℕ LightSwitch)
      → Mirrored s active
      → Mirrored s (remove_each store ids active)
  unfolding remove_each
  remove_each-Mirrored [] s active h = h
  remove_each-Mirrored (id ∷ ids) s active h =
      remove_each-Mirrored ids s (delete id active)
        (λ j ls q. h j ls (ground (arith, lookup-delete id j active)))
