-- ===== src/LightSwitches/Calls/Runs.antt =====
-- Runs of the manager of the light switches (lightswitch/manager.go), with updates that overlap.
use masc_server.Prelude.{
  ℕ, String, ◌≡◌, refl, ◌∙◌, Option, none, some, List, [], ◌∷◌, arith, lookup, lookup-insert,
  nat_key, nat_same_iff,
}
use masc_server.Errors.Results.{Done, ok, failed}
use masc_server.Messages.Incoming.{MessageLightSwitchOffers}
use masc_server.Casting.{Stage}
use masc_server.LightSwitches.{
  EditLightSwitch, SwitchStore, LightSwitch, SwitchManager, set_assignments, set_name, new_manager,
}
use masc_server.LightSwitches.Calls.{
  accept_light_switch_provider, provider_over, edited, edit_active, once_updated, update_in_store,
  update_active, once_deleted, delete_if_offline, delete_light_switch_by_id,
}
use masc_server.LightSwitches.Calls.Mirror.{SwitchLaws}
use masc_server.LightSwitches.Calls.Updates.{
  Updates, at, without, Free, due, Unique, due-Free, without-Unique, due-without, Free-without,
}
use masc_server.LightSwitches.Calls.Providers.{accept-Good, provider_over-Good}

-- What the manager does next: a provider is accepted or ends, a light switch is deleted, an update
-- changes the store, or one of the updates under way goes on, by its place.
pub data Turn : Type 0 where
  accepts : ℕ → ℕ → (String → String) → String → Option MessageLightSwitchOffers → Turn
  over : ℕ → Turn
  deletes : ℕ → Turn
  updates_store : ℕ → EditLightSwitch → Turn
  updates_active : ℕ → Turn

module _ {L : Type 0} (store : SwitchStore L) where
  begun : ℕ → EditLightSwitch → SwitchManager L × Done → Updates → SwitchManager L × Updates
  begun id payload (m, failed e) us = (m, us)
  begun id payload (m, ok _) us = (m, (id, payload) ∷ us)

  finished :
      ℕ → Option (ℕ × EditLightSwitch) → SwitchManager L → Updates → SwitchManager L × Updates
  finished k none m us = (m, us)
  finished k (some (id, payload)) m us = (update_active store id payload m, without k us)

  -- Who needs the lock alone waits while an update is under way.
  unfoldable pub turn : Turn → SwitchManager L × Updates → SwitchManager L × Updates
  unfolding begun finished
  turn (accepts lifetime now random actor offers) (m, []) =
      ((accept_light_switch_provider store lifetime now random actor offers m).0, [])
  turn (accepts lifetime now random actor offers) (m, u ∷ us) = (m, u ∷ us)
  turn (over lifetime) (m, []) = (provider_over store lifetime m, [])
  turn (over lifetime) (m, u ∷ us) = (m, u ∷ us)
  turn (deletes id) (m, us) = ((delete_light_switch_by_id store id m).0, us)
  turn (updates_store id payload) (m, us) = begun id payload (update_in_store store id payload m) us
  turn (updates_active k) (m, us) = finished k (at k us) m us

  unfoldable pub run : List Turn → SwitchManager L × Updates → SwitchManager L × Updates
  unfolding turn
  run [] b = b
  run (t ∷ ts) b = run ts (turn t b)

  abbrev pub ApartNow : Turn → Updates → Type 0
  ApartNow (updates_store id payload) us = Free id us
  ApartNow (accepts lifetime now random actor offers) us = Unit
  ApartNow (over lifetime) us = Unit
  ApartNow (deletes id) us = Unit
  ApartNow (updates_active k) us = Unit

  -- No two updates of one light switch overlap.
  abbrev pub Apart : List Turn → SwitchManager L × Updates → Type 0
  Apart [] b = Unit
  Apart (t ∷ ts) b = ApartNow t b.1 × Apart ts (turn t b)

  module _ (find : ℕ → L → Option (List ℕ)) where
    -- Each active light switch stands under its id, is stored, and is to toggle the fixtures that are
    -- stored for it once the updates under way have ended.
    abbrev pub MirroredAfter : SwitchManager L × Updates → Type 0
    MirroredAfter (m, us) =
        (id : ℕ) (ls : LightSwitch)
        → lookup id m.active ≡ some ls
        → (ls.id ≡ id) × (find id m.store ≡ some (due id us ls.assignments))

  module _ (find : ℕ → L → Option (List ℕ)) (laws : SwitchLaws store find) where
    begun-Unique :
        (id : ℕ) (payload : EditLightSwitch) (r : SwitchManager L × Done) (us : Updates)
        → Free id us
        → Unique us
        → Unique (begun id payload r us).1
    unfolding begun
    begun-Unique id payload (m, failed e) us f u = u
    begun-Unique id payload (m, ok _) us f u = (f, u)

    finished-Unique :
        (k : ℕ) (o : Option (ℕ × EditLightSwitch)) (m : SwitchManager L) (us : Updates)
        → Unique us
        → Unique (finished k o m us).1
    unfolding finished
    finished-Unique k none m us u = u
    finished-Unique k (some x) m us u = without-Unique k us u

    store-MirroredAfter :
        (id : ℕ) (payload : EditLightSwitch) (m : SwitchManager L) (us : Updates) (r : L × Done)
        → store.update_light_switch_by_id id payload m.store ≡ r
        → MirroredAfter find (m, us)
        → MirroredAfter find (begun id payload (once_updated store id r m) us)
    unfolding begun once_updated
    store-MirroredAfter id payload m us (s, failed e) q h = λ j ls found.
        ((h j ls found).0, laws.updates_not id payload e m.store s q j ∙ (h j ls found).1)
    store-MirroredAfter id payload m us (s, ok u) q h = λ j ls found. (
      (h j ls found).0,
      ground (arith, laws.updates id payload m.store s q j, h j ls found, nat_same_iff id j),
    )

    delete-MirroredAfter :
        (id : ℕ) (m : SwitchManager L) (us : Updates)
        → MirroredAfter find (m, us)
        → MirroredAfter find ((delete_light_switch_by_id store id m).0, us)
    unfolding delete_light_switch_by_id delete_if_offline once_deleted
    delete-MirroredAfter id m us h = by_search (lookup id m.active) refl
      where
        after :
            (r : L × Done)
            → lookup id m.active ≡ none
            → store.delete_light_switch_by_id id m.store ≡ r
            → MirroredAfter find ((once_deleted store id r m).0, us)
        after (s, failed e) free q =
            λ j ls found. ((h j ls found).0, laws.deletes_not id e m.store s q j ∙ (h j ls found).1)
        after (s, ok u) free q = λ j ls found. (
          (h j ls found).0,
          ground (arith, laws.deletes id m.store s q j, h j ls found, nat_same_iff id j),
        )

        by_search :
            (o : Option LightSwitch)
            → lookup id m.active ≡ o
            → MirroredAfter find ((delete_if_offline store id o m).0, us)
        by_search (some ls) q = h
        by_search none q = after _ q refl

    active-MirroredAfter :
        (k : ℕ) (o : Option (ℕ × EditLightSwitch)) (m : SwitchManager L) (us : Updates)
        → at k us ≡ o
        → Unique us
        → MirroredAfter find (m, us)
        → MirroredAfter find (finished k o m us)
    unfolding finished update_active edit_active edited set_assignments set_name
    active-MirroredAfter k none m us q unique h = h
    active-MirroredAfter k (some (id, payload)) m us q unique h =
        by_search (lookup id m.active) refl
      where
        by_search :
            (o : Option LightSwitch)
            → lookup id m.active ≡ o
            → MirroredAfter find (edit_active store id payload o m, without k us)
        by_search none e = λ j ls found. (
          (h j ls found).0,
          ground (
            arith,
            h j ls found,
            due-without k id j payload us ls.assignments unique q,
            nat_same_iff id j,
          ),
        )
        by_search (some old) e = λ j ls found. ground (
          arith,
          lookup-insert id j (edited store payload old) m.active,
          h j ls,
          h id old e,
          due-without k id j payload us ls.assignments unique q,
          due-without k id id payload us old.assignments unique q,
          due-Free id (without k us) payload.assignments (Free-without k id payload us unique q),
          nat_same_iff id j,
        )

    turn-MirroredAfter :
        (t : Turn) (m : SwitchManager L) (us : Updates)
        → ApartNow t us
        → Unique us
        → MirroredAfter find (m, us)
        → MirroredAfter find (turn t (m, us)) × Unique (turn t (m, us)).1
    unfolding turn update_in_store
    turn-MirroredAfter (accepts lifetime now random actor offers) m [] apart u h =
        (accept-Good store find laws lifetime now random actor offers m h, tt)
    turn-MirroredAfter (accepts lifetime now random actor offers) m (x ∷ us) apart u h = (h, u)
    turn-MirroredAfter (over lifetime) m [] apart u h =
        (provider_over-Good store find laws lifetime m h, tt)
    turn-MirroredAfter (over lifetime) m (x ∷ us) apart u h = (h, u)
    turn-MirroredAfter (deletes id) m us apart u h = (delete-MirroredAfter id m us h, u)
    turn-MirroredAfter (updates_store id payload) m us apart u h =
        (store-MirroredAfter id payload m us _ refl h, begun-Unique id payload _ us apart u)
    turn-MirroredAfter (updates_active k) m us apart u h =
        (active-MirroredAfter k (at k us) m us refl u h, finished-Unique k (at k us) m us u)

    run-MirroredAfter :
        (ts : List Turn) (m : SwitchManager L) (us : Updates)
        → Apart ts (m, us)
        → Unique us
        → MirroredAfter find (m, us)
        → MirroredAfter find (run ts (m, us))
    unfolding run
    run-MirroredAfter [] m us apart u h = h
    run-MirroredAfter (t ∷ ts) m us (now, later) u h =
        let (h', u') = turn-MirroredAfter t m us now u h in
        run-MirroredAfter ts (turn t (m, us)).0 (turn t (m, us)).1 later u' h'

    -- Where the store of the light switches keeps its laws, no two updates of one light switch overlap,
    -- and no call comes between the two parts of accepting a provider: after any calls on a new manager
    -- of light switches, failed ones included, whatever the order in which the parts of the updates
    -- come, and after any ends of providers, each active light switch is stored, under its id. It
    -- toggles the fixtures that are stored for it, or will once the update of it that is under way
    -- has ended.
    pub run-Mirrored :
        (s : L) (st : Stage) (ts : List Turn)
        → Apart ts (new_manager store s st, [])
        → MirroredAfter find (run ts (new_manager store s st, []))
    unfolding new_manager lookup
    run-Mirrored s st ts apart =
        run-MirroredAfter ts (new_manager store s st) [] apart tt (λ id ls q. cc)
