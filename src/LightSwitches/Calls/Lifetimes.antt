-- ===== src/LightSwitches/Calls/Lifetimes.antt =====
-- A provider of light switches comes and goes (lightswitch/manager.go).
use masc_server.Prelude.{
  ℕ, String, Bool, true, false, ◌≡◌, refl, ◌∙◌, sym, ap, Option, none, some, List, [], ◌∷◌, ◌||◌,
  arith, Dict, lookup, insert, delete, lookup-insert, lookup-delete, nat_key, nat_same_iff, ◌==◌,
  same_refl, if◌then◌else◌,
}
use masc_server.Errors.{GoError, nil, native, masc}
use masc_server.Errors.Results.{Result, Done, ok, failed}
use masc_server.Messages.Incoming.{MessageLightSwitchOffers}
use masc_server.LightSwitches.{SwitchStore, LightSwitch, SwitchManager}
use masc_server.LightSwitches.Calls.{
  unless_registered, register_each, ids_of, once_registered, register, once_offered, once_sent,
  accept_light_switch_provider, remove_each, let_go, provider_over,
}

abbrev among : ℕ → List ℕ → Bool
among j [] = false
among j (id ∷ ids) = (id == j) || among j ids

module _ {L : Type 0} (store : SwitchStore L) where
  lookup-remove_each :
      (j : ℕ) (ids : List ℕ) (active : Dict ℕ LightSwitch)
      → lookup j (remove_each store ids active) ≡ (if among j ids then none else lookup j active)
  unfolding remove_each
  lookup-remove_each j [] active = refl
  lookup-remove_each j (id ∷ ids) active =
      ground (arith, lookup-remove_each j ids (delete id active), lookup-delete id j active)

  -- Light switches that are all registered were not registered before, and no other has changed.
  register_each-ok :
      (j : ℕ) (switches : List LightSwitch) (active : Dict ℕ LightSwitch)
      → (register_each store switches active).1 ≡ ok tt
      → (among j (ids_of store switches) ≡ true → lookup j active ≡ none)
        × (among j (ids_of store switches) ≡ false
            → lookup j (register_each store switches active).0 ≡ lookup j active)
  unfolding register_each ids_of unless_registered
  register_each-ok j [] active h = (λ q. cc, λ q. refl)
  register_each-ok j (ls ∷ rest) active h =
      let more = register_each store rest (insert ls.id ls active) in
      let (free, q, e) = by_search (lookup ls.id active) more h in
      let (absent, kept) = register_each-ok j rest (insert ls.id ls active) e in
      (
        λ t. ground (arith, absent, lookup-insert ls.id j ls active, nat_same_iff ls.id j, free),
        λ t.
            ap (λ (d : Dict ℕ LightSwitch). lookup j d) q
            ∙ ground (arith, kept, lookup-insert ls.id j ls active),
      )
    where
      by_search :
          (o : Option LightSwitch) (more : Dict ℕ LightSwitch × Done)
          → (unless_registered store ls.id o active more).1 ≡ ok tt
          → (o ≡ none)
            × ((unless_registered store ls.id o active more).0 ≡ more.0)
            × (more.1 ≡ ok tt)
      by_search none more h = (refl, refl, h)
      by_search (some x) more h = cc

  -- Registering light switches and removing them again.
  removed_again :
      (j : ℕ) (switches : List LightSwitch) (active : Dict ℕ LightSwitch)
      → (register_each store switches active).1 ≡ ok tt
      → lookup j (remove_each store (ids_of store switches) (register_each store switches active).0)
        ≡ lookup j active
  removed_again j switches active h = ground (
    arith,
    lookup-remove_each j (ids_of store switches) (register_each store switches active).0,
    register_each-ok j switches active h,
  )

  -- The active light switches after the end of a provider's lifetime.
  abbrev Restored : ℕ → SwitchManager L → SwitchManager L × Done → Type 0
  Restored lifetime m r =
      r.1 ≡ ok tt → (j : ℕ) → lookup j (provider_over store lifetime r.0).active ≡ lookup j m.active

  register-Restored :
      (lifetime : ℕ) (r : L × Result (List LightSwitch)) (m : SwitchManager L)
      → Restored lifetime m (register store lifetime r m)
  unfolding register let_go once_registered provider_over
  register-Restored lifetime (s, failed e) m = λ h j. cc
  register-Restored lifetime (s, ok switches) m = after (register_each store switches m.active) refl
    where
      over_with :
          (active : Dict ℕ LightSwitch) (o : Option (List ℕ))
          → o ≡ some (ids_of store switches)
          → (j : ℕ)
          → lookup j
              (let_go store lifetime o (record m {
                store = s;
                active = active;
                waiting = insert lifetime (ids_of store switches) m.waiting;
              })).active
            ≡ lookup j (remove_each store (ids_of store switches) active)
      over_with active none q j = cc
      over_with active (some ids) q j =
          let e : ids ≡ ids_of store switches = cc in
          ap (λ (l : List ℕ). lookup j (remove_each store l active)) e

      after :
          (r : Dict ℕ LightSwitch × Done)
          → register_each store switches m.active ≡ r
          → Restored lifetime m (once_registered store lifetime switches r (record m { store = s }))
      after (active, failed e) q = λ h j. cc
      after (active, ok u) q = λ h j.
          over_with active (lookup lifetime (insert lifetime (ids_of store switches) m.waiting))
            (lookup-insert lifetime lifetime (ids_of store switches) m.waiting
              ∙ rw (same_refl lifetime) refl)
            j
          ∙ ap (λ (d : Dict ℕ LightSwitch). lookup j (remove_each store (ids_of store switches) d))
              (sym (ap (λ (x : Dict ℕ LightSwitch × Done). x.0) q))
          ∙ removed_again j switches m.active (ap (λ (x : Dict ℕ LightSwitch × Done). x.1) q)

  once_offered-Restored :
      (lifetime now : ℕ) (random : String → String) (offers : Option MessageLightSwitchOffers)
      (m : SwitchManager L)
      → lookup lifetime m.waiting ≡ none
      → Restored lifetime m (once_offered store lifetime now random offers m)
  unfolding once_offered provider_over let_go
  once_offered-Restored lifetime now random none m free = λ h j. rw free refl
  once_offered-Restored lifetime now random (some offers) m free = register-Restored lifetime _ m

  once_sent-Restored :
      (lifetime : ℕ) (err : GoError) (m m' : SwitchManager L) (next : SwitchManager L × Done)
      → Restored lifetime m next
      → Restored lifetime m (once_sent store err m' next)
  unfolding once_sent
  once_sent-Restored lifetime nil m m' next k = k
  once_sent-Restored lifetime (native s) m m' next k = λ h j. cc
  once_sent-Restored lifetime (masc e) m m' next k = λ h j. cc

  -- Where `AcceptLightSwitchProvider`, called with a lifetime that no other provider has, returns no
  -- error: when the lifetime ends, the same light switches are active as before the call.
  pub provider_over-accept :
      (lifetime now : ℕ) (random : String → String) (actor : String)
      (offers : Option MessageLightSwitchOffers) (m : SwitchManager L)
      → lookup lifetime m.waiting ≡ none
      → (accept_light_switch_provider store lifetime now random actor offers m).1 ≡ ok tt
      → (j : ℕ)
      → lookup j
          (provider_over store lifetime
            (accept_light_switch_provider store lifetime now random actor offers m).0).active
        ≡ lookup j m.active
  unfolding accept_light_switch_provider
  provider_over-accept lifetime now random actor offers m free h j =
      once_sent-Restored lifetime _ m _ _ (once_offered-Restored lifetime now random offers _ free)
        h j
