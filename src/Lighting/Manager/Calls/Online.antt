-- ===== src/Lighting/Manager/Calls/Online.antt =====
-- What `AcceptFixtureProvider` promises: the offered fixtures are online (lighting/manager.go).
use masc_server.Prelude.{
  ℕ, String, ◌≡◌, refl, ◌∙◌, sym, ap, subst, Option, none, some, List, [], ◌∷◌, arith, ◌&&◌, Dict,
  lookup, lookup-insert, Distinct, string_key, nat_key, nat_same_iff, same_refl, eq_iff, ◌==◌,
  Bool-cases, ◌⊎◌, inl, inr, All, Any,
}
use masc_server.Errors.Results.{Result, Done, ok, failed}
use masc_server.Messages.Incoming.{OfferedFixture, MessageFixtureOffers}
use masc_server.Messages.{no_content}
use masc_server.Acting.Actors.{send}
use masc_server.Casting.{put}
use masc_server.Lighting.{send_state_update}
use masc_server.Lighting.Fixtures.{Fixture, reset, set_actor, set_update_notifier, apply_fixture}
use masc_server.Lighting.Manager.{
  ManagerStore, StoredManager, find_known, add_fixtures_from_provider_message,
}
use masc_server.Lighting.Manager.Store.{Entry, StoreLaws}
use masc_server.Lighting.Manager.Calls.{
  write_applied, start_fixture, refresh, bring_online, bring_all_online, online_if_added,
  accept_offers, accept_fixture_provider, done_unless,
}
use masc_server.Lighting.Manager.Calls.Offline.{and_then-ok, and_then-first, fixtures-refresh}
use masc_server.Lighting.Manager.Calls.Mirror.{Good, add_fixtures-Good}
use masc_server.Lighting.Manager.Offers.Again.{IsSupported, KnownAs, add_fixtures-KnownAs}

-- The fixture `f'` is what became of `f`; the premise says when the actor serves it.
abbrev Serves : String → Type 0 → Fixture → Fixture → Type 0
Serves actor Premise f f' =
    (f'.device_id ≡ f.device_id)
    × (f'.basic.provider_id ≡ f.basic.provider_id)
    × (Premise → f'.basic.actor ≡ some actor)

module _ {S : Type 0} (store : ManagerStore S) where
  Served : String → ℕ → Type 0 → Fixture → StoredManager S → Type 0
  Served actor j Premise f m =
      (f' : Fixture) × (lookup j m.fixtures ≡ some f') × Serves actor Premise f f'

  start_fixture-Served :
      (actor : String) (id : ℕ) (found : Option Fixture) (m : StoredManager S)
      → lookup id m.fixtures ≡ found
      → (j : ℕ) (f : Fixture) → lookup j m.fixtures ≡ some f
      → Served actor j
          ((id ≡ j) ⊎ (f.basic.actor ≡ some actor))
          f
          (start_fixture store actor id found m).0
  unfolding start_fixture write_applied apply_fixture send_state_update reset set_update_notifier
      set_actor Served
  start_fixture-Served actor id none m q j f e =
      (f, e, (refl, refl, λ p. ground (arith, nat_same_iff id j)))
  start_fixture-Served actor id (some g) m q j f e =
      let g' = (apply_fixture (reset (set_update_notifier (set_actor (some actor) g))) m.stage).0 in
      let found = lookup-insert id j g' m.fixtures in
      elim (Bool-cases (id == j)) [
        | inl b ↦
            let one : id ≡ j = (nat_same_iff id j).0 b in
            let same : some g ≡ some f = sym q ∙ ap (λ (k : ℕ). lookup k m.fixtures) one ∙ e in
            (g', found ∙ rw b refl, (ground (arith, same), ground (arith, same), λ p. refl))
        | inr b ↦ (f, found ∙ rw b e, (refl, refl, λ p. ground (arith, nat_same_iff id j)))
      ]

  bring_online-Served :
      (actor : String) (id : ℕ) (m : StoredManager S)
      → (bring_online store actor id m).1 ≡ ok tt
      → (j : ℕ) (f : Fixture) → lookup j m.fixtures ≡ some f
      → Served actor j ((id ≡ j) ⊎ (f.basic.actor ≡ some actor)) f (bring_online store actor id m).0
  unfolding bring_online
  bring_online-Served actor id m h j f e =
      let r = refresh store "set fixture online" id m in
      let next = start_fixture store actor id (lookup id r.0.fixtures) r.0 in
      subst
        (λ (x : StoredManager S × Done).
          Served actor j ((id ≡ j) ⊎ (f.basic.actor ≡ some actor)) f x.0)
        (sym (and_then-ok store r next h))
        (start_fixture-Served actor id (lookup id r.0.fixtures) r.0 refl j f (
          ap (λ (d : Dict ℕ Fixture). lookup j d) (fixtures-refresh store "set fixture online" id m)
          ∙ e))

  bring_all_online-Served :
      (actor : String) (ids : List ℕ) (m : StoredManager S)
      → (bring_all_online store actor ids m).1 ≡ ok tt
      → (j : ℕ) (f : Fixture) → lookup j m.fixtures ≡ some f
      → Served actor j
          (Any (λ id. id ≡ j) ids ⊎ (f.basic.actor ≡ some actor))
          f
          (bring_all_online store actor ids m).0
  unfolding bring_all_online Served
  bring_all_online-Served actor [] m h j f e =
      (f, e, (refl, refl, λ p. elim p [ inl n ↦ absurd n | inr q ↦ q ]))
  bring_all_online-Served actor (id ∷ ids) m h j f e =
      let r = bring_online store actor id m in
      let next = bring_all_online store actor ids r.0 in
      let q = and_then-ok store r next h in
      let (f', e', (d, v, a)) =
        bring_online-Served actor id m (and_then-first store r next h) j f e in
      let (f'', e'', (d', v', a')) =
        bring_all_online-Served actor ids r.0 (sym (ap (λ (x : StoredManager S × Done). x.1) q) ∙ h)
          j f' e' in
      subst
        (λ (x : StoredManager S × Done).
          Served actor j (Any (λ i. i ≡ j) (id ∷ ids) ⊎ (f.basic.actor ≡ some actor)) f x.0)
        (sym q)
        (
          f'',
          e'',
          (
            d' ∙ d,
            v' ∙ v,
            λ p. elim p [
              | inl (inl same) ↦ a' (inr (a (inl same)))
              | inl (inr more) ↦ a' (inl more)
              | inr before ↦ a' (inr (a (inr before)))
            ],
          ),
        )

  -- A fixture that the search finds stands under some key.
  find_known-lookup :
      (device provider : String) (fixtures : Dict ℕ Fixture) (f : Fixture)
      → Distinct fixtures
      → find_known store device provider fixtures ≡ some f
      → (k : ℕ) × (lookup k fixtures ≡ some f)
        × (f.device_id ≡ device)
        × (f.basic.provider_id ≡ provider)
  unfolding find_known lookup
  find_known-lookup device provider [] f d e = cc
  find_known-lookup device provider ((k, g) ∷ rest) f d e =
      elim (Bool-cases ((g.device_id == device) && (g.basic.provider_id == provider))) [
        | inl b ↦ (
          k,
          rw (same_refl k) (ground arith),
          ground (arith, eq_iff g.device_id device),
          ground (arith, eq_iff g.basic.provider_id provider),
        )
        | inr b ↦
            let (k', found, dev, prov) =
              find_known-lookup device provider rest f d.1 (ground arith) in
            (k', ground (arith, nat_same_iff k k', d.0), dev, prov)
      ]

  -- The offered fixture is one of the manager's, and the actor serves it.
  pub AtWork : String → String → Dict ℕ Fixture → OfferedFixture → Type 0
  AtWork actor device fixtures o =
      (id : ℕ) × (f : Fixture) × (lookup id fixtures ≡ some f)
      × (f.device_id ≡ device)
      × (f.basic.provider_id ≡ o.provider_id)
      × (f.basic.actor ≡ some actor)

  known-AtWork :
      (actor device : String) (os : List OfferedFixture) (ids : List ℕ) (m m' : StoredManager S)
      → Distinct m.fixtures
      → ((k : ℕ) (f : Fixture) → lookup k m.fixtures ≡ some f → f.id ≡ k)
      → KnownAs store device m.fixtures os ids
      → ((j : ℕ) (f : Fixture)
          → lookup j m.fixtures ≡ some f
          → Served actor j (Any (λ id. id ≡ j) ids ⊎ (f.basic.actor ≡ some actor)) f m')
      → All (AtWork actor device m'.fixtures) os
  unfolding AtWork Served
  known-AtWork actor device [] ids m m' d keyed known all = tt
  known-AtWork actor device (o ∷ os) [] m m' d keyed known all = absurd known
  known-AtWork actor device (o ∷ os) (id ∷ ids) m m' d keyed ((f, found, own, type), known) all =
      let (k, at, dev, prov) = find_known-lookup device o.provider_id m.fixtures f d found in
      let one : id ≡ k = sym own ∙ keyed k f at in
      let (f', e', (d', v', a)) = all k f at in
      (
        (k, f', e', d' ∙ dev, v' ∙ prov, a (inl (inl one))),
        known-AtWork actor device os ids m m' d keyed known (λ j g l.
            let (g', e'', (d'', v'', a')) = all j g l in
            (g', e'', (d'', v'', λ p. a' (elim p [ inl n ↦ inl (inr n) | inr q ↦ inr q ])))),
      )

  online_if_added-AtWork :
      (find : ℕ → S → Option Entry)
      → StoreLaws store find
      → (now : ℕ) (random : String → String) (actor device : String) (os : List OfferedFixture)
        (m : StoredManager S)
      → All IsSupported os
      → Good store find m
      → (r : StoredManager S × Result (List ℕ))
      → add_fixtures_from_provider_message store now random device os m ≡ r
      → (online_if_added store actor r).1 ≡ ok tt
      → All (AtWork actor device (online_if_added store actor r).0.fixtures) os
  unfolding online_if_added
  online_if_added-AtWork find laws now random actor device os m supported h (m', failed x) q e = cc
  online_if_added-AtWork find laws now random actor device os m supported h (m', ok ids) q e =
      let good : Good store find m' =
        subst (λ (x : StoredManager S × Result (List ℕ)). Good store find x.0) q
          (add_fixtures-Good store find laws now random device os m h) in
      let known : KnownAs store device m'.fixtures os ids =
        subst (λ (x : StoredManager S × Result (List ℕ)). KnownAs store device x.0.fixtures os ids)
          q
          (add_fixtures-KnownAs store find laws now random device os m ids supported h
            (ap (λ (x : StoredManager S × Result (List ℕ)). x.1) q)).0 in
      known-AtWork actor device os ids m' (bring_all_online store actor ids m').0 good.unique
        good.keyed known (bring_all_online-Served actor ids m' e)

  -- Where the store keeps its laws, the manager's map mirrors it and the types that are offered are
  -- supported: if `AcceptFixtureProvider` returns no error, the manager has for each offered fixture one
  -- of that device and provider id, which is online with the actor.
  pub accept_fixture_provider-AtWork :
      (find : ℕ → S → Option Entry)
      → StoreLaws store find
      → (now : ℕ) (random : String → String) (actor : String) (offers : MessageFixtureOffers)
        (m : StoredManager S)
      → All IsSupported offers.fixtures
      → Good store find m
      → (accept_fixture_provider store now random actor (some offers) m).1 ≡ ok tt
      → All
          (AtWork actor offers.device_id
            (accept_fixture_provider store now random actor (some offers) m).0.fixtures)
          offers.fixtures
  unfolding accept_fixture_provider accept_offers
  accept_fixture_provider-AtWork find laws now random actor offers m supported h e =
      let (a, err) =
        send (record { message_type = "get-fixture-offers"; content = no_content })
          (m.stage.actor actor) in
      let m' : StoredManager S = record m { stage = put actor a m.stage } in
      let r : StoredManager S × Done = (m', done_unless "request fixtures from provider" err) in
      let next = accept_offers store now random actor (some offers) m' in
      let q = and_then-ok store r next e in
      subst
        (λ (x : StoredManager S × Done).
          All (AtWork actor offers.device_id x.0.fixtures) offers.fixtures)
        (sym q)
        (online_if_added-AtWork find laws now random actor offers.device_id offers.fixtures m'
          supported h _ refl (sym (ap (λ (x : StoredManager S × Done). x.1) q) ∙ e))
