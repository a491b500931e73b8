-- ===== src/Lighting/Manager/Calls/Mirror.antt =====
-- Every call of the manager of the fixtures keeps its map the mirror of its store
-- (lighting/manager.go).
use masc_server.Prelude.{
  ℕ, String, ◌≡◌, refl, ◌∙◌, ap, Option, none, some, List, [], ◌∷◌, arith, Dict, lookup, insert,
  string_key, nat_key, nat_same_iff, same_refl, Distinct, ◌==◌, Bool-cases, inl, inr,
}
use masc_server.Errors.Results.{Result, Done, ok, failed}
use masc_server.Messages.Incoming.{OfferedFixture, MessageFixtureOffers}
use masc_server.Lighting.{send_state_update}
use masc_server.Lighting.Fixtures.{
  Fixture, actor_id, new_fixture, new_basic_fixture, new_dimmer_fixture, reset, set_actor,
  set_update_notifier, apply_fixture,
}
use masc_server.Lighting.Manager.{
  StoreFixture, ManagerStore, StoredManager, created_fixture, added, add_with, add_offered, further,
  add_fixtures_from_provider_message,
}
use masc_server.Lighting.Manager.Store.{
  Entry, stored_entry, StoreLaws, served_type, entry, Mirrors, store-Mirrors, insert-Mirrors,
  delete-Mirrors, rename-Mirrors, create-Mirrors,
}
use masc_server.Lighting.Manager.Calls.{
  and_then, write_applied, start_fixture, refreshed, refresh, bring_online, bring_all_online,
  online_if_added, accept_offers, accept_fixture_provider, send_offline, send_all_offline,
  say_goodbye_to_fixture_provider, handle_fixture_state_updated, renamed, rename, set_fixture_name,
  deleted, delete_fixture,
}
use masc_server.Lighting.Manager.Calls.Offline.{lookup-send_offline}

module _ {S : Type 0} (store : ManagerStore S) (find : ℕ → S → Option Entry) where
  abbrev pub Good : StoredManager S → Type 0
  Good m = Mirrors find m.store m.fixtures

  pub created_fixture-entry :
      (now : ℕ) (device provider : String) (c : StoreFixture)
      → (entry (created_fixture store now device provider c) ≡ record {
        device = device;
        provider_id = provider;
        name = c.name;
        fixture_type = served_type c.fixture_type;
      })
        × ((created_fixture store now device provider c).id ≡ c.id)
  unfolding created_fixture new_fixture new_basic_fixture new_dimmer_fixture reset
  created_fixture-entry now device provider c = ground arith

  module _ (laws : StoreLaws store find) where
    added-Good :
        (now : ℕ) (given : StoreFixture) (m : StoredManager S) (r : S × Result StoreFixture)
        → store.create_fixture given m.store ≡ r
        → Good m
        → Good (added store now given.device given.provider_id m r).0
    unfolding added
    added-Good now given m (s, failed e) q h =
        store-Mirrors find m.fixtures m.store s (laws.creates_not given e m.store s q) h
    added-Good now given m (s, ok c) q h =
        let (e, new, finds) = laws.creates given c m.store s q in
        let (shape, id) = created_fixture-entry now given.device given.provider_id c in
        create-Mirrors find m.fixtures m.store s c.id (stored_entry given) _ finds
          (shape
            ∙ ap
                (λ (x : Entry). record {
                  device = given.device;
                  provider_id = given.provider_id;
                  name = x.name;
                  fixture_type = served_type x.fixture_type;
                })
                e)
          id h

    pub add_with-Good :
        (now : ℕ) (device : String) (offered : OfferedFixture) (found : Option Fixture)
        (drawn : String) (m : StoredManager S)
        → Good m
        → Good (add_with store now device offered found drawn m).0
    unfolding add_with
    add_with-Good now device offered (some f) drawn m h =
        elim (Bool-cases (f.fixture_type == offered.fixture_type)) [
          | inl e ↦ rw e h
          | inr e ↦ rw e h
        ]
    add_with-Good now device offered none drawn m h = added-Good now _ m _ refl h

    pub add_fixtures-Good :
        (now : ℕ) (random : String → String) (device : String) (os : List OfferedFixture)
        (m : StoredManager S)
        → Good m
        → Good (add_fixtures_from_provider_message store now random device os m).0
    unfolding add_fixtures_from_provider_message add_offered
    add_fixtures-Good now random device [] m h = h
    add_fixtures-Good now random device (o ∷ os) m h =
        let (m', id) = add_offered store now device o (random o.provider_id) m in
        let h' : Good m' = add_with-Good now device o _ _ m h in
        further-Good m' id _ h' (add_fixtures-Good now random device os m' h')
      where
        further-Good :
            (m : StoredManager S) (id : Result ℕ) (rest : StoredManager S × Result (List ℕ))
            → Good m
            → Good rest.0
            → Good (further store m id rest).0
        further-Good m (failed e) rest h k = h
        further-Good m (ok id) rest h k = k

    refresh-Good :
        (context : String) (id : ℕ) (m : StoredManager S)
        → Good m
        → Good (refresh store context id m).0
    unfolding refresh refreshed
    refresh-Good context id m h =
        at_result (store.refresh_last_seen_for_fixture id m.store)
          (λ j. laws.refreshes id j m.store)
      where
        at_result :
            (r : S × Done)
            → ((j : ℕ) → find j r.0 ≡ find j m.store)
            → Good (refreshed store context r m).0
        at_result (s, failed e) same = store-Mirrors find m.fixtures m.store s same h
        at_result (s, ok u) same = store-Mirrors find m.fixtures m.store s same h

    and_then-Good :
        (m' next : StoredManager S × Done)
        → Good m'.0
        → Good next.0
        → Good (and_then store m' next).0
    and_then-Good (m', failed e) next h k = h
    and_then-Good (m', ok u) next h k = k

    start_fixture-Good :
        (actor : String) (id : ℕ) (found : Option Fixture) (m : StoredManager S)
        → lookup id m.fixtures ≡ found
        → Good m
        → Good (start_fixture store actor id found m).0
    unfolding start_fixture write_applied apply_fixture send_state_update reset set_update_notifier
        set_actor
    start_fixture-Good actor id none m q h = h
    start_fixture-Good actor id (some f) m q h =
        insert-Mirrors find m.fixtures m.store id f _ q refl refl h

    bring_all_online-Good :
        (actor : String) (ids : List ℕ) (m : StoredManager S)
        → Good m
        → Good (bring_all_online store actor ids m).0
    unfolding bring_all_online bring_online
    bring_all_online-Good actor [] m h = h
    bring_all_online-Good actor (id ∷ ids) m h =
        let r = refresh store "set fixture online" id m in
        let h' = refresh-Good "set fixture online" id m h in
        let k = start_fixture-Good actor id (lookup id r.0.fixtures) r.0 refl h' in
        let h'' =
          and_then-Good r (start_fixture store actor id (lookup id r.0.fixtures) r.0) h' k in
        and_then-Good (bring_online store actor id m) _ h''
          (bring_all_online-Good actor ids (bring_online store actor id m).0 h'')

    accept_offers-Good :
        (now : ℕ) (random : String → String) (actor : String) (offers : Option MessageFixtureOffers)
        (m : StoredManager S)
        → Good m
        → Good (accept_offers store now random actor offers m).0
    unfolding accept_offers
    accept_offers-Good now random actor none m h = h
    accept_offers-Good now random actor (some offers) m h =
        online
          (add_fixtures_from_provider_message store now random offers.device_id offers.fixtures m)
          (add_fixtures-Good now random offers.device_id offers.fixtures m h)
      where
        online :
            (r : StoredManager S × Result (List ℕ))
            → Good r.0
            → Good (online_if_added store actor r).0
        online (m', failed e) h' = h'
        online (m', ok ids) h' = bring_all_online-Good actor ids m' h'

    pub accept_fixture_provider-Good :
        (now : ℕ) (random : String → String) (actor : String) (offers : Option MessageFixtureOffers)
        (m : StoredManager S)
        → Good m
        → Good (accept_fixture_provider store now random actor offers m).0
    unfolding accept_fixture_provider
    accept_fixture_provider-Good now random actor offers m h =
        and_then-Good _ _ h (accept_offers-Good now random actor offers _ h)

    send_offline-Good :
        (actor : String) (id : ℕ) (f : Fixture) (m : StoredManager S)
        → lookup id m.fixtures ≡ some f
        → Good m
        → Good (send_offline store actor id f m).0
    unfolding send_offline set_actor
    send_offline-Good actor id f m found h = elim (Bool-cases (actor_id f == actor)) [
      | inl e ↦ rw e (
          refresh-Good "set fixture offline" id
            (record m { fixtures = insert id (set_actor none f) m.fixtures })
            (insert-Mirrors find m.fixtures m.store id f _ found refl refl h))
      | inr e ↦ rw e h
    ]

    send_all_offline-Good :
        (actor : String) (rest : Dict ℕ Fixture) (m : StoredManager S)
        → Distinct rest
        → ((j : ℕ) (f : Fixture) → lookup j rest ≡ some f → lookup j m.fixtures ≡ some f)
        → Good m
        → Good (send_all_offline store actor rest m).0
    unfolding send_all_offline lookup
    send_all_offline-Good actor [] m d within h = h
    send_all_offline-Good actor ((id, f) ∷ rest) m d within h =
        let h' = send_offline-Good actor id f m (within id f (rw (same_refl id))) h in
        and_then-Good (send_offline store actor id f m) _ h' (
          send_all_offline-Good actor rest (send_offline store actor id f m).0 d.1
            (λ j g q.
              ground (
                arith,
                lookup-send_offline store actor id j f m,
                within j g,
                d.0,
                nat_same_iff id j,
              ))
            h')

    pub say_goodbye_to_fixture_provider-Good :
        (actor : String) (m : StoredManager S)
        → Good m
        → Good (say_goodbye_to_fixture_provider store actor m).0
    unfolding say_goodbye_to_fixture_provider handle_fixture_state_updated
    say_goodbye_to_fixture_provider-Good actor m h =
        let h' = send_all_offline-Good actor m.fixtures m h.unique (λ j f q. q) h in
        and_then-Good (send_all_offline store actor m.fixtures m) _ h' h'

    pub set_fixture_name-Good :
        (id : ℕ) (name : Option String) (m : StoredManager S)
        → Good m
        → Good (set_fixture_name store id name m).0
    unfolding set_fixture_name rename
    set_fixture_name-Good id name m h = by_search (lookup id m.fixtures) refl
      where
        by_store :
            (f : Fixture) (r : S × Done)
            → store.set_fixture_name id name m.store ≡ r
            → lookup id m.fixtures ≡ some f
            → Good (renamed store id name f r m).0
        by_store f (s, failed e) q found =
            store-Mirrors find m.fixtures m.store s (laws.names_not id name e m.store s q) h
        by_store f (s, ok u) q found =
            rename-Mirrors find m.fixtures m.store s id name f (laws.names id name m.store s q)
              found h

        by_search :
            (found : Option Fixture)
            → lookup id m.fixtures ≡ found
            → Good (rename store id name found m).0
        by_search none q = h
        by_search (some f) q = by_store f _ refl q

    pub delete_fixture-Good :
        (id : ℕ) (m : StoredManager S) → Good m → Good (delete_fixture store id m).0
    unfolding delete_fixture deleted
    delete_fixture-Good id m h = by_store _ refl
      where
        by_store :
            (r : S × Done) → store.delete_fixture id m.store ≡ r → Good (deleted store id r m).0
        by_store (s, failed e) q =
            store-Mirrors find m.fixtures m.store s (laws.deletes_not id e m.store s q) h
        by_store (s, ok u) q =
            delete-Mirrors find m.fixtures m.store s id (laws.deletes id m.store s q) h
