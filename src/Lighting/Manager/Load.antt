-- ===== src/Lighting/Manager/Load.antt =====
-- `LoadKnownFixtures` makes the manager's map the store's (lighting/manager.go).
use masc_server.Prelude.{
  ℕ, ◌≡◌, refl, Option, none, some, List, [], ◌∷◌, arith, Dict, lookup, insert, lookup-insert,
  insert-Distinct, Distinct, string_key, nat_key, nat_same_iff,
}
use masc_server.Errors.Results.{Result, ok, failed}
use masc_server.Casting.{Stage}
use masc_server.Lighting.Fixtures.{
  Fixture, new_fixture, new_basic_fixture, new_dimmer_fixture, reset, set_update_notifier,
}
use masc_server.Lighting.Manager.{
  StoreFixture, ManagerStore, new_stored_manager, loaded, load_each, load_result,
  load_known_fixtures, name_or,
}
use masc_server.Lighting.Manager.Store.{
  Entry, stored_entry, by_id, StoreLaws, served_type, served, entry, shown, Mirrors,
}

module _ {S : Type 0} (store : ManagerStore S) where
  loaded-entry :
      (now : ℕ) (k : StoreFixture)
      → (entry (loaded store now k)
          ≡ record (stored_entry k) { fixture_type = served_type k.fixture_type })
        × ((loaded store now k).id ≡ k.id)
  unfolding loaded set_update_notifier new_fixture new_basic_fixture new_dimmer_fixture reset
      name_or
  loaded-entry now k = ground arith

  over : Option Entry → Option Entry → Option Entry
  over none old = old
  over (some e) old = some e

  load_each-shown :
      (now : ℕ) (known : List StoreFixture) (fixtures : Dict ℕ Fixture)
      → Distinct (by_id known)
      → (id : ℕ)
      → shown (lookup id (load_each store now known fixtures))
        ≡ over (served (lookup id (by_id known))) (shown (lookup id fixtures))
  unfolding load_each over lookup
  load_each-shown now [] fixtures d id = refl
  load_each-shown now (k ∷ rest) fixtures d id = ground (
    arith,
    load_each-shown now rest (insert k.id (loaded store now k) fixtures) d.1 id,
    lookup-insert k.id id (loaded store now k) fixtures,
    loaded-entry now k,
    nat_same_iff k.id id,
    d.0,
  )

  abbrev Keyed : Dict ℕ Fixture → Type 0
  Keyed fixtures = (id : ℕ) (f : Fixture) → lookup id fixtures ≡ some f → f.id ≡ id

  load_each-Keyed :
      (now : ℕ) (known : List StoreFixture) (fixtures : Dict ℕ Fixture)
      → Keyed fixtures
      → Distinct fixtures
      → Keyed (load_each store now known fixtures) × Distinct (load_each store now known fixtures)
  unfolding load_each
  load_each-Keyed now [] fixtures keyed d = (keyed, d)
  load_each-Keyed now (k ∷ rest) fixtures keyed d =
      load_each-Keyed now rest (insert k.id (loaded store now k) fixtures)
        (λ id f q. ground (
          arith,
          lookup-insert k.id id (loaded store now k) fixtures,
          keyed id f,
          loaded-entry now k,
          nat_same_iff k.id id,
        ))
        (insert-Distinct k.id (loaded store now k) fixtures d)

  load_result-Mirrors :
      (find : ℕ → S → Option Entry)
      → StoreLaws store find
      → (now : ℕ) (s : S) (st : Stage) (r : Result (List StoreFixture)) → store.get_fixtures s ≡ r
      → (load_result store now r (new_stored_manager store s st)).1 ≡ ok tt
      → Mirrors find
          (load_result store now r (new_stored_manager store s st)).0.store
          (load_result store now r (new_stored_manager store s st)).0.fixtures
  unfolding load_result new_stored_manager over lookup
  load_result-Mirrors find laws now s st (failed e) q h = cc
  load_result-Mirrors find laws now s st (ok known) q h =
      let (d, same) = laws.listed s known q in
      let (keyed, unique) = load_each-Keyed now known [] (λ id f e. cc) tt in
      record {
        same = λ id. ground (arith, load_each-shown now known [] d id, same id);
        keyed = keyed;
        unique = unique;
      }

  -- Where the store lists its fixtures, the new manager mirrors it afterwards.
  pub load_known_fixtures-Mirrors :
      (find : ℕ → S → Option Entry)
      → StoreLaws store find
      → (now : ℕ) (s : S) (st : Stage)
      → (load_known_fixtures store now (new_stored_manager store s st)).1 ≡ ok tt
      → Mirrors find
          (load_known_fixtures store now (new_stored_manager store s st)).0.store
          (load_known_fixtures store now (new_stored_manager store s st)).0.fixtures
  unfolding load_known_fixtures new_stored_manager
  load_known_fixtures-Mirrors find laws now s st h =
      load_result-Mirrors find laws now s st (store.get_fixtures s) refl h
