-- ===== src/Lighting/Manager/Store.antt =====
-- What the manager of the fixtures relies on from its store (`ManagerStore` of lighting/manager.go),
-- and that the manager's map mirrors what is stored.
use masc_server.Prelude.{
  ℕ, String, ◌≡◌, ◌∙◌, sym, ap, Option, none, some, List, [], ◌∷◌, arith, if◌then◌else◌, Dict,
  lookup, insert, delete, lookup-insert, lookup-delete, insert-Distinct, delete-Distinct, Distinct,
  string_key, nat_key, nat_same_iff, ◌==◌,
}
use masc_server.Errors.{GoError}
use masc_server.Errors.Results.{ok, failed}
use masc_server.Lighting.Fixtures.{Fixture}
use masc_server.Lighting.Manager.{StoreFixture, ManagerStore}

-- What both the store and the manager know of a fixture.
pub record Entry : Type 0 where
  pub device : String
  pub provider_id : String
  pub name : Option String
  pub fixture_type : String

abbrev pub stored_entry : StoreFixture → Entry
stored_entry f = record {
  device = f.device;
  provider_id = f.provider_id;
  name = f.name;
  fixture_type = f.fixture_type;
}

abbrev pub by_id : List StoreFixture → Dict ℕ Entry
by_id [] = []
by_id (f ∷ rest) = (f.id, stored_entry f) ∷ by_id rest

abbrev pub renamed_entry : Option String → Option Entry → Option Entry
renamed_entry name none = none
renamed_entry name (some e) = some (record e { name = name })

-- What the calls of a store do, where `find` looks a fixture up. A call that fails changes nothing.
pub record StoreLaws {S : Type 0} (store : ManagerStore S) (find : ℕ → S → Option Entry)
    : Type 0 where
  -- All fixtures are listed, each once.
  pub listed :
      (s : S) (known : List StoreFixture)
      → store.get_fixtures s ≡ ok known
      → Distinct (by_id known) × ((id : ℕ) → lookup id (by_id known) ≡ find id s)
  -- The given fixture is created, under an id that is new.
  pub creates :
      (given created : StoreFixture) (s s' : S)
      → store.create_fixture given s ≡ (s', ok created)
      → (stored_entry created ≡ stored_entry given)
        × (find created.id s ≡ none)
        × ((id : ℕ)
            → find id s' ≡ (if created.id == id then some (stored_entry given) else find id s))
  pub creates_not :
      (given : StoreFixture) (e : GoError) (s s' : S)
      → store.create_fixture given s ≡ (s', failed e)
      → (id : ℕ) → find id s' ≡ find id s
  pub deletes :
      (id : ℕ) (s s' : S)
      → store.delete_fixture id s ≡ (s', ok tt)
      → (j : ℕ) → find j s' ≡ (if id == j then none else find j s)
  pub deletes_not :
      (id : ℕ) (e : GoError) (s s' : S)
      → store.delete_fixture id s ≡ (s', failed e)
      → (j : ℕ) → find j s' ≡ find j s
  pub names :
      (id : ℕ) (name : Option String) (s s' : S)
      → store.set_fixture_name id name s ≡ (s', ok tt)
      → (j : ℕ) → find j s' ≡ (if id == j then renamed_entry name (find j s) else find j s)
  pub names_not :
      (id : ℕ) (name : Option String) (e : GoError) (s s' : S)
      → store.set_fixture_name id name s ≡ (s', failed e)
      → (j : ℕ) → find j s' ≡ find j s
  -- The time at which a fixture was last seen is no part of an entry.
  pub refreshes :
      (id j : ℕ) (s : S) → find j (store.refresh_last_seen_for_fixture id s).0 ≡ find j s

-- A type that the manager does not know is served as the basic one.
abbrev pub served_type : String → String
served_type t = if t == "dimmer" then "dimmer" else "basic"

abbrev pub served : Option Entry → Option Entry
served none = none
served (some e) = some (record e { fixture_type = served_type e.fixture_type })

abbrev pub entry : Fixture → Entry
entry f = record {
  device = f.device_id;
  provider_id = f.basic.provider_id;
  name = f.name;
  fixture_type = f.fixture_type;
}

abbrev pub shown : Option Fixture → Option Entry
shown none = none
shown (some f) = some (entry f)

-- The fixtures are those of the store, each under its own id.
pub record Mirrors {S : Type 0} (find : ℕ → S → Option Entry) (s : S) (fixtures : Dict ℕ Fixture)
    : Type 0 where
  pub same : (id : ℕ) → shown (lookup id fixtures) ≡ served (find id s)
  pub keyed : (id : ℕ) (f : Fixture) → lookup id fixtures ≡ some f → f.id ≡ id
  pub unique : Distinct fixtures

module _ {S : Type 0} (find : ℕ → S → Option Entry) (fixtures : Dict ℕ Fixture) where
  -- A store that finds the same is mirrored as well.
  pub store-Mirrors :
      (s s' : S)
      → ((id : ℕ) → find id s' ≡ find id s)
      → Mirrors find s fixtures
      → Mirrors find s' fixtures
  store-Mirrors s s' e h = record {
    same = λ id. h.same id ∙ sym (ap served (e id));
    keyed = h.keyed;
    unique = h.unique;
  }

  -- What is no part of an entry may change.
  pub insert-Mirrors :
      (s : S) (id : ℕ) (f f' : Fixture)
      → lookup id fixtures ≡ some f
      → entry f' ≡ entry f
      → f'.id ≡ f.id
      → Mirrors find s fixtures
      → Mirrors find s (insert id f' fixtures)
  insert-Mirrors s id f f' found e same_id h = record {
    same = λ j. ground (arith, lookup-insert id j f' fixtures, h.same j, nat_same_iff id j);
    keyed = λ j g q.
        ground
          (arith, lookup-insert id j f' fixtures, h.keyed j g, h.keyed id f, nat_same_iff id j);
    unique = insert-Distinct id f' fixtures h.unique;
  }

  pub delete-Mirrors :
      (s s' : S) (id : ℕ)
      → ((j : ℕ) → find j s' ≡ (if id == j then none else find j s))
      → Mirrors find s fixtures
      → Mirrors find s' (delete id fixtures)
  delete-Mirrors s s' id e h = record {
    same = λ j. ground (arith, lookup-delete id j fixtures, h.same j, e j);
    keyed = λ j g q. ground (arith, lookup-delete id j fixtures, h.keyed j g);
    unique = delete-Distinct id fixtures h.unique;
  }

  pub rename-Mirrors :
      (s s' : S) (id : ℕ) (name : Option String) (f : Fixture)
      → ((j : ℕ) → find j s' ≡ (if id == j then renamed_entry name (find j s) else find j s))
      → lookup id fixtures ≡ some f
      → Mirrors find s fixtures
      → Mirrors find s' (insert id (record f { name = name }) fixtures)
  rename-Mirrors s s' id name f e found h = record {
    same = λ j. ground (
      arith,
      lookup-insert id j (record f { name = name }) fixtures,
      h.same j,
      h.same id,
      e j,
      nat_same_iff id j,
    );
    keyed = λ j g q. ground (
      arith,
      lookup-insert id j (record f { name = name }) fixtures,
      h.keyed j g,
      h.keyed id f,
      nat_same_iff id j,
    );
    unique = insert-Distinct id (record f { name = name }) fixtures h.unique;
  }

  -- A fixture of the store that the map did not hold.
  pub create-Mirrors :
      (s s' : S) (id : ℕ) (e : Entry) (f : Fixture)
      → ((j : ℕ) → find j s' ≡ (if id == j then some e else find j s))
      → entry f ≡ record e { fixture_type = served_type e.fixture_type }
      → f.id ≡ id
      → Mirrors find s fixtures
      → Mirrors find s' (insert id f fixtures)
  create-Mirrors s s' id e f finds q same_id h = record {
    same = λ j. ground (arith, lookup-insert id j f fixtures, h.same j, finds j);
    keyed = λ j g p. ground (arith, lookup-insert id j f fixtures, h.keyed j g, nat_same_iff id j);
    unique = insert-Distinct id f fixtures h.unique;
  }
