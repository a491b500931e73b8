-- ===== src/Lighting/Manager/Offers.antt =====
-- Offers of a fixture provider (lighting/manager.go, `addFixturesFromProviderMessage`): which fixture
-- an offered one is known as, before and after it was added.
pub mod Again
use masc_server.Prelude.{
  ℕ, String, Bool, true, false, ◌≡◌, refl, ◌∙◌, sym, ap, Option, none, some, List, [], ◌∷◌, arith,
  if◌then◌else◌, ◌&&◌, Dict, lookup, insert, lookup-insert, Distinct, string_key, nat_key, eq_iff,
  nat_same_iff, same_refl, ◌==◌, Bool-cases, ◌⊎◌, inl, inr, All, Option-cases,
}
use masc_server.Errors.{GoError}
use masc_server.Errors.Results.{Result, ok, failed}
use masc_server.Messages.Incoming.{OfferedFixture}
use masc_server.Lighting.Fixtures.{Fixture}
use masc_server.Lighting.Manager.{
  StoreFixture, ManagerStore, StoredManager, find_known, created_fixture, added, add_with,
  add_offered, with_id, further, add_fixtures_from_provider_message,
}
use masc_server.Lighting.Manager.Store.{Entry, stored_entry, StoreLaws, served_type, entry, Mirrors}
use masc_server.Lighting.Manager.Calls.Mirror.{
  Good, created_fixture-entry, add_fixtures-Good, add_with-Good,
}

module _ {S : Type 0} (store : ManagerStore S) where
  matches : String → String → Fixture → Bool
  matches device provider f = (f.device_id == device) && (f.basic.provider_id == provider)

  or_matching : String → String → Fixture → Option Fixture → Option Fixture
  or_matching device provider f none = if matches device provider f then some f else none
  or_matching device provider f (some g) = some g

  -- A new entry of the map is found last.
  find_known-insert :
      (device provider : String) (id : ℕ) (f : Fixture) (fixtures : Dict ℕ Fixture)
      → lookup id fixtures ≡ none
      → find_known store device provider (insert id f fixtures)
        ≡ or_matching device provider f (find_known store device provider fixtures)
  unfolding find_known or_matching matches insert lookup
  find_known-insert device provider id f [] e = refl
  find_known-insert device provider id f ((j, g) ∷ rest) e =
      ground (arith, find_known-insert device provider id f rest, nat_same_iff j id)

  -- The fixture that an offered one is known as.
  abbrev pub Known : String → Dict ℕ Fixture → OfferedFixture → ℕ → Type 0
  Known device fixtures o id =
      (f : Fixture) × (find_known store device o.provider_id fixtures ≡ some f)
      × (f.id ≡ id)
      × (f.fixture_type ≡ o.fixture_type)

  -- What is known stays known.
  abbrev pub Keeps : StoredManager S → StoredManager S → Type 0
  Keeps m m' =
      (device provider : String) (f : Fixture)
      → find_known store device provider m.fixtures ≡ some f
      → find_known store device provider m'.fixtures ≡ some f

  -- An offered fixture that is found, if no error is returned.
  found-Known :
      (now : ℕ) (device drawn : String) (o : OfferedFixture) (m : StoredManager S) (id : ℕ)
      (f : Fixture)
      → find_known store device o.provider_id m.fixtures ≡ some f
      → (add_with store now device o (some f) drawn m).1 ≡ ok id
      → Known device (add_with store now device o (some f) drawn m).0.fixtures o id
        × Keeps m (add_with store now device o (some f) drawn m).0
  unfolding add_with
  found-Known now device drawn o m id f q e =
      let same : (f.fixture_type ≡ o.fixture_type) × (f.id ≡ id) =
        ground (arith, eq_iff f.fixture_type o.fixture_type) in
      let t : (f.fixture_type == o.fixture_type) ≡ true =
        (eq_iff f.fixture_type o.fixture_type).1 same.0 in
      rw t ((f, q, same.1, same.0), λ d p g k. k)

  inserted-Known :
      (device : String) (o : OfferedFixture) (id : ℕ) (f : Fixture) (fixtures : Dict ℕ Fixture)
      → lookup id fixtures ≡ none
      → find_known store device o.provider_id fixtures ≡ none
      → f.device_id ≡ device
      → f.basic.provider_id ≡ o.provider_id
      → find_known store device o.provider_id (insert id f fixtures) ≡ some f
  unfolding or_matching matches
  inserted-Known device o id f fixtures free unknown d p =
      find_known-insert device o.provider_id id f fixtures free
      ∙ ground (arith, eq_iff f.device_id device, eq_iff f.basic.provider_id o.provider_id)

  module _ (find : ℕ → S → Option Entry) (laws : StoreLaws store find) where
    -- The store's new id is free in the manager.
    created_free :
        (given c : StoreFixture) (m : StoredManager S) (s : S)
        → store.create_fixture given m.store ≡ (s, ok c)
        → Good store find m
        → lookup c.id m.fixtures ≡ none
    created_free given c m s q h =
        let (e, new, finds) = laws.creates given c m.store s q in ground (arith, h.same c.id, new)

    created-Known :
        (now : ℕ) (o : OfferedFixture) (given : StoreFixture) (m : StoredManager S) (id : ℕ)
        → given.provider_id ≡ o.provider_id
        → given.fixture_type ≡ o.fixture_type
        → served_type o.fixture_type ≡ o.fixture_type
        → Good store find m
        → find_known store given.device given.provider_id m.fixtures ≡ none
        → (r : S × Result StoreFixture) → store.create_fixture given m.store ≡ r
        → (added store now given.device given.provider_id m r).1 ≡ ok id
        → Known given.device (added store now given.device given.provider_id m r).0.fixtures o id
          × Keeps m (added store now given.device given.provider_id m r).0
    unfolding added or_matching
    created-Known now o given m id p t supported h none_known (s, failed e) q r = cc
    created-Known now o given m id p t supported h none_known (s, ok c) q r =
        let free = created_free given c m s q h in
        let f = created_fixture store now given.device given.provider_id c in
        let (shape, own) = created_fixture-entry store find now given.device given.provider_id c in
        let same_entry = (laws.creates given c m.store s q).0 in
        let same_type : c.fixture_type ≡ o.fixture_type =
          ap (λ (e : Entry). e.fixture_type) same_entry ∙ t in
        let same_id : c.id ≡ id = ground arith in
        (
          (
            f,
            inserted-Known given.device o c.id f m.fixtures free (rw (sym p) none_known)
                (ap (λ (e : Entry). e.device) shape) (ap (λ (e : Entry). e.provider_id) shape ∙ p),
            own ∙ same_id,
            ap (λ (e : Entry). e.fixture_type) shape ∙ ap served_type same_type ∙ supported,
          ),
          λ d v g k. find_known-insert d v c.id f m.fixtures free ∙ ap (or_matching d v f) k,
        )

    pub add_offered-Known :
        (now : ℕ) (device drawn : String) (o : OfferedFixture) (m : StoredManager S) (id : ℕ)
        → served_type o.fixture_type ≡ o.fixture_type
        → Good store find m
        → (add_offered store now device o drawn m).1 ≡ ok id
        → Known device (add_offered store now device o drawn m).0.fixtures o id
          × Keeps m (add_offered store now device o drawn m).0
    unfolding add_offered add_with
    add_offered-Known now device drawn o m id supported h e =
        by_search (find_known store device o.provider_id m.fixtures) refl e
      where
        by_search :
            (found : Option Fixture)
            → find_known store device o.provider_id m.fixtures ≡ found
            → (add_with store now device o found drawn m).1 ≡ ok id
            → Known device (add_with store now device o found drawn m).0.fixtures o id
              × Keeps m (add_with store now device o found drawn m).0
        by_search (some f) q e = found-Known now device drawn o m id f q e
        by_search none q e = created-Known now o _ m id refl refl supported h q _ refl e
