-- ===== src/Lighting/Manager/Offers/Again.antt =====
-- An offer that was accepted is known: to add it again changes nothing (lighting/manager.go).
use masc_server.Prelude.{
  ℕ, String, true, ◌≡◌, refl, subst, sym, Option, List, [], ◌∷◌, arith, ◌==◌, Dict, string_key,
  eq_iff, All,
}
use masc_server.Errors.Results.{Result, ok, failed}
use masc_server.Messages.Incoming.{OfferedFixture}
use masc_server.Lighting.Fixtures.{Fixture}
use masc_server.Lighting.Manager.{
  ManagerStore, StoredManager, add_with, add_offered, with_id, further,
  add_fixtures_from_provider_message,
}
use masc_server.Lighting.Manager.Store.{Entry, StoreLaws, served_type}
use masc_server.Lighting.Manager.Calls.Mirror.{Good, add_with-Good}
use masc_server.Lighting.Manager.Offers.{Known, Keeps, add_offered-Known}

-- The manager knows the type of an offered fixture.
abbrev pub IsSupported : OfferedFixture → Type 0
IsSupported o = served_type o.fixture_type ≡ o.fixture_type

module _ {S : Type 0} (store : ManagerStore S) where
  -- The offered fixtures are known under the ids, one by one.
  abbrev pub KnownAs : String → Dict ℕ Fixture → List OfferedFixture → List ℕ → Type 0
  KnownAs device fixtures [] [] = Unit
  KnownAs device fixtures (o ∷ os) (id ∷ ids) =
      Known store device fixtures o id × KnownAs device fixtures os ids
  KnownAs device fixtures _ _ = ⊥

  further-ok :
      (m : StoredManager S) (id : Result ℕ) (rest : StoredManager S × Result (List ℕ))
      (ids : List ℕ)
      → (further store m id rest).1 ≡ ok ids
      → (i : ℕ) × (is : List ℕ) × (id ≡ ok i)
        × (rest.1 ≡ ok is)
        × (ids ≡ i ∷ is)
        × ((further store m id rest).0 ≡ rest.0)
  unfolding further with_id
  further-ok m (failed e) rest ids h = cc
  further-ok m (ok i) (m', failed e) ids h = cc
  further-ok m (ok i) (m', ok is) ids h = (i, is, refl, refl, ground arith, refl)

  module _ (find : ℕ → S → Option Entry) (laws : StoreLaws store find) where
    pub add_fixtures-KnownAs :
        (now : ℕ) (random : String → String) (device : String) (os : List OfferedFixture)
        (m : StoredManager S) (ids : List ℕ)
        → All IsSupported os
        → Good store find m
        → (add_fixtures_from_provider_message store now random device os m).1 ≡ ok ids
        → KnownAs device
            (add_fixtures_from_provider_message store now random device os m).0.fixtures
            os
            ids
          × Keeps store m (add_fixtures_from_provider_message store now random device os m).0
    unfolding add_fixtures_from_provider_message add_offered
    add_fixtures-KnownAs now random device [] m [] supported h e = (tt, λ d p f k. k)
    add_fixtures-KnownAs now random device [] m (id ∷ ids) supported h e = cc
    add_fixtures-KnownAs now random device (o ∷ os) m ids supported h e =
        let (m', id) = add_offered store now device o (random o.provider_id) m in
        let rest = add_fixtures_from_provider_message store now random device os m' in
        let (i, is, p, q, r, same) = further-ok m' id rest ids e in
        let ((f, found, own, type), keeps) =
          add_offered-Known store find laws now device (random o.provider_id) o m i supported.0 h
            p in
        let (known, keeps') =
          add_fixtures-KnownAs now random device os m' is supported.1
            (add_with-Good store find laws now device o _ _ m h) q in
        rw r (
          subst
            (λ (x : StoredManager S). KnownAs device x.fixtures (o ∷ os) (i ∷ is) × Keeps store m x)
            (sym same)
            (
              ((f, keeps' device o.provider_id f found, own, type), known),
              λ d v g k. keeps' d v g (keeps d v g k),
            ))

  -- What is known is added without a change.
  add_known :
      (now : ℕ) (random : String → String) (device : String) (os : List OfferedFixture)
      (m : StoredManager S) (ids : List ℕ)
      → KnownAs device m.fixtures os ids
      → add_fixtures_from_provider_message store now random device os m ≡ (m, ok ids)
  unfolding add_fixtures_from_provider_message add_offered add_with further with_id
  add_known now random device [] m [] k = refl
  add_known now random device [] m (id ∷ ids) k = absurd k
  add_known now random device (o ∷ os) m [] k = absurd k
  add_known now random device (o ∷ os) m (id ∷ ids) ((f, found, own, type), k) =
      let t : (f.fixture_type == o.fixture_type) ≡ true =
        (eq_iff f.fixture_type o.fixture_type).1 type in
      rw (found, t, own, add_known now random device os m ids k) refl

  -- Where the store keeps its laws, the manager's map mirrors it and the types that are offered are
  -- supported: an offer of which all fixtures were added is answered, when it comes again at any time,
  -- by the same fixtures, and neither the store nor the manager changes.
  pub add_again :
      (find : ℕ → S → Option Entry)
      → StoreLaws store find
      → (now : ℕ) (random : String → String) (device : String) (os : List OfferedFixture)
        (m : StoredManager S) (ids : List ℕ)
      → All IsSupported os
      → Good store find m
      → (add_fixtures_from_provider_message store now random device os m).1 ≡ ok ids
      → (later : ℕ) (redrawn : String → String)
      → add_fixtures_from_provider_message store later redrawn device os
          (add_fixtures_from_provider_message store now random device os m).0
        ≡ ((add_fixtures_from_provider_message store now random device os m).0, ok ids)
  add_again find laws now random device os m ids supported h e later redrawn =
      add_known later redrawn device os _ ids
        (add_fixtures-KnownAs find laws now random device os m ids supported h e).0
