-- ===== src/Lighting/Manager/Calls/Offline.antt =====
-- What `SayGoodbyeToFixtureProvider` leaves of the fixtures (lighting/manager.go).
use masc_server.Prelude.{
  ℕ, String, ◌≡◌, refl, ◌∙◌, sym, ap, Option, none, some, [], ◌∷◌, arith, if◌then◌else◌, Dict,
  lookup, insert, string_key, nat_key, nat_same_iff, same_refl, lookup-insert, Distinct, ◌==◌, ◌&&◌,
  Bool-cases, inl, inr,
}
use masc_server.Errors.Results.{Done, ok, failed}
use masc_server.Lighting.Fixtures.{Fixture, actor_id, set_actor}
use masc_server.Lighting.Manager.{ManagerStore, StoredManager}
use masc_server.Lighting.Manager.Calls.{
  and_then, refreshed, refresh, send_offline, send_all_offline, say_goodbye_to_fixture_provider,
  handle_fixture_state_updated,
}

module _ {S : Type 0} (store : ManagerStore S) where
  pub fixtures-refresh :
      (context : String) (id : ℕ) (m : StoredManager S)
      → (refresh store context id m).0.fixtures ≡ m.fixtures
  unfolding refresh refreshed
  fixtures-refresh context id m = at_result (store.refresh_last_seen_for_fixture id m.store)
    where
      at_result : (r : S × Done) → (refreshed store context r m).0.fixtures ≡ m.fixtures
      at_result (s, failed e) = refl
      at_result (s, ok u) = refl

  -- One round: the fixture loses its actor if it is the one that leaves.
  pub lookup-send_offline :
      (actor : String) (id j : ℕ) (f : Fixture) (m : StoredManager S)
      → lookup j (send_offline store actor id f m).0.fixtures ≡ (
          if id == j && (actor_id f == actor) then some (set_actor none f) else lookup j m.fixtures)
  unfolding send_offline
  lookup-send_offline actor id j f m = elim (Bool-cases (actor_id f == actor)) [
    | inl e ↦
        rw
          (
            e,
            fixtures-refresh "set fixture offline" id
                (record m { fixtures = insert id (set_actor none f) m.fixtures }),
            lookup-insert id j (set_actor none f) m.fixtures,
          )
          (ground arith)
    | inr e ↦ rw e (ground arith)
  ]

  -- A fixture of the actor that leaves loses it; any other stays as it is.
  abbrev pub left_by : String → Option Fixture → Option Fixture
  left_by actor none = none
  left_by actor (some f) = if actor_id f == actor then some (set_actor none f) else some f

  left_in : String → Option Fixture → Option Fixture → Option Fixture
  left_in actor none old = old
  left_in actor (some f) old = left_by actor (some f)

  pub and_then-ok :
      (r next : StoredManager S × Done)
      → (and_then store r next).1 ≡ ok tt
      → and_then store r next ≡ next
  and_then-ok (m, failed e) next h = cc
  and_then-ok (m, ok u) next h = refl

  pub and_then-first :
      (r next : StoredManager S × Done) → (and_then store r next).1 ≡ ok tt → r.1 ≡ ok tt
  and_then-first (m, failed e) next h = cc
  and_then-first (m, ok u) next h = refl

  left_in_self : (actor : String) (o : Option Fixture) → left_in actor o o ≡ left_by actor o
  unfolding left_in
  left_in_self actor none = refl
  left_in_self actor (some f) = refl

  lookup-send_all_offline :
      (actor : String) (rest : Dict ℕ Fixture) (m : StoredManager S)
      → Distinct rest
      → ((j : ℕ) (f : Fixture) → lookup j rest ≡ some f → lookup j m.fixtures ≡ some f)
      → (send_all_offline store actor rest m).1 ≡ ok tt
      → (j : ℕ)
      → lookup j (send_all_offline store actor rest m).0.fixtures
        ≡ left_in actor (lookup j rest) (lookup j m.fixtures)
  unfolding send_all_offline lookup left_in
  lookup-send_all_offline actor [] m d within h j = refl
  lookup-send_all_offline actor ((id, f) ∷ rest) m d within h j =
      let m' = (send_offline store actor id f m).0 in
      let q =
        and_then-ok (send_offline store actor id f m) (send_all_offline store actor rest m') h in
      rw q (
        ground (
          arith,
          lookup-send_all_offline actor rest m' d.1
              (λ i g p.
                ground
                  (arith, lookup-send_offline actor id i f m, within i g, d.0, nat_same_iff id i))
              (sym (ap (λ (x : StoredManager S × Done). x.1) q) ∙ h) j,
          lookup-send_offline actor id j f m,
          within id f (rw (same_refl id)),
          d.0,
          nat_same_iff id j,
        ))

  -- Where the fixtures stand once each and `SayGoodbyeToFixtureProvider` returns no error, exactly the
  -- fixtures of the actor have lost it, and nothing else of any fixture has changed.
  pub lookup-say_goodbye_to_fixture_provider :
      (actor : String) (m : StoredManager S)
      → Distinct m.fixtures
      → (say_goodbye_to_fixture_provider store actor m).1 ≡ ok tt
      → (j : ℕ)
      → lookup j (say_goodbye_to_fixture_provider store actor m).0.fixtures
        ≡ left_by actor (lookup j m.fixtures)
  unfolding say_goodbye_to_fixture_provider handle_fixture_state_updated
  lookup-say_goodbye_to_fixture_provider actor m d h j =
      let r = send_all_offline store actor m.fixtures m in
      let next : StoredManager S × Done = (handle_fixture_state_updated store r.0, ok tt) in
      rw (and_then-ok r next h) (
        lookup-send_all_offline actor m.fixtures m d (λ i f q. q) (and_then-first r next h) j
        ∙ left_in_self actor (lookup j m.fixtures))
