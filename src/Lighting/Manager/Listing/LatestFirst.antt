-- ===== src/Lighting/Manager/Listing/LatestFirst.antt =====
-- The list of the fixtures that are online (lighting/manager.go): its order, and what stands in it.
use masc_server.Prelude.{
  ℕ, ◌≤◌, ◌≡◌, ◌∙◌, refl, Bool, inl, inr, ◌&&◌, Bool-cases, List, [], ◌∷◌, All, All-mono, passing,
  ltb, Dict, arith,
}
use masc_server.Lighting.Fixtures.{Fixture, is_online}
use masc_server.Lighting.Manager.{ManagerStore, StoredManager}
use masc_server.Lighting.Manager.Listing.{
  fixtures_of, insert_by_last_seen, sort_by_last_seen, those_online, fixtures, online_fixtures,
}

abbrev AtMost : ℕ → Fixture → Type 0
AtMost n f = f.last_seen ≤ n

-- No fixture was seen after one that stands before it.
abbrev pub LatestFirst : List Fixture → Type 0
LatestFirst [] = Unit
LatestFirst (f ∷ rest) = All (AtMost f.last_seen) rest × LatestFirst rest

-- A property of all members of a list stays one when a fixture that has it is inserted.
insert-All :
    (P : Fixture → Type 0) (f : Fixture) (l : List Fixture)
    → P f
    → All P l
    → All P (insert_by_last_seen f l)
unfolding insert_by_last_seen
insert-All P f [] pf h = (pf, tt)
insert-All P f (g ∷ rest) pf h = elim (Bool-cases (ltb g.last_seen f.last_seen)) [
  | inl e ↦ rw e (pf, h)
  | inr e ↦ rw e (h.0, insert-All P f rest pf h.1)
]

insert-LatestFirst :
    (f : Fixture) (l : List Fixture) → LatestFirst l → LatestFirst (insert_by_last_seen f l)
unfolding insert_by_last_seen
insert-LatestFirst f [] h = (tt, tt)
insert-LatestFirst f (g ∷ rest) h = elim (Bool-cases (ltb g.last_seen f.last_seen)) [
  | inl e ↦
      let le : g.last_seen ≤ f.last_seen = ground arith in
      rw e ((le, All-mono (λ x k. omega arith) rest h.0), h)
  | inr e ↦
      let le : f.last_seen ≤ g.last_seen = ground arith in
      rw e (insert-All (AtMost g.last_seen) f rest le h.0, insert-LatestFirst f rest h.1)
]

sort-LatestFirst : (l : List Fixture) → LatestFirst (sort_by_last_seen l)
unfolding sort_by_last_seen
sort-LatestFirst [] = tt
sort-LatestFirst (f ∷ rest) = insert-LatestFirst f (sort_by_last_seen rest) (sort-LatestFirst rest)

those_online-All : (P : Fixture → Type 0) (l : List Fixture) → All P l → All P (those_online l)
unfolding those_online
those_online-All P [] h = tt
those_online-All P (f ∷ rest) h = elim (Bool-cases (is_online f)) [
  | inl e ↦ rw e (h.0, those_online-All P rest h.1)
  | inr e ↦ rw e (those_online-All P rest h.1)
]

those_online-LatestFirst : (l : List Fixture) → LatestFirst l → LatestFirst (those_online l)
unfolding those_online
those_online-LatestFirst [] h = tt
those_online-LatestFirst (f ∷ rest) h = elim (Bool-cases (is_online f)) [
  | inl e ↦ rw e (those_online-All (AtMost f.last_seen) rest h.0, those_online-LatestFirst rest h.1)
  | inr e ↦ rw e (those_online-LatestFirst rest h.1)
]

passing-insert :
    (test : Fixture → Bool) (f : Fixture) (l : List Fixture)
    → passing test (insert_by_last_seen f l) ≡ passing test (f ∷ l)
unfolding insert_by_last_seen
passing-insert test f [] = refl
passing-insert test f (g ∷ rest) = elim (Bool-cases (ltb g.last_seen f.last_seen)) [
  | inl e ↦ rw e
  | inr e ↦ rw e (omega (arith, passing-insert test f rest))
]

passing-sort :
    (test : Fixture → Bool) (l : List Fixture) → passing test (sort_by_last_seen l) ≡ passing test l
unfolding sort_by_last_seen
passing-sort test [] = refl
passing-sort test (f ∷ rest) =
    omega (arith, passing-insert test f (sort_by_last_seen rest), passing-sort test rest)

passing-those_online :
    (test : Fixture → Bool) (l : List Fixture)
    → passing test (those_online l) ≡ passing (λ f. is_online f && test f) l
unfolding those_online
passing-those_online test [] = refl
passing-those_online test (f ∷ rest) = elim (Bool-cases (is_online f)) [
  | inl e ↦ rw e (omega (arith, passing-those_online test rest))
  | inr e ↦ rw e (omega (arith, passing-those_online test rest))
]

passing-fixtures_of :
    (test : Fixture → Bool) (d : Dict ℕ Fixture)
    → passing test (fixtures_of d) ≡ passing (λ entry. test entry.1) d
unfolding fixtures_of
passing-fixtures_of test [] = refl
passing-fixtures_of test ((id, f) ∷ rest) = omega (arith, passing-fixtures_of test rest)

-- In the list of `OnlineFixtures` no fixture was seen after one that stands before it; and whatever
-- is asked of a fixture, as many fixtures of the list have it as fixtures of the manager's map that
-- are online.
pub online_fixtures_lem :
    {S : Type 0} (store : ManagerStore S) (m : StoredManager S) (test : Fixture → Bool)
    → LatestFirst (online_fixtures store m)
      × (passing test (online_fixtures store m)
          ≡ passing (λ entry. is_online entry.1 && test entry.1) m.fixtures)
unfolding online_fixtures fixtures
online_fixtures_lem store m test =
    let all = fixtures_of m.fixtures in
    (
      those_online-LatestFirst (sort_by_last_seen all) (sort-LatestFirst all),
      passing-those_online test (sort_by_last_seen all)
          ∙ passing-sort (λ f. is_online f && test f) all
          ∙ passing-fixtures_of (λ f. is_online f && test f) m.fixtures,
    )
