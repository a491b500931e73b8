-- ===== src/Lighting/Manager/Memory.antt =====
-- A store of fixtures that keeps its laws: the rows by their ids, each once.
use masc_server.Prelude.{
  ℕ, suc, ◌+◌, ◌≤◌, String, ◌≡◌, refl, ◌∙◌, sym, ap, subst, Option, none, some, List, [], ◌∷◌,
  arith, if◌then◌else◌, Dict, lookup, insert, delete, lookup-insert, lookup-delete, insert-Distinct,
  delete-Distinct, Distinct, nat_key, nat_same_iff, ◌==◌,
}
use masc_server.Errors.{GoError}
use masc_server.Errors.Results.{Result, Done, ok, failed, ok-injective}
use masc_server.Errors.Generators.{new_resource_not_found_error}
use masc_server.Lighting.Manager.{StoreFixture, ManagerStore}
use masc_server.Lighting.Manager.Store.{Entry, stored_entry, by_id, renamed_entry, StoreLaws}

abbrev pub Rows : Type 0
Rows = (rows : Dict ℕ Entry) × Distinct rows

abbrev pub listing : Dict ℕ Entry → List StoreFixture
listing [] = []
listing ((id, e) ∷ rest) =
    record {
      id = id;
      device = e.device;
      provider_id = e.provider_id;
      name = e.name;
      fixture_type = e.fixture_type;
      last_seen = 0;
    }
    ∷ listing rest

-- A number above all ids.
abbrev pub fresh : Dict ℕ Entry → ℕ
fresh [] = 1
fresh ((id, e) ∷ rest) = suc (id + fresh rest)

abbrev named : ℕ → Option String → Option Entry → Rows → Rows × Done
named id name none rows = (rows, failed (new_resource_not_found_error "fixture not found" none))
named id name (some e) (rows, d) = (
  (insert id (record e { name = name }) rows, insert-Distinct id (record e { name = name }) rows d),
  ok tt,
)

abbrev pub memory : ManagerStore Rows
memory = record {
  get_fixtures = λ s. ok (listing s.0);
  create_fixture = λ given s. (
    (
      insert (fresh s.0) (stored_entry given) s.0,
      insert-Distinct (fresh s.0) (stored_entry given) s.0 s.1,
    ),
    ok (record given { id = fresh s.0 }),
  );
  delete_fixture = λ id s. ((delete id s.0, delete-Distinct id s.0 s.1), ok tt);
  set_fixture_name = λ id name s. named id name (lookup id s.0) s;
  refresh_last_seen_for_fixture = λ id s. (s, ok tt);
}

abbrev pub find : ℕ → Rows → Option Entry
find id s = lookup id s.0

by_id-listing : (rows : Dict ℕ Entry) → by_id (listing rows) ≡ rows
by_id-listing [] = refl
by_id-listing ((id, e) ∷ rest) = ap (λ (r : Dict ℕ Entry). (id, e) ∷ r) (by_id-listing rest)

lookup-fresh : (rows : Dict ℕ Entry) (k : ℕ) → fresh rows ≤ k → lookup k rows ≡ none
unfolding lookup
lookup-fresh [] k h = refl
lookup-fresh ((id, e) ∷ rest) k h = ground (arith, lookup-fresh rest k, nat_same_iff id k)

named_ok :
    (id : ℕ) (name : Option String) (o : Option Entry) (s s' : Rows)
    → lookup id s.0 ≡ o
    → named id name o s ≡ (s', ok tt)
    → (j : ℕ) → find j s' ≡ (if id == j then renamed_entry name (find j s) else find j s)
named_ok id name none s s' q e j = cc
named_ok id name (some x) s s' q e j =
    subst (λ (t : Rows). find j t ≡ (if id == j then renamed_entry name (find j s) else find j s))
      (ap (λ (r : Rows × Done). r.0) e)
      (ground (arith, lookup-insert id j (record x { name = name }) s.0, nat_same_iff id j))

named_failed :
    (id : ℕ) (name : Option String) (o : Option Entry) (x : GoError) (s s' : Rows)
    → named id name o s ≡ (s', failed x)
    → (j : ℕ) → find j s' ≡ find j s
named_failed id name none x s s' e j = ap (find j) (sym (ap (λ (r : Rows × Done). r.0) e))
named_failed id name (some y) x s s' e j = cc

listed_law :
    (s : Rows) (known : List StoreFixture)
    → listing s.0 ≡ known
    → Distinct (by_id known) × ((id : ℕ) → lookup id (by_id known) ≡ find id s)
listed_law s known e =
    let p : by_id known ≡ s.0 = ap by_id (sym e) ∙ by_id-listing s.0 in
    (
      subst (λ (r : Dict ℕ Entry). Distinct r) (sym p) s.1,
      λ id. ap (λ (r : Dict ℕ Entry). lookup id r) p,
    )

creates_law :
    (given c : StoreFixture) (s s' : Rows)
    → record given { id = fresh s.0 } ≡ c
    → (memory.create_fixture given s).0 ≡ s'
    → (stored_entry c ≡ stored_entry given)
      × (find c.id s ≡ none)
      × ((id : ℕ) → find id s' ≡ (if c.id == id then some (stored_entry given) else find id s))
creates_law given c s s' q p =
    let new : find (fresh s.0) s ≡ none = lookup-fresh s.0 (fresh s.0) (omega arith) in
    let own : fresh s.0 ≡ c.id = ap (λ (f : StoreFixture). f.id) q in
    (
      ap stored_entry (sym q),
      subst (λ k. find k s ≡ none) own new,
      λ id.
          ap (find id) (sym p)
          ∙ lookup-insert (fresh s.0) id (stored_entry given) s.0
          ∙ ap (λ (k : ℕ). if k == id then some (stored_entry given) else find id s) own,
    )

pub memory_laws : StoreLaws memory find
memory_laws = record {
  listed = λ s known e. listed_law s known (ok-injective _ _ e);
  creates = λ given c s s' e.
      creates_law given c s s' (ok-injective _ _ (ap (λ (r : Rows × Result StoreFixture). r.1) e))
        (ap (λ (r : Rows × Result StoreFixture). r.0) e);
  creates_not = λ given x s s' e id. cc;
  deletes =
      λ id s s' e j. ap (find j) (sym (ap (λ (r : Rows × Done). r.0) e)) ∙ lookup-delete id j s.0;
  deletes_not = λ id x s s' e j. cc;
  names = λ id name s s' e. named_ok id name (lookup id s.0) s s' refl e;
  names_not = λ id name x s s' e. named_failed id name (lookup id s.0) x s s' e;
  refreshes = λ id j s. refl;
}
