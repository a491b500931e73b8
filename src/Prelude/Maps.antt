-- ===== src/Prelude/Maps.antt =====
-- Go's maps as association lists. A `range` over a map goes over the list; Go fixes no order, and
-- the theorems hold for every list.
use mathlib.Core.Path.{◌≡◌, refl}
use mathlib.Core.Option.{Option, none, some}
use mathlib.Core.List.{List, [], ◌∷◌}
use native.Mathlib.Omega.{arith}
use masc_server.Prelude.Tests.{Key, ◌==◌, if◌then◌else◌}

abbrev pub Dict {ℓ κ} : Type ℓ → Type κ → Type (ℓ ⊔ κ)
Dict K V = List (K × V)

module _ {ℓ κ} {K : Type ℓ} {V : Type κ} ⦃e : Key K⦄ where
  -- `v, ok := table[key]`; the first entry of a key counts.
  unfoldable pub lookup : K → Dict K V → Option V
  lookup key [] = none
  lookup key ((first, value) ∷ table) = if first == key then some value else lookup key table

  -- `table[key] = value`
  unfoldable pub insert : K → V → Dict K V → Dict K V
  insert key value [] = (key, value) ∷ []
  insert key value ((first, old) ∷ table) =
      let further = insert key value table in
      if first == key then (first, value) ∷ table else (first, old) ∷ further

  -- `delete(table, key)`
  unfoldable pub delete : K → Dict K V → Dict K V
  delete key [] = []
  delete key ((first, value) ∷ table) =
      let further = delete key table in if first == key then further else (first, value) ∷ further

  pub lookup-insert :
      (key other : K) (value : V) (table : Dict K V)
      → lookup other (insert key value table)
        ≡ (if key == other then some value else lookup other table)
  unfolding insert lookup
  lookup-insert key other value [] = refl
  lookup-insert key other value ((first, old) ∷ table) = ground (
    arith,
    lookup-insert key other value table,
    e.same_iff first key,
    e.same_iff first other,
    e.same_iff key other,
  )

  pub lookup-delete :
      (key other : K) (table : Dict K V)
      → lookup other (delete key table) ≡ (if key == other then none else lookup other table)
  unfolding delete lookup
  lookup-delete key other [] = ground arith
  lookup-delete key other ((first, old) ∷ table) = ground (
    arith,
    lookup-delete key other table,
    e.same_iff first key,
    e.same_iff first other,
    e.same_iff key other,
  )

  -- No key stands twice, as in every map of Go.
  abbrev pub Distinct : Dict K V → Type κ
  Distinct [] = Unit
  Distinct ((k, v) ∷ m) = (lookup k m ≡ none) × Distinct m

  pub insert-Distinct : (k : K) (v : V) (m : Dict K V) → Distinct m → Distinct (insert k v m)
  unfolding insert lookup
  insert-Distinct k v [] d = (refl, tt)
  insert-Distinct k v ((i, w) ∷ m) d =
      ground (arith, e.same_iff i k, e.same_iff k i, insert-Distinct k v m, lookup-insert k i v m)

  pub delete-Distinct : (k : K) (m : Dict K V) → Distinct m → Distinct (delete k m)
  unfolding delete lookup
  delete-Distinct k [] d = tt
  delete-Distinct k ((i, w) ∷ m) d =
      ground (arith, e.same_iff i k, e.same_iff k i, delete-Distinct k m, lookup-delete k i m)
