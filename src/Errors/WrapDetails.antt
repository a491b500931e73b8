-- ===== src/Errors/WrapDetails.antt =====
-- The details of a wrapped error (`Wrap` in errors/errors.go).
use Prim.Native.String.{◌++◌ as concat, count}
use package.text.Mathlib.TextLemmas.{length-append}
use masc_server.Prelude.{
  String, ◌≡◌, refl, ap, ◌≢◌, ◌⊎◌, inl, inr, none, some, [], ◌∷◌, ◌++◌, Dict, lookup, insert,
  lookup-insert, string_key, All, arith, eq_iff, Option-cases,
}
use masc_server.Errors.{
  Value, masc, mk_error, error_details, Error, cast, wrap, merge_details, details_of,
}

prefix-ne : (k : String) → concat "_" k ≢ k
prefix-ne k e = omega (arith, ap count e, length-append "_" k)

prefix_twice-ne : (k : String) → concat "_" (concat "_" k) ≢ k
prefix_twice-ne k e =
    omega (arith, ap count e, length-append "_" k, length-append "_" (concat "_" k))

-- Neither the key itself nor the prefixed key of an entry is `k`.
abbrev pub Untouched : String → Dict String Value → Type 0
Untouched k ds = All (λ d. (d.0 ≢ k) × (concat "_" d.0 ≢ k)) ds

merge_details-append :
    (xs ys m : Dict String Value)
    → merge_details (xs ++ ys) m ≡ merge_details ys (merge_details xs m)
unfolding merge_details
merge_details-append [] ys m = refl
merge_details-append ((k, v) ∷ xs) ys m = merge_details-append xs ys _

lookup-merge_details :
    (j : String) (ds m : Dict String Value)
    → Untouched j ds
    → lookup j (merge_details ds m) ≡ lookup j m
unfolding merge_details
lookup-merge_details j [] m u = refl
lookup-merge_details j ((k, v) ∷ ds) m u = elim (Option-cases (lookup k m)) [
  | inl e ↦
      ground
        (arith, lookup-merge_details j ds (insert k v m) u.1, lookup-insert k j v m, eq_iff k j)
  | inr (old, e) ↦ ground (
    arith,
    lookup-merge_details j ds (insert k v (insert (concat "_" k) old m)) u.1,
    lookup-insert k j v (insert (concat "_" k) old m),
    lookup-insert (concat "_" k) j old m,
    eq_iff k j,
    eq_iff (concat "_" k) j,
  )
]

module _ (k : String) (v : Value) (post : Dict String Value) where
  merge_cons :
      (m : Dict String Value)
      → Untouched k post
      → Untouched (concat "_" k) post
      → let r = merge_details ((k, v) ∷ post) m in
        (lookup k r ≡ some v) × ((lookup k m ≡ none) ⊎ (lookup (concat "_" k) r ≡ lookup k m))
  unfolding merge_details
  merge_cons m u u' = elim (Option-cases (lookup k m)) [
    | inl e ↦
        ground
          (arith, lookup-merge_details k post (insert k v m) u, lookup-insert k k v m, eq_iff k k)
    | inr (old, e) ↦ ground (
      arith,
      prefix-ne k,
      lookup-merge_details k post (insert k v (insert (concat "_" k) old m)) u,
      lookup-merge_details (concat "_" k) post (insert k v (insert (concat "_" k) old m)) u',
      lookup-insert k k v (insert (concat "_" k) old m),
      lookup-insert k (concat "_" k) v (insert (concat "_" k) old m),
      lookup-insert (concat "_" k) (concat "_" k) old m,
      eq_iff k k,
      eq_iff k (concat "_" k),
      eq_iff (concat "_" k) (concat "_" k),
    )
  ]

  -- The entry `k ↦ v` that `Wrap` adds is found in the details of the wrapped error, and a value
  -- that the error had under `k` is found under the prefixed key, whatever else is added in
  -- the same call, if no other added key is `k`, or becomes `k` or the prefixed key of `k` by the
  -- prefix, or is the prefixed key and comes later.
  pub wrap_details-lookup :
      (e : Error) (message : String) (pre : Dict String Value)
      → Untouched k pre
      → Untouched k post
      → Untouched (concat "_" k) post
      → let r =
          details_of
            (error_details (cast (wrap (masc e) message (some (pre ++ (k, v) ∷ post)))).0) in
        (lookup k r ≡ some v)
        × ((lookup k (details_of (error_details e)) ≡ none)
            ⊎ (lookup (concat "_" k) r ≡ lookup k (details_of (error_details e))))
  unfolding wrap details_of
  wrap_details-lookup (mk_error c e m none) message pre p q q' =
      rw (merge_details-append pre ((k, v) ∷ post) [])
        (ground (arith, merge_cons (merge_details pre []) q q', lookup-merge_details k pre [] p))
  wrap_details-lookup (mk_error c e m (some d)) message pre p q q' =
      rw (merge_details-append pre ((k, v) ∷ post) d)
        (ground (arith, merge_cons (merge_details pre d) q q', lookup-merge_details k pre d p))

-- Where an error has a detail `k` and the added details hold `k` and its prefixed key, what the
-- prefixed key holds afterwards depends on the order in which the added ones are visited,
-- which Go leaves open: the added value in one order, and the error's own in the other.
pub merge_details_order :
    (k : String) (v u old : Value) (m : Dict String Value)
    → lookup k m ≡ some old
    → (lookup (concat "_" k) (merge_details ((k, v) ∷ (concat "_" k, u) ∷ []) m) ≡ some u)
      × (lookup (concat "_" k) (merge_details ((concat "_" k, u) ∷ (k, v) ∷ []) m) ≡ some old)
unfolding merge_details
merge_details_order k v u old m h = (
  (merge_cons (concat "_" k) u [] _ tt tt).0,
  ground (
    arith,
    merge_cons k v [] (merge_details ((concat "_" k, u) ∷ []) m) tt tt,
    lookup-merge_details k ((concat "_" k, u) ∷ []) m ((prefix-ne k, prefix_twice-ne k), tt),
  ),
)
