-- ===== src/Acting/Subscriptions/Coherence.antt =====
-- The two indexes of the subscription manager agree, and every operation keeps them so.
use masc_server.Prelude.{
  ℕ, suc, ◌<◌, String, ◌≡◌, refl, ◌⊎◌, ◌↔◌, inl, inr, ◌≢◌, List, [], ◌∷◌, ◌++◌, Option, none, some,
  arith, nat_key, string_key, ◌==◌, if◌then◌else◌, Distinct, insert-Distinct, delete-Distinct,
  lookup, lookup-insert, lookup-delete, Option-cases, eq_iff,
}
use masc_server.Errors.{nil}
use masc_server.Acting.Subscriptions.Slots.{times, times-append, times-swap_remove, find_pos-none}
use masc_server.Acting.Subscriptions.{
  Subscription, SubscriptionManager, new_subscription_manager, or_empty, subs_of, subscribe,
  find_pos, swap_remove, remove_found, unsubscribe,
}

-- How often a token is to stand in the slice of a message type.
abbrev pub expected : String → Option Subscription → ℕ
expected t none = 0
expected t (some s) = if s.message_type == t then 1 else 0

-- A token stands once in the slice of its subscription's message type and in no other slice, the
-- tokens above the counter are free, and each subscription is filed under its own token.
pub record Coherent (m : SubscriptionManager) : Type 0 where
  pub counted : (t : String) (k : ℕ) → times k (subs_of t m) ≡ expected t (lookup k m.by_token)
  pub fresh : (k : ℕ) → m.counter < k → lookup k m.by_token ≡ none
  pub own : (k : ℕ) (s : Subscription) → lookup k m.by_token ≡ some s → s.token ≡ k
  pub unique : Distinct m.by_token

-- A new manager's indexes agree.
pub new-Coherent : Coherent new_subscription_manager
unfolding new_subscription_manager subs_of lookup
new-Coherent = record { counted = λ t k. refl; fresh = λ k h. refl; own = λ k s h. cc; unique = tt }

-- Subscribing keeps the indexes in agreement, and the new token was free.
pub subscribe-Coherent :
    (t : String) (m : SubscriptionManager)
    → Coherent m
    → Coherent (subscribe t m).0 × (lookup (subscribe t m).1.token m.by_token ≡ none)
unfolding subscribe subs_of
subscribe-Coherent t m h = (
  record {
    counted = λ t' k. ground (
      arith,
      lookup-insert t t' (or_empty (lookup t m.by_type) ++ sub ∷ []) m.by_type,
      lookup-insert (suc m.counter) k sub m.by_token,
      times-append k (or_empty (lookup t m.by_type)) (sub ∷ []),
      h.counted t' k,
      h.fresh (suc m.counter),
      eq_iff t t',
    );
    fresh = λ k lt. ground (arith, lookup-insert (suc m.counter) k sub m.by_token, h.fresh k);
    own = λ k s e. ground (arith, lookup-insert (suc m.counter) k sub m.by_token, h.own k s);
    unique = insert-Distinct (suc m.counter) sub m.by_token h.unique;
  },
  h.fresh (suc m.counter) (omega arith),
)
  where
    sub : Subscription
    sub = record { message_type = t; token = suc m.counter }

-- The subscription's token is filed, for its message type.
abbrev pub Registered : Subscription → SubscriptionManager → Type 0
Registered sub m =
    (s : Subscription) × (lookup sub.token m.by_token ≡ some s)
    × (s.message_type ≡ sub.message_type)

module _ (sub : Subscription) (m : SubscriptionManager) (h : Coherent m) where
  -- A subscription that is filed is found in the slice of its type and removed; for any other an
  -- error is returned and the indexes stay as they were.
  pub unsubscribe_cases :
      (Registered sub m
        × (l : List Subscription) × (pos : ℕ) × (lookup sub.message_type m.by_type ≡ some l)
        × (find_pos sub.token l ≡ some pos)
        × (unsubscribe sub m ≡ (remove_found sub l pos (record m { ended = sub ∷ m.ended }), nil)))
      ⊎ ((¬ Registered sub m)
          × ((unsubscribe sub m).0 ≡ record m { ended = sub ∷ m.ended })
          × ((unsubscribe sub m).1 ≢ nil))
  unfolding unsubscribe subs_of
  unsubscribe_cases = elim (Option-cases (lookup sub.token m.by_token)) [
    | inl e ↦ inr (λ r. cc, rw (e, unsubscribe), rw (e, unsubscribe) (λ q. cc))
    | inr (s, e) ↦ elim (Option-cases (lookup sub.message_type m.by_type)) [
      | inl f ↦ inr (
        λ r.
            ground
              (arith, h.counted sub.message_type sub.token, eq_iff s.message_type sub.message_type),
        ground arith,
        λ q. ground arith,
      )
      | inr (l, f) ↦ elim (Option-cases (find_pos sub.token l)) [
        | inl g ↦ inr (
          λ r. ground (
            arith,
            h.counted sub.message_type sub.token,
            find_pos-none sub.token l g,
            eq_iff s.message_type sub.message_type,
          ),
          ground arith,
          λ q. ground arith,
        )
        | inr (pos, g) ↦ inl (
          (
            s,
            e,
            ground (
              arith,
              h.counted sub.message_type sub.token,
              times-swap_remove sub.token pos l sub.token g,
              eq_iff s.message_type sub.message_type,
            ),
          ),
          l,
          pos,
          f,
          g,
          ground arith,
        )
      ]
    ]
  ]

  -- Unsubscribing keeps the indexes in agreement, also when it returns an error.
  pub unsubscribe-Coherent : Coherent (unsubscribe sub m).0
  unfolding remove_found subs_of
  unsubscribe-Coherent = elim unsubscribe_cases [
    | inl ((s, found, same), l, pos, f, g, e) ↦ rw e (record {
      counted = λ t k. ground (
        arith,
        lookup-insert sub.message_type t (swap_remove pos l) m.by_type,
        lookup-delete sub.token k m.by_token,
        times-swap_remove k pos l sub.token g,
        h.counted t k,
        eq_iff s.message_type t,
        eq_iff sub.message_type t,
      );
      fresh = λ k lt. ground (arith, lookup-delete sub.token k m.by_token, h.fresh k);
      own = λ k s' q. ground (arith, lookup-delete sub.token k m.by_token, h.own k s');
      unique = delete-Distinct sub.token m.by_token h.unique;
    })
    | inr (_, e, _) ↦
        rw e (record { counted = h.counted; fresh = h.fresh; own = h.own; unique = h.unique })
  ]

  -- Where the two indexes of the manager agree, unsubscribing succeeds exactly for a subscription whose
  -- token is filed under its message type.
  pub unsubscribe_ok_iff : ((unsubscribe sub m).1 ≡ nil) ↔ Registered sub m
  unsubscribe_ok_iff = (
    (λ ok. elim unsubscribe_cases [
      | inl (r, _, _, _, _, _) ↦ r
      | inr (_, _, bad) ↦ absurd (bad ok)
    ]),
    λ r. elim unsubscribe_cases [
      | inl (_, l, pos, f, g, e) ↦ rw e
      | inr (no_entry, _, _) ↦ absurd (no_entry r)
    ],
  )

  -- It frees the subscription's token, if that is filed, and no other.
  pub lookup-unsubscribe :
      (k : ℕ)
      → lookup k (unsubscribe sub m).0.by_token ≡ lookup k m.by_token
        ⊎ (lookup k (unsubscribe sub m).0.by_token ≡ none) × (sub.token ≡ k)
  unfolding remove_found
  lookup-unsubscribe k = elim unsubscribe_cases [
    | inl (_, l, pos, f, g, e) ↦ rw e (ground (arith, lookup-delete sub.token k m.by_token))
    | inr (_, e, _) ↦ inl (rw e)
  ]

  pub lookup-unsubscribe_self :
      Registered sub m → lookup sub.token (unsubscribe sub m).0.by_token ≡ none
  unfolding remove_found
  lookup-unsubscribe_self r = elim unsubscribe_cases [
    | inl (_, l, pos, f, g, e) ↦ rw e (ground (arith, lookup-delete sub.token sub.token m.by_token))
    | inr (no_entry, _, _) ↦ absurd (no_entry r)
  ]
