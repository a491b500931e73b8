-- ===== src/Acting/Subscriptions/Slots.antt =====
-- The slice of the subscriptions to one message type: how often a token stands in it, and what the
-- swap with the last entry removes.
use masc_server.Prelude.{
  ℕ, zero, suc, ◌+◌, ◌<◌, ◌≡◌, refl, ap, List, [], ◌∷◌, ◌++◌, none, some, arith, nat_key, ◌==◌,
  if◌then◌else◌, length,
}
use masc_server.Acting.Subscriptions.{
  Subscription, find_pos, write, last_of, drop_last, swap_remove,
}

abbrev pub one_if : ℕ → Subscription → ℕ
one_if k s = if s.token == k then 1 else 0

-- How often a token stands in a slice.
abbrev pub times : ℕ → List Subscription → ℕ
times k [] = 0
times k (s ∷ l) = one_if k s + times k l

pub times-append :
    (k : ℕ) (xs ys : List Subscription) → times k (xs ++ ys) ≡ times k xs + times k ys
times-append k [] ys = omega arith
times-append k (x ∷ xs) ys = omega (arith, times-append k xs ys)

times-drop_last :
    (k : ℕ) (s : Subscription) (l : List Subscription)
    → times k (drop_last (s ∷ l)) + one_if k (last_of s l) ≡ times k (s ∷ l)
unfolding drop_last last_of
times-drop_last k s [] = omega arith
times-drop_last k s (s' ∷ l) = omega (arith, times-drop_last k s' l)

-- What stands at a position.
at : Subscription → List Subscription → ℕ → Subscription
at s l zero = s
at s [] (suc i) = s
at s (s' ∷ l) (suc i) = at s' l i

times-write :
    (k : ℕ) (v s : Subscription) (l : List Subscription) (i : ℕ)
    → i < length (s ∷ l)
    → times k (write (s ∷ l) i v) + one_if k (at s l i) ≡ times k (s ∷ l) + one_if k v
unfolding write at
times-write k v s l zero h = omega arith
times-write k v s [] (suc i) h = absurd (omega arith)
times-write k v s (s' ∷ l) (suc i) h = omega (arith, times-write k v s' l i (omega arith))

last_of_self : (s : Subscription) (l : List Subscription) → last_of (last_of s l) l ≡ last_of s l
unfolding last_of
last_of_self s [] = refl
last_of_self s (s' ∷ l) = refl

last_of-write :
    (s : Subscription) (l : List Subscription) (i : ℕ)
    → last_of s (write l i (last_of s l)) ≡ last_of s l
unfolding last_of write
last_of-write s [] i = refl
last_of-write s (s' ∷ l) zero = last_of_self s' l
last_of-write s (s' ∷ l) (suc i) = last_of-write s' l i

find_pos-at :
    (k : ℕ) (s : Subscription) (l : List Subscription) (i : ℕ)
    → find_pos k (s ∷ l) ≡ some i
    → ((at s l i).token ≡ k) × (i < length (s ∷ l))
unfolding find_pos at
find_pos-at k s [] zero h = ground arith
find_pos-at k s [] (suc i) h = ground arith
find_pos-at k s (s' ∷ l) zero h = ground arith
find_pos-at k s (s' ∷ l) (suc i) h = ground (arith, find_pos-at k s' l i)

times-swap_write :
    (k : ℕ) (s : Subscription) (l : List Subscription) (pos : ℕ)
    → pos < length (s ∷ l)
    → times k (swap_remove pos (s ∷ l)) + one_if k (at s l pos) ≡ times k (s ∷ l)
unfolding swap_remove
times-swap_write k s l zero h = omega (
  arith,
  times-write k (last_of s l) s l zero h,
  times-drop_last k (last_of s l) l,
  ap (one_if k) (last_of_self s l),
)
times-swap_write k s l (suc i) h = omega (
  arith,
  times-write k (last_of s l) s l (suc i) h,
  times-drop_last k s (write l i (last_of s l)),
  ap (one_if k) (last_of-write s l i),
)

-- The swap takes the found token out once, and no other.
pub times-swap_remove :
    (k pos : ℕ) (l : List Subscription) (token : ℕ)
    → find_pos token l ≡ some pos
    → times k (swap_remove pos l) + (if token == k then 1 else 0) ≡ times k l
times-swap_remove k pos [] token h = unfold find_pos in cc
times-swap_remove k pos (s ∷ l) token h =
    let (here, within) = find_pos-at token s l pos h in
    omega (
      arith,
      times-swap_write k s l pos within,
      ap {B = ℕ} (λ (t : ℕ). if t == k then 1 else 0) here,
    )

pub find_pos-none : (k : ℕ) (l : List Subscription) → find_pos k l ≡ none → times k l ≡ 0
unfolding find_pos
find_pos-none k [] h = refl
find_pos-none k (s ∷ l) h = ground (arith, find_pos-none k l)
