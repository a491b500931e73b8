-- ===== src/LightSwitches/Calls/Updates.antt =====
-- The updates of light switches that are under way (lightswitch/manager.go).
use masc_server.Prelude.{
  ℕ, zero, suc, ◌≡◌, ◌≢◌, refl, sym, subst, Option, none, some, List, [], ◌∷◌, arith, nat_key,
  nat_same_iff, ◌==◌, if◌then◌else◌, All,
}
use masc_server.LightSwitches.{EditLightSwitch}

-- The updates that are under way: they have changed the store, and not yet the active light switch.
abbrev pub Updates : Type 0
Updates = List (ℕ × EditLightSwitch)

unfoldable pub at : ℕ → Updates → Option (ℕ × EditLightSwitch)
at k [] = none
at zero (u ∷ us) = some u
at (suc k) (u ∷ us) = at k us

unfoldable pub without : ℕ → Updates → Updates
without k [] = []
without zero (u ∷ us) = us
without (suc k) (u ∷ us) = u ∷ without k us

-- No update of a light switch is among the updates.
abbrev pub Free : ℕ → Updates → Type 0
Free id us = All (λ u. u.0 ≢ id) us

-- What an active light switch is to toggle once the updates under way have ended.
abbrev pub due : ℕ → Updates → List ℕ → List ℕ
due id [] assignments = assignments
due id ((j, payload) ∷ us) assignments =
    if j == id then payload.assignments else due id us assignments

-- The updates under way are of different light switches.
abbrev pub Unique : Updates → Type 0
Unique [] = Unit
Unique ((id, payload) ∷ us) = Free id us × Unique us

pub due-Free : (id : ℕ) (us : Updates) (a : List ℕ) → Free id us → due id us a ≡ a
due-Free id [] a h = refl
due-Free id ((j, payload) ∷ us) a h = ground (arith, due-Free id us a, nat_same_iff j id)

without-Free : (id k : ℕ) (us : Updates) → Free id us → Free id (without k us)
unfolding without
without-Free id k [] h = tt
without-Free id zero (u ∷ us) h = h.1
without-Free id (suc k) (u ∷ us) h = (h.0, without-Free id k us h.1)

pub without-Unique : (k : ℕ) (us : Updates) → Unique us → Unique (without k us)
unfolding without
without-Unique k [] h = tt
without-Unique zero (u ∷ us) h = h.1
without-Unique (suc k) (u ∷ us) h = (without-Free u.0 k us h.0, without-Unique k us h.1)

at-Free :
    (k i id : ℕ) (payload : EditLightSwitch) (us : Updates)
    → Free i us
    → at k us ≡ some (id, payload)
    → id ≢ i
unfolding at
at-Free k i id payload [] h e = cc
at-Free zero i id payload ((j, p) ∷ us) h e = λ q. h.0 (ground arith)
at-Free (suc k) i id payload (u ∷ us) h e = at-Free k i id payload us h.1 e

-- An update that ends is the only one of its light switch.
pub due-without :
    (k id j : ℕ) (payload : EditLightSwitch) (us : Updates) (a : List ℕ)
    → Unique us
    → at k us ≡ some (id, payload)
    → due j us a ≡ (if id == j then payload.assignments else due j (without k us) a)
unfolding at without
due-without k id j payload [] a h e = cc
due-without zero id j payload ((i, p) ∷ us) a h e = ground (arith, nat_same_iff i j)
due-without (suc k) id j payload ((i, p) ∷ us) a h e = ground (
  arith,
  due-without k id j payload us a h.1 e,
  at-Free k i id payload us h.0 e,
  nat_same_iff i j,
  nat_same_iff id j,
)

pub Free-without :
    (k id : ℕ) (payload : EditLightSwitch) (us : Updates)
    → Unique us
    → at k us ≡ some (id, payload)
    → Free id (without k us)
unfolding at without
Free-without k id payload [] h e = cc
Free-without zero id payload ((i, p) ∷ us) h e = subst (λ n. Free n us) (ground arith) h.0
Free-without (suc k) id payload ((i, p) ∷ us) h e =
    (λ q. at-Free k i id payload us h.0 e (sym q), Free-without k id payload us h.1 e)
