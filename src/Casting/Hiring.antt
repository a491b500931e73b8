-- ===== src/Casting/Hiring.antt =====
-- Hiring is all or nothing: either every winner is hired, or everybody is as before.
use masc_server.Prelude.{
  ℕ, String, ◌≡◌, ◌≢◌, ◌⊎◌, inl, inr, refl, Bool, true, false, ◌||◌, none, some, List, [], ◌∷◌,
  ◌++◌, arith, string_key, ◌==◌, eq_iff, if◌then◌else◌, All, All-append, All-mono, Bool-cases,
  Option-cases, length,
}
use masc_server.Errors.{GoError, nil, native, masc, mk_error, bad_request, Details, wrap}
use masc_server.Acting.Actors.{Actor, hire, fire, is_hired}
use masc_server.Acting.Actors.Contracts.{hire_lem}
use masc_server.Casting.{Casting, Stage, put, is_nil}
use masc_server.Casting.Hire.{
  failed_hire, fire_all_actors, undo_hires, hire_each, hire_winners, to_hire,
}

abbrev pub Hired : Stage → String → Type 0
Hired st id = is_hired (st.actor id) ≡ true

-- The actors of the pairs are pairwise distinct.
abbrev pub DistinctIds : List (String × String) → Type 0
DistinctIds [] = Unit
DistinctIds ((k, id) ∷ l) = All (λ p. id ≢ p.1) l × DistinctIds l

elem : String → List String → Bool
elem j [] = false
elem j (id ∷ l) = id == j || elem j l

module _ (id : String) (st : Stage) (h : (hire "" (st.actor id)).1 ≡ nil) where
  hire_ok :
      (is_hired (st.actor id) ≡ false)
      × ((j : String)
          → is_hired ((put id (hire "" (st.actor id)).0 st).actor j)
            ≡ (if id == j then true else is_hired (st.actor j)))
  unfolding put
  hire_ok =
      (ground (arith, hire_lem "" (st.actor id)), λ j. ground (arith, hire_lem "" (st.actor id)))

hire_failed :
    (id : String) (st : Stage)
    → (hire "" (st.actor id)).1 ≢ nil
    → (j : String)
    → is_hired ((put id (hire "" (st.actor id)).0 st).actor j) ≡ is_hired (st.actor j)
unfolding put is_hired
hire_failed id st h j = ground (arith, hire_lem "" (st.actor id), eq_iff id j)

pub nil_cases : (e : GoError) → (e ≡ nil) ⊎ ((e ≢ nil) × (is_nil e ≡ false))
nil_cases nil = inl refl
nil_cases (native s) = inr ((λ q. cc), refl)
nil_cases (masc e) = inr ((λ q. cc), refl)

undo_hires-ne_ok :
    (key : String) (hired : List String) (err : GoError) (st st' : Stage)
    → undo_hires key hired err st ≢ some (st', nil, nil)
unfolding undo_hires wrap
undo_hires-ne_ok key hired err st st' e = elim (Option-cases (fire_all_actors hired st)) [
  | inl f ↦ ground arith
  | inr ((st1, fe), f) ↦ ground (arith, nil_cases fe)
]

-- An error with the code of a bad request and without a cause.
abbrev pub IsBadRequest : GoError → Type 0
IsBadRequest err =
    (message : String) × (details : Details) × (err
      ≡ masc (mk_error bad_request nil message details))

pub IsBadRequest-ne_nil : (err : GoError) → IsBadRequest err → err ≢ nil
IsBadRequest-ne_nil err (message, details, e) q = cc

failed_hire-IsBadRequest :
    (key : String) (n : ℕ) (err : GoError) → IsBadRequest (failed_hire key n err)
unfolding failed_hire
failed_hire-IsBadRequest key n err = (_, _, refl)

-- If all hires succeed, nobody was hired before, everybody is hired afterwards, the actors are pairwise
-- distinct, and whoever else was hired still is.
abbrev pub AllHired : List (String × String) → Stage → Stage → Type 0
AllHired l st st' =
    All (λ p. Hired st' p.1) l
    × All (λ p. is_hired (st.actor p.1) ≡ false) l
    × DistinctIds l
    × ((j : String) → Hired st j → Hired st' j)

hire_each_ok :
    (l : List (String × String)) (hired : List String) (st st' : Stage)
    → hire_each l hired st ≡ some (st', nil, nil)
    → AllHired l st st'
unfolding hire_each
hire_each_ok [] hired st st' e = (tt, tt, tt, λ j h. ground arith)
hire_each_ok ((key, id) ∷ l) hired st st' e = elim (nil_cases (hire "" (st.actor id)).1) [
  | inr (bad, f) ↦ absurd (
      undo_hires-ne_ok key hired (hire "" (st.actor id)).1 (put id (hire "" (st.actor id)).0 st) st'
        (ground arith))
  | inl good ↦
      let (fresh, other) = hire_ok id st good in
      let (now, before, distinct, still) =
        hire_each_ok l (hired ++ id ∷ []) (put id (hire "" (st.actor id)).0 st) st'
          (ground arith) in
      (
        (still id (ground (arith, other id, eq_iff id id)), now),
        (fresh, All-mono (λ p h. ground (arith, other p.1, eq_iff id p.1)) l before),
        (All-mono (λ p h q. ground (arith, other p.1, eq_iff id p.1)) l before, distinct),
        λ j h. still j (ground (arith, other j)),
      )
]

abbrev pub HasManager : Stage → String → Type 0
HasManager st id = (st.actor id).subscriptions ≢ none

fire_ok :
    (a : Actor)
    → a.subscriptions ≢ none
    → (b : Actor) × (fire a ≡ some b) × (is_hired b ≡ false) × (b.subscriptions ≢ none)
unfolding fire is_hired
fire_ok a h = elim (Option-cases (fire a)) [
  | inl e ↦ absurd (ground arith)
  | inr (b, e) ↦ (b, e, ground arith, λ q. ground arith)
]

put-HasManager :
    (id : String) (a : Actor) (st : Stage)
    → a.subscriptions ≢ none
    → (j : String) → HasManager st j
    → HasManager (put id a st) j
unfolding put
put-HasManager id a st h j m q = ground (arith, Bool-cases (id == j))

put_hired :
    (id : String) (a : Actor) (st : Stage) (j : String)
    → is_hired ((put id a st).actor j) ≡ (if id == j then is_hired a else is_hired (st.actor j))
unfolding put
put_hired id a st j = ground arith

fire_all_actors_ok :
    (l : List String) (st : Stage)
    → All (HasManager st) l
    → (st' : Stage) × (fire_all_actors l st ≡ some (st', nil))
      × ((j : String)
          → is_hired (st'.actor j) ≡ (if elem j l then false else is_hired (st.actor j)))
unfolding fire_all_actors elem
fire_all_actors_ok [] st h = (st, refl, λ j. refl)
fire_all_actors_ok (id ∷ l) st h =
    let (b, e, idle, managed) = fire_ok (st.actor id) h.0 in
    let (st', f, g) =
      fire_all_actors_ok l (put id b st) (All-mono (put-HasManager id b st managed) l h.1) in
    (st', ground arith, λ j. ground (arith, g j, put_hired id b st j))

-- The actors in `hired` were not hired on the stage `st0` and are now; the others are as they were.
abbrev Tracks : List String → Stage → Stage → Type 0
Tracks hired st st0 =
    (j : String)
    → ((elem j hired ≡ true) × (is_hired (st0.actor j) ≡ false))
      ⊎ ((elem j hired ≡ false) × (is_hired (st.actor j) ≡ is_hired (st0.actor j)))

-- Nobody's contract differs between the two stages.
abbrev pub SameHired : Stage → Stage → Type 0
SameHired st st0 = (j : String) → is_hired (st.actor j) ≡ is_hired (st0.actor j)

undo_hires_ok :
    (key : String) (hired : List String) (err : GoError) (st st0 : Stage)
    → All (HasManager st) hired
    → Tracks hired st st0
    → (st' : Stage) × (bad : GoError) × (undo_hires key hired err st ≡ some (st', bad, nil))
      × IsBadRequest bad
      × SameHired st' st0
unfolding undo_hires
undo_hires_ok key hired err st st0 m t =
    let (st', f, g) = fire_all_actors_ok hired st m in
    (
      st',
      failed_hire key (length hired) err,
      ground arith,
      failed_hire-IsBadRequest key (length hired) err,
      λ j. ground (arith, g j, t j),
    )

elem-append : (j id : String) (l : List String) → elem j (l ++ id ∷ []) ≡ (elem j l || id == j)
unfolding elem
elem-append j id [] = ground arith
elem-append j id (x ∷ l) = ground (arith, elem-append j id l)

Tracks-hire :
    (id : String) (hired : List String) (st st0 : Stage)
    → (hire "" (st.actor id)).1 ≡ nil
    → Tracks hired st st0
    → Tracks (hired ++ id ∷ []) (put id (hire "" (st.actor id)).0 st) st0
Tracks-hire id hired st st0 good t j =
    let (fresh, other) = hire_ok id st good in
    ground (arith, t j, other j, elem-append j id hired, eq_iff id j)

hire_has_manager : (a : Actor) → (hire "" a).1 ≡ nil → (hire "" a).0.subscriptions ≢ none
unfolding hire
hire_has_manager a h q = ground arith

hire-HasManager :
    (id : String) (st : Stage) (j : String)
    → HasManager st j
    → HasManager (put id (hire "" (st.actor id)).0 st) j
unfolding put hire
hire-HasManager id st j m q = ground (arith, eq_iff id j)

hire-HasManager_self :
    (id : String) (st : Stage)
    → (hire "" (st.actor id)).1 ≡ nil
    → HasManager (put id (hire "" (st.actor id)).0 st) id
unfolding put
hire-HasManager_self id st good q =
    ground (arith, hire_has_manager (st.actor id) good, eq_iff id id)

-- One hire after the other ends without a panic and without an internal error: all succeed, or a
-- bad request is returned and nobody's contract differs from before.
hire_each_lem :
    (l : List (String × String)) (hired : List String) (st st0 : Stage)
    → All (HasManager st) hired
    → Tracks hired st st0
    → (st' : Stage) × (bad : GoError) × (hire_each l hired st ≡ some (st', bad, nil))
      × ((bad ≡ nil) ⊎ (IsBadRequest bad × SameHired st' st0))
unfolding hire_each
hire_each_lem [] hired st st0 m t = (st, nil, refl, inl refl)
hire_each_lem ((key, id) ∷ l) hired st st0 m t = elim (nil_cases (hire "" (st.actor id)).1) [
  | inl good ↦
      let (st', bad, e, r) =
        hire_each_lem l (hired ++ id ∷ []) (put id (hire "" (st.actor id)).0 st) st0
          (All-append (HasManager (put id (hire "" (st.actor id)).0 st)) hired (id ∷ [])
            (All-mono (hire-HasManager id st) hired m) (hire-HasManager_self id st good, tt))
          (Tracks-hire id hired st st0 good t) in
      (st', bad, ground arith, r)
  | inr (wrong, f) ↦
      let (st', bad, e, ne, same) =
        undo_hires_ok key hired (hire "" (st.actor id)).1 (put id (hire "" (st.actor id)).0 st) st0
          (All-mono (hire-HasManager id st) hired m)
          (λ j. ground (arith, t j, hire_failed id st wrong j)) in
      (st', bad, ground arith, inr (ne, same))
]

-- Hiring the winners ends without a panic and without an internal error. Either no error is
-- returned, every winner is hired who was not hired before, and no actor has won twice; or a bad
-- request is returned and the same actors are hired as before.
pub hire_winners_lem :
    (c : Casting) (st : Stage)
    → (st' : Stage) × (bad : GoError) × (hire_winners c st ≡ some (st', bad, nil))
      × ((bad ≡ nil) × AllHired (to_hire c.winners) st st' ⊎ IsBadRequest bad × SameHired st' st)
unfolding hire_winners elem
hire_winners_lem c st =
    let (st', bad, e, r) = hire_each_lem (to_hire c.winners) [] st st tt (λ j. inr (refl, refl)) in
    (
      st',
      bad,
      e,
      elim r [
        | inl ok ↦ inl (ok, hire_each_ok (to_hire c.winners) [] st st' (ground arith))
        | inr kept ↦ inr kept
      ],
    )
