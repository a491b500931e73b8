-- ===== src/Games/Ready/Ends.antt =====
-- That the wait for the ready-states ends (games/ready.go).
use masc_server.Prelude.{
  String, Bool, true, false, Option, none, some, List, [], ◌∷◌, ◌++◌, Dict, Distinct, insert,
  insert-Distinct, lookup, lookup-insert, string_key, eq_iff, arith, ◌≡◌, ◌≢◌, ◌⊎◌, inl, inr, refl,
  ap, ◌∙◌, sym, subst, All, All-append, Any, Bool-cases, Option-cases, ◌==◌, if◌then◌else◌,
}
use masc_server.Errors.{GoError, nil}
use masc_server.Games.Ready.{
  ReadyAwaiter, not_ready, new_ready_awaiter, everybody, published, handle_ready_state_update,
  handle_error, Step, answers, notifies, fails, step, run, returned, await, request_and_await_ready,
}
use masc_server.Games.Ready.Everybody.{Kept, new-Kept, run-Kept}

-- A step of an actor that was asked, and that was reached.
abbrev pub Harmless : List String → Step → Type 0
Harmless actors (answers x b) = Any (λ a. a ≡ x) actors
Harmless actors notifies = Unit
Harmless actors (fails err) = ⊥

-- No error has occurred, and only actors that were asked have a ready-state.
record Calm (actors : List String) (ra : ReadyAwaiter) : Type 0 where
  no_error : ra.original_err ≡ nil
  unique : Distinct ra.ready_states
  asked : (x : String) → lookup x ra.ready_states ≢ none → Any (λ a. a ≡ x) actors

published-Calm :
    (actors : List String) (name : String → String) (ra : ReadyAwaiter)
    → Calm actors ra
    → Calm actors (handle_ready_state_update name ra)
unfolding handle_ready_state_update published
published-Calm actors name ra c = elim (Bool-cases ra.is_accepting) [
  | inr off ↦ simp (off, handle_ready_state_update) c
  | inl on ↦ elim (Bool-cases (everybody ra.ready_states)) [
    | inl all ↦
        simp (on, all, handle_ready_state_update, published)
          (record { no_error = c.no_error; unique = c.unique; asked = c.asked })
    | inr some_not ↦
        simp (on, some_not, handle_ready_state_update, published)
          (record { no_error = c.no_error; unique = c.unique; asked = c.asked })
  ]
]

step-Calm :
    (actors : List String) (name : String → String) (s : Step) (ra : ReadyAwaiter)
    → Harmless actors s
    → Calm actors ra
    → Calm actors (step name s ra)
unfolding step
step-Calm actors name (answers x b) ra h c = record {
  no_error = c.no_error;
  unique = insert-Distinct x b ra.ready_states c.unique;
  asked = λ y q. elim (Bool-cases (string_key.same x y)) [
    | inl same ↦ subst (λ z. Any (λ a. a ≡ z) actors) ((eq_iff x y).0 same) h
    | inr other ↦ c.asked y (λ e. ground (arith, lookup-insert x y b ra.ready_states))
  ];
}
step-Calm actors name notifies ra h c = published-Calm actors name ra c
step-Calm actors name (fails err) ra h c = absurd h

run-Calm :
    (actors : List String) (name : String → String) (steps : List Step) (ra : ReadyAwaiter)
    → All (Harmless actors) steps
    → Calm actors ra
    → Calm actors (run name steps ra)
unfolding run
run-Calm actors name [] ra h c = c
run-Calm actors name (s ∷ steps) ra h c =
    run-Calm actors name steps (step name s ra) h.1 (step-Calm actors name s ra h.0 c)

-- What an actor has answered last, if it has answered.
abbrev pub last_answer : String → List Step → Option Bool
last_answer x [] = none
last_answer x (answers a is_ready ∷ steps) =
    let this = if a == x then some is_ready else none in
    elim (last_answer x steps) [ none ↦ this | some later ↦ some later ]
last_answer x (notifies ∷ steps) = last_answer x steps
last_answer x (fails err ∷ steps) = last_answer x steps

abbrev or_else : Option Bool → Option Bool → Option Bool
or_else none b = b
or_else (some a) b = some a

notified-states :
    (name : String → String) (ra : ReadyAwaiter)
    → (handle_ready_state_update name ra).ready_states ≡ ra.ready_states
unfolding handle_ready_state_update published
notified-states name ra = ground (arith, Bool-cases (everybody ra.ready_states))

failed-states :
    (err : GoError) (ra : ReadyAwaiter) → (handle_error err ra).ready_states ≡ ra.ready_states
unfolding handle_error
failed-states err ra = ground arith

lookup-run :
    (name : String → String) (x : String) (steps : List Step) (ra : ReadyAwaiter)
    → lookup x (run name steps ra).ready_states
      ≡ or_else (last_answer x steps) (lookup x ra.ready_states)
unfolding run step
lookup-run name x [] ra = refl
lookup-run name x (answers a b ∷ steps) ra = ground (
  arith,
  lookup-run name x steps (step name (answers a b) ra),
  lookup-insert a x b ra.ready_states,
  Option-cases (last_answer x steps),
)
lookup-run name x (notifies ∷ steps) ra =
    lookup-run name x steps (handle_ready_state_update name ra)
    ∙ ap (λ d. or_else (last_answer x steps) (lookup x d)) (notified-states name ra)
lookup-run name x (fails err ∷ steps) ra =
    lookup-run name x steps (step name (fails err) ra)
    ∙ ap (λ d. or_else (last_answer x steps) (lookup x d)) (failed-states _ ra)

run-append :
    (name : String → String) (s t : List Step) (ra : ReadyAwaiter)
    → run name (s ++ t) ra ≡ run name t (run name s ra)
unfolding run
run-append name [] t ra = refl
run-append name (x ∷ s) t ra = run-append name s t (step name x ra)

-- Nobody is not ready.
abbrev NoneWaits : Dict String Bool → Type 0
NoneWaits d = (x : String) → lookup x d ≢ some false

All-Any :
    (P : String → Type 0) (x : String) (actors : List String)
    → Any (λ a. a ≡ x) actors
    → All P actors
    → P x
All-Any P x [] m h = absurd m
All-Any P x (a ∷ actors) (inl e) h = subst P e h.0
All-Any P x (a ∷ actors) (inr m) h = All-Any P x actors m h.1

everybody-NoneWaits : (d : Dict String Bool) → Distinct d → NoneWaits d → everybody d ≡ true
unfolding everybody lookup
everybody-NoneWaits [] u h = refl
everybody-NoneWaits ((a, false) ∷ d) u h = absurd (h a (ground (arith, eq_iff a a)))
everybody-NoneWaits ((a, true) ∷ d) u h =
    everybody-NoneWaits d u.1 (λ x e. h x (ground (arith, eq_iff a x)))

-- The answers of the actors that were asked, of whom the last of each is that it is ready.
run-everybody :
    (name : String → String) (actors : List String) (steps : List Step)
    → Calm actors (run name steps (new_ready_awaiter actors))
    → All (λ x. last_answer x steps ≡ some true) actors
    → everybody (run name steps (new_ready_awaiter actors)).ready_states ≡ true
run-everybody name actors steps c last =
    everybody-NoneWaits (run name steps (new_ready_awaiter actors)).ready_states c.unique (λ x e.
      let one : last_answer x steps ≡ some true =
        All-Any (λ y. last_answer y steps ≡ some true) x actors (c.asked x (λ q. ground arith))
          last in
      ground (arith, lookup-run name x steps (new_ready_awaiter actors)))

-- A notification when everybody is ready ends the acceptance of updates, if that had not ended.
notified :
    (name : String → String) (ra : ReadyAwaiter)
    → everybody ra.ready_states ≡ true
    → ((handle_ready_state_update name ra).is_accepting ≡ false)
      × ((handle_ready_state_update name ra).original_err ≡ ra.original_err)
unfolding handle_ready_state_update published
notified name ra e = elim (Bool-cases ra.is_accepting) [
  | inr off ↦ simp (off, handle_ready_state_update) (refl, refl)
  | inl on ↦ simp (on, e, handle_ready_state_update, published) (refl, refl)
]

await-ended :
    (actors : List String) (ra : ReadyAwaiter)
    → Kept actors ra
    → ra.is_accepting ≡ false
    → ra.original_err ≡ nil
    → await false ra ≡ returned nil
unfolding await
await-ended actors ra k off no_error = elim k.phase [
  | inl (on, _, _, _) ↦ absurd (ground arith)
  | inr (_, one, _) ↦ simp (one, no_error, await)
]

not_ready-Distinct :
    (actors : List String) (d : Dict String Bool) → Distinct d → Distinct (not_ready actors d)
unfolding not_ready
not_ready-Distinct [] d u = u
not_ready-Distinct (a ∷ actors) d u =
    not_ready-Distinct actors (insert a false d) (insert-Distinct a false d u)

not_ready-asked :
    (x : String) (actors : List String) (d : Dict String Bool)
    → lookup x (not_ready actors d) ≢ none
    → (lookup x d ≢ none) ⊎ Any (λ a. a ≡ x) actors
unfolding not_ready
not_ready-asked x [] d h = inl h
not_ready-asked x (a ∷ actors) d h = elim (not_ready-asked x actors (insert a false d) h) [
  | inr m ↦ inr (inr m)
  | inl k ↦ elim (Bool-cases (string_key.same a x)) [
    | inl same ↦ inr (inl ((eq_iff a x).0 same))
    | inr other ↦ inl (λ e. k (ground (arith, lookup-insert a x false d)))
  ]
]

new-Calm : (actors : List String) → Calm actors (new_ready_awaiter actors)
unfolding new_ready_awaiter lookup
new-Calm actors = record {
  no_error = refl;
  unique = not_ready-Distinct actors [] tt;
  asked = λ x q. elim (not_ready-asked x actors [] q) [ inl k ↦ absurd (k refl) | inr m ↦ m ];
}

-- Once no updates are accepted, none are.
step-off :
    (name : String → String) (s : Step) (ra : ReadyAwaiter)
    → ra.is_accepting ≡ false
    → (step name s ra).is_accepting ≡ false
unfolding step handle_ready_state_update handle_error
step-off name (answers a b) ra off = off
step-off name notifies ra off = ground arith
step-off name (fails err) ra off = ground arith

run-off :
    (name : String → String) (steps : List Step) (ra : ReadyAwaiter)
    → ra.is_accepting ≡ false
    → (run name steps ra).is_accepting ≡ false
unfolding run
run-off name [] ra off = off
run-off name (s ∷ steps) ra off = run-off name steps (step name s ra) (step-off name s ra off)

ends :
    (actors : List String) (name : String → String) (steps later : List Step)
    → All (Harmless actors) steps
    → All (Harmless actors) later
    → All (λ x. last_answer x steps ≡ some true) actors
    → await false (run name (steps ++ notifies ∷ later) (new_ready_awaiter actors)) ≡ returned nil
unfolding run step
ends actors name steps later h k last =
    let start = new_ready_awaiter actors in
    let all =
      run-everybody name actors steps (run-Calm actors name steps start h (new-Calm actors)) last in
    let told = handle_ready_state_update name (run name steps start) in
    let c =
      run-Calm actors name (steps ++ notifies ∷ later) start
        (All-append (Harmless actors) steps (notifies ∷ later) h (tt, k)) (new-Calm actors) in
    await-ended actors (run name (steps ++ notifies ∷ later) start)
      (run-Kept actors name (steps ++ notifies ∷ later) start (new-Kept actors))
      (subst (λ ra. ra.is_accepting ≡ false) (sym (run-append name steps (notifies ∷ later) start))
        (run-off name later told (notified name (run name steps start) all).0))
      c.no_error

-- Where the context does not end, some actors are asked, all are reached, and only they answer, in any
-- order: once the last answer of each is that it is ready, and the awaiter is told of an answer
-- after that, the wait ends without an error, whatever answers and notifications came before, in
-- between and come afterwards.
pub request_and_await_ready-ends :
    (name : String → String) (steps later : List Step) (a : String) (actors : List String)
    → All (Harmless (a ∷ actors)) steps
    → All (Harmless (a ∷ actors)) later
    → All (λ x. last_answer x steps ≡ some true) (a ∷ actors)
    → (request_and_await_ready name false (steps ++ notifies ∷ later) (a ∷ actors)).1 ≡ returned nil
unfolding request_and_await_ready
request_and_await_ready-ends name steps later a actors h k last =
    ends (a ∷ actors) name steps later h k last
