-- ===== src/Games/Ready/Everybody.antt =====
-- When the wait for the ready-states ends (games/ready.go).
use masc_server.Prelude.{
  suc, String, Bool, true, false, ◌&&◌, none, List, [], ◌∷◌, Dict, insert, lookup, lookup-insert,
  string_key, nat_key, eq_iff, arith, ◌≡◌, ◌≢◌, ◌⊎◌, inl, inr, refl, ap, All, Any, All-mono,
  Bool-cases,
}
use masc_server.Errors.{GoError, nil, native, masc, wrap}
use masc_server.Casting.{is_nil}
use masc_server.Games.Ready.{
  ReadyStateUpdate, ReadyAwaiter, not_ready, new_ready_awaiter, everybody, states_of, published,
  handle_ready_state_update, handle_error, Step, answers, notifies, fails, step, run, Wait, waiting,
  returned, await, request_and_await_ready,
}

-- The update says that everybody is ready, and so do the states that it lists, which are those of
-- the actors.
abbrev pub Ready : List String → ReadyStateUpdate → Type 0
Ready actors u =
    (u.is_everybody_ready ≡ true)
    × All (λ s. s.is_ready ≡ true) u.actor_states
    × All (λ a. Any (λ s. s.actor ≡ a) u.actor_states) actors

abbrev pub NotReady : ReadyStateUpdate → Type 0
NotReady u = u.is_everybody_ready ≡ false

-- The last of the updates tells that everybody is ready, and no other one does.
abbrev pub LastReady : List String → List ReadyStateUpdate → Type 0
LastReady actors [] = ⊥
LastReady actors (u ∷ l) = Ready actors u × All NotReady l

-- Each actor has a ready-state. While updates are accepted nobody was told that everybody is ready
-- and no error has occurred; afterwards one signal was sent, for one of the two.
pub record Kept (actors : List String) (ra : ReadyAwaiter) : Type 0 where
  pub listed : All (λ a. lookup a ra.ready_states ≢ none) actors
  pub phase :
      ((ra.is_accepting ≡ true)
        × (ra.signals ≡ 0)
        × (ra.original_err ≡ nil)
        × All NotReady ra.ready_state_updates)
      ⊎ ((ra.is_accepting ≡ false)
          × (ra.signals ≡ 1)
          × (((ra.original_err ≡ nil) × LastReady actors ra.ready_state_updates)
              ⊎ ((ra.original_err ≢ nil) × All NotReady ra.ready_state_updates)))

states_of-everybody :
    (name : String → String) (d : Dict String Bool)
    → everybody d ≡ true
    → All (λ s. s.is_ready ≡ true) (states_of name d)
unfolding everybody states_of
states_of-everybody name [] e = tt
states_of-everybody name ((a, b) ∷ d) e = ground (arith, states_of-everybody name d)

states_of-lookup :
    (name : String → String) (a : String) (d : Dict String Bool)
    → lookup a d ≢ none
    → Any (λ s. s.actor ≡ a) (states_of name d)
unfolding states_of lookup
states_of-lookup name a [] h = absurd (h refl)
states_of-lookup name a ((x, b) ∷ d) h = ground (arith, states_of-lookup name a d, eq_iff x a)

insert-listed :
    (a x : String) (b : Bool) (d : Dict String Bool)
    → lookup a d ≢ none
    → lookup a (insert x b d) ≢ none
insert-listed a x b d h q = ground (arith, lookup-insert x a b d)

wrap-ne-nil : (err : GoError) (context : String) → wrap err context none ≢ nil
unfolding wrap
wrap-ne-nil nil context q = cc
wrap-ne-nil (native s) context q = cc
wrap-ne-nil (masc e) context q = cc

answers-Kept :
    (actors : List String) (name : String → String) (a : String) (b : Bool) (ra : ReadyAwaiter)
    → Kept actors ra
    → Kept actors (step name (answers a b) ra)
unfolding step
answers-Kept actors name a b ra k = record {
  listed = All-mono (λ x. insert-listed x a b ra.ready_states) actors k.listed;
  phase = k.phase;
}

accepting-Kept :
    (actors : List String) (ra : ReadyAwaiter)
    → Kept actors ra
    → ra.is_accepting ≡ true
    → (ra.signals ≡ 0) × (ra.original_err ≡ nil) × All NotReady ra.ready_state_updates
accepting-Kept actors ra k on = elim k.phase [
  | inl (_, z, e, n) ↦ (z, e, n)
  | inr (off, _, _) ↦ absurd (ground arith)
]

published-Kept :
    (actors : List String) (name : String → String) (b : Bool) (ra : ReadyAwaiter)
    → everybody ra.ready_states ≡ b
    → Kept actors ra
    → ra.is_accepting ≡ true
    → Kept actors (
        published b
          (record { is_everybody_ready = b; actor_states = states_of name ra.ready_states })
          ra)
unfolding published
published-Kept actors name true ra e k on =
    let (z, no_err, n) = accepting-Kept actors ra k on in
    record {
      listed = k.listed;
      phase = inr (
        refl,
        ap suc z,
        inl (
          no_err,
          (
            (
              refl,
              states_of-everybody name ra.ready_states e,
              All-mono (λ a. states_of-lookup name a ra.ready_states) actors k.listed,
            ),
            n,
          ),
        ),
      );
    }
published-Kept actors name false ra e k on =
    let (z, no_err, n) = accepting-Kept actors ra k on in
    record { listed = k.listed; phase = inl (on, z, no_err, (refl, n)) }

notifies-Kept :
    (actors : List String) (name : String → String) (ra : ReadyAwaiter)
    → Kept actors ra
    → Kept actors (handle_ready_state_update name ra)
unfolding handle_ready_state_update
notifies-Kept actors name ra k = elim (Bool-cases ra.is_accepting) [
  | inl on ↦
      simp (on, handle_ready_state_update)
        (published-Kept actors name (everybody ra.ready_states) ra refl k on)
  | inr off ↦ simp (off, handle_ready_state_update) k
]

fails-Kept :
    (actors : List String) (err : GoError) (ra : ReadyAwaiter)
    → err ≢ nil
    → Kept actors ra
    → Kept actors (handle_error err ra)
unfolding handle_error
fails-Kept actors err ra ne k = elim (Bool-cases (ra.is_accepting && is_nil ra.original_err)) [
  | inl on ↦
      let (z, no_err, n) = accepting-Kept actors ra k (ground arith) in
      simp (on, handle_error)
        (record { listed = k.listed; phase = inr (refl, ap suc z, inr (ne, n)) })
  | inr off ↦ simp (off, handle_error) k
]

step-Kept :
    (actors : List String) (name : String → String) (s : Step) (ra : ReadyAwaiter)
    → Kept actors ra
    → Kept actors (step name s ra)
unfolding step
step-Kept actors name (answers a b) ra k = answers-Kept actors name a b ra k
step-Kept actors name notifies ra k = notifies-Kept actors name ra k
step-Kept actors name (fails err) ra k = fails-Kept actors _ ra (wrap-ne-nil err _) k

pub run-Kept :
    (actors : List String) (name : String → String) (steps : List Step) (ra : ReadyAwaiter)
    → Kept actors ra
    → Kept actors (run name steps ra)
unfolding run
run-Kept actors name [] ra k = k
run-Kept actors name (s ∷ steps) ra k =
    run-Kept actors name steps (step name s ra) (step-Kept actors name s ra k)

not_ready-kept :
    (a : String) (actors : List String) (d : Dict String Bool)
    → lookup a d ≢ none
    → lookup a (not_ready actors d) ≢ none
unfolding not_ready
not_ready-kept a [] d h = h
not_ready-kept a (x ∷ actors) d h =
    not_ready-kept a actors (insert x false d) (insert-listed a x false d h)

not_ready-listed :
    (actors : List String) (d : Dict String Bool)
    → All (λ a. lookup a (not_ready actors d) ≢ none) actors
unfolding not_ready
not_ready-listed [] d = tt
not_ready-listed (a ∷ actors) d = (
  not_ready-kept a actors (insert a false d)
      (λ q. ground (arith, lookup-insert a a false d, eq_iff a a)),
  not_ready-listed actors (insert a false d),
)

pub new-Kept : (actors : List String) → Kept actors (new_ready_awaiter actors)
unfolding new_ready_awaiter
new-Kept actors = record { listed = not_ready-listed actors []; phase = inl (refl, refl, refl, tt) }

-- What the updates and the result of the wait say, by the result.
abbrev pub Told : List String → List ReadyStateUpdate → Wait → Type 0
Told actors l waiting = All NotReady l
Told actors l (returned nil) = LastReady actors l
Told actors l (returned (native s)) = All NotReady l
Told actors l (returned (masc e)) = All NotReady l

returned-Told :
    (actors : List String) (l : List ReadyStateUpdate) (err : GoError)
    → ((err ≡ nil) × LastReady actors l) ⊎ ((err ≢ nil) × All NotReady l)
    → Told actors l (returned err)
returned-Told actors l nil (inl (_, r)) = r
returned-Told actors l nil (inr (ne, _)) = absurd (ne refl)
returned-Told actors l (native s) (inl (e, _)) = absurd cc
returned-Told actors l (native s) (inr (_, n)) = n
returned-Told actors l (masc x) (inl (e, _)) = absurd cc
returned-Told actors l (masc x) (inr (_, n)) = n

await-Told :
    (actors : List String) (ra : ReadyAwaiter)
    → Kept actors ra
    → Told actors ra.ready_state_updates (await false ra)
unfolding await
await-Told actors ra k = elim k.phase [
  | inl (_, z, _, n) ↦ simp (z, await) n
  | inr (_, one, r) ↦
      simp (one, await) (returned-Told actors ra.ready_state_updates ra.original_err r)
]

-- Where the context does not end, some actors are asked and whatever the order of their steps: as long
-- as the wait goes on, and if it ends with an error, no update has said that everybody is ready; if
-- it ends without an error, the last update and no other one has said so, it lists only states that
-- are ready, and each actor that was asked is among them.
pub request_and_await_ready-Told :
    (name : String → String) (steps : List Step) (a : String) (actors : List String)
    → let (updates, wait) = request_and_await_ready name false steps (a ∷ actors) in
      Told (a ∷ actors) updates wait
unfolding request_and_await_ready
request_and_await_ready-Told name steps a actors =
    await-Told (a ∷ actors) _ (run-Kept (a ∷ actors) name steps _ (new-Kept (a ∷ actors)))
