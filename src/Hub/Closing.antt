-- ===== src/Hub/Closing.antt =====
-- How often the hub closes the channel of a client (ws/hub.go); a second close would panic.
use masc_server.Prelude.{
  ℕ, ◌+◌, ◌≤◌, ◌≡◌, refl, Bool, false, none, some, inl, inr, Option-cases, List, [], ◌∷◌, passing,
  lookup, lookup-insert, lookup-delete, nat_key, nat_same_iff, ◌==◌, arith,
}
use masc_server.Hub.{
  HubEvent, done, register, unregister, Started, accept_client, say_goodbye_and_close, Hub, new_hub,
  register_client, unregister_known, unregister_client, run_hub,
}

abbrev pub registers : ℕ → HubEvent → Bool
registers c done = false
registers c (register d) = d == c
registers c (unregister d) = false

abbrev pub closes : ℕ → Started → Bool
closes c (accept_client d) = false
closes c (say_goodbye_and_close d) = d == c

-- The events before the context is done.
abbrev pub before_done : List HubEvent → List HubEvent
before_done [] = []
before_done (done ∷ events) = []
before_done (register c ∷ events) = register c ∷ before_done events
before_done (unregister c ∷ events) = unregister c ∷ before_done events

-- One where a client is registered, and zero where it is not.
abbrev pub registered : ℕ → Hub → ℕ
registered c h = elim (lookup c h.clients) [ none ↦ 0 | some _ ↦ 1 ]

-- How often the channel of a client is closed, and whether it is still registered.
abbrev settled : ℕ → Hub → ℕ
settled c h = passing (closes c) h.started + registered c h

settled-register :
    (c d : ℕ) (h : Hub)
    → settled c h + passing (registers c) (register d ∷ []) ≤ 1
    → settled c (register_client d h) ≡ settled c h + passing (registers c) (register d ∷ [])
unfolding register_client
settled-register c d h le = ground (arith, lookup-insert d c tt h.clients)

settled-unregister : (c d : ℕ) (h : Hub) → settled c (unregister_client d h) ≡ settled c h
unfolding unregister_client unregister_known
settled-unregister c d h = elim (Option-cases (lookup d h.clients)) [
  | inl e ↦ rw e refl
  | inr (u, e) ↦ ground (arith, lookup-delete d c h.clients, nat_same_iff d c)
]

run_hub-settled :
    (c : ℕ) (events : List HubEvent) (h : Hub)
    → settled c h + passing (registers c) (before_done events) ≤ 1
    → settled c (run_hub events h) ≡ settled c h + passing (registers c) (before_done events)
unfolding run_hub
run_hub-settled c [] h le = omega arith
run_hub-settled c (done ∷ events) h le = omega arith
run_hub-settled c (register d ∷ events) h le =
    let now = settled-register c d h (omega (arith, le)) in
    omega (arith, now, run_hub-settled c events (register_client d h) (omega (arith, now, le)))
run_hub-settled c (unregister d ∷ events) h le =
    let now = settled-unregister c d h in
    omega (arith, now, run_hub-settled c events (unregister_client d h) (omega (arith, now, le)))

-- A client that wants to be registered once at most before the context is done: if it wants to be
-- registered, it is either registered at the end or its channel was closed exactly once, never both;
-- if it does not, its channel was never closed. It may be unregistered any number of times.
pub run_hub-new_hub :
    (c : ℕ) (events : List HubEvent)
    → passing (registers c) (before_done events) ≤ 1
    → passing (closes c) (run_hub events new_hub).started + registered c (run_hub events new_hub)
      ≡ passing (registers c) (before_done events)
unfolding new_hub lookup
run_hub-new_hub c events le = omega (arith, run_hub-settled c events new_hub (omega (arith, le)))
