-- ===== src/Casting/Judging.antt =====
-- What handling one reply of the jury guarantees (casting/casting.go).
use masc_server.Prelude.{
  ◌≡◌, ◌≢◌, ◌⊎◌, inl, inr, refl, Option, none, some, List, string_key, All, lookup, ap,
}
use masc_server.Errors.{GoError, nil, native, masc, wrap}
use masc_server.Messages.{RoleAssignment}
use masc_server.Acting.Actors.{Actor, unsubscribe_actor}
use masc_server.Errors.Generators.{new_context_aborted_error}
use masc_server.Acting.Subscriptions.{Subscription}
use masc_server.Casting.{Casting, Stage, put, is_nil}
use masc_server.Casting.Assign.{set_winners, assure_winners_satisfy_requests}
use masc_server.Casting.Hire.{to_hire}
use masc_server.Casting.Hiring.{
  Hired, DistinctIds, AllHired, IsBadRequest-ne_nil, hire_winners_lem, nil_cases,
}
use masc_server.Casting.Satisfied.{
  Satisfied, assure_winners_satisfy_requests_iff, set_winners-covers,
}
use masc_server.Casting.Run.{
  Reply, aborts, closes, assigns, Judged, again, stop, won, broken, judge, check_them, hire_them,
  complain, answered, conclude, handle_reply, unsubscribed,
}

-- What holds before the loop is left, where the casting keeps the requests and the state it had.
pub record Won (c0 c : Casting) (st : Stage) : Type 0 where
  pub same_requests : c.requests ≡ c0.requests
  pub same_state : c.state ≡ c0.state
  pub satisfied : All (Satisfied c.winners) c.requests
  pub covered : All (λ r. lookup r.key c.winners ≢ none) c.requests
  pub all_hired : All (λ p. Hired st p.1) (to_hire c.winners)
  pub distinct : DistinctIds (to_hire c.winners)

-- What each way to handle a reply guarantees.
abbrev pub Judges : Casting → Judged → Type 0
Judges c0 (again c st) = (c.requests ≡ c0.requests) × (c.state ≡ c0.state)
Judges c0 (stop c st err) = (c.requests ≡ c0.requests) × (c.state ≡ c0.state) × (err ≢ nil)
Judges c0 (won c st) = Won c0 c st
Judges c0 broken = Unit

answered-Judges :
    (c0 c : Casting) (st : Stage) (e : GoError)
    → c.requests ≡ c0.requests
    → c.state ≡ c0.state
    → Judges c0 (answered c st e)
unfolding answered wrap
answered-Judges c0 c st nil p q = (p, q)
answered-Judges c0 c st (native s) p q = (p, q, λ e. cc)
answered-Judges c0 c st (masc x) p q = (p, q, λ e. cc)

complain-Judges :
    (c0 c : Casting) (err : GoError) (st : Stage)
    → c.requests ≡ c0.requests
    → c.state ≡ c0.state
    → Judges c0 (complain err c st)
unfolding complain
complain-Judges c0 c err st p q = answered-Judges c0 c _ _ p q

module _ (c0 c : Casting) (p : c.requests ≡ c0.requests) (q : c.state ≡ c0.state)
    (v : All (λ r. lookup r.key c.winners ≢ none) c.requests) where
  conclude-Judges :
      (st st' : Stage) (bad : GoError)
      → All (Satisfied c.winners) c.requests
      → ((bad ≡ nil) × AllHired (to_hire c.winners) st st') ⊎ (bad ≢ nil)
      → Judges c0 (conclude c st' bad nil)
  unfolding conclude
  conclude-Judges st st' bad s (inl (e, (now, before, apart, still))) = rw e (record {
    same_requests = p;
    same_state = q;
    satisfied = s;
    covered = v;
    all_hired = now;
    distinct = apart;
  })
  conclude-Judges st st' bad s (inr ne) = elim (nil_cases bad) [
    | inl e ↦ absurd (ne e)
    | inr (_, f) ↦ rw f (complain-Judges c0 c _ st' p q)
  ]

  hire_them-Judges :
      (st : Stage) → All (Satisfied c.winners) c.requests → Judges c0 (hire_them c st)
  unfolding hire_them
  hire_them-Judges st s =
      let (st', bad, e, r) = hire_winners_lem c st in
      rw (e, hire_them)
        (conclude-Judges st st' bad s
          (elim r [ inl (f, h) ↦ inl (f, h) | inr (b, _) ↦ inr (IsBadRequest-ne_nil bad b) ]))

  check_them-Judges : (st : Stage) → Judges c0 (check_them c st)
  unfolding check_them
  check_them-Judges st = elim (nil_cases (assure_winners_satisfy_requests c)) [
    | inl e ↦ rw (ap is_nil e) (hire_them-Judges st ((assure_winners_satisfy_requests_iff c).0 e))
    | inr (_, f) ↦ rw f (complain-Judges c0 c _ st p q)
  ]

set_winners_same :
    (l : List RoleAssignment) (c : Casting) (st : Stage)
    → ((set_winners st l c).0.requests ≡ c.requests) × ((set_winners st l c).0.state ≡ c.state)
unfolding set_winners
set_winners_same l c st = (refl, refl)

judge-Judges : (l : List RoleAssignment) (c : Casting) (st : Stage) → Judges c (judge l c st)
unfolding judge
judge-Judges l c st =
    let c' = (set_winners st l c).0 in
    let (p, q) = set_winners_same l c st in
    elim (nil_cases (set_winners st l c).1) [
      | inl e ↦ rw (ap is_nil e) (check_them-Judges c c' p q (rw p (set_winners-covers st l c)) st)
      | inr (_, f) ↦ rw f (complain-Judges c c' _ st p q)
    ]

unsubscribed-Judges :
    (o : Option Actor) (c : Casting) (st : Stage) (next : Stage → Judged)
    → ((st' : Stage) → Judges c (next st'))
    → Judges c (unsubscribed o c st next)
unfolding unsubscribed
unsubscribed-Judges none c st next h = tt
unsubscribed-Judges (some a) c st next h = h (put c.jury a st)

pub handle_reply-Judges :
    (r : Reply) (sub : Subscription) (c : Casting) (st : Stage) → Judges c (handle_reply r sub c st)
unfolding handle_reply new_context_aborted_error
handle_reply-Judges aborts sub c st =
    unsubscribed-Judges (unsubscribe_actor sub (st.actor c.jury)) c st
      (λ st'. stop c st' (new_context_aborted_error "perform casting"))
      (λ st'. (refl, refl, λ q. cc))
handle_reply-Judges closes sub c st = (refl, refl, λ q. cc)
handle_reply-Judges (assigns l) sub c st = unsubscribed-Judges _ c st _ (judge-Judges l c)
