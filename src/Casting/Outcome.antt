-- ===== src/Casting/Outcome.antt =====
-- What a finished casting has achieved, and what an aborted one leaves behind.
use masc_server.Prelude.{
  String, ◌≡◌, ◌≢◌, ◌⊎◌, ◌∙◌, inl, inr, refl, Option, none, some, List, [], ◌∷◌, string_key, All,
  lookup, ap, subst,
}
use masc_server.Errors.{GoError, nil, native, masc, wrap}
use masc_server.Acting.Actors.{Actor, subscribe_message_type}
use masc_server.Acting.Subscriptions.{Subscription}
use masc_server.Casting.{
  ActorRequest, Casting, ready, casting, done, Stage, add_request,
  assure_casting_requests_alter_allowed, get_winners, is_nil, fail_internal,
}
use masc_server.Casting.Hire.{to_hire}
use masc_server.Casting.Hiring.{Hired, DistinctIds, nil_cases}
use masc_server.Casting.Satisfied.{Satisfied}
use masc_server.Casting.Run.{
  Reply, Outcome, waiting, panicked, finished, Judged, again, stop, won, broken, Asked,
  sent_request, no_manager, refused, asked, ask_with, ask, once_asked, once_judged, handle_reply,
  perform_loop, perform_and_hire,
}
use masc_server.Casting.Judging.{Judges, handle_reply-Judges}

-- What holds of the winners of a finished casting.
pub record Achieved (c : Casting) (st : Stage) : Type 0 where
  pub is_done : c.state ≡ done
  pub satisfied : All (Satisfied c.winners) c.requests
  pub covered : All (λ r. lookup r.key c.winners ≢ none) c.requests
  pub all_hired : All (λ p. Hired st p.1) (to_hire c.winners)
  pub distinct : DistinctIds (to_hire c.winners)

-- What a run of the loop that began with the casting `c0` leaves, by its outcome.
abbrev After : Casting → Casting × Stage × Outcome → Type 0
After c0 (c, st, waiting) = Unit
After c0 (c, st, panicked) = Unit
After c0 (c, st, finished nil) = (c.requests ≡ c0.requests) × Achieved c st
After c0 (c, st, finished (native s)) = (c.requests ≡ c0.requests) × (c.state ≡ c0.state)
After c0 (c, st, finished (masc e)) = (c.requests ≡ c0.requests) × (c.state ≡ c0.state)

After-error :
    (c0 c : Casting) (st : Stage) (err : GoError)
    → err ≢ nil
    → c.requests ≡ c0.requests
    → c.state ≡ c0.state
    → After c0 (c, st, finished err)
After-error c0 c st nil ne p q = absurd (ne refl)
After-error c0 c st (native s) ne p q = (p, q)
After-error c0 c st (masc e) ne p q = (p, q)

After-trans :
    (c0 c1 : Casting) (r : Casting × Stage × Outcome)
    → c1.requests ≡ c0.requests
    → c1.state ≡ c0.state
    → After c1 r
    → After c0 r
After-trans c0 c1 (c, st, waiting) p q h = tt
After-trans c0 c1 (c, st, panicked) p q h = tt
After-trans c0 c1 (c, st, finished nil) p q h = (h.0 ∙ p, h.1)
After-trans c0 c1 (c, st, finished (native s)) p q h = (h.0 ∙ p, h.1 ∙ q)
After-trans c0 c1 (c, st, finished (masc e)) p q h = (h.0 ∙ p, h.1 ∙ q)

-- A request that is refused has an error.
abbrev AskedWell : Asked → Type 0
AskedWell no_manager = Unit
AskedWell (refused st err) = err ≢ nil
AskedWell (asked st sub) = Unit

sent_request-AskedWell :
    (sub : Subscription) (st : Stage) (err : GoError) → AskedWell (sent_request sub st err)
unfolding sent_request wrap
sent_request-AskedWell sub st nil = tt
sent_request-AskedWell sub st (native s) = λ q. cc
sent_request-AskedWell sub st (masc e) = λ q. cc

ask_with-AskedWell :
    (o : Option (Actor × Subscription)) (c : Casting) (st : Stage) → AskedWell (ask_with o c st)
unfolding ask_with
ask_with-AskedWell none c st = tt
ask_with-AskedWell (some (a, sub)) c st = sent_request-AskedWell sub _ _

ask-AskedWell : (c : Casting) (st : Stage) → AskedWell (ask c st)
unfolding ask
ask-AskedWell c st =
    ask_with-AskedWell (subscribe_message_type "role-assignments" (st.actor c.jury)) c st

once_asked-After :
    (next : Stage → Subscription → Casting × Stage × Outcome) (c : Casting) (st : Stage) (x : Asked)
    → AskedWell x
    → ((st' : Stage) (sub : Subscription) → After c (next st' sub))
    → After c (once_asked next c st x)
unfolding once_asked
once_asked-After next c st no_manager w h = tt
once_asked-After next c st (refused st' err) w h = After-error c c st' err w refl refl
once_asked-After next c st (asked st' sub) w h = h st' sub

once_judged-After :
    (loop : Casting → Stage → Casting × Stage × Outcome) (c : Casting) (st : Stage) (x : Judged)
    → Judges c x
    → ((c' : Casting) (st' : Stage) → After c' (loop c' st'))
    → After c (once_judged loop c st x)
unfolding once_judged
once_judged-After loop c st (again c' st') j h = After-trans c c' (loop c' st') j.0 j.1 (h c' st')
once_judged-After loop c st (stop c' st' err) j h = After-error c c' st' err j.2 j.0 j.1
once_judged-After loop c st (won c' st') j h = (
  j.same_requests,
  record {
    is_done = refl;
    satisfied = j.satisfied;
    covered = j.covered;
    all_hired = j.all_hired;
    distinct = j.distinct;
  },
)
once_judged-After loop c st broken j h = tt

perform_loop-After :
    (replies : List Reply) (c : Casting) (st : Stage) → After c (perform_loop replies c st)
unfolding perform_loop
perform_loop-After [] c st = once_asked-After _ c st (ask c st) (ask-AskedWell c st) (λ st' sub. tt)
perform_loop-After (r ∷ rs) c st =
    once_asked-After _ c st (ask c st) (ask-AskedWell c st) λ st' sub.
      once_judged-After (perform_loop rs) c st' (handle_reply r sub c st')
        (handle_reply-Judges r sub c st') (perform_loop-After rs)

-- The casting as the loop finds it.
abbrev begun : String → Casting → Casting
begun jury c = record c { state = casting; jury = jury }

-- What `PerformAndHire` leaves, whether it was allowed or not.
abbrev Performed : String → Casting → Casting × Stage × Outcome → Type 0
Performed jury c r =
    ((assure_casting_requests_alter_allowed c.state ≡ nil) × After (begun jury c) r)
    ⊎ ((assure_casting_requests_alter_allowed c.state ≢ nil)
        × (r.2 ≡ finished (assure_casting_requests_alter_allowed c.state))
        × (r.0 ≡ c))

perform_and_hire-Performed :
    (replies : List Reply) (jury : String) (c : Casting) (st : Stage)
    → Performed jury c (perform_and_hire replies jury c st)
unfolding perform_and_hire
perform_and_hire-Performed replies jury c st =
    elim (nil_cases (assure_casting_requests_alter_allowed c.state)) [
      | inl e ↦ rw (ap is_nil e) (inl (e, perform_loop-After replies (begun jury c) st))
      | inr (ne, f) ↦ rw f (inr (ne, refl, refl))
    ]

finished-inj : {e : GoError} → finished nil ≡ finished e → e ≡ nil
finished-inj q = cc

-- A run of `PerformAndHire` that returns no error leaves the requests as they were. The casting is
-- done, each request has winners whose number its bounds allow, each winner's actor is hired, and
-- no actor has won twice.
pub perform_and_hire-Achieved :
    (replies : List Reply) (jury : String) (c c' : Casting) (st st' : Stage)
    → perform_and_hire replies jury c st ≡ (c', st', finished nil)
    → (c'.requests ≡ c.requests) × Achieved c' st'
perform_and_hire-Achieved replies jury c c' st st' h =
    let p : Performed jury c (c', st', finished nil) =
      subst (Performed jury c) h (perform_and_hire-Performed replies jury c st) in
    elim p [ inl (_, a) ↦ a | inr (ne, q, _) ↦ absurd (ne (finished-inj q)) ]

After-stuck :
    (jury : String) (c c' : Casting) (st' : Stage) (err : GoError)
    → err ≢ nil
    → After (begun jury c) (c', st', finished err)
    → c'.state ≡ casting
After-stuck jury c c' st' nil ne a = absurd (ne refl)
After-stuck jury c c' st' (native s) ne a = a.1
After-stuck jury c c' st' (masc e) ne a = a.1

Performed-stuck :
    (jury : String) (c c' : Casting) (st' : Stage) (err : GoError)
    → c.state ≡ ready
    → err ≢ nil
    → Performed jury c (c', st', finished err)
    → c'.state ≡ casting
unfolding assure_casting_requests_alter_allowed
Performed-stuck jury c c' st' err s ne (inl (_, a)) = After-stuck jury c c' st' err ne a
Performed-stuck jury c c' st' err s ne (inr (forbidden, _, _)) =
    absurd (forbidden (ap assure_casting_requests_alter_allowed s))

-- A run of `PerformAndHire` on a casting in the state ready that returns an error leaves it in the
-- state casting: from then on, each `AddRequest` and each further run is refused with the error
-- "already performing casting", and `GetWinners` with the error "casting not done yet".
pub perform_and_hire-stuck :
    (replies replies' : List Reply) (jury jury' : String) (c c' : Casting) (st st' st'' : Stage)
    (err : GoError) (r : ActorRequest) (key : String)
    → c.state ≡ ready
    → err ≢ nil
    → perform_and_hire replies jury c st ≡ (c', st', finished err)
    → (c'.state ≡ casting)
      × (add_request r c' ≡ (c', fail_internal "already performing casting"))
      × (perform_and_hire replies' jury' c' st''
          ≡ (c', st'', finished (fail_internal "already performing casting")))
      × (get_winners key c' ≡ (none, fail_internal "casting not done yet"))
unfolding add_request perform_and_hire get_winners assure_casting_requests_alter_allowed
    fail_internal
perform_and_hire-stuck replies replies' jury jury' c c' st st' st'' err r key s ne h =
    let p : c'.state ≡ casting =
      Performed-stuck jury c c' st' err s ne
        (subst (Performed jury c) h (perform_and_hire-Performed replies jury c st)) in
    (
      p,
      rw (p, assure_casting_requests_alter_allowed) refl,
      rw (p, assure_casting_requests_alter_allowed) refl,
      rw p refl,
    )

ask_with-requests :
    (o : Option (Actor × Subscription)) (c : Casting) (st : Stage) (rs : List ActorRequest)
    → ask_with o (record c { requests = rs }) st ≡ ask_with o c st
unfolding ask_with
ask_with-requests none c st rs = refl
ask_with-requests (some (a, sub)) c st rs = refl

-- The message that asks the jury for assignments, and what sending it leaves, do not depend on the
-- requests of the casting.
ask-requests :
    (c : Casting) (st : Stage) (rs : List ActorRequest)
    → ask (record c { requests = rs }) st ≡ ask c st
unfolding ask
ask-requests c st rs = ask_with-requests _ c st rs
