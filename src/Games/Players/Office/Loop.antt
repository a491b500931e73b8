-- ===== src/Games/Players/Office/Loop.antt =====
-- The loop of `handlePlayerJoins` (games/player_management.go).
use masc_server.Prelude.{
  String, Bool, false, List, [], ◌∷◌, ◌++◌, inl, inr, ◌⊎◌, ◌≡◌, ◌≢◌, refl, sym, ap, ◌∙◌, Any,
  lookup, string_key,
}
use masc_server.Errors.{GoError, nil, native, masc}
use masc_server.Acting.Actors.{Actor, reachable}
use masc_server.Games.Players.{PlayerManagement}
use masc_server.Games.Players.Log.{Faithful}
use masc_server.Games.Players.Office.{Event, Served, serve_events, and_then}
use masc_server.Games.Players.Office.Turns.{
  Managed, team_after_all, ProviderFails, Turn, serve_event-Turn,
}

-- What has become of the players and of the events, where the handler returns `err`. Some events were
-- served and the rest was not. The updates tell of each user which team they play in, and that is
-- what the served events make of it. Without an error all were served; an error means that the actor
-- cannot be reached or that the provider has failed.
pub record Outcome (team : String) (es : List Event) (pm : PlayerManagement) (reached : Bool)
    (pm' : PlayerManagement) (err : GoError) : Type 0 where
  pub served : List Event
  pub rest : List Event
  pub in_order : es ≡ served ++ rest
  pub faithful : Faithful pm'
  pub plays :
      (user : String)
      → lookup user pm'.active ≡ team_after_all user team served (lookup user pm.active)
  pub ended :
      ((err ≡ nil) × (rest ≡ [])) ⊎ ((err ≢ nil) × ((reached ≡ false) ⊎ Any ProviderFails served))

-- What holds while the office is held.
pub record Ran (team : String) (es : List Event) (pm : PlayerManagement) (a : Actor) (x : Served)
    : Type 0 where
  pub outcome : Outcome team es pm (reachable a) x.0 x.2
  pub managed : Managed x.1
  pub reach : reachable x.1 ≡ reachable a

failed-Ran :
    (team : String) (e : Event) (es : List Event) (pm : PlayerManagement) (a : Actor) (x : Served)
    → Turn team e pm a x
    → x.2 ≢ nil
    → Ran team (e ∷ es) pm a x
failed-Ran team e es pm a x t ne = record {
  outcome = record {
    served = e ∷ [];
    rest = es;
    in_order = refl;
    faithful = t.faithful;
    plays = t.plays;
    ended = elim t.ended [
      | inl ok ↦ absurd (ne ok)
      | inr (_, inl off) ↦ inr (ne, inl off)
      | inr (_, inr fails) ↦ inr (ne, inr (inl fails))
    ];
  };
  managed = t.managed;
  reach = t.reach;
}

and_then-Ran :
    (team : String) (e : Event) (es : List Event) (pm : PlayerManagement) (a : Actor) (x : Served)
    (next : PlayerManagement → Actor → Served)
    → Turn team e pm a x
    → ((p : PlayerManagement) (b : Actor) → Faithful p → Managed b → Ran team es p b (next p b))
    → Ran team (e ∷ es) pm a (and_then x next)
unfolding and_then
and_then-Ran team e es pm a (p, b, native s) next t r =
    failed-Ran team e es pm a (p, b, native s) t (λ q. cc)
and_then-Ran team e es pm a (p, b, masc s) next t r =
    failed-Ran team e es pm a (p, b, masc s) t (λ q. cc)
and_then-Ran team e es pm a (p, b, nil) next t r =
    let q = r p b t.faithful t.managed in
    record {
      outcome = record {
        served = e ∷ q.outcome.served;
        rest = q.outcome.rest;
        in_order = ap (λ l. e ∷ l) q.outcome.in_order;
        faithful = q.outcome.faithful;
        plays = λ user.
            q.outcome.plays user ∙ ap (team_after_all user team q.outcome.served) (t.plays user);
        ended = elim q.outcome.ended [
          | inl ok ↦ inl ok
          | inr (ne, inl off) ↦ inr (ne, inl (sym t.reach ∙ off))
          | inr (ne, inr fails) ↦ inr (ne, inr (inr fails))
        ];
      };
      managed = q.managed;
      reach = q.reach ∙ t.reach;
    }

pub serve_events-Ran :
    (team : String) (es : List Event) (pm : PlayerManagement) (a : Actor)
    → Faithful pm
    → Managed a
    → Ran team es pm a (serve_events team es pm a)
unfolding serve_events
serve_events-Ran team [] pm a f h = record {
  outcome = record {
    served = [];
    rest = [];
    in_order = refl;
    faithful = f;
    plays = λ user. refl;
    ended = inl (refl, refl);
  };
  managed = h;
  reach = refl;
}
serve_events-Ran team (e ∷ es) pm a f h =
    and_then-Ran team e es pm a _ (serve_events team es) (serve_event-Turn team e pm a f h)
      (serve_events-Ran team es)
