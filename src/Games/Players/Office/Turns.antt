-- ===== src/Games/Players/Office/Turns.antt =====
-- One turn of the loop of `handlePlayerJoins` (games/player_management.go).
use masc_server.Prelude.{
  String, Bool, true, false, Option, none, some, if◌then◌else◌, inl, inr, ◌⊎◌, ◌≡◌, ◌≢◌, refl, sym,
  ap, ◌∙◌, subst, arith, List, [], ◌∷◌, Bool-cases, lookup, lookup-insert, lookup-delete,
  string_key, eq_iff, ◌==◌,
}
use masc_server.Errors.{GoError, Details, nil, native, masc, wrap, blame_user}
use masc_server.Messages.{OutgoingMessage}
use masc_server.Acting.Actors.{Actor, send, send-subscriptions, reachable, reachable-send}
use masc_server.Games.Players.{PlayerManagement, add_player, remove_player, added, removed}
use masc_server.Games.Players.Log.{Faithful, join, leave, serve, serve-Faithful}
use masc_server.Games.Players.Office.{
  Event, player_join, guest_join, player_leave, Served, told_or_returned, tell, joined, left,
  serve_event, notify,
}

-- An actor that has a subscription manager.
abbrev pub Managed : Actor → Type 0
Managed a = a.subscriptions ≢ none

-- Whoever plays already stays in their team.
abbrev in_or : String → Option String → Option String
in_or team none = some team
in_or team (some other) = some other

-- The team in which a user plays after an event, by the one before.
abbrev pub team_after : String → String → Event → Option String → Option String
team_after user team (player_join (inl id)) was = if id == user then in_or team was else was
team_after user team (guest_join (inl id)) was = if id == user then in_or team was else was
team_after user team (player_join (inr err)) was = was
team_after user team (guest_join (inr err)) was = was
team_after user team (player_leave id) was = if id == user then none else was

abbrev pub team_after_all : String → String → List Event → Option String → Option String
team_after_all user team [] was = was
team_after_all user team (e ∷ es) was = team_after_all user team es (team_after user team e was)

-- The provider of players fails, and the user is not to blame for it.
abbrev pub ProviderFails : Event → Type 0
ProviderFails (player_join (inl id)) = ⊥
ProviderFails (guest_join (inl id)) = ⊥
ProviderFails (player_join (inr err)) = blame_user err ≡ false
ProviderFails (guest_join (inr err)) = Unit
ProviderFails (player_leave id) = ⊥

-- Nothing but a message was sent, and an error is one of sending it.
abbrev pub Answered : PlayerManagement → Actor → Served → Type 0
Answered pm a x =
    (x.0 ≡ pm)
    × Managed x.1
    × (reachable x.1 ≡ reachable a)
    × ((x.2 ≡ nil) ⊎ ((x.2 ≢ nil) × (reachable a ≡ false)))

wrap-ne_nil :
    (err : GoError) (context : String) (details : Details) → wrap err context details ≢ nil
unfolding wrap
wrap-ne_nil nil context details q = cc
wrap-ne_nil (native s) context details q = cc
wrap-ne_nil (masc e) context details q = cc

module _ (pm : PlayerManagement) (a : Actor) (managed : Managed a) where
  told_or_returned-Answered :
      (context : String) (x : Actor × GoError)
      → Managed x.0
      → reachable x.0 ≡ reachable a
      → (x.1 ≡ nil) ⊎ (reachable a ≡ false)
      → Answered pm a (told_or_returned pm context x)
  unfolding told_or_returned
  told_or_returned-Answered context (b, nil) h same s = (refl, h, same, inl refl)
  told_or_returned-Answered context (b, native x) h same (inl q) = absurd cc
  told_or_returned-Answered context (b, masc x) h same (inl q) = absurd cc
  told_or_returned-Answered context (b, native x) h same (inr off) =
      (refl, h, same, inr (wrap-ne_nil (native x) context none, off))
  told_or_returned-Answered context (b, masc x) h same (inr off) =
      (refl, h, same, inr (wrap-ne_nil (masc x) context none, off))

  pub notify-Answered :
      (m : OutgoingMessage) (context : String) → Answered pm a (notify m context pm a)
  unfolding notify
  notify-Answered m context =
      told_or_returned-Answered context (send m a) (rw (send-subscriptions m a) managed)
        (reachable-send m a).0 (reachable-send m a).1

  tell-Answered : (err : GoError) (context : String) → Answered pm a (tell err context pm a)
  unfolding tell notify
  tell-Answered err context = notify-Answered _ context

module _ (a : Actor) (managed : Managed a) (id : String) where
  joined-Answered : (x : PlayerManagement × Bool) → Answered x.0 a (joined a id x)
  unfolding joined
  joined-Answered (pm, true) = (refl, managed, refl, inl refl)
  joined-Answered (pm, false) = tell-Answered pm a managed _ _

  left-Answered : (x : PlayerManagement × Bool) → Answered x.0 a (left a id x)
  unfolding left
  left-Answered (pm, true) = (refl, managed, refl, inl refl)
  left-Answered (pm, false) = tell-Answered pm a managed _ _

-- What one turn of the loop does.
pub record Turn (team : String) (e : Event) (pm : PlayerManagement) (a : Actor) (x : Served)
    : Type 0 where
  pub faithful : Faithful x.0
  pub managed : Managed x.1
  pub reach : reachable x.1 ≡ reachable a
  pub plays :
      (user : String) → lookup user x.0.active ≡ team_after user team e (lookup user pm.active)
  pub ended : (x.2 ≡ nil) ⊎ ((x.2 ≢ nil) × ((reachable a ≡ false) ⊎ ProviderFails e))

-- A turn that changes the players as it should, and answers.
answered-Turn :
    (team : String) (e : Event) (pm pm' : PlayerManagement) (a : Actor) (x : Served)
    → Faithful pm'
    → ((user : String) → lookup user pm'.active ≡ team_after user team e (lookup user pm.active))
    → Answered pm' a x
    → Turn team e pm a x
answered-Turn team e pm pm' a x f plays (same, managed, reach, ended) = record {
  faithful = subst Faithful (sym same) f;
  managed = managed;
  reach = reach;
  plays = λ user. ap (λ (p : PlayerManagement). lookup user p.active) same ∙ plays user;
  ended = elim ended [ inl ok ↦ inl ok | inr (ne, off) ↦ inr (ne, inl off) ];
}

lookup-add_player :
    (user id team : String) (pm : PlayerManagement)
    → lookup user (add_player id team pm).0.active
      ≡ (if id == user then in_or team (lookup user pm.active) else lookup user pm.active)
unfolding add_player added
lookup-add_player user id team pm =
    ground (arith, lookup-insert id user team pm.active, eq_iff id user)

lookup-remove_player :
    (user id : String) (pm : PlayerManagement)
    → lookup user (remove_player id pm).0.active
      ≡ (if id == user then none else lookup user pm.active)
unfolding remove_player removed
lookup-remove_player user id pm = ground (arith, lookup-delete id user pm.active, eq_iff id user)

pub serve_event-Turn :
    (team : String) (e : Event) (pm : PlayerManagement) (a : Actor)
    → Faithful pm
    → Managed a
    → Turn team e pm a (serve_event team e pm a)
unfolding serve_event serve
serve_event-Turn team (guest_join (inl id)) pm a f h =
    answered-Turn team (guest_join (inl id)) pm _ a _ (serve-Faithful (join id team) pm f)
      (λ user. lookup-add_player user id team pm) (joined-Answered a h id (add_player id team pm))
serve_event-Turn team (guest_join (inr err)) pm a f h = record {
  faithful = f;
  managed = h;
  reach = refl;
  plays = λ user. refl;
  ended = inr (wrap-ne_nil err _ none, inr tt);
}
serve_event-Turn team (player_join (inl id)) pm a f h =
    answered-Turn team (player_join (inl id)) pm _ a _ (serve-Faithful (join id team) pm f)
      (λ user. lookup-add_player user id team pm) (joined-Answered a h id (add_player id team pm))
serve_event-Turn team (player_join (inr err)) pm a f h = elim (Bool-cases (blame_user err)) [
  | inl user_fault ↦ rw user_fault (
      answered-Turn team (player_join (inr err)) pm pm a _ f (λ user. refl)
        (tell-Answered pm a h err _))
  | inr no_fault ↦ rw no_fault (record {
    faithful = f;
    managed = h;
    reach = refl;
    plays = λ user. refl;
    ended = inr (wrap-ne_nil err _ none, inr no_fault);
  })
]
serve_event-Turn team (player_leave id) pm a f h =
    answered-Turn team (player_leave id) pm _ a _ (serve-Faithful (leave id) pm f)
      (λ user. lookup-remove_player user id pm) (left-Answered a h id (remove_player id pm))
