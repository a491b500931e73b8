-- ===== src/Games/Players/Log.antt =====
-- What the receiver of the updates (games/player_management.go) can tell from them.
use masc_server.Prelude.{
  String, true, false, Option, none, some, List, [], ◌∷◌, if◌then◌else◌, lookup, string_key, ◌==◌,
  lookup-insert, lookup-delete, arith, ◌≡◌, refl, Distinct, ◌∙◌, insert-Distinct, delete-Distinct,
  ◌∙◌,
}
use masc_server.Games.Players.{
  Update, PlayerManagement, new_player_management, add_player, remove_player, added, removed,
  publish,
}

-- The team of a user by the newest update about the user.
abbrev pub told : String → List Update → Option String
told id [] = none
told id (u ∷ l) = if u.user == id then (if u.has_joined then some u.team else none) else told id l

-- Of one user, joins and leaves alternate.
abbrev pub Alternate : List Update → Type 0
Alternate [] = Unit
Alternate (u ∷ l) = (told u.user l ≡ (if u.has_joined then none else some u.team)) × Alternate l

-- The updates tell of each user which team they play in, and no user is active twice.
abbrev pub Faithful : PlayerManagement → Type 0
Faithful pm =
    (l : List Update) × (pm.updates ≡ some l)
    × Alternate l
    × ((id : String) → told id l ≡ lookup id pm.active)
    × Distinct pm.active

-- `AddPlayer` and `RemovePlayer`, by who calls them.
pub data Request : Type 0 where
  join : String → String → Request
  leave : String → Request

unfoldable pub serve : Request → PlayerManagement → PlayerManagement
serve (join id team) pm = (add_player id team pm).0
serve (leave id) pm = (remove_player id pm).0

unfoldable pub serve_all : List Request → PlayerManagement → PlayerManagement
serve_all [] pm = pm
serve_all (r ∷ rs) pm = serve_all rs (serve r pm)

added-Faithful :
    (o : Option String) (id team : String) (pm : PlayerManagement)
    → lookup id pm.active ≡ o
    → Faithful pm
    → Faithful (added o id team pm).0
unfolding added publish
added-Faithful (some _) id team pm e f = f
added-Faithful none id team pm e (l, u, a, t, d) = (
  record { user = id; team = team; has_joined = true } ∷ l,
  rw u refl,
  (t id ∙ e, a),
  λ j. rw (lookup-insert id j team pm.active) (ground (arith, t j)),
  insert-Distinct id team pm.active d,
)

removed-Faithful :
    (o : Option String) (id : String) (pm : PlayerManagement)
    → lookup id pm.active ≡ o
    → Faithful pm
    → Faithful (removed o id pm).0
unfolding removed publish
removed-Faithful none id pm e f = f
removed-Faithful (some team) id pm e (l, u, a, t, d) = (
  record { user = id; team = team; has_joined = false } ∷ l,
  rw u refl,
  (t id ∙ e, a),
  λ j. rw (lookup-delete id j pm.active) (ground (arith, t j)),
  delete-Distinct id pm.active d,
)

pub serve-Faithful : (r : Request) (pm : PlayerManagement) → Faithful pm → Faithful (serve r pm)
unfolding serve add_player remove_player
serve-Faithful (join id team) pm f = added-Faithful (lookup id pm.active) id team pm refl f
serve-Faithful (leave id) pm f = removed-Faithful (lookup id pm.active) id pm refl f

serve_all-Faithful :
    (rs : List Request) (pm : PlayerManagement) → Faithful pm → Faithful (serve_all rs pm)
unfolding serve_all
serve_all-Faithful [] pm f = f
serve_all-Faithful (r ∷ rs) pm f = serve_all-Faithful rs (serve r pm) (serve-Faithful r pm f)

-- Whatever joins and leaves a new player management with a channel is asked for, the joins and
-- leaves that it sends alternate for each user, the newest one tells whether the user is active and
-- in which team, and no user is active twice.
pub updates-Faithful : (rs : List Request) → Faithful (serve_all rs (new_player_management true))
unfolding new_player_management lookup
updates-Faithful rs = serve_all-Faithful rs _ ([], refl, tt, λ j. refl, tt)
