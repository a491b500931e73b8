-- ===== src/Casting/Assign.antt =====
-- What the jury's message does to the winners, and the check of their numbers (casting/casting.go).
use masc_server.Prelude.{
  ℕ, String, Bool, Option, none, some, List, [], ◌∷◌, ◌++◌, if◌then◌else◌, not, Dict, insert,
  string_key, nat_key, ltb, length,
}
use masc_server.Errors.{GoError, nil, masc, mk_error, bad_request, str, int64}
use masc_server.Messages.{RoleAssignment}
use masc_server.Casting.{ActorRequest, Casting, Stage, u32, is_nil, winners_of}

-- The empty lists for the requests.
unfoldable pub empty_lists :
    List ActorRequest → Dict String (List String) → Dict String (List String)
empty_lists [] w = w
empty_lists (r ∷ rs) w = empty_lists rs (insert r.key [] w)

unknown_actor : String → GoError
unknown_actor id =
    masc (mk_error bad_request nil "assigned actor not found" (some (("actorID", str id) ∷ [])))

-- The loop of `setWinners`.
unfoldable pub add_winners :
    (String → Bool)
    → List RoleAssignment
    → Dict String (List String)
    → Dict String (List String) × GoError
unfolding unknown_actor
add_winners listed [] w = (w, nil)
add_winners listed (a ∷ l) w =
    let rest = add_winners listed l (insert a.key (winners_of a.key w ++ a.actor_id ∷ []) w) in
    if listed a.actor_id then rest else (w, unknown_actor a.actor_id)

-- `setWinners`
unfoldable pub set_winners : Stage → List RoleAssignment → Casting → Casting × GoError
unfolding add_winners empty_lists
set_winners st l c =
    let (w, err) = add_winners st.listed l (empty_lists c.requests []) in
    (record c { winners = w }, err)

count_error : String → ℕ → ℕ → GoError
count_error message actual limit = masc (
    mk_error bad_request nil message
      (some (("actual", int64 actual) ∷ ("expected", int64 limit) ∷ [])))

below : ℕ → Option ℕ → GoError
below n none = nil
below n (some min) =
    if ltb n min then count_error "assignments count does match minimum" n min else nil

above : ℕ → Option ℕ → GoError
above n none = nil
above n (some max) =
    if ltb max n then count_error "assignments count does match maximum" n max else nil

-- The loop of `assureWinnersSatisfyRequests`
unfoldable pub check_requests : List ActorRequest → Dict String (List String) → GoError
unfolding below above count_error
check_requests [] w = nil
check_requests (r ∷ rs) w =
    let n = u32 (length (winners_of r.key w)) in
    let rest = check_requests rs w in
    if not (is_nil (below n r.min))
    then below n r.min
    else if not (is_nil (above n r.max))
    then above n r.max
    else rest

unfoldable pub assure_winners_satisfy_requests : Casting → GoError
unfolding check_requests
assure_winners_satisfy_requests c = check_requests c.requests c.winners
