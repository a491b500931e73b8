-- ===== src/Casting/Satisfied.antt =====
-- The winners that a message of the jury sets, and when their numbers meet the requests.
use mathlib.Core.List.{append-nil, append_assoc}
use masc_server.Prelude.{
  ℕ, ◌≤◌, String, ◌≡◌, ◌≢◌, ◌↔◌, ◌∙◌, refl, Bool, true, Option, none, some, List, [], ◌∷◌, ◌++◌,
  arith, string_key, ◌==◌, eq_iff, if◌then◌else◌, All, All-mono, length, Dict, lookup, insert,
  lookup-insert, ap, sym,
}
use masc_server.Errors.{nil}
use masc_server.Messages.{RoleAssignment}
use masc_server.Casting.{ActorRequest, Casting, Stage, u32, winners_of}
use masc_server.Casting.Assign.{
  add_winners, empty_lists, check_requests, set_winners, assure_winners_satisfy_requests,
}

abbrev pub AtLeast : Option ℕ → ℕ → Type 0
AtLeast none n = Unit
AtLeast (some min) n = min ≤ n

abbrev pub AtMost : Option ℕ → ℕ → Type 0
AtMost none n = Unit
AtMost (some max) n = n ≤ max

-- The number of winners, as 32 bits hold it, lies within the bounds of the request.
abbrev pub Satisfied : Dict String (List String) → ActorRequest → Type 0
Satisfied w r =
    AtLeast r.min (u32 (length (winners_of r.key w)))
    × AtMost r.max (u32 (length (winners_of r.key w)))

check_requests_sound :
    (rs : List ActorRequest) (w : Dict String (List String))
    → check_requests rs w ≡ nil
    → All (Satisfied w) rs
unfolding check_requests
check_requests_sound [] w e = tt
check_requests_sound (r ∷ rs) w e = ground (arith, check_requests_sound rs w)

check_requests_complete :
    (rs : List ActorRequest) (w : Dict String (List String))
    → All (Satisfied w) rs
    → check_requests rs w ≡ nil
unfolding check_requests
check_requests_complete [] w h = refl
check_requests_complete (r ∷ rs) w h = ground (arith, check_requests_complete rs w h.1)

-- The check of the winners passes exactly if every request has as many winners as it asks for.
pub assure_winners_satisfy_requests_iff :
    (c : Casting) → (assure_winners_satisfy_requests c ≡ nil) ↔ All (Satisfied c.winners) c.requests
unfolding assure_winners_satisfy_requests
assure_winners_satisfy_requests_iff c =
    (check_requests_sound c.requests c.winners, check_requests_complete c.requests c.winners)

-- The actors that a message assigns to a key, in order.
abbrev pub assigned : String → List RoleAssignment → List String
assigned key [] = []
assigned key (a ∷ l) = let rest = assigned key l in if a.key == key then a.actor_id ∷ rest else rest

winners_of-insert :
    (key k : String) (ids : List String) (w : Dict String (List String))
    → winners_of key (insert k ids w) ≡ (if k == key then ids else winners_of key w)
winners_of-insert key k ids w = ground (arith, lookup-insert k key ids w)

add_winners-assigned :
    (listed : String → Bool) (key : String) (l : List RoleAssignment)
    (w : Dict String (List String))
    → (add_winners listed l w).1 ≡ nil
    → winners_of key (add_winners listed l w).0 ≡ winners_of key w ++ assigned key l
unfolding add_winners
add_winners-assigned listed key [] w e = sym (append-nil (winners_of key w))
add_winners-assigned listed key (a ∷ l) w e = ground (
  arith,
  add_winners-assigned listed key l (insert a.key (winners_of a.key w ++ a.actor_id ∷ []) w),
  winners_of-insert key a.key (winners_of a.key w ++ a.actor_id ∷ []) w,
  eq_iff a.key key,
  append_assoc (winners_of key w) (a.actor_id ∷ []) (assigned key l),
)

winners_of-empty_lists :
    (key : String) (rs : List ActorRequest) (w : Dict String (List String))
    → winners_of key w ≡ []
    → winners_of key (empty_lists rs w) ≡ []
unfolding empty_lists
winners_of-empty_lists key [] w e = e
winners_of-empty_lists key (r ∷ rs) w e =
    winners_of-empty_lists key rs (insert r.key [] w)
      (ground (arith, winners_of-insert key r.key [] w))

add_winners-listed :
    (listed : String → Bool) (l : List RoleAssignment) (w : Dict String (List String))
    → (add_winners listed l w).1 ≡ nil
    → All (λ a. listed a.actor_id ≡ true) l
unfolding add_winners
add_winners-listed listed [] w e = tt
add_winners-listed listed (a ∷ l) w e =
    ground
      (arith, add_winners-listed listed l (insert a.key (winners_of a.key w ++ a.actor_id ∷ []) w))

-- If the message of the jury is accepted, every actor that it names is known to the agency, and the
-- winners of each key, requested or not, are the actors that it assigns to the key, in order.
pub set_winners_lem :
    (st : Stage) (l : List RoleAssignment) (c : Casting) (key : String)
    → (set_winners st l c).1 ≡ nil
    → All (λ a. st.listed a.actor_id ≡ true) l
      × (winners_of key (set_winners st l c).0.winners ≡ assigned key l)
unfolding set_winners lookup
set_winners_lem st l c key e = (
  add_winners-listed st.listed l (empty_lists c.requests []) e,
  add_winners-assigned st.listed key l (empty_lists c.requests []) e
      ∙ ap (λ (x : List String). x ++ assigned key l)
          (winners_of-empty_lists key c.requests [] refl),
)

-- Every requested key has an entry among the winners, also where nobody is assigned to it.
Covered-insert :
    (key k : String) (ids : List String) (w : Dict String (List String))
    → lookup key w ≢ none
    → lookup key (insert k ids w) ≢ none
Covered-insert key k ids w h q = ground (arith, lookup-insert k key ids w)

Covered-empty_lists :
    (key : String) (rs : List ActorRequest) (w : Dict String (List String))
    → lookup key w ≢ none
    → lookup key (empty_lists rs w) ≢ none
unfolding empty_lists
Covered-empty_lists key [] w h = h
Covered-empty_lists key (r ∷ rs) w h =
    Covered-empty_lists key rs (insert r.key [] w) (Covered-insert key r.key [] w h)

empty_lists-All :
    (rs : List ActorRequest) (w : Dict String (List String))
    → All (λ r. lookup r.key (empty_lists rs w) ≢ none) rs
unfolding empty_lists
empty_lists-All [] w = tt
empty_lists-All (r ∷ rs) w = (
  Covered-empty_lists r.key rs (insert r.key [] w)
      (λ q. ground (arith, lookup-insert r.key r.key [] w, eq_iff r.key r.key)),
  empty_lists-All rs (insert r.key [] w),
)

add_winners-covers :
    (listed : String → Bool) (key : String) (l : List RoleAssignment)
    (w : Dict String (List String))
    → lookup key w ≢ none
    → lookup key (add_winners listed l w).0 ≢ none
unfolding add_winners
add_winners-covers listed key [] w h q = h q
add_winners-covers listed key (a ∷ l) w h q = ground (
  arith,
  add_winners-covers listed key l (insert a.key (winners_of a.key w ++ a.actor_id ∷ []) w)
      (Covered-insert key a.key (winners_of a.key w ++ a.actor_id ∷ []) w h),
)

pub set_winners-covers :
    (st : Stage) (l : List RoleAssignment) (c : Casting)
    → All (λ r. lookup r.key (set_winners st l c).0.winners ≢ none) c.requests
unfolding set_winners
set_winners-covers st l c =
    All-mono (λ r h. add_winners-covers st.listed r.key l (empty_lists c.requests []) h) c.requests
      (empty_lists-All c.requests [])
