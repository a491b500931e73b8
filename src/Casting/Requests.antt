-- ===== src/Casting/Requests.antt =====
-- Which requests a casting accepts, and what holds of those it has.
use masc_server.Prelude.{
  ℕ, ◌≤◌, String, ◌≡◌, ◌≢◌, All, ◌↔◌, ◌⊎◌, refl, false, ◌||◌, Option, none, some, List, [], ◌∷◌,
  ◌++◌, arith, string_key, ◌==◌, eq_iff,
}
use masc_server.Errors.{nil, wrap}
use masc_server.Casting.{
  ActorRequest, Casting, ready, add_request, key_taken, assure_valid_actor_request,
  assure_casting_requests_alter_allowed,
}

-- The bounds on the number of winners can be met by at least one winner.
abbrev pub Bounded : Option ℕ → Option ℕ → Type 0
Bounded min none = Unit
Bounded none (some max) = 1 ≤ max
Bounded (some min) (some max) = (1 ≤ max) × (min ≤ max)

-- No two requests have one key, and the bounds of each can be met.
abbrev pub Valid : List ActorRequest → Type 0
Valid [] = Unit
Valid (r ∷ rs) = (key_taken r.key rs ≡ false) × Bounded r.min r.max × Valid rs

pub key_taken_iff :
    (key : String) (rs : List ActorRequest) → (key_taken key rs ≡ false) ↔ All (λ q. q.key ≢ key) rs
unfolding key_taken
key_taken_iff key [] = (λ e. tt, λ h. refl)
key_taken_iff key (q ∷ rs) = ground (arith, key_taken_iff key rs, eq_iff q.key key)

pub add_request_cases :
    (r : ActorRequest) (c : Casting)
    → (((add_request r c).1 ≡ nil)
        ↔ ((c.state ≡ ready) × (key_taken r.key c.requests ≡ false) × Bounded r.min r.max))
      × (((add_request r c).1 ≡ nil) ⊎ ((add_request r c).0 ≡ c))
unfolding add_request assure_casting_requests_alter_allowed assure_valid_actor_request wrap
add_request_cases r c = ground arith

-- Where no other request is added at the same time: a request is accepted exactly if the casting has
-- not begun, no request that was made before has its key, and its bounds can be met; it then stands
-- behind the others. If it is not accepted, the casting stays as it was.
pub add_request_iff :
    (r : ActorRequest) (c : Casting)
    → (((add_request r c).1 ≡ nil)
        ↔ ((c.state ≡ ready) × All (λ q. q.key ≢ r.key) c.requests × Bounded r.min r.max))
      × ((((add_request r c).1 ≡ nil)
            × ((add_request r c).0 ≡ record c { requests = c.requests ++ r ∷ [] }))
          ⊎ ((add_request r c).0 ≡ c))
unfolding add_request
add_request_iff r c = ground (arith, add_request_cases r c, key_taken_iff r.key c.requests)

pub key_taken-append :
    (key : String) (rs : List ActorRequest) (r : ActorRequest)
    → key_taken key (rs ++ r ∷ []) ≡ (key_taken key rs || r.key == key)
unfolding key_taken
key_taken-append key [] r = ground arith
key_taken-append key (x ∷ rs) r = ground (arith, key_taken-append key rs r)

Valid-append :
    (rs : List ActorRequest) (r : ActorRequest)
    → Valid rs
    → key_taken r.key rs ≡ false
    → Bounded r.min r.max
    → Valid (rs ++ r ∷ [])
unfolding key_taken
Valid-append [] r v t b = (refl, b, tt)
Valid-append (x ∷ rs) r v t b = (
  ground (arith, key_taken-append x.key rs r, eq_iff x.key r.key, eq_iff r.key x.key),
  v.1,
  Valid-append rs r v.2 (ground arith) b,
)

-- Whatever request is made, the keys stay distinct and all bounds can be met.
pub add_request-Valid :
    (r : ActorRequest) (c : Casting) → Valid c.requests → Valid (add_request r c).0.requests
unfolding add_request
add_request-Valid r c v = ground (arith, add_request_cases r c, Valid-append c.requests r v)
