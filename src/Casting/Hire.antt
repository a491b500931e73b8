-- ===== src/Casting/Hire.antt =====
-- Hiring the winners, and firing those who were hired when one hire fails (casting/casting.go).
use masc_server.Prelude.{
  ℕ, String, Option, none, some, List, [], ◌∷◌, ◌++◌, if◌then◌else◌, Dict, string_key, nat_key,
  length, map,
}
use masc_server.Errors.{GoError, nil, masc, mk_error, bad_request, str, int64, wrap, print_error}
use masc_server.Acting.Actors.{hire, fire}
use masc_server.Casting.{Casting, Stage, put, is_nil}

-- The pairs that the two loops of `hireWinners` visit.
unfoldable pub to_hire : Dict String (List String) → List (String × String)
to_hire [] = []
to_hire ((k, ids) ∷ w) = map (λ id. (k, id)) ids ++ to_hire w

-- `FireAllActors` (acting/acting.go); `none` is a panic.
unfoldable pub fire_all_actors : List String → Stage → Option (Stage × GoError)
fire_all_actors [] st = some (st, nil)
fire_all_actors (id ∷ l) st = elim (fire (st.actor id)) [
  | none ↦ none
  | some a ↦ fire_all_actors l (put id a st)
]

unfoldable pub failed_hire : String → ℕ → GoError → GoError
failed_hire key n err = masc (
    mk_error bad_request nil "hiring assigned actor for casting key failed" (
      some (
        ("alreadyHired", int64 n)
        ∷ ("castingKey", str key)
        ∷ ("hireError", str (print_error err))
        ∷ [])))

-- What follows a failed hire: the stage, the bad request and the internal error.
unfoldable pub undo_hires :
    String → List String → GoError → Stage → Option (Stage × GoError × GoError)
unfolding failed_hire
undo_hires key hired err st = elim (fire_all_actors hired st) [
  | none ↦ none
  | some (st', fire_err) ↦ some (
      if is_nil fire_err then (st', failed_hire key (length hired) err, nil) else (
        st',
        nil,
        wrap fire_err "fire all actors because of failed hire after role assignments" none,
      ))
]

-- The loops of `hireWinners` over the pairs that are left, after those in `hired`.
unfoldable pub hire_each :
    List (String × String) → List String → Stage → Option (Stage × GoError × GoError)
unfolding undo_hires
hire_each [] hired st = some (st, nil, nil)
hire_each ((key, id) ∷ l) hired st =
    let (a, err) = hire "" (st.actor id) in
    let rest = hire_each l (hired ++ id ∷ []) (put id a st) in
    if is_nil err then rest else undo_hires key hired err (put id a st)

-- `hireWinners`; `none` is a panic.
unfoldable pub hire_winners : Casting → Stage → Option (Stage × GoError × GoError)
unfolding hire_each
hire_winners c st = hire_each (to_hire c.winners) [] st
