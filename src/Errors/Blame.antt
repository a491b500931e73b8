-- ===== src/Errors/Blame.antt =====
-- Who is to blame for an error (`BlameUser`), and at which level it is logged (`Log`).
use package.text.Mathlib.Text.{starts_with}
use masc_server.Prelude.{String, ◌≡◌, refl, inl, inr, ◌↔◌, true, ◌||◌, some, arith, Option-cases}
use masc_server.Errors.{
  Code, Value, Details, GoError, nil, native, masc, mk_error, error_code, cast, wrap, blame_user,
  warn_level, log,
}
use masc_server.Errors.Generators.{Driver, new_exec_query_error}

-- Adding context to an error neither shifts the blame to the user nor takes it from him, and it
-- keeps the code that `Cast` reads, whatever the message and the details.
pub blame_user-wrap :
    (err : GoError) (message : String) (details : Details)
    → (blame_user (wrap err message details) ≡ blame_user err)
      × (error_code (cast (wrap err message details)).0 ≡ error_code (cast err).0)
unfolding blame_user wrap
blame_user-wrap nil message details = (refl, refl)
blame_user-wrap (native s) message details = (refl, refl)
blame_user-wrap (masc e) message details = (refl, refl)

-- An error is logged as a warning exactly when the user is to blame for it.
log_warns_iff :
    (code_value : Code → Value) (show : Value → String) (err : GoError)
    → ((log code_value show err).0 ≡ warn_level) ↔ (blame_user err ≡ true)
unfolding log blame_user
log_warns_iff cv show nil = ground arith
log_warns_iff cv show (native s) = ground arith
log_warns_iff cv show (masc (mk_error c e m d)) = ground arith

-- A failed statement is the user's fault exactly when the database reports a constraint violation
-- (class 23) or a data exception (class 22), whatever the query and the details.
pub blame_user-new_exec_query_error :
    (d : Driver) (err : GoError) (query : String) (details : Details)
    → (blame_user (new_exec_query_error d err query details) ≡ true) ↔ (
        (state : String) × (d.sqlstate err ≡ some state)
        × ((starts_with state "23" || starts_with state "22") ≡ true))
unfolding blame_user new_exec_query_error
blame_user-new_exec_query_error d err query details = elim (Option-cases (d.sqlstate err)) [
  | inl e ↦ ground arith
  | inr (s, e) ↦ ground arith
]
