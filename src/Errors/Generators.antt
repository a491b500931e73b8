-- ===== src/Errors/Generators.antt =====
-- errors/generators.go: the errors that other parts create.
use text.Mathlib.Text.{starts_with}
use masc_server.Prelude.{
  String, Bool, Option, none, some, [], ◌∷◌, Dict, insert, string_key, if◌then◌else◌,
}
use masc_server.Errors.{
  aborted, bad_request, fatal, internal, not_found, Value, str, Details, GoError, nil, masc,
  mk_error,
}

-- What the database driver and the standard library tell of an error: the SQLSTATE of a Postgres
-- error (`errors.As` to `*pgconn.PgError`), its value, and `errors.Is` for two fixed errors.
pub record Driver : Type 0 where
  pub sqlstate : GoError → Option String
  pub pg_value : GoError → Value
  pub is_tx_done : GoError → Bool
  pub is_conn_done : GoError → Bool
  pub is_no_rows : GoError → Bool

unfoldable pub new_internal_error_from_err : GoError → String → Details → GoError
new_internal_error_from_err err message details = masc (mk_error internal err message details)

unfoldable pub new_internal_error : String → Details → GoError
unfolding new_internal_error_from_err
new_internal_error message details = new_internal_error_from_err nil message details

unfoldable pub new_resource_not_found_error : String → Details → GoError
new_resource_not_found_error message details = masc (mk_error not_found nil message details)

unfoldable pub new_context_aborted_error : String → GoError
new_context_aborted_error current_operation = masc (
    mk_error aborted nil "context aborted"
      (some (("currentOperation", str current_operation) ∷ [])))

unfoldable pub new_invalid_config_request_error : String → GoError
new_invalid_config_request_error message = masc (mk_error bad_request nil message none)

unfoldable pub new_json_error : GoError → String → Bool → GoError
new_json_error err operation blame =
    masc (mk_error (if blame then bad_request else internal) err operation none)

unfoldable pub new_match_already_started_error : GoError
new_match_already_started_error = masc (mk_error internal nil "match already started" none)

unfoldable pub new_query_to_sql_error : GoError → Details → GoError
new_query_to_sql_error err details = masc (mk_error internal err "query to sql" details)

unfoldable pub new_scan_db_row_error : GoError → String → GoError
new_scan_db_row_error err query =
    masc (mk_error internal err "scan db row" (some (("query", str query) ∷ [])))

unfoldable pub new_scan_single_db_row_error : Driver → GoError → String → String → GoError
unfolding new_scan_db_row_error
new_scan_single_db_row_error d err not_found_message query =
    if d.is_no_rows err
    then masc (mk_error not_found nil not_found_message none)
    else new_scan_db_row_error err query

made : Details → Dict String Value
made none = []
made (some m) = m

pg_error : GoError → String → Details → GoError
pg_error err state details =
    if starts_with state "23"
    then masc (mk_error bad_request err "exec db query: constraint violation" details)
    else if starts_with state "22"
    then masc (mk_error bad_request err "exec db query: data exception" details)
    else if starts_with state "42"
    then masc (mk_error internal err "exec db query: syntax error" details)
    else masc (mk_error internal err "exec db query" details)

no_pg_error : Driver → GoError → Details → GoError
no_pg_error d err details =
    if d.is_tx_done err
    then masc (mk_error internal err "exec db query" details)
    else if d.is_conn_done err
    then masc (mk_error fatal err "connection done" details)
    else masc (mk_error internal err "exec db query" details)

unfoldable pub new_exec_query_error : Driver → GoError → String → Details → GoError
unfolding made pg_error no_pg_error
new_exec_query_error d err query details =
    let m = insert "query" (str query) (made details) in
    elim (d.sqlstate err) [
      | some state ↦
          pg_error err state
            (some (insert "sqlstate" (str state) (insert "pgErr" (d.pg_value err) m)))
      | none ↦ no_pg_error d err (some m)
    ]

unfoldable pub new_db_tx_begin_error : GoError → GoError
new_db_tx_begin_error err = masc (mk_error internal err "begin tx" none)

unfoldable pub new_db_tx_commit_error : GoError → GoError
new_db_tx_commit_error err = masc (mk_error internal err "tx commit" none)

unfoldable pub new_bad_request_err : String → Details → GoError
new_bad_request_err message details = masc (mk_error bad_request nil message details)
