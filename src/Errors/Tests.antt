-- ===== src/Errors/Tests.antt =====
-- Errors at concrete inputs (errors/errors.go and errors/generators.go).
use Prim.Native.String.{◌++◌ as concat}
use package.text.Mathlib.Text.{starts_with}
use masc_server.Prelude.{
  String, ◌≡◌, ◌↔◌, ◌⊎◌, refl, ◌||◌, true, false, none, some, [], ◌∷◌, ◌++◌, lookup, string_key,
}
use masc_server.Errors.{
  internal, not_found, str, nil, native, masc, Error, mk_error, error_code, error_details, cast,
  wrap, blame_user, details_of,
}
use masc_server.Errors.Generators.{Driver, new_exec_query_error}
use masc_server.Errors.Blame.{blame_user-new_exec_query_error}
use masc_server.Errors.WrapDetails.{wrap_details-lookup}
use masc_server.Messages.{message_error_from_error, message_error-wrap}

abbrev lost : Error
lost = mk_error not_found nil "device not found" (some (("id", str "a") ∷ []))

abbrev broken : Error
broken = mk_error internal (native "EOF") "read" none

-- A driver that reports a unique violation for each error.
abbrev driver : Driver
driver = record {
  sqlstate = λ e. some "23505";
  pg_value = λ e. str "unique violation";
  is_tx_done = λ e. false;
  is_conn_done = λ e. false;
  is_no_rows = λ e. false;
}

blame_user-new_exec_query_error_example :
    (blame_user (new_exec_query_error driver (native "duplicate key") "INSERT" none) ≡ true) ↔ (
      (state : String) × (driver.sqlstate (native "duplicate key") ≡ some state)
      × ((starts_with state "23" || starts_with state "22") ≡ true))
blame_user-new_exec_query_error_example =
    blame_user-new_exec_query_error driver (native "duplicate key") "INSERT" none

wrap_details-lookup_example :
    let r =
      details_of
        (error_details (cast (wrap (masc lost) "get" (some ([] ++ ("id", str "b") ∷ [])))).0) in
    (lookup "id" r ≡ some (str "b"))
    × ((lookup "id" (details_of (error_details lost)) ≡ none)
        ⊎ (lookup (concat "_" "id") r ≡ lookup "id" (details_of (error_details lost))))
wrap_details-lookup_example = wrap_details-lookup "id" (str "b") [] lost "get" [] tt tt tt

message_error-wrap_example :
    (message_error_from_error (wrap (masc broken) "secret" none)
      ≡ message_error_from_error (masc broken))
    × ((message_error_from_error (wrap (masc broken) "secret" none)).code
        ≡ error_code (cast (masc broken)).0)
    × ((message_error_from_error (wrap (masc broken) "secret" none)).err ≡ "")
    × ((message_error_from_error (wrap (masc broken) "secret" none)).message
        ≡ "internal server error")
    × ((message_error_from_error (wrap (masc broken) "secret" none)).details ≡ none)
unfolding blame_user
message_error-wrap_example = message_error-wrap (masc broken) "secret" none refl
