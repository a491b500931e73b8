-- ===== src/Errors.antt =====
-- errors/codes.go and errors/errors.go: the error value that every part of the server returns.
pub mod Results
pub mod Generators
pub mod Blame
pub mod WrapDetails
mod Tests
use Prim.Native.String.{◌++◌ as concat}
use masc_server.Prelude.{
  ℕ, String, Bool, true, false, Option, none, some, List, [], ◌∷◌, Dict, lookup, insert, string_key,
}

pub data Code : Type 0 where
  aborted bad_request communication protocol_violation fatal not_found internal : Code
  sad_life unexpected : Code

-- What an `interface{}` in a detail may hold, as far as `keyValToZap` tells values apart.
-- `int64` has the bits of the number, and `other` a name for any other value.
pub data Value : Type 0 where
  int64 : ℕ → Value
  str : String → Value
  other : ℕ → Value

-- `none` is the nil map.
abbrev pub Details : Type 0
Details = Option (Dict String Value)

-- A value of Go's interface `error`: nil, an error of another package, or an `Error`.
mutual
  pub data GoError : Type 0 where
    nil : GoError
    native : String → GoError
    masc : Error → GoError

  pub data Error : Type 0 where
    mk_error : Code → GoError → String → Details → Error

abbrev pub error_code : Error → Code
error_code (mk_error c e m d) = c

abbrev pub error_err : Error → GoError
error_err (mk_error c e m d) = e

abbrev pub error_message : Error → String
error_message (mk_error c e m d) = m

abbrev pub error_details : Error → Details
error_details (mk_error c e m d) = d

-- `fmt.Sprintf("%s: %v", message, err)`, where the text of `err` is given.
abbrev pub colon : String → String → String
colon message err = concat message (concat ": " err)

unfoldable mutual
  -- The text that `%v` prints.
  pub print_error : GoError → String
  print_error nil = "<nil>"
  print_error (native s) = s
  print_error (masc e) = error_text e

  -- `Error.Error`
  pub error_text : Error → String
  error_text (mk_error c nil m d) = m
  error_text (mk_error c (native s) m d) = colon m s
  error_text (mk_error c (masc e) m d) = colon m (error_text e)

-- `Cast`: the flag is false for nil and for errors of other packages.
unfoldable pub cast : GoError → Error × Bool
cast (masc e) = (e, true)
cast nil = (mk_error unexpected nil "unknown operation" (some []), false)
cast (native s) = (mk_error unexpected (native s) "unknown operation" (some []), false)

-- The loop of `Wrap` over the new details. A value that is replaced moves to the prefixed key.
unfoldable pub merge_details : Dict String Value → Dict String Value → Dict String Value
merge_details [] m = m
merge_details ((k, v) ∷ ds) m =
    merge_details ds
      (insert k v (elim (lookup k m) [ none ↦ m | some old ↦ insert (concat "_" k) old m ]))

add_details : Details → Details → Details
unfolding merge_details
add_details none d = d
add_details (some ds) none = some (merge_details ds [])
add_details (some ds) (some m) = some (merge_details ds m)

wrap_message : Bool → String → Error → String
wrap_message true message e = colon message (error_message e)
wrap_message false message e = message

-- `Wrap`
unfoldable pub wrap : GoError → String → Details → GoError
unfolding cast add_details wrap_message
wrap err message details =
    let (e, ok) = cast err in
    masc (
      mk_error (error_code e) (error_err e) (wrap_message ok message e)
        (add_details details (error_details e)))

-- `FromErr`
unfoldable pub from_err : String → Code → GoError → Details → GoError
from_err message code err details = masc (mk_error code err message details)

blamed : Code → Bool
blamed bad_request = true
blamed protocol_violation = true
blamed not_found = true
blamed _ = false

blame_cast : Error × Bool → Bool
unfolding blamed
blame_cast (e, false) = false
blame_cast (e, true) = blamed (error_code e)

-- `BlameUser`
unfoldable pub blame_user : GoError → Bool
unfolding cast blame_cast
blame_user err = blame_cast (cast err)

pub data Level : Type 0 where
  warn_level fatal_level error_level : Level

code_level : Code → Level
code_level bad_request = warn_level
code_level protocol_violation = warn_level
code_level not_found = warn_level
code_level fatal = fatal_level
code_level _ = error_level

pub data ZapType : Type 0 where
  int64_type string_type reflect_type : ZapType

pub record ZapField : Type 0 where
  pub key : String
  pub zap_type : ZapType
  pub value : Value

-- `keyValToZap`
key_val_to_zap : String → Value → ZapField
key_val_to_zap k (int64 n) = record { key = k; zap_type = int64_type; value = int64 n }
key_val_to_zap k (str s) = record { key = k; zap_type = string_type; value = str s }
key_val_to_zap k (other v) = record { key = k; zap_type = reflect_type; value = other v }

zap_fields : Dict String Value → List ZapField
unfolding key_val_to_zap
zap_fields [] = []
zap_fields ((k, v) ∷ m) = key_val_to_zap k v ∷ zap_fields m

-- The name of a code as a text.
code_text : Code → String
code_text aborted = "aborted"
code_text bad_request = "bad-request"
code_text communication = "communication"
code_text protocol_violation = "protocol-violation"
code_text fatal = "fatal"
code_text not_found = "not-found"
code_text internal = "internal"
code_text sad_life = "sad-life"
code_text unexpected = "unexpected"

-- The loop of `Log` over the details; `show` is `%+v`.
log_details : (Value → String) → Dict String Value → Dict String Value → Dict String Value
log_details show [] fields = fields
log_details show ((k, v) ∷ m) fields =
    log_details show m (insert (concat "err_details_v_" k) (str (show v)) fields)

pub details_of : Details → Dict String Value
details_of none = []
details_of (some m) = m

log_orig : GoError → GoError → Dict String Value → Dict String Value
log_orig nil err fields = fields
log_orig (native s) err fields = insert "err_orig" (str (print_error err)) fields
log_orig (masc e) err fields = insert "err_orig" (str (print_error err)) fields

-- `Log`: the level, the fields and the text of the entry that is written. An entry at the level
-- `fatal_level` ends the process. The code is a value of a named type, so it goes by reflection.
unfoldable pub log : (Code → Value) → (Value → String) → GoError → Level × List ZapField × String
unfolding cast code_level zap_fields log_details details_of log_orig
log code_value show err =
    let e = (cast err).0 in
    let fields =
      log_details show (details_of (error_details e))
        (("err_code", code_value (error_code e)) ∷ []) in
    (code_level (error_code e), zap_fields (log_orig (error_err e) err fields), error_text e)
