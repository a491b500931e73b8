-- ===== src/Messages.antt =====
-- The package messages: what a client is told of an error (messages/messages.go), and the messages
-- that actors pass to their devices, as far as the other modules send them.
pub mod Incoming
use masc_server.Prelude.{Bool, ℕ, List, Option, String, ◌≡◌, refl, true, false, none, arith}
use masc_server.Errors.{
  Code, Details, GoError, nil, native, masc, mk_error, error_code, error_message, error_details,
  error_text, cast, wrap, blame_user,
}

-- `MessageError`
pub record MessageError : Type 0 where
  pub code : Code
  pub err : String
  pub message : String
  pub details : Details

-- `MessageErrorFromError`
unfoldable pub message_error_from_error : GoError → MessageError
unfolding blame_user
message_error_from_error err = elim (blame_user err) [
  | false ↦ record {
    code = error_code (cast err).0;
    err = "";
    message = "internal server error";
    details = none;
  }
  | true ↦ record {
    code = error_code (cast err).0;
    err = error_text (cast err).0;
    message = error_message (cast err).0;
    details = error_details (cast err).0;
  }
]

-- `RoleAssignmentOrder` (messages/acting.go); `none` is an invalid `nulls.UInt32`.
pub record RoleAssignmentOrder : Type 0 where
  pub displayed_name : String
  pub key : String
  pub role : String
  pub min : Option ℕ
  pub max : Option ℕ

-- `RoleAssignment`
pub record RoleAssignment : Type 0 where
  pub key : String
  pub actor_id : String

-- The content of a message that is sent. The nil slice of orders is the empty one.
pub data Content : Type 0 where
  no_content : Content
  you_are_in : String → String → Content
  join_open : String → Content
  fixture_basic_state : String → Bool → Bool → Content
  fixture_dimmer_state : String → Bool → Bool → ℕ → Content
  error_content : MessageError → Content
  request_role_assignments : List RoleAssignmentOrder → Content

-- `ActorOutgoingMessage` (acting/acting.go)
pub record OutgoingMessage : Type 0 where
  pub message_type : String
  pub content : Content

-- What wrapping adds to an error that is not the user's fault never reaches a client: the message
-- made from the wrapped error is the one made from the error itself; it has the code that `Cast`
-- reads, no cause, the same text for all errors, and no details.
pub message_error-wrap :
    (e : GoError) (context : String) (added : Details)
    → blame_user e ≡ false
    → (message_error_from_error (wrap e context added) ≡ message_error_from_error e)
      × ((message_error_from_error (wrap e context added)).code ≡ error_code (cast e).0)
      × ((message_error_from_error (wrap e context added)).err ≡ "")
      × ((message_error_from_error (wrap e context added)).message ≡ "internal server error")
      × ((message_error_from_error (wrap e context added)).details ≡ none)
unfolding message_error_from_error wrap
message_error-wrap nil context added h = (refl, refl, refl, refl, refl)
message_error-wrap (native s) context added h = (refl, refl, refl, refl, refl)
message_error-wrap (masc (mk_error c e m d)) context added h = ground arith
