-- ===== src/Observability.antt =====
-- observability.py: the id of a request, and the middleware that wraps every response. Header names
-- come in lower case and values as latin-1 texts, as ASGI gives them. Logging itself is left out.
pub mod Tagging
use agntspark_gateway.Prelude.{
  ℕ, String, Bool, true, false, not, Option, none, some, List, [], ◌∷◌, ◌++◌, length, select, leb,
  contains, string_eq, if◌then◌else◌, ◌==◌, ◌&&◌, ◌||◌, nat_eq, text_eq,
}
use agntspark_gateway.Prelude.Characters.{codes, is_lower, is_upper, is_digit}
use agntspark_gateway.Models.{Text}

-- `REQUEST_ID_HEADER`
abbrev pub request_id_header : Text
request_id_header = codes "x-request-id"

abbrev pub Header : Type 0
Header = Text × Text

-- `[A-Za-z0-9._-]`
abbrev pub is_id_char : ℕ → Bool
is_id_char c = is_upper c || is_lower c || is_digit c || c == b'.' || c == b'_' || c == b'-'

unfoldable pub all_id_chars : Text → Bool
all_id_chars [] = true
all_id_chars (c ∷ s) = is_id_char c && all_id_chars s

-- `$` also matches before a newline at the end
unfoldable pub before_newline : Text → Text
before_newline [] = []
before_newline (c ∷ s) = if s == [] && c == 10 then [] else c ∷ before_newline s

-- `_VALID_REQUEST_ID.match`
unfoldable pub is_valid_request_id : Text → Bool
unfolding all_id_chars before_newline
is_valid_request_id s =
    let id = before_newline s in leb 1 (length id) && leb (length id) 64 && all_id_chars id

-- `request_id_for`, with the id that `uuid4` draws
unfoldable pub request_id_for : Text → List Header → Text
unfolding is_valid_request_id
request_id_for fresh [] = fresh
request_id_for fresh ((name, value) ∷ headers) =
    let rest = request_id_for fresh headers in
    if name == request_id_header then (if is_valid_request_id value then value else fresh) else rest

-- a message that the application sends
pub data Message : Type 0 where
  response_start : ℕ → List Header → Message
  response_body : Text → Message
  other_message : String → Message

-- `send_with_id`
unfoldable pub send_with_id : Text → Message → Message
send_with_id request_id (response_start status headers) =
    response_start status
      (select (λ h. not (h.0 == request_id_header)) headers ++ (request_id_header, request_id) ∷ [])
send_with_id request_id (response_body body) = response_body body
send_with_id request_id (other_message type) = other_message type

-- `status_code` after the messages
unfoldable pub status_after : ℕ → List Message → ℕ
status_after status [] = status
status_after status (response_start s headers ∷ messages) = status_after s messages
status_after status (response_body body ∷ messages) = status_after status messages
status_after status (other_message type ∷ messages) = status_after status messages

-- `_QUIET_PATHS`
abbrev pub quiet_paths : List String
quiet_paths = "/healthz" ∷ "/readyz" ∷ "/metrics" ∷ []

pub record Scope : Type 0 where
  pub is_http : Bool
  pub method : String
  pub path : String
  pub headers : List Header

-- a line of the access log, without its duration
pub record AccessLine : Type 0 where
  pub method : String
  pub path : String
  pub status : ℕ

unfoldable pub sent_with_id : Text → List Message → List Message
unfolding send_with_id
sent_with_id request_id [] = []
sent_with_id request_id (m ∷ messages) =
    send_with_id request_id m ∷ sent_with_id request_id messages

-- `RequestContextMiddleware.__call__` on the messages that the application sends before it returns
-- or raises: those that go out, and the line that is logged in either case
unfoldable pub call_app : Text → Scope → List Message → List Message × Option AccessLine
unfolding request_id_for sent_with_id status_after
call_app fresh scope messages = if not scope.is_http then (messages, none) else (
  sent_with_id (request_id_for fresh scope.headers) messages,
  (if contains quiet_paths scope.path
      then none
      else some (record {
        method = scope.method;
        path = scope.path;
        status = status_after 500 messages;
      })),
)
