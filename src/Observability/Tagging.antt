-- ===== src/Observability/Tagging.antt =====
-- The ids that responses carry.
use agntspark_gateway.Prelude.{
  ℕ, ◌≡◌, refl, sym, ap, ◌∙◌, false≢true, true, not, Option, none, some, List, [], ◌∷◌, ◌++◌,
  select, arith, Bool-cases, inl, inr, if◌then◌else◌, ◌==◌, text_eq, ==_refl, contains, string_eq,
}
use agntspark_gateway.Models.{Text}
use agntspark_gateway.Observability.{
  request_id_header, Header, is_valid_request_id, request_id_for, Message, response_start,
  response_body, other_message, send_with_id, status_after, quiet_paths, Scope, AccessLine,
  sent_with_id, call_app,
}

-- the values of the request id's headers, and the other headers
abbrev pub ids_in : List Header → List Text
ids_in [] = []
ids_in (h ∷ headers) =
    let rest = ids_in headers in if h.0 == request_id_header then h.1 ∷ rest else rest

abbrev pub others_in : List Header → List Header
others_in = select (λ h. not (h.0 == request_id_header))

-- A message goes out as the application sent it, but the start of a response carries this id, once.
abbrev pub IsTagged : Text → Message → Message → Type 0
IsTagged id (response_start s before) (response_start t after) =
    (t ≡ s) × (ids_in after ≡ id ∷ []) × (others_in after ≡ others_in before)
IsTagged id (response_body b) m = m ≡ response_body b
IsTagged id (other_message t) m = m ≡ other_message t
IsTagged id (response_start s before) _ = ⊥

abbrev pub AllTagged : Text → List Message → List Message → Type 0
AllTagged id [] [] = Unit
AllTagged id (m ∷ sent) (n ∷ out) = IsTagged id m n × AllTagged id sent out
AllTagged id _ _ = ⊥

ids_in-append :
    (id : Text) (headers : List Header)
    → ids_in (others_in headers ++ (request_id_header, id) ∷ []) ≡ id ∷ []
ids_in-append id [] = ground (arith, ==_refl request_id_header)
ids_in-append id (h ∷ headers) = ground (arith, ids_in-append id headers)

others_in-append :
    (id : Text) (headers : List Header)
    → others_in (others_in headers ++ (request_id_header, id) ∷ []) ≡ others_in headers
others_in-append id [] = ground (arith, ==_refl request_id_header)
others_in-append id (h ∷ headers) = ground (arith, others_in-append id headers)

send_with_id-IsTagged : (id : Text) (m : Message) → IsTagged id m (send_with_id id m)
unfolding send_with_id
send_with_id-IsTagged id (response_start s headers) =
    (refl, ids_in-append id headers, others_in-append id headers)
send_with_id-IsTagged id (response_body b) = refl
send_with_id-IsTagged id (other_message t) = refl

sent_with_id-AllTagged :
    (id : Text) (messages : List Message) → AllTagged id messages (sent_with_id id messages)
unfolding sent_with_id
sent_with_id-AllTagged id [] = tt
sent_with_id-AllTagged id (m ∷ messages) =
    (send_with_id-IsTagged id m, sent_with_id-AllTagged id messages)

request_id_valid :
    (fresh : Text) (headers : List Header)
    → is_valid_request_id fresh ≡ true
    → is_valid_request_id (request_id_for fresh headers) ≡ true
unfolding request_id_for
request_id_valid fresh [] h = h
request_id_valid fresh ((name, value) ∷ headers) h = ground (arith, request_id_valid fresh headers)

status_after-sent :
    (id : Text) (s : ℕ) (messages : List Message)
    → status_after s (sent_with_id id messages) ≡ status_after s messages
unfolding status_after sent_with_id send_with_id
status_after-sent id s [] = refl
status_after-sent id s (response_start t headers ∷ messages) = status_after-sent id t messages
status_after-sent id s (response_body b ∷ messages) = status_after-sent id s messages
status_after-sent id s (other_message t ∷ messages) = status_after-sent id s messages

abbrev logged_status : Option AccessLine → ℕ
logged_status none = 0
logged_status (some line) = line.status

-- what the middleware makes of a request
pub record IsTraced (fresh : Text) (scope : Scope) (sent : List Message)
    (out : List Message × Option AccessLine) : Type 0 where
  pub valid : is_valid_request_id (request_id_for fresh scope.headers) ≡ true
  pub tagged : AllTagged (request_id_for fresh scope.headers) sent out.0
  pub logged : (line : AccessLine) → out.1 ≡ some line → line.status ≡ status_after 500 out.0
  pub silent : contains quiet_paths scope.path ≡ true → out.1 ≡ none

pub call_app-IsTraced :
    (fresh : Text) (scope : Scope) (messages : List Message)
    → is_valid_request_id fresh ≡ true
    → scope.is_http ≡ true
    → IsTraced fresh scope messages (call_app fresh scope messages)
unfolding call_app
call_app-IsTraced fresh scope messages valid http =
    let id = request_id_for fresh scope.headers in
    let sent = sent_with_id-AllTagged id messages in
    let valid_id = request_id_valid fresh scope.headers valid in
    elim (Bool-cases (contains quiet_paths scope.path)) [
      | inl quiet ↦
          rw (http, quiet)
            (record { valid = valid_id; tagged = sent; logged = λ line e. cc; silent = λ _. refl })
      | inr noisy ↦
          rw (http, noisy)
            (record {
              valid = valid_id;
              tagged = sent;
              logged = λ line e. sym (ap logged_status e) ∙ sym (status_after-sent id 500 messages);
              silent = λ q. absurd (false≢true (sym noisy ∙ q));
            })
    ]
