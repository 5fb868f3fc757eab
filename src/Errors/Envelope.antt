-- ===== src/Errors/Envelope.antt =====
-- exceptions.py and error_handlers.py: the body of the response to a request that fails. Messages for
-- people are left out. The codes and details of agntspark_core's own exceptions are parameters.
pub mod Codes
use agntspark_gateway.Prelude.{
  ℕ, String, Bool, Option, none, some, List, [], ◌∷◌, map, lookup, string_eq, is_set,
}
use agntspark_gateway.Models.{Text}
use agntspark_gateway.Errors.{
  Error, Resource, authentication, authorisation, email_already_registered, api_key_not_found,
  access_key_not_found, user_not_found, invite_not_found, agent_not_found, build_not_supported,
  rate_limit_exceeded, quota_exceeded, billing_not_configured, billing_conflict, invalid_webhook,
  registration_closed, invalid_invite, deployment_failed, secret_decryption, request_validation,
  unhandled, agents, replicas, vcpu, memory_mb, cpu_per_replica, memory_mb_per_replica, class_of,
  status_for,
}

-- a value in `details`: an identifier or an amount, a text, or null
pub data Value : Type 0 where
  number : ℕ → Value
  text : String → Value
  null : Value

abbrev pub Details : Type 0
Details = List (String × Value)

-- `AuthenticationError` and `AuthorisationError` of agntspark_core
pub record CoreErrors : Type 0 where
  pub authentication : String
  pub authorisation : String
  pub authorisation_details : ℕ → Option Details

abbrev pub resource_name : Resource → String
resource_name agents = "agents"
resource_name replicas = "replicas"
resource_name vcpu = "vcpu"
resource_name memory_mb = "memory_mb"
resource_name cpu_per_replica = "cpu_per_replica"
resource_name memory_mb_per_replica = "memory_mb_per_replica"

abbrev pub amount : Option ℕ → Value
amount none = null
amount (some n) = number n

module _ (core : CoreErrors) where
  -- `exc.code`
  unfoldable pub code_of : Error → String
  code_of authentication = core.authentication
  code_of (authorisation _) = core.authorisation
  code_of (email_already_registered _) = "EMAIL_ALREADY_REGISTERED"
  code_of (api_key_not_found _) = "NOT_FOUND"
  code_of (access_key_not_found _) = "NOT_FOUND"
  code_of (user_not_found _) = "NOT_FOUND"
  code_of (invite_not_found _) = "NOT_FOUND"
  code_of (agent_not_found _) = "NOT_FOUND"
  code_of build_not_supported = "BUILD_NOT_SUPPORTED"
  code_of (rate_limit_exceeded _) = "RATE_LIMIT_EXCEEDED"
  code_of (quota_exceeded _ _ _ _ _) = "QUOTA_EXCEEDED"
  code_of billing_not_configured = "BILLING_NOT_CONFIGURED"
  code_of (billing_conflict code) = code
  code_of invalid_webhook = "INVALID_WEBHOOK_SIGNATURE"
  code_of registration_closed = "REGISTRATION_CLOSED"
  code_of invalid_invite = "INVALID_INVITE"
  code_of (deployment_failed _ _) = "DEPLOYMENT_FAILED"
  code_of secret_decryption = "SECRET_DECRYPTION_FAILED"
  code_of request_validation = "VALIDATION_ERROR"
  code_of unhandled = "INTERNAL_ERROR"

  -- `exc.details`
  unfoldable pub details_of : Error → Option Details
  details_of (authorisation user_id) = core.authorisation_details user_id
  details_of (email_already_registered email) = some (("email", text email) ∷ [])
  details_of (api_key_not_found id) = some (("key_id", number id) ∷ [])
  details_of (access_key_not_found id) = some (("key_id", number id) ∷ [])
  details_of (user_not_found id) = some (("user_id", number id) ∷ [])
  details_of (invite_not_found id) = some (("invite_id", number id) ∷ [])
  details_of (agent_not_found id) = some (("agent_id", text id) ∷ [])
  details_of (rate_limit_exceeded retry_after) = some (("retry_after", number retry_after) ∷ [])
  details_of (quota_exceeded resource plan limit current requested) = some (
      ("resource", text (resource_name resource))
      ∷ ("plan", text plan)
      ∷ ("limit", number limit)
      ∷ ("current", amount current)
      ∷ ("requested", number requested)
      ∷ [])
  details_of (deployment_failed agent_id reason) =
      some (("agent_id", text agent_id) ∷ ("reason", text reason) ∷ [])
  details_of _ = none

-- a response: its status, the envelope, and the headers that the handlers set
pub record Reply (D : Type 0) : Type 0 where
  pub status : ℕ
  pub code : String
  pub details : D
  pub retry_after : Option Value
  pub request_id : Option Text

-- `exc.details.get("retry_after") if exc.details else None`, where null is no header
abbrev pub not_null : Option Value → Option Value
not_null (some null) = none
not_null v = v

abbrev pub retry_in : Option Details → Option Value
retry_in none = none
retry_in (some d) = not_null (lookup "retry_after" d)

-- the status of what is raised
abbrev pub status_of : Error → ℕ
status_of request_validation = 422
status_of e = elim (class_of e) [ none ↦ 500 | some c ↦ status_for c ]

-- `agntspark_error_handler`
unfoldable pub agntspark_error_handler : CoreErrors → Error → Reply (Option Details)
unfolding code_of details_of
agntspark_error_handler core e = record {
  status = status_of e;
  code = code_of core e;
  details = details_of core e;
  retry_after = retry_in (details_of core e);
  request_id = none;
}

-- an error of pydantic: where, what, and the value that was submitted
pub record FieldError : Type 0 where
  pub loc : List String
  pub msg : String
  pub type : String
  pub input : Text

-- an entry of `errors`
pub record ErrorEntry : Type 0 where
  pub loc : List String
  pub msg : String
  pub type : String

unfoldable pub entry_of : FieldError → ErrorEntry
entry_of e = record { loc = e.loc; msg = e.msg; type = e.type }

-- `validation_error_handler`
unfoldable pub validation_error_handler : List FieldError → Reply (List ErrorEntry)
unfolding entry_of
validation_error_handler errors = record {
  status = 422;
  code = "VALIDATION_ERROR";
  details = map entry_of errors;
  retry_after = none;
  request_id = none;
}

-- the header where there is an id
abbrev nonempty : Option Text → Option Text
nonempty none = none
nonempty (some []) = none
nonempty (some (c ∷ id)) = some (c ∷ id)

-- `unhandled_error_handler`, by the id that the middleware gave the request
unfoldable pub unhandled_error_handler : Option Text → Reply (Option Text)
unhandled_error_handler request_id = record {
  status = 500;
  code = "INTERNAL_ERROR";
  details = request_id;
  retry_after = none;
  request_id = nonempty request_id;
}
