-- ===== src/Errors.antt =====
-- exceptions.py and error_handlers.py: what a request can raise, the classes of these exceptions,
-- and the HTTP status of each. Messages are not modelled, only what the handlers branch on.
pub mod Envelope
pub mod Status
use agntspark_gateway.Prelude.{ℕ, String, Bool, Option, none, some, List, [], ◌∷◌, contains, Eq}
use agntspark_gateway.Prelude.{if◌then◌else◌}

pub data ErrorClass : Type 0 where
  agnt_spark_error authentication_error authorisation_error : ErrorClass
  email_already_registered_error not_found_error api_key_not_found_error : ErrorClass
  agent_not_found_error access_key_not_found_error not_implemented_stub_error : ErrorClass
  build_not_supported_error rate_limit_exceeded_error quota_exceeded_error : ErrorClass
  billing_not_configured_error billing_conflict_error invalid_webhook_error : ErrorClass
  user_not_found_error registration_closed_error invalid_invite_error : ErrorClass
  invite_not_found_error deployment_failed_error secret_decryption_error : ErrorClass

class_discrete : Discrete ErrorClass
class_discrete = hlevel

instance unfoldable pub class_eq : Eq ErrorClass
unfolding class_discrete
class_eq = record { dec = class_discrete }

-- the bases of a class, itself first; `NotFoundError` is the only class with subclasses here
unfoldable pub mro : ErrorClass → List ErrorClass
mro agnt_spark_error = agnt_spark_error ∷ []
mro api_key_not_found_error = api_key_not_found_error ∷ not_found_error ∷ agnt_spark_error ∷ []
mro agent_not_found_error = agent_not_found_error ∷ not_found_error ∷ agnt_spark_error ∷ []
mro access_key_not_found_error =
    access_key_not_found_error ∷ not_found_error ∷ agnt_spark_error ∷ []
mro user_not_found_error = user_not_found_error ∷ not_found_error ∷ agnt_spark_error ∷ []
mro invite_not_found_error = invite_not_found_error ∷ not_found_error ∷ agnt_spark_error ∷ []
mro c = c ∷ agnt_spark_error ∷ []

unfoldable pub is_instance : ErrorClass → ErrorClass → Bool
unfolding mro class_eq
is_instance c t = contains (mro c) t

abbrev pub status_map : List (ErrorClass × ℕ)
status_map =
    (authentication_error, 401)
    ∷ (authorisation_error, 403)
    ∷ (invalid_invite_error, 403)
    ∷ (quota_exceeded_error, 403)
    ∷ (invalid_webhook_error, 400)
    ∷ (billing_conflict_error, 409)
    ∷ (billing_not_configured_error, 503)
    ∷ (registration_closed_error, 403)
    ∷ (not_found_error, 404)
    ∷ (api_key_not_found_error, 404)
    ∷ (email_already_registered_error, 409)
    ∷ (rate_limit_exceeded_error, 429)
    ∷ (not_implemented_stub_error, 501)
    ∷ (build_not_supported_error, 501)
    ∷ (deployment_failed_error, 502)
    ∷ []

-- the loop of `_status_for` over the items of the map
unfoldable pub status_in : List (ErrorClass × ℕ) → ErrorClass → ℕ
unfolding is_instance
status_in [] c = 500
status_in ((t, code) ∷ rest) c = if is_instance c t then code else status_in rest c

unfoldable pub status_for : ErrorClass → ℕ
unfolding status_in
status_for = status_in status_map

-- The resources that `QuotaExceededError` names.
pub data Resource : Type 0 where
  agents replicas vcpu memory_mb cpu_per_replica memory_mb_per_replica : Resource

-- An exception with the arguments that its details keep.
pub data Error : Type 0 where
  authentication : Error
  authorisation : ℕ → Error
  email_already_registered : String → Error
  api_key_not_found access_key_not_found user_not_found invite_not_found : ℕ → Error
  agent_not_found : String → Error
  build_not_supported : Error
  rate_limit_exceeded : ℕ → Error
  -- resource, plan, limit, current, requested
  quota_exceeded : Resource → String → ℕ → Option ℕ → ℕ → Error
  billing_not_configured : Error
  billing_conflict : String → Error
  invalid_webhook registration_closed invalid_invite : Error
  deployment_failed : String → String → Error
  secret_decryption : Error
  -- FastAPI's `RequestValidationError`
  request_validation : Error
  -- any exception that is no `AgntSparkError`
  unhandled : Error

unfoldable pub class_of : Error → Option ErrorClass
class_of authentication = some authentication_error
class_of (authorisation _) = some authorisation_error
class_of (email_already_registered _) = some email_already_registered_error
class_of (api_key_not_found _) = some api_key_not_found_error
class_of (access_key_not_found _) = some access_key_not_found_error
class_of (user_not_found _) = some user_not_found_error
class_of (invite_not_found _) = some invite_not_found_error
class_of (agent_not_found _) = some agent_not_found_error
class_of build_not_supported = some build_not_supported_error
class_of (rate_limit_exceeded _) = some rate_limit_exceeded_error
class_of (quota_exceeded _ _ _ _ _) = some quota_exceeded_error
class_of billing_not_configured = some billing_not_configured_error
class_of (billing_conflict _) = some billing_conflict_error
class_of invalid_webhook = some invalid_webhook_error
class_of registration_closed = some registration_closed_error
class_of invalid_invite = some invalid_invite_error
class_of (deployment_failed _ _) = some deployment_failed_error
class_of secret_decryption = some secret_decryption_error
class_of request_validation = none
class_of unhandled = none

-- The response to a request that raises: the status, and the `Retry-After` header from the details.
-- `agntspark_error_handler`, `validation_error_handler`, and `unhandled_error_handler` for the rest.
unfoldable pub error_response : Error → ℕ × Option ℕ
unfolding status_for class_of
error_response (rate_limit_exceeded retry_after) =
    (status_for rate_limit_exceeded_error, some retry_after)
error_response request_validation = (422, none)
error_response e = elim (class_of e) [ none ↦ (500, none) | some c ↦ (status_for c, none) ]
