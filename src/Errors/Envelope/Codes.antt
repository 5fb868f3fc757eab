-- ===== src/Errors/Envelope/Codes.antt =====
-- What a client reads off an error's envelope.
use agntspark_gateway.Prelude.{
  ℕ, ◌≡◌, refl, ap, List, map, Option, none, some, [], ◌∷◌, string_eq, string_dec,
}
use agntspark_gateway.Models.{Text}
use agntspark_gateway.Errors
use agntspark_gateway.Errors.{
  Error, status_for, class_of, rate_limit_exceeded, is_instance, error_response,
}
use agntspark_gateway.Errors.Envelope.{
  Value, number, CoreErrors, code_of, details_of, retry_in, agntspark_error_handler, FieldError,
  entry_of, validation_error_handler,
}

-- the seconds of a header
abbrev seconds : Option ℕ → Option Value
seconds none = none
seconds (some n) = some (number n)

module _ (core : CoreErrors)
    (plain : (id : ℕ) → retry_in (core.authorisation_details id) ≡ none) where
  -- The response to an exception has its class's status, and a Retry-After header just where the
  -- exception is a refusal of a rate limit, with its seconds: no other exception has such a detail.
  -- (Nor have the details of agntspark_core.)
  agntspark_error_handler-error_response :
      (e : Error)
      → let r = agntspark_error_handler core e in
        (r.status ≡ (error_response e).0) × (r.retry_after ≡ seconds (error_response e).1)
  unfolding agntspark_error_handler code_of details_of error_response status_for class_of string_eq
      string_dec
  agntspark_error_handler-error_response (Errors.authorisation id) = (refl, plain id)
  agntspark_error_handler-error_response (rate_limit_exceeded n) = (refl, refl)
  agntspark_error_handler-error_response _ = (refl, refl)

-- an error over another submitted value
abbrev with_input : Text → FieldError → FieldError
with_input input e = record e { input = input }

same_entries :
    (input : Text) (errors : List FieldError)
    → map entry_of (map (with_input input) errors) ≡ map entry_of errors
unfolding entry_of
same_entries input [] = refl
same_entries input (e ∷ errors) = ap (λ rest. entry_of e ∷ rest) (same_entries input errors)

-- The response to a request that does not validate is the same whatever was submitted: it never has a
-- password or another value of the caller's.
validation_error_handler-with_input :
    (input : Text) (errors : List FieldError)
    → validation_error_handler (map (with_input input) errors) ≡ validation_error_handler errors
unfolding validation_error_handler
validation_error_handler-with_input input errors = rw (same_entries input errors) refl
