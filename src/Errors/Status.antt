-- ===== src/Errors/Status.antt =====
-- The status map of error_handlers.py against the class hierarchy.
use agntspark_gateway.Prelude.{◌≡◌, true, All, arith}
use agntspark_gateway.Errors.{ErrorClass, status_map, is_instance, status_for, agnt_spark_error}

-- Whatever entry of the map covers an exception, the handler answers with that entry's status: the
-- order of the entries never decides, and a subclass has the status of its base.
pub status_for-entry :
    (c : ErrorClass)
    → All (λ entry. is_instance c entry.0 ≡ true → status_for c ≡ entry.1) status_map
unfolding status_for is_instance
status_for-entry agnt_spark_error = ground arith
status_for-entry _ = ground arith
