-- ===== src/Core.antt =====
-- src/core/errors.ts: the application's error codes, and what a call that may throw returns.
-- A JavaScript method that throws keeps the writes that it made before, so a method returns the
-- new state beside its result.

pub mod BackgroundFailure

pub data ErrorCode : Type 0 where
  configuration_error unknown_session ambiguous_session session_detached : ErrorCode
  session_busy session_idle thread_not_found cwd_mismatch : ErrorCode
  endpoint_unavailable endpoint_identity_changed unsupported_capability : ErrorCode
  directive_mismatch directive_already_consumed attachment_invalid : ErrorCode
  delivery_failed delivery_uncertain operation_conflict operation_failed : ErrorCode
  operation_uncertain capacity_exceeded permission_blocked : ErrorCode

pub ErrorCode-discrete : Discrete ErrorCode
ErrorCode-discrete = hlevel

-- What a promise or a call comes to: a value, an `AppError` with its code, or another error.
pub data Result {ℓ} (A : Type ℓ) : Type ℓ where
  ok : A → Result A
  app_error : ErrorCode → Result A
  error : Result A
