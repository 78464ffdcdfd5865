-- ===== src/Http.antt =====
-- The errors that a handler throws (apps/api/src/errors.ts), with the failures of the SQLite
-- constraints, which better-sqlite3 throws.
use key_page.Prelude.{ℕ, String, List}

pub record Detail : Type 0 where
  pub field : String
  pub message : String

pub data HttpError : Type 0 where
  invalid_request : String → List Detail → HttpError
  setup_required vault_already_initialized : HttpError
  invalid_credentials : (attempts_remaining : ℕ) → HttpError
  rate_limited : String → (retry_after_seconds : ℕ) → HttpError
  unauthenticated session_expired : HttpError
  invalid_recovery_code : (attempts_remaining : ℕ) → HttpError
  key_version_mismatch : (field : String) (expected received : ℕ) → HttpError
  invalid_recovery_ticket invalid_setup_token https_required : HttpError
  internal_error : HttpError
  constraint_primary_key constraint_unique : HttpError

unfoldable pub status_code : HttpError → ℕ
status_code (invalid_request m ds) = 400
status_code setup_required = 409
status_code vault_already_initialized = 409
status_code (invalid_credentials n) = 401
status_code (rate_limited m n) = 429
status_code unauthenticated = 401
status_code session_expired = 401
status_code (invalid_recovery_code n) = 401
status_code (key_version_mismatch f e r) = 409
status_code invalid_recovery_ticket = 401
status_code invalid_setup_token = 401
status_code https_required = 403
status_code internal_error = 500
status_code constraint_primary_key = 500
status_code constraint_unique = 500
