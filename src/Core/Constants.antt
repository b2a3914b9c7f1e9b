-- ===== src/Core/Constants.antt =====
-- app/core/constants.py.
use ats_project_management_b.Prelude.{ℕ, String}

-- `ErrorCode`, in the order of its members.
pub data ErrorCode : Type 0 where
  internal_error validation_error not_found conflict stale_version rate_limited : ErrorCode
  unauthorized forbidden invalid_credentials invalid_token token_reuse_detected : ErrorCode
  inactive_account weak_password duplicate_email already_member file_too_large : ErrorCode

abbrev pub error_code_value : ErrorCode → String
error_code_value ErrorCode.internal_error = "INTERNAL_ERROR"
error_code_value ErrorCode.validation_error = "VALIDATION_ERROR"
error_code_value ErrorCode.not_found = "NOT_FOUND"
error_code_value ErrorCode.conflict = "CONFLICT"
error_code_value ErrorCode.stale_version = "STALE_VERSION"
error_code_value ErrorCode.rate_limited = "RATE_LIMITED"
error_code_value ErrorCode.unauthorized = "UNAUTHORIZED"
error_code_value ErrorCode.forbidden = "FORBIDDEN"
error_code_value ErrorCode.invalid_credentials = "INVALID_CREDENTIALS"
error_code_value ErrorCode.invalid_token = "INVALID_TOKEN"
error_code_value ErrorCode.token_reuse_detected = "TOKEN_REUSE_DETECTED"
error_code_value ErrorCode.inactive_account = "INACTIVE_ACCOUNT"
error_code_value ErrorCode.weak_password = "WEAK_PASSWORD"
error_code_value ErrorCode.duplicate_email = "DUPLICATE_EMAIL"
error_code_value ErrorCode.already_member = "ALREADY_MEMBER"
error_code_value ErrorCode.file_too_large = "FILE_TOO_LARGE"

abbrev pub default_page_size : ℕ
default_page_size = 20

abbrev pub max_page_size : ℕ
max_page_size = 100

-- The step between the positions of a column's tasks, before it becomes a float.
abbrev pub position_step : ℕ
position_step = 1000
