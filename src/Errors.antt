-- ===== src/Errors.antt =====
-- backend/internal/errors/errors.go: the codes and the typed error of the API. A nil *GFTPError is
-- `none`; the cause, which only logs read, is a parameter type of the error.
pub mod Chain
pub mod Ftp
pub mod Sftp
pub mod Classify
pub mod Replies
pub mod Status
mod Tests
use goblin_ftp.Base.{ℕ, Option, none, some, Bytes, List, []}

-- `no_code` is the empty code, which callers pass for "none of mine".
pub data Code : Type 0 where
  no_code : Code
  unsupported_server : Code
  capacity : Code
  listing_limit : Code
  stale_connection : Code
  connection_failed : Code
  auth_failed : Code
  login_throttled : Code
  file_not_found : Code
  file_exists : Code
  file_modified : Code
  dir_not_empty : Code
  file_permission : Code
  list_failed : Code
  operation_failed : Code
  bad_request : Code
  unauthorized : Code
  forbidden : Code
  internal : Code
  not_implemented : Code
  invalid_type : Code
  login_disabled : Code
  csrf_invalid : Code
  session_not_found : Code
  quota_exceeded : Code
  connection_timeout : Code
  permissions_not_supported : Code
  upload_not_found : Code
  invalid_token : Code
  archive_format : Code
  file_too_large : Code
  editor_disabled : Code
  storage_unavailable : Code
  connection_lost : Code
  host_key_mismatch : Code
  tls_failed : Code
  data_connection_failed : Code
  transfer_incomplete : Code

pub record GftpError : Type 0 where
  pub code : Code
  pub message : Bytes

unfoldable pub error_code : Option GftpError → Code
error_code none = no_code
error_code (some e) = e.code

unfoldable pub error_text : Option GftpError → Bytes
error_text none = []
error_text (some e) = e.message

unfoldable pub code_status : Code → ℕ
code_status capacity = 429
code_status listing_limit = 422
code_status stale_connection = 409
code_status bad_request = 400
code_status invalid_type = 400
code_status unauthorized = 401
code_status auth_failed = 401
code_status session_not_found = 401
code_status csrf_invalid = 401
code_status forbidden = 403
code_status login_throttled = 403
code_status file_permission = 403
code_status login_disabled = 403
code_status file_not_found = 404
code_status file_exists = 409
code_status dir_not_empty = 409
code_status file_modified = 409
code_status quota_exceeded = 507
code_status not_implemented = 501
code_status connection_timeout = 504
code_status permissions_not_supported = 422
code_status upload_not_found = 404
code_status invalid_token = 401
code_status archive_format = 422
code_status unsupported_server = 422
code_status editor_disabled = 403
code_status file_too_large = 413
code_status storage_unavailable = 503
code_status internal = 500
code_status connection_lost = 502
code_status host_key_mismatch = 502
code_status tls_failed = 502
code_status data_connection_failed = 502
code_status transfer_incomplete = 502
code_status list_failed = 502
code_status connection_failed = 502
code_status operation_failed = 502
code_status no_code = 500

unfoldable pub http_status : Option GftpError → ℕ
unfolding code_status
http_status none = 500
http_status (some e) = code_status e.code
