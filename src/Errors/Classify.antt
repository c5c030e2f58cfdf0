-- ===== src/Errors/Classify.antt =====
-- backend/internal/api/errclass.go and connlost.go: an error of the transfer client to the code
-- and the message of the response. strings.ToLower is a parameter.
use goblin_ftp.Base.{
  Bool, true, false, ◌||◌, [], ◌∷◌, Bytes, codes, if◌then◌else◌, Option, none, some, bytes_has_eq,
}
use goblin_ftp.Errors.{Code, GftpError}
use goblin_ftp.Errors.Chain.{
  Sentinel, GoError, is, as_kind, as_net_kind, as_path_kind, deepest_message, contains,
}
use goblin_ftp.Auth.Session.{Session, delete, get, client, Value}

unfoldable pub friendly_message : Code → Option Bytes
friendly_message Code.capacity =
    some (codes "The operation exceeds the available resource capacity.")
friendly_message Code.listing_limit = some (codes "The directory listing exceeds the maximum size.")
friendly_message Code.connection_lost = some (codes "The connection to the server was lost.")
friendly_message Code.connection_timeout = some (codes "The server stopped responding.")
friendly_message Code.data_connection_failed = some (
    codes
      "The data connection to the server failed. Passive mode, NAT, or a firewall may be blocking it.")
friendly_message Code.transfer_incomplete =
    some (codes "The transfer ended early, so the file may be incomplete on the server.")
friendly_message Code.dir_not_empty = some (codes "The folder is not empty or is in use.")
friendly_message Code.file_permission = some (codes "Permission denied by the server.")
friendly_message Code.file_not_found = some (codes "The item no longer exists on the server.")
friendly_message Code.file_exists =
    some (codes "An item with that name already exists on the server.")
friendly_message Code.quota_exceeded = some (codes "The server is out of storage space.")
friendly_message Code.permissions_not_supported =
    some (codes "This server does not support changing permissions.")
friendly_message Code.invalid_type = some (codes "That operation is not valid for this item.")
friendly_message Code.auth_failed = some (codes "The server rejected the credentials.")
friendly_message Code.connection_failed = some (codes "The server could not be reached.")
friendly_message Code.list_failed = some (codes "The folder could not be listed.")
friendly_message Code.storage_unavailable = some (codes "Temporary storage is unavailable.")
friendly_message Code.operation_failed = some (codes "The operation could not be completed.")
friendly_message _ = none

abbrev pub text_or_empty : Option Bytes → Bytes
text_or_empty none = []
text_or_empty (some m) = m

unfoldable pub message_for : Code → Bytes
unfolding friendly_message
message_for code = elim (friendly_message code) [
  | some m ↦ m
  | none ↦ text_or_empty (friendly_message Code.operation_failed)
]

unfoldable pub is_timeout_err : GoError → Bool
is_timeout_err err =
    if is err Sentinel.context_canceled
    then false
    else if is err Sentinel.deadline_exceeded || is err Sentinel.context_deadline
    then true
    else (elim (as_kind as_net_kind err) [ none ↦ false | some timeout ↦ timeout ])

abbrev pub found {ℓ} : {A : Type ℓ} → Option A → Bool
found none = false
found (some a) = true

unfoldable pub is_conn_lost : Option GoError → Bool
is_conn_lost none = false
is_conn_lost (some err) =
    if is err Sentinel.connection_lost
    then true
    else if is err Sentinel.epipe
        || is err Sentinel.econnreset
        || is err Sentinel.eof
        || is err Sentinel.unexpected_eof
        || is err Sentinel.net_closed
    then true
    else if found (as_kind as_path_kind err)
    then false
    else contains (deepest_message err) (
        codes "broken pipe"
        ∷ codes "connection reset"
        ∷ codes "use of closed network connection"
        ∷ codes "connection lost"
        ∷ [])

-- The code that is kept where none was recognized.
unfoldable pub final_code : Code → Code → Code
final_code Code.operation_failed Code.no_code = Code.operation_failed
final_code Code.operation_failed code = code
final_code classified code = classified

-- client.Close() is called on what is there, if it is a client.
unfoldable pub drop_client : Session → Option Value → Session
drop_client sess (some (client p)) = delete sess (codes "client")
drop_client sess _ = sess

module _ (to_lower : Bytes → Bytes) where
  unfoldable pub classify_text : GoError → Code
  classify_text err =
      let msg = to_lower (deepest_message err) in
      if contains msg (codes "not empty" ∷ codes "remove directory operation failed" ∷ [])
      then Code.dir_not_empty
      else if contains msg
          (codes "permission denied" ∷ codes "access is denied" ∷ codes "access denied" ∷ [])
      then Code.file_permission
      else if contains msg
          (codes "already exists" ∷ codes "file exists" ∷ codes "destination exists" ∷ [])
      then Code.file_exists
      else if contains msg (
          codes "no such file"
          ∷ codes "no such directory"
          ∷ codes "does not exist"
          ∷ codes "not found"
          ∷ [])
      then Code.file_not_found
      else if contains msg
          (codes "quota" ∷ codes "no space" ∷ codes "disk full" ∷ codes "storage allocation" ∷ [])
      then Code.quota_exceeded
      else Code.operation_failed

  unfoldable pub classify_code : Option GoError → Code
  classify_code none = Code.operation_failed
  classify_code (some err) =
      if is err Sentinel.storage_limit
      then Code.capacity
      else if is err Sentinel.listing_limit
      then Code.listing_limit
      else if is_conn_lost (some err)
      then Code.connection_lost
      else if is err Sentinel.connection_timeout || is_timeout_err err
      then Code.connection_timeout
      else if is err Sentinel.data_connection_failed
      then Code.data_connection_failed
      else if is err Sentinel.transfer_incomplete
      then Code.transfer_incomplete
      else if is err Sentinel.dir_not_empty
      then Code.dir_not_empty
      else if is err Sentinel.permission_denied
      then Code.file_permission
      else if is err Sentinel.not_found
      then Code.file_not_found
      else if is err Sentinel.file_exists
      then Code.file_exists
      else if is err Sentinel.quota_exceeded
      then Code.quota_exceeded
      else if is err Sentinel.permissions_not_supported
      then Code.permissions_not_supported
      else if is err Sentinel.invalid_type
      then Code.invalid_type
      else if is err Sentinel.auth_failed
      then Code.auth_failed
      else if is err Sentinel.connection_failed
      then Code.connection_failed
      else classify_text err

  unfoldable pub classify : Option GoError → Code × Bytes
  classify err = (classify_code err, message_for (classify_code err))

  -- The response, and the session in which a lost connection's client is closed and cleared.
  unfoldable pub fail_client : Session → Code → Option GoError → Session × GftpError
  fail_client sess code err =
      if is_conn_lost err
      then (
        drop_client sess (get sess (codes "client")),
        record { code = Code.connection_lost; message = codes "connection to the server was lost" },
      )
      else (
        sess,
        record {
          code = final_code (classify_code err) code;
          message = message_for (final_code (classify_code err) code);
        },
      )
