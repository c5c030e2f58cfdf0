-- ===== src/Errors/Sftp.antt =====
-- backend/internal/sftp/errclass.go: SFTP errors to the sentinels of the transfer package. The
-- status codes are those of the SFTP protocol, which pkg/sftp names.
use goblin_ftp.Base.{ℕ, ◌||◌, nat_eq, if◌then◌else◌, Option, none, some}
use goblin_ftp.Errors.Chain.{Sentinel, GoError, is, as_kind, as_status_kind}
use goblin_ftp.Errors.Ftp.{wrapped, bare, is_timeout, is_socket_loss}

unfoldable pub wrap_status : GoError → ℕ → GoError
wrap_status err code =
    if nat_eq code 2
    then wrapped Sentinel.not_found err
    else if nat_eq code 3
    then wrapped Sentinel.permission_denied err
    else if nat_eq code 8
    then wrapped Sentinel.permissions_not_supported err
    else if nat_eq code 6 || nat_eq code 7
    then wrapped Sentinel.connection_lost err
    else if nat_eq code 5
    then wrapped Sentinel.invalid_type err
    else err

-- The functions is_timeout and is_socket_loss are, text for text, those of the FTP adapter.
unfoldable pub wrap_some : GoError → GoError
wrap_some err = elim (as_kind as_status_kind err) [
  | some code ↦ wrap_status err code
  | none ↦
      if is_timeout err
      then wrapped Sentinel.connection_timeout err
      else if is_socket_loss err
      then wrapped Sentinel.connection_lost err
      else err
]

unfoldable pub wrap_err : Option GoError → Option GoError
wrap_err none = none
wrap_err (some err) =
    if is err Sentinel.library_listing_limit
    then some (bare Sentinel.listing_limit)
    else some (wrap_some err)
