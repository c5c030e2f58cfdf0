-- ===== src/Errors/Ftp.antt =====
-- backend/internal/ftp/errclass.go: FTP errors to the sentinels of the transfer package. A nil
-- error is `none`. strings.ToLower is a parameter.
use goblin_ftp.Base.{
  ℕ, Bool, false, ◌||◌, List, [], ◌∷◌, Bytes, codes, nat_eq, if◌then◌else◌, Option, none, some,
}
use goblin_ftp.Errors.Chain.{
  Sentinel, GoError, pair, sentinel, is, as_kind, as_reply_kind, as_net_kind, error, contains,
  other, sentinel_text,
}

abbrev pub wrapped : Sentinel → GoError → GoError
wrapped = pair

abbrev pub bare : Sentinel → GoError
bare s = sentinel s other (sentinel_text s)

abbrev pub reply_in : ℕ → List ℕ → Bool
reply_in code [] = false
reply_in code (c ∷ cs) = nat_eq code c || reply_in code cs

unfoldable pub is_timeout : GoError → Bool
is_timeout err =
    is err Sentinel.deadline_exceeded
    || (elim (as_kind as_net_kind err) [ none ↦ false | some timeout ↦ timeout ])

unfoldable pub is_socket_loss : GoError → Bool
is_socket_loss err =
    is err Sentinel.eof
    || is err Sentinel.unexpected_eof
    || is err Sentinel.epipe
    || is err Sentinel.econnreset
    || is err Sentinel.net_closed

module _ (to_lower : Bytes → Bytes) where
  unfoldable pub wrap550 : GoError → Bytes → GoError
  wrap550 err msg =
      let m = to_lower msg in
      if contains m (
        codes "not empty"
        ∷ codes "directory not empty"
        ∷ codes "remove directory operation failed"
        ∷ [])
      then wrapped Sentinel.dir_not_empty err
      else if contains m
          (codes "permission denied" ∷ codes "access denied" ∷ codes "access is denied" ∷ [])
      then wrapped Sentinel.permission_denied err
      else if contains m (
          codes "no such file"
          ∷ codes "no such directory"
          ∷ codes "not found"
          ∷ codes "does not exist"
          ∷ [])
      then wrapped Sentinel.not_found err
      else if contains m (codes "already exists" ∷ codes "file exists" ∷ [])
      then wrapped Sentinel.file_exists err
      else if contains m (codes "quota" ∷ codes "disk full" ∷ codes "no space" ∷ [])
      then wrapped Sentinel.quota_exceeded err
      else err

  unfoldable pub is_data_conn_failure : GoError → Bool
  is_data_conn_failure err = contains (to_lower (error err)) (
      codes "invalid epsv response format"
      ∷ codes "invalid pasv response format"
      ∷ codes "invalid port response format"
      ∷ codes "cannot open data connection"
      ∷ [])

  -- The switch on te.Code.
  unfoldable pub wrap_reply : GoError → ℕ → Bytes → GoError
  wrap_reply err code msg =
      if reply_in code (421 ∷ [])
      then wrapped Sentinel.connection_lost err
      else if reply_in code (425 ∷ 426 ∷ 522 ∷ [])
      then wrapped Sentinel.data_connection_failed err
      else if reply_in code (552 ∷ [])
      then wrapped Sentinel.quota_exceeded err
      else if reply_in code (553 ∷ [])
      then wrapped Sentinel.permission_denied err
      else if reply_in code (530 ∷ 532 ∷ [])
      then wrapped Sentinel.auth_failed err
      else if reply_in code (551 ∷ 503 ∷ [])
      then wrapped Sentinel.invalid_type err
      else if reply_in code (550 ∷ [])
      then wrap550 err msg
      else err

  -- What follows the two tests on nil and on the listing limit.
  unfoldable pub wrap_some : GoError → GoError
  wrap_some err = elim (as_kind as_reply_kind err) [
    | some (code, msg) ↦ wrap_reply err code msg
    | none ↦
        if is_timeout err
        then wrapped Sentinel.connection_timeout err
        else if is_socket_loss err
        then wrapped Sentinel.connection_lost err
        else if is_data_conn_failure err
        then wrapped Sentinel.data_connection_failed err
        else err
  ]

  unfoldable pub wrap_err : Option GoError → Option GoError
  wrap_err none = none
  wrap_err (some err) =
      if is err Sentinel.library_listing_limit
      then some (bare Sentinel.listing_limit)
      else some (wrap_some err)
