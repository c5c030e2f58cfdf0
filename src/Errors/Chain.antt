-- ===== src/Errors/Chain.antt =====
-- Go error values and the functions of package errors that the program calls on them, with the
-- sentinels of transfer/client.go. A node of a chain has the type that errors.As asks for (`Kind`)
-- and its text; `pair` is what fmt.Errorf("%w: %w", sentinel, err) makes.
use goblin_ftp.Base.{
  ℕ, Bool, true, false, ◌&&◌, ◌||◌, List, [], ◌∷◌, ◌++◌, Bytes, codes, Option, none, some, leb,
}
use goblin_ftp.Text.{has_prefix}

-- The sentinels of the transfer package, the API's own, and those of the standard library;
-- `bad_archive` stands for those of gzip, tar and zip that tagCorrupt knows.
pub data Sentinel : Type 0 where
  listing_limit : Sentinel
  auth_failed : Sentinel
  connection_failed : Sentinel
  permissions_not_supported : Sentinel
  tls_failed : Sentinel
  host_key_mismatch : Sentinel
  connection_timeout : Sentinel
  connection_lost : Sentinel
  not_found : Sentinel
  file_exists : Sentinel
  permission_denied : Sentinel
  quota_exceeded : Sentinel
  dir_not_empty : Sentinel
  data_connection_failed : Sentinel
  transfer_incomplete : Sentinel
  host_key_store_unavailable : Sentinel
  subsystem_unavailable : Sentinel
  invalid_type : Sentinel
  storage_limit : Sentinel
  chunk_missing : Sentinel
  staging_unavailable : Sentinel
  library_listing_limit : Sentinel
  eof : Sentinel
  unexpected_eof : Sentinel
  epipe : Sentinel
  econnreset : Sentinel
  net_closed : Sentinel
  deadline_exceeded : Sentinel
  context_deadline : Sentinel
  context_canceled : Sentinel
  archive_too_large : Sentinel
  archive_escape : Sentinel
  archive_corrupt : Sentinel
  tree_too_deep : Sentinel
  bad_archive : Sentinel

-- *textproto.Error, *sftp.StatusError, *os.PathError, a net.Error with its Timeout(), or another.
pub data Kind : Type 0 where
  reply : (code : ℕ) (msg : Bytes) → Kind
  status : (code : ℕ) → Kind
  path_error : Kind
  net_error : (timeout : Bool) → Kind
  other : Kind

pub data GoError : Type 0 where
  sentinel : Sentinel → Kind → Bytes → GoError
  leaf : Kind → Bytes → GoError
  wrap : Kind → Bytes → GoError → GoError
  pair : Sentinel → GoError → GoError

-- Sentinels are compared by identity.
abbrev pub rank : Sentinel → ℕ
rank listing_limit = 0
rank auth_failed = 1
rank connection_failed = 2
rank permissions_not_supported = 3
rank tls_failed = 4
rank host_key_mismatch = 5
rank connection_timeout = 6
rank connection_lost = 7
rank not_found = 8
rank file_exists = 9
rank permission_denied = 10
rank quota_exceeded = 11
rank dir_not_empty = 12
rank data_connection_failed = 13
rank transfer_incomplete = 14
rank host_key_store_unavailable = 15
rank subsystem_unavailable = 16
rank invalid_type = 17
rank storage_limit = 18
rank chunk_missing = 19
rank staging_unavailable = 20
rank library_listing_limit = 21
rank eof = 22
rank unexpected_eof = 23
rank epipe = 24
rank econnreset = 25
rank net_closed = 26
rank deadline_exceeded = 27
rank context_deadline = 28
rank context_canceled = 29
rank archive_too_large = 30
rank archive_escape = 31
rank archive_corrupt = 32
rank tree_too_deep = 33
rank bad_archive = 34

abbrev pub same : Sentinel → Sentinel → Bool
same a b = leb (rank a) (rank b) && leb (rank b) (rank a)

-- errors.Is
unfoldable pub is : GoError → Sentinel → Bool
is (sentinel s k m) t = same s t
is (leaf k m) t = false
is (wrap k m e) t = is e t
is (pair s e) t = same s t || is e t

abbrev pub as_reply_kind : Kind → Option (ℕ × Bytes)
as_reply_kind (reply code msg) = some (code, msg)
as_reply_kind _ = none

abbrev pub as_status_kind : Kind → Option ℕ
as_status_kind (status code) = some code
as_status_kind _ = none

abbrev pub as_path_kind : Kind → Option Bool
as_path_kind path_error = some true
as_path_kind _ = none

abbrev pub as_net_kind : Kind → Option Bool
as_net_kind (net_error timeout) = some timeout
as_net_kind _ = none

abbrev pub or_else {ℓ} : {A : Type ℓ} → Option A → Option A → Option A
or_else (some a) o = some a
or_else none o = o

-- errors.As for the type that `pick` recognizes; the sentinel of a pair has none of the types.
unfoldable pub as_kind {ℓ} : {A : Type ℓ} → (Kind → Option A) → GoError → Option A
as_kind pick (sentinel s k m) = pick k
as_kind pick (leaf k m) = pick k
as_kind pick (wrap k m e) = or_else (pick k) (as_kind pick e)
as_kind pick (pair s e) = as_kind pick e

-- Pairs are made with the program's own sentinels only, so the library's texts are not read.
unfoldable pub sentinel_text : Sentinel → Bytes
sentinel_text listing_limit = codes "directory listing exceeds limit"
sentinel_text auth_failed = codes "auth failed"
sentinel_text connection_failed = codes "connection failed"
sentinel_text permissions_not_supported = codes "permissions not supported"
sentinel_text tls_failed = codes "tls handshake failed"
sentinel_text host_key_mismatch = codes "host key mismatch"
sentinel_text connection_timeout = codes "connection timed out"
sentinel_text connection_lost = codes "connection lost"
sentinel_text not_found = codes "not found"
sentinel_text file_exists = codes "file exists"
sentinel_text permission_denied = codes "permission denied"
sentinel_text quota_exceeded = codes "quota exceeded"
sentinel_text dir_not_empty = codes "directory not empty"
sentinel_text data_connection_failed = codes "data connection failed"
sentinel_text transfer_incomplete = codes "transfer incomplete"
sentinel_text host_key_store_unavailable = codes "host key store unavailable"
sentinel_text subsystem_unavailable = codes "sftp subsystem unavailable"
sentinel_text invalid_type = codes "invalid type"
sentinel_text storage_limit = codes "temporary storage quota exceeded"
sentinel_text chunk_missing = codes "staged chunk missing"
sentinel_text staging_unavailable = codes "chunk storage unavailable"
sentinel_text archive_too_large = codes "archive expands beyond the maximum extracted size"
sentinel_text archive_escape = codes "archive entry escapes the destination"
sentinel_text archive_corrupt = codes "archive is truncated or corrupt"
sentinel_text tree_too_deep = codes "directory tree is nested too deeply"
sentinel_text _ = []

-- err.Error()
unfoldable pub error : GoError → Bytes
error (sentinel s k m) = m
error (leaf k m) = m
error (wrap k m e) = m
error (pair s e) = sentinel_text s ++ codes ": " ++ error e

-- deepestMessage of api/errclass.go: errors.Unwrap gives nil for a pair.
unfoldable pub deepest_message : GoError → Bytes
deepest_message (sentinel s k m) = m
deepest_message (leaf k m) = m
deepest_message (wrap k m e) = deepest_message e
deepest_message (pair s e) = error (pair s e)

-- strings.Contains, and `contains` of errclass.go over the needles.
unfoldable pub has_substring : Bytes → Bytes → Bool
has_substring [] n = has_prefix n []
has_substring (c ∷ s) n = has_prefix n (c ∷ s) || has_substring s n

unfoldable pub contains : Bytes → List Bytes → Bool
contains haystack [] = false
contains haystack (n ∷ needles) = has_substring haystack n || contains haystack needles
