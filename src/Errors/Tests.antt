-- ===== src/Errors/Tests.antt =====
-- Replies and responses at concrete errors.
use goblin_ftp.Base.{◌≡◌, ◌≢◌, refl, true, [], ◌∷◌, Bytes, codes, some, arith}
use goblin_ftp.Errors.{Code, http_status, code_status}
use goblin_ftp.Text.{has_prefix}
use goblin_ftp.Base.Map.{lookup}
use goblin_ftp.Errors.Chain.{
  is, as_kind, error, deepest_message, contains, has_substring, sentinel_text, Sentinel, GoError,
  leaf, sentinel, other, wrap, path_error,
}
use goblin_ftp.Errors.Ftp.{wrap_err}
use goblin_ftp.Errors.Classify.{is_conn_lost, fail_client}
use goblin_ftp.Errors.Replies.{reply_wording_lost, ftp_reply}
use goblin_ftp.Errors.Status.{fail_client-http_status}
use goblin_ftp.Auth.Session.{Session, get, client}

abbrev keep_case : Bytes → Bytes
keep_case s = s

abbrev connected : Session
connected = record {
  id = codes "s";
  connection_id = codes "c";
  download_key = codes "k";
  expires_at = 100;
  hard_expiry = 0;
  values = (codes "client", client 7) ∷ [];
  uploads = [];
  busy = true;
}

abbrev full_disk : Bytes
full_disk = codes "552 Exceeded storage allocation"

-- The name of a file is enough.
abbrev no_such_file : Bytes
no_such_file = codes "550 connection lost.txt: No such file"

reply_wording_lost_example :
    is_conn_lost (wrap_err keep_case (some (ftp_reply 550 no_such_file no_such_file))) ≡ true
unfolding is as_kind error deepest_message contains has_substring has_prefix sentinel_text
    is_conn_lost code_status get lookup
reply_wording_lost_example = reply_wording_lost keep_case 550 no_such_file no_such_file refl

abbrev eof_error : GoError
eof_error = sentinel Sentinel.eof other (codes "EOF")

fail_client-http_status_example :
    http_status (some (fail_client keep_case connected Code.list_failed (some eof_error)).1) ≢ 500
unfolding is as_kind error deepest_message contains has_substring has_prefix sentinel_text
    is_conn_lost code_status get lookup
fail_client-http_status_example =
    fail_client-http_status keep_case connected Code.list_failed (some eof_error) (λ n. omega arith)

-- A path that reads like a lost connection, in an error of the file system.
abbrev named_error : GoError
named_error =
    wrap path_error (codes "open /connection lost: permission denied")
      (leaf other (codes "permission denied"))
