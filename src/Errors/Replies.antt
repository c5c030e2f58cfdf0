-- ===== src/Errors/Replies.antt =====
-- FTP replies through the adapter (ftp/errclass.go) and the API (api/errclass.go).
use goblin_ftp.Base.{
  ℕ, ◌≡◌, refl, Bool, true, false, ◌||◌, List, [], ◌∷◌, ◌++◌, Bytes, codes, if◌then◌else◌, Option,
  none, some, arith, ◌≢◌,
}
use goblin_ftp.Errors.{Code}
use goblin_ftp.Errors.Chain.{
  Sentinel, GoError, leaf, reply, pair, is, as_kind, error, deepest_message, contains,
  has_substring, sentinel_text,
}
use goblin_ftp.Errors.Ftp.{wrap550, wrap_reply, wrap_some, wrap_err, reply_in}
use goblin_ftp.Errors.Classify.{is_conn_lost, is_timeout_err, classify_code}

-- The phrases by which isConnLost knows a lost connection from the text alone.
abbrev pub lost_phrases : List Bytes
lost_phrases =
    codes "broken pipe"
    ∷ codes "connection reset"
    ∷ codes "use of closed network connection"
    ∷ codes "connection lost"
    ∷ []

-- A reply of the server, as the FTP library hands it over.
abbrev pub ftp_reply : ℕ → Bytes → Bytes → GoError
ftp_reply code msg text = leaf (reply code msg) text

-- What the reply code alone says; 550 is left to the wording of the reply.
abbrev pub reply_meaning : ℕ → Option Sentinel
reply_meaning code =
    if reply_in code (421 ∷ [])
    then some Sentinel.connection_lost
    else if reply_in code (425 ∷ 426 ∷ 522 ∷ [])
    then some Sentinel.data_connection_failed
    else if reply_in code (552 ∷ [])
    then some Sentinel.quota_exceeded
    else if reply_in code (553 ∷ [])
    then some Sentinel.permission_denied
    else if reply_in code (530 ∷ 532 ∷ [])
    then some Sentinel.auth_failed
    else if reply_in code (551 ∷ 503 ∷ [])
    then some Sentinel.invalid_type
    else none

abbrev pub api_code : Sentinel → Code
api_code Sentinel.connection_lost = Code.connection_lost
api_code Sentinel.data_connection_failed = Code.data_connection_failed
api_code Sentinel.quota_exceeded = Code.quota_exceeded
api_code Sentinel.permission_denied = Code.file_permission
api_code Sentinel.auth_failed = Code.auth_failed
api_code Sentinel.invalid_type = Code.invalid_type
api_code _ = Code.operation_failed

has_substring-append : (s t n : Bytes) → has_substring t n ≡ true → has_substring (s ++ t) n ≡ true
unfolding has_substring
has_substring-append [] t n h = h
has_substring-append (c ∷ s) t n h = ground (arith, has_substring-append s t n h)

contains-append :
    (s t : Bytes) (ns : List Bytes) → contains t ns ≡ true → contains (s ++ t) ns ≡ true
unfolding contains
contains-append s t [] h = h
contains-append s t (n ∷ ns) h = ground (arith, has_substring-append s t n, contains-append s t ns)

wrap_reply_lem :
    (to_lower : Bytes → Bytes) (err : GoError) (code : ℕ) (msg : Bytes) (s : Sentinel)
    → reply_meaning code ≡ some s
    → wrap_reply to_lower err code msg ≡ pair s err
unfolding wrap_reply
wrap_reply_lem to_lower err code msg s h = ground arith

-- How the sentinels that a reply code gives are classified.
classify_pair :
    (to_lower : Bytes → Bytes) (s : Sentinel) (code : ℕ) (msg text : Bytes)
    → (reply_code : ℕ) → reply_meaning reply_code ≡ some s
    → (s ≢ Sentinel.connection_lost
        → contains (error (pair s (ftp_reply code msg text))) lost_phrases ≡ false)
    → classify_code to_lower (some (pair s (ftp_reply code msg text))) ≡ api_code s
unfolding classify_code is_conn_lost is_timeout_err is as_kind deepest_message
classify_pair to_lower Sentinel.connection_lost code msg text r m h = refl
classify_pair to_lower Sentinel.data_connection_failed code msg text r m h = rw (h (λ e. cc)) refl
classify_pair to_lower Sentinel.quota_exceeded code msg text r m h = rw (h (λ e. cc)) refl
classify_pair to_lower Sentinel.permission_denied code msg text r m h = rw (h (λ e. cc)) refl
classify_pair to_lower Sentinel.auth_failed code msg text r m h = rw (h (λ e. cc)) refl
classify_pair to_lower Sentinel.invalid_type code msg text r m h = rw (h (λ e. cc)) refl
classify_pair to_lower _ code msg text r m h = ground arith

wrap_err-reply :
    (to_lower : Bytes → Bytes) (code : ℕ) (msg text : Bytes)
    → wrap_err to_lower (some (ftp_reply code msg text))
      ≡ some (wrap_reply to_lower (ftp_reply code msg text) code msg)
unfolding wrap_err wrap_some is as_kind
wrap_err-reply to_lower code msg text = refl

-- A reply whose code has a meaning of its own gets, through the adapter and the API, the code of
-- that meaning, whatever its wording, unless the wrapped text holds one of the four phrases for a
-- lost connection.
pub reply_classified :
    (to_lower : Bytes → Bytes) (code : ℕ) (msg text : Bytes) (s : Sentinel)
    → reply_meaning code ≡ some s
    → (s ≢ Sentinel.connection_lost
        → contains (error (pair s (ftp_reply code msg text))) lost_phrases ≡ false)
    → classify_code to_lower (wrap_err to_lower (some (ftp_reply code msg text))) ≡ api_code s
reply_classified to_lower code msg text s m h =
    rw
      (
        wrap_err-reply to_lower code msg text,
        wrap_reply_lem to_lower (ftp_reply code msg text) code msg s m,
      )
      (classify_pair to_lower s code msg text code m h)

leaf-is_conn_lost :
    (k : ℕ) (msg text : Bytes)
    → contains text lost_phrases ≡ true
    → is_conn_lost (some (ftp_reply k msg text)) ≡ true
unfolding is_conn_lost is as_kind deepest_message
leaf-is_conn_lost k msg text h = h

pair-is_conn_lost :
    (s : Sentinel) (k : ℕ) (msg text : Bytes)
    → contains text lost_phrases ≡ true
    → is_conn_lost (some (pair s (ftp_reply k msg text))) ≡ true
unfolding is_conn_lost is as_kind deepest_message error
pair-is_conn_lost s k msg text h =
    let e = pair s (ftp_reply k msg text) in
    if_true (is e Sentinel.connection_lost)
      (is e Sentinel.epipe
        || is e Sentinel.econnreset
        || is e Sentinel.eof
        || is e Sentinel.unexpected_eof
        || is e Sentinel.net_closed)
      (contains (error e) lost_phrases)
      (contains-append (sentinel_text s ++ codes ": ") text lost_phrases h)
  where
    if_true : (a b c : Bool) → c ≡ true → (if a then true else (if b then true else c)) ≡ true
    if_true a b c h = ground arith

wrap550-is_conn_lost :
    (to_lower : Bytes → Bytes) (code : ℕ) (msg text : Bytes)
    → contains text lost_phrases ≡ true
    → is_conn_lost (some (wrap550 to_lower (ftp_reply code msg text) msg)) ≡ true
unfolding wrap550
wrap550-is_conn_lost to_lower code msg text h = ground (
  arith,
  leaf-is_conn_lost code msg text h,
  pair-is_conn_lost Sentinel.dir_not_empty code msg text h,
  pair-is_conn_lost Sentinel.permission_denied code msg text h,
  pair-is_conn_lost Sentinel.not_found code msg text h,
  pair-is_conn_lost Sentinel.file_exists code msg text h,
  pair-is_conn_lost Sentinel.quota_exceeded code msg text h,
)

wrap_reply-is_conn_lost :
    (to_lower : Bytes → Bytes) (code : ℕ) (msg text : Bytes)
    → contains text lost_phrases ≡ true
    → is_conn_lost (some (wrap_reply to_lower (ftp_reply code msg text) code msg)) ≡ true
unfolding wrap_reply
wrap_reply-is_conn_lost to_lower code msg text h = ground (
  arith,
  leaf-is_conn_lost code msg text h,
  wrap550-is_conn_lost to_lower code msg text h,
  pair-is_conn_lost Sentinel.connection_lost code msg text h,
  pair-is_conn_lost Sentinel.data_connection_failed code msg text h,
  pair-is_conn_lost Sentinel.quota_exceeded code msg text h,
  pair-is_conn_lost Sentinel.permission_denied code msg text h,
  pair-is_conn_lost Sentinel.auth_failed code msg text h,
  pair-is_conn_lost Sentinel.invalid_type code msg text h,
)

-- The wording alone decides: a reply of the server whose text holds one of the four phrases, a
-- file of that name for instance, is taken for a lost connection, whatever its code says.
pub reply_wording_lost :
    (to_lower : Bytes → Bytes) (code : ℕ) (msg text : Bytes)
    → contains text lost_phrases ≡ true
    → is_conn_lost (wrap_err to_lower (some (ftp_reply code msg text))) ≡ true
reply_wording_lost to_lower code msg text h =
    rw (wrap_err-reply to_lower code msg text) (wrap_reply-is_conn_lost to_lower code msg text h)
