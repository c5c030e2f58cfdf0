-- ===== src/Downloads.antt =====
-- backend/internal/api/download.go: IssueDownloadToken and DownloadFile, with the transfer lock held from
-- the Stat on. The route is public and puts no session into the context, so that failClient clears
-- none. The write of the response is an argument.
pub mod Lengths
pub mod Links
mod Tests
use goblin_ftp.Base.{
  ℕ, Bool, true, false, not, ◌&&◌, ◌||◌, List, [], ◌∷◌, Bytes, codes, bytes_has_eq, ◌==◌, nat_eq,
  ltb, if◌then◌else◌, Option, none, some, ◌⊎◌, inl, inr,
}
use goblin_ftp.Base.Ints.{ℤ, pos, negsuc}
use goblin_ftp.Text.{path_base}
use goblin_ftp.Errors.{Code}
use goblin_ftp.Errors.Chain.{GoError}
use goblin_ftp.Errors.Classify.{is_conn_lost, fail_client}
use goblin_ftp.Remote.{FileInfo, StatResult, found, failed, Reader, Client}
use goblin_ftp.Auth.Session
use goblin_ftp.Auth.Session.{Session}
use goblin_ftp.Auth.Store
use goblin_ftp.Auth.Store.{Store}
use goblin_ftp.Sso.Status.{as_client, client_key}
use goblin_ftp.Tokens.{TokenError, issue_token, validate_token}

abbrev pub is_unsafe : ℕ → Bool
is_unsafe c = nat_eq c b'"' || nat_eq c 92 || nat_eq c b'\r' || nat_eq c b'\n' || nat_eq c b'\t'

-- Of a name in UTF-8, as the bytes that go stand in no longer character.
unfoldable pub sanitize_filename : Bytes → Bytes
sanitize_filename [] = []
sanitize_filename (c ∷ s) = let rest = sanitize_filename s in if is_unsafe c then rest else c ∷ rest

-- The response behind its headers. `failed` says whether the copy or Close failed, `aborts` whether
-- the connection is broken for it.
pub record Stream : Type 0 where
  pub filename : Bytes
  pub content : Bytes
  pub content_length : Option ℤ
  pub failed : Bool
  pub aborts : Bool

unfoldable pub known_length : StatResult → Option ℤ
known_length (failed err) = none
known_length (found fi) = elim fi.size [
  | pos n ↦ if ltb 0 n then some (pos n) else none
  | negsuc n ↦ none
]

abbrev pub is_known : Option ℤ → Bool
is_known none = false
is_known (some n) = true

-- What ends the download before it begins: a directory, or a connection that is lost.
unfoldable pub stat_refusal : StatResult → Option (Code × Option GoError)
stat_refusal (found fi) = if fi.is_dir then some (Code.invalid_type, none) else none
stat_refusal (failed err) =
    if is_conn_lost (some err) then some (Code.operation_failed, some err) else none

-- Fail, or failClient, which finds no session in the context.
unfoldable pub refusal_code : (Bytes → Bytes) → Session → Code × Option GoError → Code
refusal_code to_lower sess (code, none) = code
refusal_code to_lower sess (code, some err) = (fail_client to_lower sess code (some err)).1.code

abbrev pub stream_of : Bytes → StatResult → Reader → Bool → Stream
stream_of path stat reader unwritten =
    let cut_off = reader.read_failed || unwritten || reader.close_failed in
    record {
      filename = sanitize_filename (path_base path);
      content = reader.content;
      content_length = known_length stat;
      failed = cut_off;
      aborts = cut_off && not (is_known (known_length stat));
    }

module _ (hmac : Bytes → Bytes → Bytes) (secret : Bytes) where
  -- With the expiry, fifteen minutes from now.
  unfoldable pub issue_download_token : Session → Bytes → ℤ → Code ⊎ Bytes
  issue_download_token sess path expiry =
      if path == []
      then inl Code.bad_request
      else inr (issue_token hmac secret sess.download_key path expiry)

  -- The session and the path of a token, with the address of the session's client.
  unfoldable pub open_link : Store → Bytes → ℤ → ℕ → Code ⊎ (ℕ × (ℕ × Bytes))
  open_link s token now get_now =
      if token == [] then inl Code.invalid_token else elim (validate_token hmac secret token now) [
        | inl err ↦ inl Code.invalid_token
        | inr link ↦ elim (Store.get_by_download_key s link.0 get_now) [
          | none ↦ inl Code.session_not_found
          | some p ↦ elim (as_client (Session.get (s.objects p) client_key)) [
            | none ↦ inl Code.session_not_found
            | some at ↦ inr (p, (at, link.1))
          ]
        ]
      ]

module _ {R : Type 0} (client : ℕ → Client R) (to_lower : Bytes → Bytes) where
  unfoldable pub stream_file : R → Session → ℕ → Bytes → Bool → R × (Code ⊎ Stream)
  stream_file r sess at path unwritten =
      let (r1, stat) = (client at).stat r path in
      let (r2, opened) = (client at).download r1 path in
      elim (stat_refusal stat) [
        | some refusal ↦ (r1, inl (refusal_code to_lower sess refusal))
        | none ↦ elim opened [
          | inl err ↦ (r2, inl (refusal_code to_lower sess (Code.operation_failed, some err)))
          | inr reader ↦ (r2, inr (stream_of path stat reader unwritten))
        ]
      ]

  unfoldable pub download_file :
      (Bytes → Bytes → Bytes) → Bytes → R → Store → Bytes → ℤ → ℕ → Bool → R × (Code ⊎ Stream)
  download_file hmac secret r s token now get_now unwritten =
      elim (open_link hmac secret s token now get_now) [
        | inl code ↦ (r, inl code)
        | inr link ↦ stream_file r (s.objects link.0) link.1.0 link.1.1 unwritten
      ]
