-- ===== src/Sso/Status.antt =====
-- backend/internal/api/sso.go: AuthStatus. Ping and its classification for the log are of the client;
-- `ping` is what it says for the client at an address.
mod Tests
use goblin_ftp.Base.{
  ℕ, ◌≡◌, ◌∙◌, refl, Bool, true, false, not, ◌&&◌, List, [], ◌∷◌, Bytes, codes, bytes_has_eq, ◌==◌,
  if◌then◌else◌, Option, none, some, arith, update, nat_eq, Option-cases, Bool-cases, inl, inr,
}
use goblin_ftp.Base.Map.{lookup, erase, lookup-erase}
use goblin_ftp.Errors.Chain.{GoError}
use goblin_ftp.Auth.Session
use goblin_ftp.Auth.Session.{Session, Value, text, flag, client, pending}
use goblin_ftp.Auth.Store
use goblin_ftp.Auth.Store.{Store}
use goblin_ftp.Cookies.{Cookies}
use goblin_ftp.Guards.{lookup_session, csrf_key}
use goblin_ftp.Sso.World.{is_present}

pub record StatusData : Type 0 where
  pub connection_id : Bytes
  pub language : Bytes
  pub connected : Bool
  pub csrf_token : Bytes
  pub host : Bytes
  pub initial_directory : Bytes
  pub disable_chmod : Option Bool

abbrev pub no_status : StatusData
no_status = record {
  connection_id = [];
  language = [];
  connected = false;
  csrf_token = [];
  host = [];
  initial_directory = [];
  disable_chmod = none;
}

abbrev pub client_key : Bytes
client_key = codes "client"

-- The client to ping, if the value is one.
abbrev pub as_client : Option Value → Option ℕ
as_client (some (client at)) = some at
as_client (some (text t)) = none
as_client (some (flag b)) = none
as_client (some (pending p)) = none
as_client none = none

abbrev pub as_flag : Option Value → Bool
as_flag (some (flag b)) = b
as_flag (some (client at)) = false
as_flag (some (text t)) = false
as_flag (some (pending p)) = false
as_flag none = false

unfoldable pub ping_client : (ℕ → Option GoError) → Session → ℕ → Session
ping_client ping sess at =
    let (held, locked) = Session.try_lock_transfer sess in
    if not locked then sess else elim (ping at) [
      | none ↦ Session.unlock_transfer held
      | some err ↦ Session.delete (Session.unlock_transfer held) client_key
    ]

-- The session behind the ping, which is made only where the request asks for one.
unfoldable pub checked : (ℕ → Option GoError) → Bool → Session → Session
checked ping asked sess = elim (as_client (Session.get sess client_key)) [
  | none ↦ sess
  | some at ↦ if asked then ping_client ping sess at else sess
]

unfoldable pub status_of : Session → StatusData
status_of sess =
    let connected = is_present (Session.get sess client_key) in
    if connected
    then record {
      connection_id = sess.connection_id;
      language = Session.get_string sess (codes "language");
      connected = true;
      csrf_token = Session.get_string sess csrf_key;
      host = Session.get_string sess (codes "host");
      initial_directory = Session.get_string sess (codes "initialDir");
      disable_chmod = some (as_flag (Session.get sess (codes "disableChmod")));
    }
    else record no_status { csrf_token = Session.get_string sess csrf_key }

unfoldable pub auth_status :
    (ℕ → Option GoError) → Store → Bytes → Cookies → ℕ → Bool → Store × StatusData
auth_status ping s name cookies now asked = elim (lookup_session s name cookies now) [
  | none ↦ (s, no_status)
  | some p ↦ let sess = checked ping asked (s.objects p) in (Store.write s p sess, status_of sess)
]
