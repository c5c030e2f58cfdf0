-- ===== src/Auth/Session.antt =====
-- backend/internal/auth/session.go: the Session type and its accessors. Each accessor holds the
-- session's mutex, so it is one step. The map nil for `uploads` reads as the empty map.
use goblin_ftp.Base.{
  ℕ, Bool, true, false, List, [], Bytes, bytes_has_eq, Option, none, some, map, if◌then◌else◌,
}
use goblin_ftp.Base.Map.{Map, lookup, insert, erase}
use goblin_ftp.Tokens.{Payload}

-- The values that the handlers store under a key: texts, a flag, the protocol client (by its
-- address) and the payload of a pending login.
pub data Value : Type 0 where
  text : Bytes → Value
  flag : Bool → Value
  client : ℕ → Value
  pending : Payload → Value

-- Uploads are shared objects, given by their addresses. `busy` is the transfer lock.
pub record Session : Type 0 where
  pub id : Bytes
  pub connection_id : Bytes
  pub download_key : Bytes
  pub expires_at : ℕ
  pub hard_expiry : ℕ
  pub values : Map Bytes Value
  pub uploads : Map Bytes ℕ
  pub busy : Bool

unfoldable pub get : Session → Bytes → Option Value
get s key = lookup key s.values

abbrev pub as_string : Option Value → Bytes
as_string (some (text t)) = t
as_string (some (flag b)) = []
as_string (some (client p)) = []
as_string (some (pending p)) = []
as_string none = []

unfoldable pub get_string : Session → Bytes → Bytes
unfolding get
get_string s key = as_string (get s key)

unfoldable pub set : Session → Bytes → Value → Session
set s key val = record s { values = insert key val s.values }

unfoldable pub delete : Session → Bytes → Session
delete s key = record s { values = erase key s.values }

unfoldable pub put_upload : Session → Bytes → ℕ → Session
put_upload s id meta = record s { uploads = insert id meta s.uploads }

unfoldable pub get_upload : Session → Bytes → Option ℕ
get_upload s id = lookup id s.uploads

unfoldable pub upload_ids : Session → List Bytes
upload_ids s = map (λ e. e.0) s.uploads

unfoldable pub delete_upload : Session → Bytes → Session
delete_upload s id = record s { uploads = erase id s.uploads }

-- LockTransfer returns once the lock is free; `none` while another holds it.
unfoldable pub lock_transfer : Session → Option Session
lock_transfer s = if s.busy then none else some (record s { busy = true })

unfoldable pub unlock_transfer : Session → Session
unlock_transfer s = record s { busy = false }

unfoldable pub try_lock_transfer : Session → Session × Bool
try_lock_transfer s = if s.busy then (s, false) else (record s { busy = true }, true)
