-- ===== src/Sso/World.antt =====
-- backend/internal/api/sso.go: what its handlers share, the names of what a pending session holds and
-- pendingSession; sanitizeTenant of backend/internal/api/themes.go.
use goblin_ftp.Base.{
  ℕ, Bool, true, false, not, ◌&&◌, ◌||◌, List, [], ◌∷◌, Bytes, codes, bytes_has_eq, nat_has_eq, leb,
  if◌then◌else◌, Option, none, some, nat_eq, length,
}
use goblin_ftp.Base.Sets.{remove}
use goblin_ftp.Auth.Session
use goblin_ftp.Auth.Session.{Session, Value, text, flag, client, pending}
use goblin_ftp.Auth.Store.{Store}
use goblin_ftp.Auth.Throttle.{Throttle}
use goblin_ftp.Sso.UsedSet.{UsedSet}
use goblin_ftp.Cookies.{Cookies}
use goblin_ftp.Guards.{lookup_session, csrf_key}
use goblin_ftp.Tokens.{Payload, validate_csrf_token}

-- `clients` are the connections that logins have opened and not closed again.
pub record SsoWorld : Type 0 where
  pub throttle : Throttle
  pub store : Store
  pub used : UsedSet
  pub clients : List ℕ

abbrev pub pending_key : Bytes
pending_key = codes "sso_pending"

abbrev pub is_present : Option Value → Bool
is_present none = false
is_present (some value) = true

-- The session of the pending cookie, if it holds a pending login.
unfoldable pub pending_session : Store → Bytes → Cookies → ℕ → Option ℕ
pending_session s name cookies now = elim (lookup_session s name cookies now) [
  | none ↦ none
  | some p ↦ if is_present (Session.get (s.objects p) pending_key) then some p else none
]

abbrev pub as_payload : Option Value → Option Payload
as_payload (some (pending payload)) = some payload
as_payload (some (text t)) = none
as_payload (some (flag b)) = none
as_payload (some (client p)) = none
as_payload none = none

-- requirePending, with the CSRF header of the request; none where it refuses.
unfoldable pub require_pending : Store → Bytes → Cookies → Bytes → ℕ → Option ℕ
require_pending s name cookies header now = elim (pending_session s name cookies now) [
  | none ↦ none
  | some p ↦
      if validate_csrf_token (Session.get_string (s.objects p) csrf_key) header
      then some p
      else none
]

unfoldable pub close_client : SsoWorld → ℕ → SsoWorld
close_client w at = record w { clients = remove at w.clients }

-- A class of the pattern of a tenant: lower case letters and digits, "_" and "-" behind the first.
unfoldable pub is_tenant_byte : Bool → ℕ → Bool
is_tenant_byte first c =
    leb b'a' c && leb c b'z'
    || leb b'0' c && leb c b'9'
    || not first && (nat_eq c b'_' || nat_eq c b'-')

unfoldable pub all_tenant_bytes : Bytes → Bool
all_tenant_bytes [] = true
all_tenant_bytes (c ∷ s) = is_tenant_byte false c && all_tenant_bytes s

unfoldable pub sanitize_tenant : Bytes → Bytes
sanitize_tenant [] = []
sanitize_tenant (c ∷ s) =
    if is_tenant_byte true c && all_tenant_bytes s && leb (length s) 63 then c ∷ s else []
