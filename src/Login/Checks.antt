-- ===== src/Login/Checks.antt =====
-- backend/internal/api/connect.go and dialerror.go: the checks that Connect makes of a request, and
-- the classification of a failed dial.
use goblin_ftp.Base.{
  ℕ, Bool, true, false, not, ◌&&◌, ◌||◌, List, [], ◌∷◌, ◌++◌, Bytes, codes, bytes_has_eq, ◌==◌, ltb,
  leb, nat_eq, if◌then◌else◌, Option, none, some, length,
}
use goblin_ftp.Base.Ints.{ℤ, pos, negsuc}
use goblin_ftp.Errors.{Code}
use goblin_ftp.Errors.Chain.{Sentinel, GoError, is}
use goblin_ftp.Auth.Store.{Limits}

-- Whether the failure counts against the account, and the code of the response.
unfoldable pub classify_dial : GoError → Bool × Code
classify_dial err =
    if is err Sentinel.auth_failed
    then (true, Code.auth_failed)
    else if is err Sentinel.host_key_mismatch
    then (false, Code.host_key_mismatch)
    else if is err Sentinel.host_key_store_unavailable
    then (false, Code.storage_unavailable)
    else if is err Sentinel.tls_failed
    then (false, Code.tls_failed)
    else if is err Sentinel.connection_timeout
    then (false, Code.connection_timeout)
    else if is err Sentinel.subsystem_unavailable
    then (false, Code.connection_failed)
    else if is err Sentinel.data_connection_failed
    then (false, Code.data_connection_failed)
    else (false, Code.connection_failed)

pub record ConnectRequest : Type 0 where
  pub protocol : Bytes
  pub host : Bytes
  pub port : ℤ
  pub username : Bytes

pub record Settings : Type 0 where
  pub login_form_disabled : Bool
  pub allowed_types : List Bytes
  pub lock_host : Bool
  pub preset_host : Option Bytes
  pub preset_port : Option ℤ
  pub allowed_addresses : List Bytes
  pub limits : Limits
  pub login_max_attempts : ℕ
  pub cooldown : ℕ

-- net.ParseIP and ParseCIDR (`is_address`, and whether an entry of the allowlist admits an
-- address), strings.EqualFold and ToLower, strconv.Quote, net.JoinHostPort.
pub record Library : Type 0 where
  pub is_address : Bytes → Bool
  pub admits : Bytes → Bytes → Bool
  pub equal_fold : Bytes → Bytes → Bool
  pub to_lower : Bytes → Bytes
  pub quote : Bytes → Bytes
  pub join_host_port : Bytes → ℤ → Bytes

unfoldable pub is_allowed_type : Library → Bytes → List Bytes → Bool
is_allowed_type lib t [] = false
is_allowed_type lib t (a ∷ allowed) = lib.equal_fold a t || is_allowed_type lib t allowed

-- strings.TrimSuffix(s, ".")
unfoldable pub trim_dot : Bytes → Bytes
trim_dot [] = []
trim_dot (c ∷ []) = if nat_eq c b'.' then [] else c ∷ []
trim_dot (c ∷ d ∷ s) = c ∷ trim_dot (d ∷ s)

abbrev pub int_eq : ℤ → ℤ → Bool
int_eq (pos m) (pos n) = nat_eq m n
int_eq (negsuc m) (negsuc n) = nat_eq m n
int_eq (pos m) (negsuc n) = false
int_eq (negsuc m) (pos n) = false

unfoldable pub check_host_lock : Library → Settings → Bytes → ℤ → Option Code
check_host_lock lib cfg host port = elim cfg.preset_host [
  | none ↦ none
  | some preset ↦
      if not cfg.lock_host || preset == []
      then none
      else if not (lib.equal_fold (trim_dot host) (trim_dot preset))
      then some Code.forbidden
      else elim cfg.preset_port [
        | none ↦ none
        | some p ↦ if int_eq port p then none else some Code.forbidden
      ]
]

unfoldable pub any_admits : Library → List Bytes → Bytes → Bool
any_admits lib [] ip = false
any_admits lib (addr ∷ allowed) ip = lib.admits addr ip || any_admits lib allowed ip

unfoldable pub check_ip_allowlist : Library → List Bytes → Bytes → Option Code
check_ip_allowlist lib [] ip = none
check_ip_allowlist lib (addr ∷ allowed) ip =
    if lib.is_address ip && any_admits lib (addr ∷ allowed) ip then none else some Code.forbidden

unfoldable pub account_throttle_key : Library → Bytes → Bytes → Bytes
account_throttle_key lib host user =
    codes "account:" ++ (lib.quote (lib.to_lower (trim_dot host)) ++ (b':' ∷ lib.quote user))

-- The preset host and port of a locked instance stand in for missing ones.
unfoldable pub default_port : Bytes → ℤ
default_port protocol = if protocol == codes "sftp" then pos 22 else pos 21

unfoldable pub or_port : ℤ → ℤ → ℤ
or_port port other = if int_eq port (pos 0) then other else port

unfoldable pub fill_preset : Settings → ConnectRequest → ConnectRequest
fill_preset cfg req = elim cfg.preset_host [
  | none ↦ req
  | some preset ↦ if not cfg.lock_host then req else record req {
    host = if req.host == [] then preset else req.host;
    port =
        or_port (elim cfg.preset_port [ none ↦ req.port | some p ↦ or_port req.port p ])
          (default_port req.protocol);
  }
]

unfoldable pub is_port : ℤ → Bool
is_port (pos n) = ltb 0 n && leb n 65535
is_port (negsuc n) = false

unfoldable pub check_target : ConnectRequest → Bool
check_target req =
    not (
      req.host == []
      || req.username == []
      || ltb 255 (length req.host)
      || ltb 1024 (length req.username))
    && is_port req.port

-- The checks before anything is reserved, in order.
unfoldable pub check_request : Library → Settings → ConnectRequest → Bytes → Option Code
check_request lib cfg req ip =
    let filled = fill_preset cfg req in
    if cfg.login_form_disabled
    then some Code.login_disabled
    else if not (is_allowed_type lib req.protocol cfg.allowed_types)
    then some Code.invalid_type
    else if not (check_target filled)
    then some Code.bad_request
    else (elim (check_host_lock lib cfg filled.host filled.port) [
      | some code ↦ some code
      | none ↦ check_ip_allowlist lib cfg.allowed_addresses ip
    ])
