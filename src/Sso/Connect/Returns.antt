-- ===== src/Sso/Connect/Returns.antt =====
-- When SSOConnect of backend/internal/api/sso.go returns: LockTransfer is the one call that could wait
-- for the handler itself.
use goblin_ftp.Base.{ℕ, ◌<◌, ◌≡◌, ◌≢◌, Bytes, bytes_has_eq, Option, some}
use goblin_ftp.Base.Map.{lookup}
use goblin_ftp.Auth.Session
use goblin_ftp.Auth.Session.{Session}
use goblin_ftp.Auth.Store
use goblin_ftp.Auth.Store.{Store}
use goblin_ftp.Auth.Throttle
use goblin_ftp.Cookies.{Cookies, only_named}
use goblin_ftp.Login.Checks.{Library}
use goblin_ftp.Sso.Connect.{ConnectAnswers}

abbrev pub Returns {ℓ} : {A : Type ℓ} → Option A → Type ℓ
Returns {A = A} m = (r : A) × (m ≡ some r)

-- The session cookie of the request does not name the session `p`.
abbrev pub Avoids : Store → ℕ → Bytes → Cookies → Type 0
Avoids s p name cookies =
    (value : Bytes) → only_named name cookies ≡ some value → lookup value s.sessions ≢ some p

module _ (lib : Library) (evict : Session → Session) (p : ℕ) (ip : Bytes) (a : ConnectAnswers) where
  -- What the handler needs of the store.
  abbrev pub IsClear : Store → Type 0
  IsClear s = (p < s.next) × Avoids s p a.session_name a.cookies
