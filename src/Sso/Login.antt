-- ===== src/Sso/Login.antt =====
-- backend/internal/api/sso.go: SSOLogin, SSOPending and SSOCancel. The clock, the random bytes, the
-- SHA-256 of the token and time.Unix are arguments; a redirect is its reason.

pub mod Release
pub mod Once
mod Tests
use goblin_ftp.Base.{
  ℕ, ◌+◌, ◌*◌, Bool, true, false, not, ◌&&◌, ◌||◌, List, [], ◌∷◌, ◌++◌, Bytes, codes, bytes_has_eq,
  ◌==◌, ltb, if◌then◌else◌, Option, none, some, ◌⊎◌, inl, inr, length,
}
use goblin_ftp.Base.Ints.{ℤ, pos}
use goblin_ftp.Errors.{Code}
use goblin_ftp.Auth.Session
use goblin_ftp.Auth.Session.{Session, text, pending}
use goblin_ftp.Auth.Store
use goblin_ftp.Auth.Store.{Store, Limits}
use goblin_ftp.Auth.Throttle
use goblin_ftp.Auth.Throttle.{Throttle}
use goblin_ftp.Sso.UsedSet
use goblin_ftp.Sso.UsedSet.{UsedSet}
use goblin_ftp.Cookies.{Cookies, pending_cookie}
use goblin_ftp.Guards.{csrf_key}
use goblin_ftp.Tokens.{Payload, SsoError, token_expired, Crypto, decrypt, generate_csrf_token}
use goblin_ftp.Login.Checks.{
  Settings, Library, is_allowed_type, check_host_lock, check_ip_allowlist, is_port,
}
use goblin_ftp.Sso.World.{SsoWorld, pending_key, pending_session, as_payload}

pub data Reason : Type 0 where
  disabled invalid expired used capacity internal : Reason

pub data Reply : Type 0 where
  app_name : Reply
  rejected : Reason → Reply
  login_pending : (id : Bytes) → Reply

-- What SSOLogin uses of the settings beyond those of Connect.
pub record SsoSettings : Type 0 where
  pub login : Settings
  pub enabled : Bool
  pub secret : Bytes
  pub pending_name : Bytes

-- crypto/sha256 with the hexadecimal form, and time.Unix on the clock of the other readings.
pub record Clockwork : Type 0 where
  pub token_hash : Bytes → Bytes
  pub unix : ℤ → ℕ

pub record SsoAnswers : Type 0 where
  pub decrypt_now : ℤ
  pub mark_now : ℕ
  pub reserve_now : ℕ
  pub settle_now : ℕ
  pub csrf : Option Bytes
  pub ids : Option Bytes × (Option Bytes × Option Bytes)
  pub new_now : ℕ
  pub expiry_now : ℕ
  pub get_now : ℕ

-- Five minutes of nanoseconds.
abbrev pub pending_lifetime : ℕ
pending_lifetime = 300000000000

unfoldable pub reject_reason : SsoError → Reason
reject_reason token_expired = expired
reject_reason _ = invalid

-- The earlier of five minutes from now and the expiry of the token.
unfoldable pub pending_expiry : Clockwork → Payload → ℕ → ℕ
pending_expiry clock p now =
    let expiry = now + pending_lifetime in
    if ltb (clock.unix p.exp) expiry then clock.unix p.exp else expiry

unfoldable pub fill_pending : Session → Bytes → Bytes → Payload → Session
fill_pending sess ip csrf p =
    let s1 = Session.set sess (codes "clientIP") (text ip) in
    let s2 = Session.set s1 csrf_key (text csrf) in Session.set s2 pending_key (pending p)

unfoldable pub drop_pending : Store → Bytes → Cookies → ℕ → Store
drop_pending s name cookies now = elim (pending_session s name cookies now) [
  | none ↦ s
  | some p ↦ Store.delete s (s.objects p).id
]

module _ (lib : Library) where
  -- The checks of the payload, in order.
  unfoldable pub is_acceptable : Settings → Payload → Bytes → Bool
  is_acceptable cfg p ip =
      if not (is_allowed_type lib p.kind cfg.allowed_types)
        || p.host == []
        || ltb 255 (length p.host)
        || ltb 1024 (length p.username)
        || not (is_port p.port)
      then false
      else elim (check_host_lock lib cfg p.host p.port) [
        | some code ↦ false
        | none ↦ elim (check_ip_allowlist lib cfg.allowed_addresses ip) [
          | some code ↦ false
          | none ↦ true
        ]
      ]

  -- What follows both reservations.
  unfoldable pub open_pending :
      Clockwork → SsoSettings → Store → Payload → Bytes → Cookies → SsoAnswers → Store × Reply
  open_pending clock cfg s payload ip cookies a = elim (generate_csrf_token a.csrf) [
    | none ↦ (s, rejected internal)
    | some csrf ↦
        let (s1, made) = Store.new s a.ids.0 a.ids.1.0 a.ids.1.1 a.new_now in
        elim made [
          | none ↦ (s1, rejected internal)
          | some p ↦
              let id = (s1.objects p).id in
              let s2 = Store.set_expiry s1 id (pending_expiry clock payload a.expiry_now) in
              let s3 = Store.write s2 p (fill_pending (s2.objects p) ip csrf payload) in
              (drop_pending s3 cfg.pending_name cookies a.get_now, login_pending id)
        ]
  ]

  -- What is deferred runs last: settle(false), and in login_admitted the release.
  unfoldable pub login_reserved :
      Clockwork → SsoSettings → SsoWorld → Payload → Bytes → Cookies → SsoAnswers → SsoWorld × Reply
  login_reserved clock cfg w payload ip cookies a =
      let (throttle, settle) =
        Throttle.reserve w.throttle (codes "sso:" ++ ip) (codes "ip:" ++ ip)
          cfg.login.login_max_attempts cfg.login.cooldown a.reserve_now in
      let w1 = record w { throttle = throttle } in
      elim settle [
        | none ↦ (w1, rejected capacity)
        | some i ↦
            let (store, reply) = open_pending clock cfg w.store payload ip cookies a in
            (
              record w1 { store = store; throttle = Throttle.settle throttle i false a.settle_now },
              reply,
            )
      ]

  unfoldable pub login_admitted :
      Clockwork → SsoSettings → SsoWorld → Payload → Bytes → Cookies → SsoAnswers → SsoWorld × Reply
  login_admitted clock cfg w payload ip cookies a =
      let (store, free) = Store.reserve w.store ip cfg.login.limits none in
      let (w1, reply) =
        login_reserved clock cfg (record w { store = store }) payload ip cookies a in
      elim free [
        | none ↦ (w, rejected capacity)
        | some f ↦ (record w1 { store = Store.free w1.store f }, reply)
      ]

  -- What follows the decryption.
  unfoldable pub login_opened :
      Clockwork
      → SsoSettings
      → SsoWorld
      → Bytes
      → Payload
      → Bytes
      → Cookies
      → SsoAnswers
      → SsoWorld × Reply
  login_opened clock cfg w raw payload ip cookies a =
      if not (is_acceptable cfg.login payload ip)
      then (w, rejected invalid)
      else (let (used_set, unused) =
            UsedSet.mark_if_unused w.used (clock.token_hash raw) (clock.unix payload.exp)
              a.mark_now in
          if unused
          then login_admitted clock cfg (record w { used = used_set }) payload ip cookies a
          else (record w { used = used_set }, rejected used))

  unfoldable pub sso_login :
      Crypto
      → Clockwork
      → SsoSettings
      → SsoWorld
      → Bytes
      → Bytes
      → Cookies
      → SsoAnswers
      → SsoWorld × Reply
  sso_login x clock cfg w raw ip cookies a =
      if raw == []
      then (w, app_name)
      else if not cfg.enabled
      then (w, rejected disabled)
      else elim (decrypt x raw cfg.secret a.decrypt_now) [
        | inl err ↦ (w, rejected (reject_reason err))
        | inr payload ↦ login_opened clock cfg w raw payload ip cookies a
      ]

-- The payload that SSOPending shows with the CSRF token, `inr none` where nothing is pending.
unfoldable pub sso_pending : Store → Bytes → Cookies → ℕ → Code ⊎ Option (Payload × Bytes)
sso_pending s name cookies now = elim (pending_session s name cookies now) [
  | none ↦ inr none
  | some p ↦ elim (as_payload (Session.get (s.objects p) pending_key)) [
    | none ↦ inl Code.unauthorized
    | some payload ↦ inr (some (payload, Session.get_string (s.objects p) csrf_key))
  ]
]

-- SSOCancel of the pending session `p`; none is the answer without an error.
unfoldable pub sso_cancel : Store → ℕ → Store × Option Code
sso_cancel s p =
    let (sess, locked) = Session.try_lock_transfer (s.objects p) in
    if not locked
    then (s, some Code.capacity)
    else (let deleted = Store.delete (Store.write s p sess) sess.id in
        (Store.write deleted p (Session.unlock_transfer (deleted.objects p)), none))
