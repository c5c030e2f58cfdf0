-- ===== src/Sso/Connect.antt =====
-- backend/internal/api/sso.go: SSOConnect, from the point at which requirePending has found the pending
-- session. What the network and the clock say is an argument (ConnectAnswers). A call that never
-- returns is `none`: the lock of another session becomes free, that of the pending one does not,
-- since the handler holds it.
pub mod Outcomes
pub mod Clients
pub mod Release
pub mod Returns
mod Tests
use goblin_ftp.Base.{
  ℕ, Bool, true, false, not, ◌&&◌, ◌||◌, List, [], ◌∷◌, ◌++◌, Bytes, codes, bytes_has_eq, ◌==◌,
  nat_eq, if◌then◌else◌, Option, none, some, ◌⊎◌, inl, inr,
}
use goblin_ftp.Base.Ints.{ℤ, gtb}
use goblin_ftp.Errors.{Code}
use goblin_ftp.Errors.Chain.{GoError}
use goblin_ftp.Errors.Classify.{fail_client}
use goblin_ftp.Paths.{validate_server_directory, validate_remote_path}
use goblin_ftp.Remote.{StatResult, found, failed}
use goblin_ftp.Auth.Session
use goblin_ftp.Auth.Session.{Session, text, flag, client}
use goblin_ftp.Auth.Store
use goblin_ftp.Auth.Store.{Store}
use goblin_ftp.Auth.Throttle
use goblin_ftp.Auth.Throttle.{Throttle}
use goblin_ftp.Cookies.{Cookies}
use goblin_ftp.Guards.{csrf_key, lookup_session}
use goblin_ftp.Tokens.{Payload, generate_csrf_token}
use goblin_ftp.Login.{ConnectData, host_key_prompt, logged_in}
use goblin_ftp.Login.Checks.{
  Settings, Library, account_throttle_key, check_ip_allowlist, classify_dial,
}
use goblin_ftp.Sso.World.{SsoWorld, pending_key, as_payload, close_client, sanitize_tenant}

-- A dial that connects gives the address of the client, what WorkingDir says, what Stat says of the
-- initial directory of the payload, and SupportsChmod.
pub data SsoDialled : Type 0 where
  prompted : SsoDialled
  refused : GoError → SsoDialled
  connected :
      (at : ℕ) (working_dir : GoError ⊎ Bytes) (stat : StatResult) (supports_chmod : Bool)
      → SsoDialled

-- `body` says whether bindJSON fails; `session_name` is the name of the session cookie.
pub record ConnectAnswers : Type 0 where
  pub unix_now : ℤ
  pub body : Option Code
  pub dialled : SsoDialled
  pub reserve_now : ℕ
  pub settle_now : ℕ
  pub csrf : Option Bytes
  pub ids : Option Bytes × (Option Bytes × Option Bytes)
  pub new_now : ℕ
  pub session_name : Bytes
  pub cookies : Cookies
  pub get_now : ℕ

unfoldable pub fill_sso_session :
    Session → Payload → Bytes → Bytes → ℕ → Bytes → Bytes → Bool → Session
fill_sso_session sess p ip addr at csrf dir chmod =
    let s1 = Session.set sess (codes "clientIP") (text ip) in
    let s2 = Session.set s1 (codes "client") (client at) in
    let s3 = Session.set s2 csrf_key (text csrf) in
    let s4 = Session.set s3 (codes "initialDir") (text dir) in
    let s5 = Session.set s4 (codes "disableChmod") (flag (not chmod)) in
    let s6 = Session.set s5 (codes "username") (text p.username) in
    let s7 = Session.set s6 (codes "host") (text addr) in
    let s8 = Session.set s7 (codes "protocol") (text p.kind) in
    let s9 = Session.set s8 (codes "language") (text p.language) in
    let tenant = sanitize_tenant p.tenant in
    if tenant == [] then s9 else Session.set s9 (codes "tenant") (text tenant)

-- The directory that the session starts in, or the code and the error that failClient gets.
unfoldable pub initial_directory :
    Payload → GoError ⊎ Bytes → StatResult → (Code × Option GoError) ⊎ Bytes
initial_directory p (inl err) stat = inl (Code.connection_failed, some err)
initial_directory p (inr dir) stat =
    if not (validate_server_directory dir p.kind)
    then inl (Code.unsupported_server, none)
    else if p.initial_directory == []
    then inr dir
    else elim (validate_remote_path p.initial_directory (not (p.kind == codes "sftp")) true) [
      | some e ↦ inl (Code.bad_request, none)
      | none ↦ elim stat [
        | failed err ↦ inl (Code.operation_failed, some err)
        | found info ↦ if info.is_dir then inr p.initial_directory else inl (Code.bad_request, none)
      ]
    ]

-- Fail where there is no error of the client, and failClient on the pending session where there is.
unfoldable pub refuse :
    (Bytes → Bytes) → SsoWorld → ℕ → Code × Option GoError → SsoWorld × (Code ⊎ ConnectData)
refuse to_lower w p (code, none) = (w, inl code)
refuse to_lower w p (code, some err) =
    let (sess, e) = fail_client to_lower (w.store.objects p) code (some err) in
    (record w { store = Store.write w.store p sess }, inl e.code)

abbrev pub Answer : Type 0
Answer = Code ⊎ ConnectData

-- What is deferred runs when the rest has returned.
abbrev pub then_run :
    Option (SsoWorld × Answer) → (SsoWorld → SsoWorld) → Option (SsoWorld × Answer)
then_run none deferred = none
then_run (some (w, answer)) deferred = some (deferred w, answer)

-- The pending session loses its login and leaves the store.
unfoldable pub retire : Store → ℕ → Store
retire s p =
    let sess = Session.delete (s.objects p) pending_key in
    Store.delete (Store.write s p sess) sess.id

abbrev pub retired : Option Store → ℕ → Answer → Option (Store × Answer)
retired none p answer = none
retired (some s) p answer = some (retire s p, answer)

-- The deferred Close of the client, unless the login succeeds.
abbrev pub entered : SsoWorld → ℕ → Option (Store × Answer) → Option (SsoWorld × Answer)
entered w at none = none
entered w at (some (store, inl code)) =
    some (close_client (record w { store = store }) at, inl code)
entered w at (some (store, inr answer)) = some (record w { store = store }, inr answer)

abbrev pub release_place : ℕ → SsoWorld → SsoWorld
release_place f w = record w { store = Store.free w.store f }

abbrev pub settle_place : ℕ → ℕ → SsoWorld → SsoWorld
settle_place i now w = record w { throttle = Throttle.settle w.throttle i false now }

unfoldable pub unlock : ℕ → SsoWorld → SsoWorld
unlock p w = record w {
  store = Store.write w.store p (Session.unlock_transfer (w.store.objects p));
}

module _ (lib : Library) (evict : Session → Session) where
  -- With the pending session `p`, whose lock is held.
  unfoldable pub replace_session : Store → ℕ → Bytes → Cookies → ℕ → Option Store
  replace_session s p name cookies now = elim (lookup_session s name cookies now) [
    | none ↦ some s
    | some old ↦
        if nat_eq old p
        then none
        else some (Store.delete (Store.write s old (evict (s.objects old))) (s.objects old).id)
  ]

  -- What follows the choice of the directory: the CSRF token and the new session.
  unfoldable pub enter_session :
      Store → ℕ → Payload → Bytes → ConnectAnswers → ℕ → Bytes → Bool → Option (Store × Answer)
  enter_session s p payload ip a at dir chmod = elim (generate_csrf_token a.csrf) [
    | none ↦ some (s, inl Code.internal)
    | some csrf ↦
        let (s1, made) = Store.new s a.ids.0 a.ids.1.0 a.ids.1.1 a.new_now in
        elim made [
          | none ↦ some (s1, inl Code.internal)
          | some q ↦
              let sess =
                fill_sso_session (s1.objects q) payload ip
                  (lib.join_host_port payload.host payload.port) at csrf dir chmod in
              retired (replace_session (Store.write s1 q sess) p a.session_name a.cookies a.get_now)
                p (inr (logged_in sess.id dir csrf))
        ]
  ]

  unfoldable pub finish :
      SsoWorld
      → ℕ
      → Payload
      → Bytes
      → ConnectAnswers
      → ℕ
      → GoError ⊎ Bytes
      → StatResult
      → Bool
      → Option (SsoWorld × Answer)
  finish w p payload ip a at dir stat chmod = elim (initial_directory payload dir stat) [
    | inl failure ↦
        let (w1, answer) = refuse lib.to_lower w p failure in some (close_client w1 at, answer)
    | inr start ↦ entered w at (enter_session w.store p payload ip a at start chmod)
  ]

  -- The dial and what follows it, with the index of the settle function.
  unfoldable pub sso_dialled :
      SsoWorld → ℕ → Payload → Bytes → ConnectAnswers → ℕ → SsoDialled → Option (SsoWorld × Answer)
  sso_dialled w p payload ip a i prompted = some (w, inr host_key_prompt)
  sso_dialled w p payload ip a i (refused err) =
      let (credential, code) = classify_dial err in
      some (record w { throttle = Throttle.settle w.throttle i credential a.settle_now }, inl code)
  sso_dialled w p payload ip a i (connected at dir stat chmod) =
      finish (record w { clients = at ∷ w.clients }) p payload ip a at dir stat chmod

  -- The place in the store, with credit for the pending session, and its deferred release.
  unfoldable pub sso_admitted :
      Settings → SsoWorld → ℕ → Payload → Bytes → ConnectAnswers → ℕ → Option (SsoWorld × Answer)
  sso_admitted cfg w p payload ip a i =
      let (store, free) = Store.reserve w.store ip cfg.limits (some (w.store.objects p).id) in
      elim free [
        | none ↦ some (w, inl Code.capacity)
        | some f ↦
            then_run (sso_dialled (record w { store = store }) p payload ip a i a.dialled)
              (release_place f)
      ]

  -- The place in the throttle, and the deferred settle(false).
  unfoldable pub sso_reserved :
      Settings → SsoWorld → ℕ → Payload → Bytes → ConnectAnswers → Option (SsoWorld × Answer)
  sso_reserved cfg w p payload ip a =
      let (throttle, settle) =
        Throttle.reserve w.throttle (account_throttle_key lib payload.host payload.username)
          (codes "ip:" ++ ip) cfg.login_max_attempts cfg.cooldown a.reserve_now in
      let w1 = record w { throttle = throttle } in
      elim settle [
        | none ↦ some (w1, inl Code.login_throttled)
        | some i ↦ then_run (sso_admitted cfg w1 p payload ip a i) (settle_place i a.settle_now)
      ]

  -- The checks with the transfer lock held, in order.
  unfoldable pub sso_locked :
      Settings → SsoWorld → ℕ → Bytes → ConnectAnswers → Option (SsoWorld × Answer)
  sso_locked cfg w p ip a = elim (as_payload (Session.get (w.store.objects p) pending_key)) [
    | none ↦ some (w, inl Code.unauthorized)
    | some payload ↦
        if not (gtb payload.exp a.unix_now) then some (w, inl Code.unauthorized) else elim a.body [
          | some code ↦ some (w, inl code)
          | none ↦ elim (check_ip_allowlist lib cfg.allowed_addresses ip) [
            | some code ↦ some (w, inl code)
            | none ↦ sso_reserved cfg w p payload ip a
          ]
        ]
  ]

  unfoldable pub sso_connect :
      Settings → SsoWorld → ℕ → Bytes → ConnectAnswers → Option (SsoWorld × Answer)
  sso_connect cfg w p ip a =
      let (sess, locked) = Session.try_lock_transfer (w.store.objects p) in
      if not locked
      then some (w, inl Code.capacity)
      else then_run (sso_locked cfg (record w { store = Store.write w.store p sess }) p ip a)
          (unlock p)
