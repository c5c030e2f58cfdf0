-- ===== src/Login.antt =====
-- backend/internal/api/connect.go and dialerror.go: Connect, from the point at which the request is
-- decoded. What the network and the clock say is an argument (Answers), and so are the functions of
-- net, strings and strconv, and what evictSession makes of the session that a login replaces. A call
-- that waits for ever is `none`.
pub mod Checks
pub mod Settling
pub mod Places
pub mod Entry
pub mod Release
mod Tests
use goblin_ftp.Base.{
  ℕ, ◌+◌, ◌*◌, Bool, true, false, not, ◌&&◌, ◌||◌, List, [], ◌∷◌, ◌++◌, Bytes, codes, bytes_has_eq,
  nat_has_eq, ◌==◌, ltb, leb, nat_eq, if◌then◌else◌, Option, none, some, ◌⊎◌, inl, inr, length,
}
use goblin_ftp.Base.Ints.{ℤ, pos, negsuc}
use goblin_ftp.Base.Sets.{remove}
use goblin_ftp.Errors.{Code}
use goblin_ftp.Errors.Chain.{Sentinel, GoError, is}
use goblin_ftp.Paths.{validate_server_directory}
use goblin_ftp.Auth.Session
use goblin_ftp.Auth.Session.{Session, Value, text, flag, client}
use goblin_ftp.Auth.Store
use goblin_ftp.Auth.Store.{Store, Limits}
use goblin_ftp.Auth.Throttle
use goblin_ftp.Auth.Throttle.{Throttle}
use goblin_ftp.Tokens.{generate_csrf_token}
use goblin_ftp.Login.Checks.{
  classify_dial, ConnectRequest, Settings, Library, is_allowed_type, trim_dot, int_eq,
  check_host_lock, any_admits, check_ip_allowlist, account_throttle_key, default_port, or_port,
  fill_preset, is_port, check_target, check_request,
}

pub data Dialled : Type 0 where
  prompted : Dialled
  refused : GoError → Dialled
  connected : (working_dir : GoError ⊎ Bytes) (supports_chmod : Bool) → Dialled

-- `client_at` is the address of the client, `ids` are the random bytes of the session's three
-- identifiers, and `cookie` is the session that the request names; `held` says that others never
-- release the transfer lock of that session.
pub record Answers : Type 0 where
  pub dialled : Dialled
  pub client_at : ℕ
  pub reserve_now : ℕ
  pub settle_now : ℕ
  pub csrf : Option Bytes
  pub ids : Option Bytes × (Option Bytes × Option Bytes)
  pub new_now : ℕ
  pub cookie : Option Bytes
  pub get_now : ℕ
  pub held : Bool

-- `clients` are the connections that logins have opened and not closed again.
pub record LoginWorld : Type 0 where
  pub throttle : Throttle
  pub store : Store
  pub clients : List ℕ

pub data ConnectData : Type 0 where
  host_key_prompt : ConnectData
  logged_in : (id initial_dir csrf_token : Bytes) → ConnectData

-- The values that a new session is given.
unfoldable pub fill_session :
    Session → ConnectRequest → Bytes → Bytes → ℕ → Bytes → Bytes → Bool → Session
fill_session sess req ip addr at csrf dir chmod =
    let s1 = Session.set sess (codes "clientIP") (text ip) in
    let s2 = Session.set s1 (codes "client") (client at) in
    let s3 = Session.set s2 (codes "_csrf_token") (text csrf) in
    let s4 = Session.set s3 (codes "initialDir") (text dir) in
    let s5 = Session.set s4 (codes "disableChmod") (flag (not chmod)) in
    let s6 = Session.set s5 (codes "username") (text req.username) in
    let s7 = Session.set s6 (codes "host") (text addr) in
    Session.set s7 (codes "protocol") (text req.protocol)

abbrev pub LoginAnswer : Type 0
LoginAnswer = Code ⊎ ConnectData

-- What is deferred runs when the rest has returned.
abbrev pub then_do :
    Option (LoginWorld × LoginAnswer)
    → (LoginWorld → LoginWorld)
    → Option (LoginWorld × LoginAnswer)
then_do none deferred = none
then_do (some (w, answer)) deferred = some (deferred w, answer)

abbrev pub settle_login : ℕ → ℕ → LoginWorld → LoginWorld
settle_login i now w = record w { throttle = Throttle.settle w.throttle i false now }

abbrev pub release_login : ℕ → LoginWorld → LoginWorld
release_login f w = record w { store = Store.free w.store f }

unfoldable pub close_dialled : LoginWorld → ℕ → LoginWorld
close_dialled w at = record w { clients = remove at w.clients }

-- The transfer lock is taken, once others have released it, and the session is evicted.
unfoldable pub evict_held : (Session → Session) → Bool → Session → Option Session
evict_held evict held old = elim (Session.lock_transfer (record old { busy = held })) [
  | none ↦ none
  | some locked ↦ some (Session.unlock_transfer (evict locked))
]

-- The session that the request named before is evicted and deleted, unless it is the new one.
unfoldable pub replace_old :
    (Session → Session) → Store → Bytes → Option Bytes → ℕ → Bool → Option Store
replace_old evict s id none now held = some s
replace_old evict s id (some cookie) now held = elim (Store.get s cookie now) [
  | none ↦ some s
  | some p ↦
      let old = s.objects p in
      if old.id == id then some s else elim (evict_held evict held old) [
        | none ↦ none
        | some evicted ↦ some (Store.delete (Store.write s p evicted) old.id)
      ]
]

abbrev pub logged : LoginWorld → Option Store → LoginAnswer → Option (LoginWorld × LoginAnswer)
logged w none answer = none
logged w (some store) answer = some (record w { store = store }, answer)

module _ (lib : Library) (evict : Session → Session) where
  -- What follows a dial that succeeded.
  unfoldable pub open_session :
      LoginWorld
      → ConnectRequest
      → Bytes
      → Answers
      → Bytes
      → Bool
      → Option (LoginWorld × LoginAnswer)
  open_session w req ip a dir chmod = elim (generate_csrf_token a.csrf) [
    | none ↦ some (close_dialled w a.client_at, inl Code.internal)
    | some csrf ↦
        let (s1, made) = Store.new w.store a.ids.0 a.ids.1.0 a.ids.1.1 a.new_now in
        elim made [
          | none ↦ some (close_dialled (record w { store = s1 }) a.client_at, inl Code.internal)
          | some p ↦
              let sess =
                fill_session (s1.objects p) req ip (lib.join_host_port req.host req.port)
                  a.client_at csrf dir chmod in
              logged w (replace_old evict (Store.write s1 p sess) sess.id a.cookie a.get_now a.held)
                (inr (logged_in sess.id dir csrf))
        ]
  ]

  unfoldable pub enter :
      LoginWorld
      → ConnectRequest
      → Bytes
      → Answers
      → GoError ⊎ Bytes
      → Bool
      → Option (LoginWorld × LoginAnswer)
  enter w req ip a (inl err) chmod = some (close_dialled w a.client_at, inl Code.connection_failed)
  enter w req ip a (inr dir) chmod =
      if validate_server_directory dir req.protocol
      then open_session w req ip a dir chmod
      else some (close_dialled w a.client_at, inl Code.unsupported_server)

  -- The dial and what follows it, with the index of the throttle's settle function.
  unfoldable pub connect_dialled :
      LoginWorld
      → ConnectRequest
      → Bytes
      → Answers
      → ℕ
      → Dialled
      → Option (LoginWorld × LoginAnswer)
  connect_dialled w req ip a i prompted = some (w, inr host_key_prompt)
  connect_dialled w req ip a i (refused err) =
      let (credential, code) = classify_dial err in
      some (record w { throttle = Throttle.settle w.throttle i credential a.settle_now }, inl code)
  connect_dialled w req ip a i (connected dir chmod) =
      enter (record w { clients = a.client_at ∷ w.clients }) req ip a dir chmod

  -- With the index of the store's release function; what is deferred runs last: settle(false), and
  -- in connect_admitted the release. A call that waits for ever holds both places.
  unfoldable pub connect_reserved :
      Settings → LoginWorld → ConnectRequest → Bytes → Answers → Option (LoginWorld × LoginAnswer)
  connect_reserved cfg w req ip a =
      let (throttle, settle) =
        Throttle.reserve w.throttle (account_throttle_key lib req.host req.username)
          (codes "ip:" ++ ip) cfg.login_max_attempts cfg.cooldown a.reserve_now in
      let w1 = record w { throttle = throttle } in
      elim settle [
        | none ↦ some (w1, inl Code.login_throttled)
        | some i ↦ then_do (connect_dialled w1 req ip a i a.dialled) (settle_login i a.settle_now)
      ]

  unfoldable pub connect_admitted :
      Settings → LoginWorld → ConnectRequest → Bytes → Answers → Option (LoginWorld × LoginAnswer)
  connect_admitted cfg w req ip a =
      let (store, free) = Store.reserve w.store ip cfg.limits none in
      elim free [
        | none ↦ some (w, inl Code.capacity)
        | some f ↦
            then_do (connect_reserved cfg (record w { store = store }) req ip a) (release_login f)
      ]

  unfoldable pub connect :
      Settings → LoginWorld → ConnectRequest → Bytes → Answers → Option (LoginWorld × LoginAnswer)
  connect cfg w req ip a = elim (check_request lib cfg req ip) [
    | some code ↦ some (w, inl code)
    | none ↦ connect_admitted cfg w (fill_preset cfg req) ip a
  ]
