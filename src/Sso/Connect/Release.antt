-- ===== src/Sso/Connect/Release.antt =====
-- What SSOConnect of backend/internal/api/sso.go takes it gives back when it returns: the place in the
-- throttle, the place in the store, and the connection of a login that fails.
use goblin_ftp.Base.{
  ℕ, ◌≡◌, refl, subst, sym, Bool, false, ◌∷◌, ◌++◌, Bytes, codes, bytes_has_eq, nat_has_eq, Option,
  none, some, ◌⊎◌, inl, inr, Bool-cases, Option-cases, Sum-cases,
}
use goblin_ftp.Base.Ints.{gtb}
use goblin_ftp.Errors.{Code}
use goblin_ftp.Errors.Chain.{GoError}
use goblin_ftp.Remote.{StatResult}
use goblin_ftp.Auth.Session
use goblin_ftp.Auth.Session.{Session}
use goblin_ftp.Auth.Store
use goblin_ftp.Auth.Store.{Store}
use goblin_ftp.Auth.Throttle
use goblin_ftp.Auth.Throttle.{Throttle}
use goblin_ftp.Tokens.{Payload}
use goblin_ftp.Login.Checks.{
  Library, Settings, account_throttle_key, classify_dial, check_ip_allowlist,
}
use goblin_ftp.Login.Places.{AllFreed, free-AllFreed}
use goblin_ftp.Login.Settling.{
  AllSettled, Handed, reserve-Handed, settle_again, settle_once, refused-AllSettled,
}
use goblin_ftp.Sso.World.{SsoWorld, close_client, pending_key, as_payload}
use goblin_ftp.Sso.Login.Release.{IsReleased}
use goblin_ftp.Sso.Connect.{
  SsoDialled, prompted, refused, connected, ConnectAnswers, initial_directory, refuse, Answer,
  entered, finish, sso_dialled, release_place, settle_place, sso_admitted, sso_reserved, sso_locked,
  unlock, sso_connect,
}
use goblin_ftp.Sso.Connect.Outcomes.{
  Keeps, IsFreshDial, Returned, Returned-then_run, SameThrottle, Settles, Returned-weaken, Leaves,
  Returned-both, GivesBack,
}
use goblin_ftp.Sso.Connect.Clients.{sso_dialled-Keeps}

module _ (lib : Library) (evict : Session → Session) where
  entered-throttle :
      (u : SsoWorld) (at : ℕ) (m : Option (Store × Answer))
      → Returned (SameThrottle u) (entered u at m)
  unfolding close_client
  entered-throttle u at none = tt
  entered-throttle u at (some (s, inl code)) = refl
  entered-throttle u at (some (s, inr answer)) = refl

  refuse-throttle :
      (u : SsoWorld) (p : ℕ) (failure : Code × Option GoError)
      → (refuse lib.to_lower u p failure).0.throttle ≡ u.throttle
  unfolding refuse
  refuse-throttle u p (code, none) = refl
  refuse-throttle u p (code, some err) = refl

  finish-throttle :
      (u : SsoWorld) (p : ℕ) (payload : Payload) (ip : Bytes) (a : ConnectAnswers) (at : ℕ)
      (dir : GoError ⊎ Bytes) (stat : StatResult) (chmod : Bool)
      → Returned (SameThrottle u) (finish lib evict u p payload ip a at dir stat chmod)
  unfolding finish close_client
  finish-throttle u p payload ip a at dir stat chmod =
      elim (Sum-cases (initial_directory payload dir stat)) [
        | inl (failure, d) ↦ rw (finish, d) (refuse-throttle u p failure)
        | inr (start, d) ↦ rw (finish, d) (entered-throttle u at _)
      ]

  sso_dialled-Settles :
      (t : Throttle) (u : SsoWorld) (p : ℕ) (payload : Payload) (ip : Bytes) (a : ConnectAnswers)
      (i : ℕ) (d : SsoDialled)
      → AllSettled t
      → Handed t u.throttle i
      → Returned (Settles i a.settle_now) (sso_dialled lib evict u p payload ip a i d)
  unfolding sso_dialled
  sso_dialled-Settles t u p payload ip a i prompted h k =
      settle_once t u.throttle i false a.settle_now h k
  sso_dialled-Settles t u p payload ip a i (refused err) h k =
      settle_again _ i false a.settle_now
        (settle_once t u.throttle i (classify_dial err).0 a.settle_now h k)
  sso_dialled-Settles t u p payload ip a i (connected at dir stat chmod) h k =
      let opened : SsoWorld = record u { clients = at ∷ u.clients } in
      Returned-weaken (SameThrottle opened) (Settles i a.settle_now) _
        (finish-throttle opened p payload ip a at dir stat chmod)
        (λ v answer e.
          subst (λ x. AllSettled (Throttle.settle x i false a.settle_now)) (sym e)
            (settle_once t u.throttle i false a.settle_now h k))

  sso_admitted-Leaves :
      (cfg : Settings) (w : SsoWorld) (p : ℕ) (payload : Payload) (ip : Bytes) (a : ConnectAnswers)
      (i : ℕ)
      → AllFreed w.store
      → IsFreshDial w.clients a.dialled
      → Returned (Leaves w) (sso_admitted lib evict cfg w p payload ip a i)
  unfolding sso_admitted
  sso_admitted-Leaves cfg w p payload ip a i hf fresh =
      let credit : Option Bytes = some (w.store.objects p).id in
      let call = Store.reserve w.store ip cfg.limits credit in
      let held : SsoWorld = record w { store = call.0 } in
      elim (Option-cases call.1) [
        | inl full ↦ rw (sso_admitted, full) (hf, refl)
        | inr (f, room) ↦
            rw (sso_admitted, room)
              (Returned-then_run (Keeps held) (Leaves w) _ (release_place f)
                (sso_dialled-Keeps lib evict held held p payload ip a i a.dialled fresh refl refl)
                (λ v answer k. (
                  free-AllFreed w.store v.store ip cfg.limits credit f hf room k.frees,
                  k.clients,
                )))
      ]

  sso_admitted-Settles :
      (t : Throttle) (cfg : Settings) (w : SsoWorld) (p : ℕ) (payload : Payload) (ip : Bytes)
      (a : ConnectAnswers) (i : ℕ)
      → AllSettled t
      → Handed t w.throttle i
      → Returned (Settles i a.settle_now) (sso_admitted lib evict cfg w p payload ip a i)
  unfolding sso_admitted
  sso_admitted-Settles t cfg w p payload ip a i h k =
      let call = Store.reserve w.store ip cfg.limits (some (w.store.objects p).id) in
      let held : SsoWorld = record w { store = call.0 } in
      elim (Option-cases call.1) [
        | inl full ↦ rw (sso_admitted, full) (settle_once t w.throttle i false a.settle_now h k)
        | inr (f, room) ↦
            rw (sso_admitted, room)
              (Returned-then_run (Settles i a.settle_now) (Settles i a.settle_now) _
                (release_place f) (sso_dialled-Settles t held p payload ip a i a.dialled h k)
                (λ v answer s. s))
      ]

  sso_reserved-GivesBack :
      (cfg : Settings) (w : SsoWorld) (p : ℕ) (payload : Payload) (ip : Bytes) (a : ConnectAnswers)
      → IsReleased w
      → IsFreshDial w.clients a.dialled
      → Returned (GivesBack w) (sso_reserved lib evict cfg w p payload ip a)
  unfolding sso_reserved
  sso_reserved-GivesBack cfg w p payload ip a (hf, hs) fresh =
      let account = account_throttle_key lib payload.host payload.username in
      let key = codes "ip:" ++ ip in
      let limit = cfg.login_max_attempts in
      let call = Throttle.reserve w.throttle account key limit cfg.cooldown a.reserve_now in
      let held : SsoWorld = record w { throttle = call.0 } in
      elim (Option-cases call.1) [
        | inl e ↦
            rw (sso_reserved, e)
              (
                (
                  hf,
                  refused-AllSettled w.throttle account key limit cfg.cooldown a.reserve_now e hs,
                ),
                refl,
              )
        | inr (i, e) ↦
            let handed =
              reserve-Handed w.throttle account key limit cfg.cooldown a.reserve_now i e in
            rw (sso_reserved, e)
              (Returned-then_run
                (λ v answer. Leaves held v answer × Settles i a.settle_now v answer) (GivesBack w) _
                (settle_place i a.settle_now)
                (Returned-both (Leaves held) (Settles i a.settle_now) _
                  (sso_admitted-Leaves cfg held p payload ip a i hf fresh)
                  (sso_admitted-Settles w.throttle cfg held p payload ip a i hs handed))
                (λ v answer k. ((k.0.0, k.1), k.0.1)))
      ]

  sso_locked-GivesBack :
      (cfg : Settings) (w : SsoWorld) (p : ℕ) (ip : Bytes) (a : ConnectAnswers)
      → IsReleased w
      → IsFreshDial w.clients a.dialled
      → Returned (GivesBack w) (sso_locked lib evict cfg w p ip a)
  unfolding sso_locked
  sso_locked-GivesBack cfg w p ip a h fresh =
      elim (Option-cases (as_payload (Session.get (w.store.objects p) pending_key))) [
        | inl e ↦ rw (sso_locked, e) (h, refl)
        | inr (payload, e) ↦ elim (Bool-cases (gtb payload.exp a.unix_now)) [
          | inr f ↦ rw (sso_locked, e, f) (h, refl)
          | inl f ↦ elim (Option-cases a.body) [
            | inr (code, g) ↦ rw (sso_locked, e, f, g) (h, refl)
            | inl g ↦ elim (Option-cases (check_ip_allowlist lib cfg.allowed_addresses ip)) [
              | inr (code, k) ↦ rw (sso_locked, e, f, g, k) (h, refl)
              | inl k ↦
                  rw (sso_locked, e, f, g, k) (sso_reserved-GivesBack cfg w p payload ip a h fresh)
            ]
          ]
        ]
      ]

  -- Where all that the throttle and the store handed out before was given back, and the connection
  -- of the dial is a new one, then SSOConnect, whenever it returns, has given back what it took, and
  -- if it answers with an error it leaves open the connections that were open before and no other.
  pub sso_connect-GivesBack :
      (cfg : Settings) (w : SsoWorld) (p : ℕ) (ip : Bytes) (a : ConnectAnswers)
      → IsReleased w
      → IsFreshDial w.clients a.dialled
      → Returned (GivesBack w) (sso_connect lib evict cfg w p ip a)
  unfolding sso_connect unlock Store.write
  sso_connect-GivesBack cfg w p ip a h fresh =
      let (sess, locked) = Session.try_lock_transfer (w.store.objects p) in
      let held : SsoWorld = record w { store = Store.write w.store p sess } in
      elim (Bool-cases locked) [
        | inr f ↦ rw (sso_connect, f) (h, refl)
        | inl t ↦
            rw (sso_connect, t)
              (Returned-then_run (GivesBack held) (GivesBack w) _ (unlock p)
                (sso_locked-GivesBack cfg held p ip a h fresh) (λ v answer k. k))
      ]
