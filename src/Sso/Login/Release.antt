-- ===== src/Sso/Login/Release.antt =====
-- What SSOLogin of backend/internal/api/sso.go takes from the throttle and the session store it gives
-- back, whatever happens in between.
use goblin_ftp.Base.{
  ℕ, ◌≡◌, ◌∙◌, refl, false, [], ◌++◌, Bytes, codes, bytes_has_eq, ◌==◌, none, inl, inr, arith,
  Bool-cases, Option-cases, Sum-cases,
}
use goblin_ftp.Auth.Store
use goblin_ftp.Auth.Store.{Store}
use goblin_ftp.Auth.Throttle
use goblin_ftp.Auth.Throttle.{Throttle}
use goblin_ftp.Cookies.{Cookies}
use goblin_ftp.Sso.UsedSet
use goblin_ftp.Tokens.{Payload, Crypto, decrypt, generate_csrf_token}
use goblin_ftp.Login.Checks.{Library}
use goblin_ftp.Login.Places.{AllFreed, new-frees, free-AllFreed}
use goblin_ftp.Login.Settling.{AllSettled, reserve-Handed, settle_once, refused-AllSettled}
use goblin_ftp.Sso.World.{SsoWorld}
use goblin_ftp.Sso.Login.{
  Clockwork, SsoSettings, SsoAnswers, drop_pending, open_pending, login_reserved, login_admitted,
  login_opened, sso_login, is_acceptable,
}

drop_pending-frees :
    (s : Store) (name : Bytes) (cookies : Cookies) (now : ℕ)
    → (drop_pending s name cookies now).frees ≡ s.frees
unfolding drop_pending Store.delete
drop_pending-frees s name cookies now = ground arith

set_expiry-frees :
    (s : Store) (id : Bytes) (expiry : ℕ) → (Store.set_expiry s id expiry).frees ≡ s.frees
unfolding Store.set_expiry Store.write
set_expiry-frees s id expiry = ground arith

-- Nothing is held.
abbrev pub IsReleased : SsoWorld → Type 0
IsReleased w = AllFreed w.store × AllSettled w.throttle

module _ (lib : Library) (clock : Clockwork) (cfg : SsoSettings) where
  open_pending-frees :
      (s : Store) (p : Payload) (ip : Bytes) (cookies : Cookies) (a : SsoAnswers)
      → (open_pending lib clock cfg s p ip cookies a).0.frees ≡ s.frees
  unfolding open_pending Store.write
  open_pending-frees s p ip cookies a =
      let made = Store.new s a.ids.0 a.ids.1.0 a.ids.1.1 a.new_now in
      let kept = new-frees s a.ids.0 a.ids.1.0 a.ids.1.1 a.new_now in
      elim (Option-cases (generate_csrf_token a.csrf)) [
        | inl e ↦ rw (open_pending, e) refl
        | inr (csrf, e) ↦ elim (Option-cases made.1) [
          | inl f ↦ rw (open_pending, e, f) kept
          | inr (q, f) ↦
              rw (open_pending, e, f)
                (drop_pending-frees _ cfg.pending_name cookies a.get_now
                  ∙ set_expiry-frees made.0 _ _
                  ∙ kept)
        ]
      ]

  login_reserved-Settled :
      (w : SsoWorld) (p : Payload) (ip : Bytes) (cookies : Cookies) (a : SsoAnswers)
      → AllSettled w.throttle
      → AllSettled (login_reserved lib clock cfg w p ip cookies a).0.throttle
        × ((login_reserved lib clock cfg w p ip cookies a).0.store.frees ≡ w.store.frees)
  unfolding login_reserved
  login_reserved-Settled w p ip cookies a h =
      let limit = cfg.login.login_max_attempts in
      let cooldown = cfg.login.cooldown in
      let account = codes "sso:" ++ ip in
      let key = codes "ip:" ++ ip in
      let call = Throttle.reserve w.throttle account key limit cooldown a.reserve_now in
      elim (Option-cases call.1) [
        | inl e ↦
            rw (login_reserved, e)
              (refused-AllSettled w.throttle account key limit cooldown a.reserve_now e h, refl)
        | inr (i, e) ↦
            rw (login_reserved, e)
              (
                settle_once w.throttle call.0 i false a.settle_now h
                    (reserve-Handed w.throttle account key limit cooldown a.reserve_now i e),
                open_pending-frees w.store p ip cookies a,
              )
      ]

  login_admitted-Released :
      (w : SsoWorld) (p : Payload) (ip : Bytes) (cookies : Cookies) (a : SsoAnswers)
      → IsReleased w
      → IsReleased (login_admitted lib clock cfg w p ip cookies a).0
  unfolding login_admitted
  login_admitted-Released w p ip cookies a (hf, hs) =
      let call = Store.reserve w.store ip cfg.login.limits none in
      let held : SsoWorld = record w { store = call.0 } in
      let rest = login_reserved-Settled held p ip cookies a hs in
      elim (Option-cases call.1) [
        | inl full ↦ rw (login_admitted, full) (hf, hs)
        | inr (f, room) ↦
            rw (login_admitted, room)
              (free-AllFreed w.store _ ip cfg.login.limits none f hf room rest.1, rest.0)
      ]

  login_opened-Released :
      (w : SsoWorld) (raw : Bytes) (p : Payload) (ip : Bytes) (cookies : Cookies) (a : SsoAnswers)
      → IsReleased w
      → IsReleased (login_opened lib clock cfg w raw p ip cookies a).0
  unfolding login_opened
  login_opened-Released w raw p ip cookies a h =
      let call =
        UsedSet.mark_if_unused w.used (clock.token_hash raw) (clock.unix p.exp) a.mark_now in
      elim (Bool-cases (is_acceptable lib cfg.login p ip)) [
        | inr f ↦ rw (login_opened, f) h
        | inl t ↦ elim (Bool-cases call.1) [
          | inr f ↦ rw (login_opened, t, f) h
          | inl u ↦
              rw (login_opened, t, u)
                (login_admitted-Released (record w { used = call.0 }) p ip cookies a h)
        ]
      ]

  -- Where all that the throttle and the store handed out before was given back, it is so after
  -- SSOLogin, on every path.
  pub sso_login-Released :
      (x : Crypto) (w : SsoWorld) (raw ip : Bytes) (cookies : Cookies) (a : SsoAnswers)
      → IsReleased w
      → IsReleased (sso_login lib x clock cfg w raw ip cookies a).0
  unfolding sso_login
  sso_login-Released x w raw ip cookies a h = elim (Bool-cases (raw == [])) [
    | inl t ↦ rw (sso_login, t) h
    | inr f ↦ elim (Bool-cases cfg.enabled) [
      | inr g ↦ rw (sso_login, f, g) h
      | inl g ↦ elim (Sum-cases (decrypt x raw cfg.secret a.decrypt_now)) [
        | inl (err, e) ↦ rw (sso_login, f, g, e) h
        | inr (payload, e) ↦
            rw (sso_login, f, g, e) (login_opened-Released w raw payload ip cookies a h)
      ]
    ]
  ]
