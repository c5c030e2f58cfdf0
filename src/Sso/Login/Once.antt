-- ===== src/Sso/Login/Once.antt =====
-- A token opens at most one pending login of backend/internal/api/sso.go.
use goblin_ftp.Base.{
  ◌≤◌, ◌≡◌, ◌≢◌, ◌∙◌, refl, ap, sym, subst, true, false, List, [], Bytes, bytes_has_eq, ◌==◌, none,
  ◌⊎◌, inl, inr, arith, All, Bool-cases, Sum-cases, Option-cases,
}
use goblin_ftp.Auth.Store
use goblin_ftp.Cookies.{Cookies}
use goblin_ftp.Sso.UsedSet
use goblin_ftp.Sso.UsedSet.{Call}
use goblin_ftp.Sso.UsedSet.Replay.{IsBefore, mark_if_unused_once}
use goblin_ftp.Tokens.{Payload, SsoError, Crypto, decrypt}
use goblin_ftp.Login.Checks.{Library}
use goblin_ftp.Sso.World.{SsoWorld}
use goblin_ftp.Sso.Login.{
  Clockwork, SsoSettings, SsoAnswers, login_opened, sso_login, is_acceptable, login_pending,
  login_admitted, login_reserved,
}

module _ (lib : Library) (x : Crypto) (clock : Clockwork) (cfg : SsoSettings) where
  -- What the set of used tokens is after a token was taken.
  abbrev pub Marked : SsoWorld → Bytes → Payload → SsoAnswers → Type 0
  Marked w raw p a =
      (UsedSet.mark_if_unused w.used (clock.token_hash raw) (clock.unix p.exp) a.mark_now).1 ≡ true

  -- A login that goes on has opened the token and marked it.
  login_opened-Marked :
      (w : SsoWorld) (raw : Bytes) (p : Payload) (ip : Bytes) (cookies : Cookies) (a : SsoAnswers)
      (id : Bytes)
      → (login_opened lib clock cfg w raw p ip cookies a).1 ≡ login_pending id
      → Marked w raw p a
  unfolding login_opened
  login_opened-Marked w raw p ip cookies a id h =
      let call =
        UsedSet.mark_if_unused w.used (clock.token_hash raw) (clock.unix p.exp) a.mark_now in
      elim (Bool-cases (is_acceptable lib cfg.login p ip)) [
        | inr f ↦ absurd (ground (arith, h, f))
        | inl t ↦ elim (Bool-cases call.1) [ inr f ↦ absurd (ground (arith, h, t, f)) | inl u ↦ u ]
      ]

  sso_login-Marked :
      (w : SsoWorld) (raw ip : Bytes) (cookies : Cookies) (a : SsoAnswers) (id : Bytes)
      → (sso_login lib x clock cfg w raw ip cookies a).1 ≡ login_pending id
      → (p : Payload) × (decrypt x raw cfg.secret a.decrypt_now ≡ inr p) × Marked w raw p a
  unfolding sso_login
  sso_login-Marked w raw ip cookies a id h = elim (Bool-cases (raw == [])) [
    | inl t ↦ absurd (ground (arith, h, t))
    | inr f ↦ elim (Bool-cases cfg.enabled) [
      | inr g ↦ absurd (ground (arith, h, f, g))
      | inl g ↦ elim (Sum-cases (decrypt x raw cfg.secret a.decrypt_now)) [
        | inl (err, e) ↦ absurd (ground (arith, h, f, g, e))
        | inr (p, e) ↦
            (p, e, login_opened-Marked w raw p ip cookies a id (rw (sso_login, f, g, e) at h))
      ]
    ]
  ]

  login_reserved-used :
      (w : SsoWorld) (p : Payload) (ip : Bytes) (cookies : Cookies) (a : SsoAnswers)
      → (login_reserved lib clock cfg w p ip cookies a).0.used ≡ w.used
  unfolding login_reserved
  login_reserved-used w p ip cookies a = ground arith

  login_admitted-used :
      (w : SsoWorld) (p : Payload) (ip : Bytes) (cookies : Cookies) (a : SsoAnswers)
      → (login_admitted lib clock cfg w p ip cookies a).0.used ≡ w.used
  unfolding login_admitted
  login_admitted-used w p ip cookies a =
      let call = Store.reserve w.store ip cfg.login.limits none in
      elim (Option-cases call.1) [
        | inl full ↦ rw (login_admitted, full) refl
        | inr (f, room) ↦
            rw (login_admitted, room)
              (login_reserved-used (record w { store = call.0 }) p ip cookies a)
      ]

  login_opened-used :
      (w : SsoWorld) (raw : Bytes) (p : Payload) (ip : Bytes) (cookies : Cookies) (a : SsoAnswers)
      (id : Bytes)
      → (login_opened lib clock cfg w raw p ip cookies a).1 ≡ login_pending id
      → (login_opened lib clock cfg w raw p ip cookies a).0.used
        ≡ (UsedSet.mark_if_unused w.used (clock.token_hash raw) (clock.unix p.exp) a.mark_now).0
  unfolding login_opened
  login_opened-used w raw p ip cookies a id h =
      let call =
        UsedSet.mark_if_unused w.used (clock.token_hash raw) (clock.unix p.exp) a.mark_now in
      elim (Bool-cases (is_acceptable lib cfg.login p ip)) [
        | inr f ↦ absurd (ground (arith, h, f))
        | inl t ↦ elim (Bool-cases call.1) [
          | inr f ↦ absurd (ground (arith, h, t, f))
          | inl u ↦
              rw (login_opened, t, u)
                (login_admitted-used (record w { used = call.0 }) p ip cookies a)
        ]
      ]

  sso_login-used :
      (w : SsoWorld) (raw ip : Bytes) (cookies : Cookies) (a : SsoAnswers) (id : Bytes)
      (p : Payload)
      → (sso_login lib x clock cfg w raw ip cookies a).1 ≡ login_pending id
      → decrypt x raw cfg.secret a.decrypt_now ≡ inr p
      → (sso_login lib x clock cfg w raw ip cookies a).0.used
        ≡ (UsedSet.mark_if_unused w.used (clock.token_hash raw) (clock.unix p.exp) a.mark_now).0
  unfolding sso_login
  sso_login-used w raw ip cookies a id p h e = elim (Bool-cases (raw == [])) [
    | inl t ↦ absurd (ground (arith, h, t))
    | inr f ↦ elim (Bool-cases cfg.enabled) [
      | inr g ↦ absurd (ground (arith, h, f, g))
      | inl g ↦
          rw (sso_login, f, g, e)
            (login_opened-used w raw p ip cookies a id (rw (sso_login, f, g, e) at h))
    ]
  ]

  inr_injective : {e : SsoError ⊎ Payload} {p q : Payload} → inr p ≡ e → e ≡ inr q → p ≡ q
  inr_injective h k = cc

  true_ne_false : true ≡ false → ⊥
  true_ne_false e = cc

  -- Where SSOLogin has answered a token of payload `p` with a pending login, and only calls `cs`
  -- that keep to the expiry of the token reach the set of used tokens in between, it answers no
  -- request with the same token by a pending login while the clock has not passed that expiry,
  -- whatever else has changed.
  pub sso_login_once :
      (w v : SsoWorld) (raw ip other : Bytes) (cookies cookies' : Cookies) (a b : SsoAnswers)
      (id again : Bytes) (p : Payload) (cs : List Call)
      → (sso_login lib x clock cfg w raw ip cookies a).1 ≡ login_pending id
      → decrypt x raw cfg.secret a.decrypt_now ≡ inr p
      → v.used ≡ UsedSet.run (sso_login lib x clock cfg w raw ip cookies a).0.used cs
      → All (IsBefore (clock.token_hash raw) (clock.unix p.exp)) cs
      → b.mark_now ≤ clock.unix p.exp
      → (sso_login lib x clock cfg v raw other cookies' b).1 ≢ login_pending again
  sso_login_once w v raw ip other cookies cookies' a b id again p cs h e between keep le k =
      refuted (sso_login-Marked v raw other cookies' b again k)
    where
      first : Marked w raw p a
      first = same (sso_login-Marked w raw ip cookies a id h)
        where
          same :
              (q : Payload) × (decrypt x raw cfg.secret a.decrypt_now ≡ inr q) × Marked w raw q a
              → Marked w raw p a
          same (q, d, m) = subst (λ r. Marked w raw r a) (inr_injective (sym d) e) m

      refuted :
          (q : Payload) × (decrypt x raw cfg.secret b.decrypt_now ≡ inr q) × Marked v raw q b → ⊥
      refuted (q, d, m) =
          let used =
            between ∙ ap (λ u. UsedSet.run u cs) (sso_login-used w raw ip cookies a id p h e) in
          let refusal =
            mark_if_unused_once w.used (clock.token_hash raw) (clock.unix p.exp) a.mark_now cs
              (clock.unix q.exp) b.mark_now first keep le in
          true_ne_false (
            sym m
            ∙ ap
                (λ u.
                  (UsedSet.mark_if_unused u (clock.token_hash raw) (clock.unix q.exp) b.mark_now).1)
                used
            ∙ refusal.0)
