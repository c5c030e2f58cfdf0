-- ===== src/Sso/Connect/Clients.antt =====
-- The connection that a login by SSOConnect of backend/internal/api/sso.go opens is closed behind an
-- error, and what follows the dial hands out no place.
use goblin_ftp.Base.{
  ℕ, ◌≡◌, ◌∙◌, refl, ap, Bool, false, ◌∷◌, Bytes, bytes_has_eq, nat_has_eq, Option, none, some, ◌⊎◌,
  inl, inr, arith, Bool-cases, Option-cases, Sum-cases, nat_eq,
}
use goblin_ftp.Base.Sets.{remove, member, remove-absent}
use goblin_ftp.Errors.{Code}
use goblin_ftp.Errors.Chain.{GoError}
use goblin_ftp.Remote.{StatResult}
use goblin_ftp.Auth.Session.{Session}
use goblin_ftp.Auth.Store
use goblin_ftp.Auth.Store.{Store}
use goblin_ftp.Cookies.{Cookies}
use goblin_ftp.Guards.{lookup_session}
use goblin_ftp.Tokens.{Payload, generate_csrf_token}
use goblin_ftp.Login.Checks.{Library}
use goblin_ftp.Login.Places.{new-frees}
use goblin_ftp.Sso.World.{SsoWorld, close_client}
use goblin_ftp.Sso.Connect.{
  SsoDialled, prompted, refused, connected, ConnectAnswers, initial_directory, refuse, Answer,
  replace_session, retired, enter_session, entered, finish, sso_dialled,
}
use goblin_ftp.Sso.Connect.Outcomes.{
  Keeps, IsFreshDial, Returned, Stored, on_error, retire-frees, Stored-weaken,
}

module _ (lib : Library) (evict : Session → Session) where
  retired-Stored :
      (s t : Store) (p q : ℕ) (name : Bytes) (cookies : Cookies) (now : ℕ) (answer : Answer)
      → t.frees ≡ s.frees
      → Stored s (retired (replace_session lib evict t p name cookies now) q answer)
  unfolding replace_session Store.delete Store.write
  retired-Stored s t p q name cookies now answer h =
      elim (Option-cases (lookup_session t name cookies now)) [
        | inl e ↦ rw (replace_session, e) (retire-frees t q ∙ h)
        | inr (old, e) ↦ elim (Bool-cases (nat_eq old p)) [
          | inl same ↦ rw (replace_session, e, same) tt
          | inr other ↦ rw (replace_session, e, other) (retire-frees _ q ∙ h)
        ]
      ]

  enter_session-Stored :
      (s : Store) (p : ℕ) (payload : Payload) (ip : Bytes) (a : ConnectAnswers) (at : ℕ)
      (dir : Bytes) (chmod : Bool)
      → Stored s (enter_session lib evict s p payload ip a at dir chmod)
  unfolding enter_session Store.write
  enter_session-Stored s p payload ip a at dir chmod =
      let made = Store.new s a.ids.0 a.ids.1.0 a.ids.1.1 a.new_now in
      let kept = new-frees s a.ids.0 a.ids.1.0 a.ids.1.1 a.new_now in
      elim (Option-cases (generate_csrf_token a.csrf)) [
        | inl e ↦ rw (enter_session, e) refl
        | inr (csrf, e) ↦ elim (Option-cases made.1) [
          | inl f ↦ rw (enter_session, e, f) kept
          | inr (q, f) ↦
              rw (enter_session, e, f)
                (retired-Stored s _ p p a.session_name a.cookies a.get_now _ kept)
        ]
      ]

  closed :
      (w : SsoWorld) (at : ℕ)
      → member at w.clients ≡ false
      → (remove at (at ∷ w.clients)) ≡ w.clients
  unfolding remove
  closed w at h = ground (arith, remove-absent at w.clients h)

  -- With the connection `at` open.
  entered-Keeps :
      (w u : SsoWorld) (at : ℕ) (m : Option (Store × Answer))
      → member at w.clients ≡ false
      → u.clients ≡ at ∷ w.clients
      → Stored w.store m
      → Returned (Keeps w) (entered u at m)
  unfolding close_client
  entered-Keeps w u at none h c k = tt
  entered-Keeps w u at (some (s, inl code)) h c k = record {
    frees = k;
    clients = ap (remove at) c ∙ closed w at h;
  }
  entered-Keeps w u at (some (s, inr answer)) h c k = record { frees = k; clients = tt }

  refuse-frees :
      (w : SsoWorld) (p : ℕ) (failure : Code × Option GoError)
      → ((refuse lib.to_lower w p failure).0.store.frees ≡ w.store.frees)
        × ((refuse lib.to_lower w p failure).0.clients ≡ w.clients)
  unfolding refuse Store.write
  refuse-frees w p (code, none) = (refl, refl)
  refuse-frees w p (code, some err) = (refl, refl)

  refused-Keeps :
      (w u : SsoWorld) (p at : ℕ) (failure : Code × Option GoError) (answer : Answer)
      → member at w.clients ≡ false
      → u.clients ≡ at ∷ w.clients
      → u.store.frees ≡ w.store.frees
      → Keeps w (close_client (refuse lib.to_lower u p failure).0 at) answer
  unfolding close_client
  refused-Keeps w u p at failure answer h c f =
      let kept = refuse-frees u p failure in
      record {
        frees = kept.0 ∙ f;
        clients = on_error answer (ap (remove at) (kept.1 ∙ c) ∙ closed w at h);
      }

  finish-Keeps :
      (w u : SsoWorld) (p : ℕ) (payload : Payload) (ip : Bytes) (a : ConnectAnswers) (at : ℕ)
      (dir : GoError ⊎ Bytes) (stat : StatResult) (chmod : Bool)
      → member at w.clients ≡ false
      → u.clients ≡ at ∷ w.clients
      → u.store.frees ≡ w.store.frees
      → Returned (Keeps w) (finish lib evict u p payload ip a at dir stat chmod)
  unfolding finish
  finish-Keeps w u p payload ip a at dir stat chmod h c f =
      elim (Sum-cases (initial_directory payload dir stat)) [
        | inl (failure, d) ↦ rw (finish, d) (refused-Keeps w u p at failure _ h c f)
        | inr (start, d) ↦
            rw (finish, d)
              (entered-Keeps w u at _ h c (
                Stored-weaken u.store w.store _ f
                  (enter_session-Stored u.store p payload ip a at start chmod)))
      ]

  pub sso_dialled-Keeps :
      (w u : SsoWorld) (p : ℕ) (payload : Payload) (ip : Bytes) (a : ConnectAnswers) (i : ℕ)
      (d : SsoDialled)
      → IsFreshDial w.clients d
      → u.store.frees ≡ w.store.frees
      → u.clients ≡ w.clients
      → Returned (Keeps w) (sso_dialled lib evict u p payload ip a i d)
  unfolding sso_dialled
  sso_dialled-Keeps w u p payload ip a i prompted h f c = record { frees = f; clients = tt }
  sso_dialled-Keeps w u p payload ip a i (refused err) h f c = record { frees = f; clients = c }
  sso_dialled-Keeps w u p payload ip a i (connected at dir stat chmod) h f c =
      finish-Keeps w _ p payload ip a at dir stat chmod h (ap (λ l. at ∷ l) c) f
