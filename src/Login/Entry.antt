-- ===== src/Login/Entry.antt =====
-- What Connect of backend/internal/api/connect.go does behind a dial that succeeded: the connection of a
-- login that fails is closed, and no place is taken.
use goblin_ftp.Base.{
  ℕ, ◌≡◌, refl, Bool, true, false, List, ◌∷◌, Bytes, Option, none, some, ◌⊎◌, inl, inr,
  bytes_has_eq, nat_has_eq, arith, Bool-cases, Option-cases, ◌==◌,
}
use goblin_ftp.Base.Sets.{remove, member, remove-absent}
use goblin_ftp.Errors.Chain.{GoError}
use goblin_ftp.Auth.Session
use goblin_ftp.Auth.Session.{Session}
use goblin_ftp.Auth.Store
use goblin_ftp.Auth.Store.{Store, or_zero}
use goblin_ftp.Paths.{validate_server_directory}
use goblin_ftp.Tokens.{generate_csrf_token}
use goblin_ftp.Login.Checks.{Library, ConnectRequest}
use goblin_ftp.Login.{
  Answers, host_key_prompt, logged_in, LoginAnswer, LoginWorld, close_dialled, evict_held,
  replace_old, logged, then_do, open_session, enter,
}
use goblin_ftp.Login.Places.{SamePlaces, new-SamePlaces}

-- A login adds its connection to those that are open, every other answer none.
abbrev pub Opens : ℕ → List ℕ → List ℕ → LoginAnswer → Type 0
Opens at before after (inl code) = after ≡ before
Opens at before after (inr host_key_prompt) = after ≡ before
Opens at before after (inr (logged_in id dir csrf)) = after ≡ at ∷ before

-- The call returns with `P`, unless the lock that it waits for is never released.
abbrev pub Ends :
    Bool → (LoginWorld → LoginAnswer → Type 0) → Option (LoginWorld × LoginAnswer) → Type 0
Ends held P none = held ≡ true
Ends held P (some (w, answer)) = P w answer

pub Ends-then_do :
    (held : Bool) (P Q : LoginWorld → LoginAnswer → Type 0) (m : Option (LoginWorld × LoginAnswer))
    (deferred : LoginWorld → LoginWorld)
    → Ends held P m
    → ((w : LoginWorld) (answer : LoginAnswer) → P w answer → Q (deferred w) answer)
    → Ends held Q (then_do m deferred)
Ends-then_do held P Q none deferred h k = h
Ends-then_do held P Q (some (w, answer)) deferred h k = k w answer h

pub Ends-weaken :
    (held : Bool) (P Q : LoginWorld → LoginAnswer → Type 0) (m : Option (LoginWorld × LoginAnswer))
    → Ends held P m
    → ((w : LoginWorld) (answer : LoginAnswer) → P w answer → Q w answer)
    → Ends held Q m
Ends-weaken held P Q none h k = h
Ends-weaken held P Q (some (w, answer)) h k = k w answer h

-- Behind the reservations: the places of the store and the throttle are those of `w`, and so are the
-- connections, but for that of a login.
pub record Keeps (w : LoginWorld) (at : ℕ) (v : LoginWorld) (answer : LoginAnswer) : Type 0 where
  pub places : SamePlaces v.store w.store
  pub throttle : v.throttle ≡ w.throttle
  pub clients : Opens at w.clients v.clients answer

-- A connection that was not open before is the one that is closed.
closed :
    (w : LoginWorld) (at : ℕ) → member at w.clients ≡ false → remove at (at ∷ w.clients) ≡ w.clients
unfolding remove
closed w at h = ground (arith, remove-absent at w.clients h)

replace_old-Ends :
    (evict : Session → Session) (w u : LoginWorld) (s : Store) (id dir csrf : Bytes) (at : ℕ)
    (name : Bytes) (cookie : Option Bytes) (now : ℕ) (held : Bool)
    → SamePlaces s w.store
    → u.throttle ≡ w.throttle
    → u.clients ≡ at ∷ w.clients
    → Ends held
        (Keeps w at)
        (logged u (replace_old evict s id cookie now held) (inr (logged_in name dir csrf)))
unfolding replace_old evict_held Session.lock_transfer Store.delete Store.write
replace_old-Ends evict w u s id dir csrf at name none now held h t c = record {
  places = h;
  throttle = t;
  clients = c;
}
replace_old-Ends evict w u s id dir csrf at name (some cookie) now held h t c =
    elim (Option-cases (Store.get s cookie now)) [
      | inl e ↦ rw (replace_old, e) (record { places = h; throttle = t; clients = c })
      | inr (p, e) ↦ elim (Bool-cases ((s.objects p).id == id)) [
        | inl same ↦ rw (replace_old, e, same) (record { places = h; throttle = t; clients = c })
        | inr other ↦ elim (Bool-cases held) [
          | inl stuck ↦ rw (replace_old, e, other, evict_held, stuck) refl
          | inr free ↦
              rw (replace_old, e, other, evict_held, free)
                (record { places = h; throttle = t; clients = c })
        ]
      ]
    ]

module _ (lib : Library) (evict : Session → Session) where
  -- With the connection of the dial open.
  open_session-Ends :
      (w : LoginWorld) (req : ConnectRequest) (ip : Bytes) (a : Answers) (dir : Bytes)
      (chmod : Bool)
      → member a.client_at w.clients ≡ false
      → Ends a.held (Keeps w a.client_at) (
          open_session lib evict
            (record w { clients = a.client_at ∷ w.clients })
            req
            ip
            a
            dir
            chmod)
  unfolding open_session close_dialled Store.write
  open_session-Ends w req ip a dir chmod h =
      let opened : LoginWorld = record w { clients = a.client_at ∷ w.clients } in
      let made = Store.new w.store a.ids.0 a.ids.1.0 a.ids.1.1 a.new_now in
      let kept = new-SamePlaces w.store a.ids.0 a.ids.1.0 a.ids.1.1 a.new_now in
      elim (Option-cases (generate_csrf_token a.csrf)) [
        | inl e ↦
            rw (open_session, e)
              (record { places = (refl, refl); throttle = refl; clients = closed w a.client_at h })
        | inr (csrf, e) ↦ elim (Option-cases made.1) [
          | inl f ↦
              rw (open_session, e, f)
                (record { places = kept; throttle = refl; clients = closed w a.client_at h })
          | inr (p, f) ↦
              rw (open_session, e, f)
                (replace_old-Ends evict w opened _ _ dir csrf a.client_at _ a.cookie a.get_now
                  a.held kept refl refl)
        ]
      ]

  pub enter-Ends :
      (w : LoginWorld) (req : ConnectRequest) (ip : Bytes) (a : Answers) (dir : GoError ⊎ Bytes)
      (chmod : Bool)
      → member a.client_at w.clients ≡ false
      → Ends a.held
          (Keeps w a.client_at)
          (enter lib evict (record w { clients = a.client_at ∷ w.clients }) req ip a dir chmod)
  unfolding enter close_dialled
  enter-Ends w req ip a (inl err) chmod h = record {
    places = (refl, refl);
    throttle = refl;
    clients = closed w a.client_at h;
  }
  enter-Ends w req ip a (inr dir) chmod h =
      elim (Bool-cases (validate_server_directory dir req.protocol)) [
        | inl t ↦ rw (enter, t) (open_session-Ends w req ip a dir chmod h)
        | inr f ↦
            rw (enter, f)
              (record { places = (refl, refl); throttle = refl; clients = closed w a.client_at h })
      ]
