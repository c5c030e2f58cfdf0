-- ===== src/Auth/Store/Capacity.antt =====
-- How long a session lives (Touch, SetExpiry), and when Store.Reserve has room for a login.
use goblin_ftp.Base.{
  ℕ, ◌+◌, ◌-◌, ◌≤◌, ◌<◌, ◌≡◌, ◌≢◌, ◌↔◌, Bytes, bytes_has_eq, Option, none, length, arith,
  Bool-cases, Option-cases, ◌⊎◌, inl, inr,
}
use goblin_ftp.Base.Map.{lookup}
use goblin_ftp.Auth.Session.{Session}
use goblin_ftp.Auth.Store.{
  Store, Limits, is_live, write, touched, touch, sum, or_zero, count_ip, count_credited, is_full,
  reserve,
}

-- A session with a hard expiry does not outlive it.
abbrev pub IsCapped : Session → Type 0
IsCapped sess = (sess.hard_expiry ≡ 0) ⊎ (sess.expires_at ≤ sess.hard_expiry)

touched-IsCapped : (sess : Session) (expiry : ℕ) → IsCapped (touched sess expiry)
unfolding touched
touched-IsCapped sess expiry = ground arith

-- A session that is within its hard expiry, or has none, is so after Touch, whatever the clock
-- says.
pub touch-IsCapped :
    (s : Store) (id : Bytes) (now later p : ℕ)
    → IsCapped (s.objects p)
    → IsCapped ((touch s id now later).objects p)
unfolding touch write
touch-IsCapped s id now later p c = elim (Option-cases (lookup id s.sessions)) [
  | inl e ↦ rw (e, touch) c
  | inr (q, e) ↦ elim (Bool-cases (is_live now (s.objects q))) [
    | inl l ↦ rw (e, touch, l) (ground (arith, c, touched-IsCapped (s.objects q) (later + s.ttl)))
    | inr d ↦ rw (e, touch, d) c
  ]
]

-- Reserve grants a place exactly when all four counts are below their limits: sessions but for the
-- credited one together with the attempts to connect, those of the address, the attempts, and
-- those of the address.
pub reserve_iff :
    (s : Store) (ip : Bytes) (limits : Limits) (credit : Option Bytes)
    → ((reserve s ip limits credit).1 ≢ none) ↔ (
        (length s.sessions - count_credited credit s.sessions + sum s.connecting
          < limits.max_sessions)
        × (count_ip s.objects credit ip s.sessions + or_zero (lookup ip s.connecting)
            < limits.max_per_ip)
        × (sum s.connecting < limits.max_connecting)
        × (or_zero (lookup ip s.connecting) < limits.max_connecting_ip))
unfolding reserve is_full
reserve_iff s ip limits credit = ground arith
