-- ===== src/Auth/Throttle/Admission.antt =====
-- When Throttle.Reserve admits a login attempt, and what an attempt leaves behind.
use goblin_ftp.Base.{
  ℕ, ◌+◌, ◌*◌, ◌≤◌, ◌<◌, ◌≡◌, ◌≢◌, refl, ◌↔◌, inl, inr, Bool, true, false, Bytes, ltb,
  if◌then◌else◌, Option, none, some, arith, Option-cases, bytes_has_eq, bytes_eq_iff, length,
}
use goblin_ftp.Base.Map.{lookup, erase, lookup-erase}
use goblin_ftp.Auth.Throttle.{
  max_throttle_entries, Throttle, is_idle, write_cell, drop_idle, forget_attempts, is_refused,
  reserve, missing, account_load, ip_load,
}

-- The attempts that count against an account at time `now`: those that failed within the cooldown,
-- and those in flight, which count even when the cooldown is over.
abbrev pub account_count : Throttle → Bytes → ℕ → ℕ
account_count t key now = elim (lookup key t.entries) [
  | none ↦ 0
  | some p ↦
      (if ltb (t.cells p).expires_at now then 0 else (t.cells p).attempts) + (t.cells p).in_flight
]

-- Those that count against an address, whose entry is dropped when its cooldown is over.
abbrev pub ip_count : Throttle → Bytes → ℕ → ℕ
ip_count t key now = elim (lookup key t.entries) [
  | none ↦ 0
  | some p ↦ if is_idle now (t.cells p) then 0 else (t.cells p).attempts
]

abbrev pub settled : Throttle → Bytes → Bytes → ℕ → Throttle
settled t account ip now = forget_attempts (drop_idle (drop_idle t account now) ip now) account now

pub settled-account_load :
    (t : Throttle) (account ip : Bytes) (now : ℕ)
    → account ≢ ip
    → account_load (settled t account ip now) account ≡ account_count t account now
unfolding drop_idle forget_attempts write_cell
settled-account_load t account ip now ne = ground (
  arith,
  bytes_eq_iff account ip,
  bytes_eq_iff ip account,
  bytes_eq_iff account account,
  lookup-erase account ip t.entries,
  lookup-erase account account t.entries,
  lookup-erase ip account t.entries,
  lookup-erase ip account (erase account t.entries),
)

-- Two keys with entries of their own, as any two keys of a reachable state are.
abbrev pub Apart : Throttle → Bytes → Bytes → Type 0
Apart t j k =
    (j ≢ k) × ((p q : ℕ) → lookup j t.entries ≡ some p → lookup k t.entries ≡ some q → p ≢ q)

pub settled-ip_load :
    (t : Throttle) (account ip : Bytes) (now : ℕ)
    → Apart t account ip
    → ip_load (settled t account ip now) ip ≡ ip_count t ip now
unfolding drop_idle forget_attempts write_cell
settled-ip_load t account ip now (ne, far) = elim (Option-cases (lookup account t.entries)) [
  | inl none_a ↦ elim (Option-cases (lookup ip t.entries)) [
    | inl none_i ↦ ground (
      arith,
      none_a,
      none_i,
      bytes_eq_iff account ip,
      bytes_eq_iff ip account,
      bytes_eq_iff ip ip,
      lookup-erase ip ip t.entries,
      lookup-erase ip account t.entries,
    )
    | inr (q, some_i) ↦ ground (
      arith,
      none_a,
      some_i,
      bytes_eq_iff account ip,
      bytes_eq_iff ip account,
      bytes_eq_iff ip ip,
      lookup-erase ip ip t.entries,
      lookup-erase ip account t.entries,
    )
  ]
  | inr (p, some_a) ↦ elim (Option-cases (lookup ip t.entries)) [
    | inl none_i ↦ ground (
      arith,
      some_a,
      none_i,
      bytes_eq_iff account ip,
      bytes_eq_iff ip account,
      bytes_eq_iff ip ip,
      lookup-erase account ip t.entries,
      lookup-erase account account t.entries,
      lookup-erase ip account t.entries,
      lookup-erase ip account (erase account t.entries),
      lookup-erase ip ip (erase account t.entries),
    )
    | inr (q, some_i) ↦ ground (
      arith,
      some_a,
      some_i,
      far p q some_a some_i,
      bytes_eq_iff account ip,
      bytes_eq_iff ip account,
      bytes_eq_iff ip ip,
      bytes_eq_iff account account,
      lookup-erase ip ip t.entries,
      lookup-erase ip account t.entries,
      lookup-erase account ip t.entries,
      lookup-erase account account t.entries,
      lookup-erase ip account (erase account t.entries),
      lookup-erase ip ip (erase account t.entries),
    )
  ]
]

-- There is room for the entries that the attempt needs, after those that it may drop are gone.
abbrev pub HasRoom : Throttle → Bytes → Bytes → ℕ → Type 0
HasRoom t account ip now =
    let u = settled t account ip now in
    length u.entries + (missing u account + missing u ip) ≤ max_throttle_entries

pub accepted_iff :
    (u : Throttle) (account ip : Bytes) (limit : ℕ)
    → (is_refused u account ip limit ≡ false) ↔ (
        (0 < limit)
        × (length u.entries + (missing u account + missing u ip) ≤ max_throttle_entries)
        × (account_load u account < limit)
        × (ip_load u ip < limit * 4))
unfolding is_refused
accepted_iff u account ip limit = ground arith

abbrev answer : Bool → Throttle → Throttle → ℕ → Option ℕ
answer b u v s = let r : Throttle × Option ℕ = if b then (u, none) else (v, some s) in r.1

some_iff : (b : Bool) (u v : Throttle) (s : ℕ) → (answer b u v s ≢ none) ↔ (b ≡ false)
some_iff true u v s = ((λ h. absurd (h refl)), λ e. cc)
some_iff false u v s = ((λ h. refl), λ e q. cc)

-- For an account and an address that are different keys, with different entries where they have
-- any: Reserve admits an attempt exactly when a positive limit is set, the map has room, the
-- account has fewer than `limit` failures and attempts in flight, and the address fewer than
-- four times as many attempts.
pub reserve_admits_iff :
    (t : Throttle) (account ip : Bytes) (limit cooldown now : ℕ)
    → Apart t account ip
    → ((reserve t account ip limit cooldown now).1 ≢ none) ↔ (
        (0 < limit)
        × HasRoom t account ip now
        × (account_count t account now < limit)
        × (ip_count t ip now < limit * 4))
unfolding reserve
reserve_admits_iff t account ip limit cooldown now apart =
    let u = settled t account ip now in
    let spec = accepted_iff u account ip limit in
    let a = settled-account_load t account ip now apart.0 in
    let i = settled-ip_load t account ip now apart in
    let adm = some_iff (is_refused u account ip limit) u _ _ in
    (
      (λ h. let (l, r, x, y) = spec.0 (adm.0 h) in (l, r, rw a at x, rw i at y)),
      (λ (l, r, x, y). adm.1 (spec.1 (l, r, rw (← a) at x, rw (← i) at y))),
    )
