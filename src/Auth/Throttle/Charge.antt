-- ===== src/Auth/Throttle/Charge.antt =====
-- What an admitted attempt charges, and what its settle function gives back.
use goblin_ftp.Base.{
  ℕ, suc, ◌+◌, ◌*◌, ◌≤◌, ◌<◌, ◌≡◌, ◌≢◌, refl, sym, ap, ◌∙◌, inl, inr, Bool, true, false, Bytes,
  if◌then◌else◌, Option, none, some, arith, Bool-cases, get_elem?, set, bytes_has_eq, bytes_eq_iff,
  length, get_elem?-append_last, get_elem?-set_self,
}
use goblin_ftp.Base.Map.{lookup, insert, lookup-erase, lookup-insert, lookup-All}
use goblin_ftp.Auth.Throttle.{
  Settle, Throttle, add_entry, write_cell, ensure_entry, drop_idle, forget_attempts, is_refused,
  charge, charge_at, reserve, settle, settle_entry, account_load, ip_load,
}
use goblin_ftp.Auth.Throttle.Settling.{drop_idle-IsCounted, forget_attempts-IsCounted}
use goblin_ftp.Auth.Throttle.InFlight.{IsCounted, open_count-set}
use goblin_ftp.Auth.Throttle.Admission.{
  settled, settled-account_load, settled-ip_load, accepted_iff, Apart, account_count, ip_count,
}

-- Where the entries of the two keys stand after `ensure_entry` for each.
record Ensured (u w : Throttle) (a i : ℕ) (account ip : Bytes) : Type 0 where
  at_account : lookup account w.entries ≡ some a
  at_ip : lookup ip w.entries ≡ some i
  distinct : a ≢ i
  same_account : account_load w account ≡ account_load u account
  same_ip : ip_load w ip ≡ ip_load u ip
  same_settles : w.settles ≡ u.settles

charge_at-loads :
    (u w : Throttle) (a i : ℕ) (account ip : Bytes) (cooldown now : ℕ)
    → Ensured u w a i account ip
    → let v = charge_at w a i cooldown now in
      (account_load v account ≡ account_load u account + 1)
      × (ip_load v ip ≡ ip_load u ip + 1)
      × (lookup account v.entries ≡ some a)
      × (get_elem? v.settles (length w.settles)
          ≡ some (record { cell = a; cooldown = cooldown; done = false }))
unfolding charge_at write_cell
charge_at-loads u w a i account ip cooldown now e = (
  ground (arith, e.at_account, e.same_account, e.distinct),
  ground (arith, e.at_ip, e.same_ip, e.distinct),
  e.at_account,
  get_elem?-append_last w.settles _,
)

Ensured-by :
    (u : Throttle) (account ip : Bytes) (oa oi : Option ℕ)
    → lookup account u.entries ≡ oa
    → lookup ip u.entries ≡ oi
    → Apart u account ip
    → IsCounted u
    → let t1 = ensure_entry u account oa in
      let t2 = ensure_entry t1.0 ip oi in Ensured u t2.0 t1.1 t2.1 account ip
unfolding ensure_entry add_entry
Ensured-by u account ip none none ea ei (ne, far) c =
    let here = lookup-insert ip account (suc u.next) (insert account u.next u.entries) in
    let under = lookup-insert account account u.next u.entries in
    let there = lookup-insert ip ip (suc u.next) (insert account u.next u.entries) in
    record {
      at_account =
          ground (arith, here, under, bytes_eq_iff account account, bytes_eq_iff ip account);
      at_ip = ground (arith, there, bytes_eq_iff ip ip);
      distinct = omega arith;
      same_account =
          ground (arith, ea, here, under, bytes_eq_iff account account, bytes_eq_iff ip account);
      same_ip = ground (arith, ei, there, bytes_eq_iff ip ip);
      same_settles = refl;
    }
Ensured-by u account ip none (some q) ea ei (ne, far) c =
    let here = lookup-insert account account u.next u.entries in
    let there = lookup-insert account ip u.next u.entries in
    let below = lookup-All (λ p. p < u.next) ip q u.entries c.placed ei in
    record {
      at_account = ground (arith, here, bytes_eq_iff account account);
      at_ip = ground (arith, there, bytes_eq_iff account ip);
      distinct = omega arith;
      same_account = ground (arith, ea, here, bytes_eq_iff account account);
      same_ip = ground (arith, ei, there, bytes_eq_iff account ip, below);
      same_settles = refl;
    }
Ensured-by u account ip (some p) none ea ei (ne, far) c =
    let here = lookup-insert ip account u.next u.entries in
    let there = lookup-insert ip ip u.next u.entries in
    let below = lookup-All (λ q. q < u.next) account p u.entries c.placed ea in
    record {
      at_account = ground (arith, here, bytes_eq_iff ip account);
      at_ip = ground (arith, there, bytes_eq_iff ip ip);
      distinct = omega arith;
      same_account = ground (arith, ea, here, bytes_eq_iff ip account, below);
      same_ip = ground (arith, ei, there, bytes_eq_iff ip ip);
      same_settles = refl;
    }
Ensured-by u account ip (some p) (some q) ea ei (ne, far) c = record {
  at_account = ea;
  at_ip = ei;
  distinct = far p q ea ei;
  same_account = refl;
  same_ip = refl;
  same_settles = refl;
}

charge-loads :
    (u : Throttle) (account ip : Bytes) (cooldown now : ℕ)
    → Apart u account ip
    → IsCounted u
    → let (v, s) = charge u account ip cooldown now in
      (account_load v account ≡ account_load u account + 1)
      × (ip_load v ip ≡ ip_load u ip + 1)
      × (p : ℕ) × (lookup account v.entries ≡ some p)
      × (get_elem? v.settles s ≡ some (record { cell = p; cooldown = cooldown; done = false }))
unfolding charge
charge-loads u account ip cooldown now apart c =
    let t1 = ensure_entry u account (lookup account u.entries) in
    let t2 = ensure_entry t1.0 ip (lookup ip u.entries) in
    let e = Ensured-by u account ip _ _ refl refl apart c in
    let (a, i, at, waiting) = charge_at-loads u t2.0 t1.1 t2.1 account ip cooldown now e in
    (a, i, t1.1, at, waiting)

Apart-drop_idle :
    (t : Throttle) (k account ip : Bytes) (now : ℕ)
    → Apart t account ip
    → Apart (drop_idle t k now) account ip
unfolding drop_idle
Apart-drop_idle t k account ip now (ne, far) =
    (ne, λ p q hp hq. far p q (kept account p hp) (kept ip q hq))
  where
    kept :
        (j : Bytes) (p : ℕ)
        → lookup j (drop_idle t k now).entries ≡ some p
        → lookup j t.entries ≡ some p
    kept j p h = ground (arith, lookup-erase k j t.entries)

Apart-forget_attempts :
    (t : Throttle) (k account ip : Bytes) (now : ℕ)
    → Apart t account ip
    → Apart (forget_attempts t k now) account ip
unfolding forget_attempts write_cell
Apart-forget_attempts t k account ip now (ne, far) =
    (ne, λ p q hp hq. far p q (kept account p hp) (kept ip q hq))
  where
    kept :
        (j : Bytes) (p : ℕ)
        → lookup j (forget_attempts t k now).entries ≡ some p
        → lookup j t.entries ≡ some p
    kept j p h = ground arith

reserve_refused :
    (t : Throttle) (account ip : Bytes) (limit cooldown now : ℕ)
    → is_refused (settled t account ip now) account ip limit ≡ true
    → (reserve t account ip limit cooldown now).1 ≡ none
unfolding reserve
reserve_refused t account ip limit cooldown now r = rw r

reserve_admitted :
    (t : Throttle) (account ip : Bytes) (limit cooldown now : ℕ)
    → is_refused (settled t account ip now) account ip limit ≡ false
    → let (v, s) = charge (settled t account ip now) account ip cooldown now in
      reserve t account ip limit cooldown now ≡ (v, some s)
unfolding reserve
reserve_admitted t account ip limit cooldown now r = rw r

-- For an account and an address that are different keys, with different entries where they have
-- any, in a throttle whose counts in flight are those of its settle functions: an admitted
-- attempt raises both counts by one, and so stays within the limits; its settle function is
-- waiting, for the account's entry.
pub reserve_charges :
    (t : Throttle) (account ip : Bytes) (limit cooldown now s : ℕ)
    → Apart t account ip
    → IsCounted t
    → (reserve t account ip limit cooldown now).1 ≡ some s
    → let u = (reserve t account ip limit cooldown now).0 in
      (account_load u account ≡ account_count t account now + 1)
      × (ip_load u ip ≡ ip_count t ip now + 1)
      × (account_load u account ≤ limit)
      × (ip_load u ip ≤ limit * 4)
      × (p : ℕ) × (lookup account u.entries ≡ some p)
      × (get_elem? u.settles s ≡ some (record { cell = p; cooldown = cooldown; done = false }))
reserve_charges t account ip limit cooldown now s apart c h =
    elim (Bool-cases (is_refused (settled t account ip now) account ip limit)) [
      | inl r ↦ absurd (none-ne (reserve_refused t account ip limit cooldown now r) h)
      | inr r ↦
          let u = settled t account ip now in
          let at = Apart-forget_attempts _ account account ip now (
            Apart-drop_idle _ ip account ip now (Apart-drop_idle t account account ip now apart)) in
          let d =
            forget_attempts-IsCounted account now
              (drop_idle-IsCounted ip now (drop_idle-IsCounted account now c)) in
          let (la, li, p, entered, waiting) = charge-loads u account ip cooldown now at d in
          let (pos, room, below_a, below_i) = (accepted_iff u account ip limit).0 r in
          let e = reserve_admitted t account ip limit cooldown now r in
          let a = settled-account_load t account ip now apart.0 in
          let i = settled-ip_load t account ip now apart in
          let same : (charge u account ip cooldown now).1 ≡ s = inj (sym (ap (λ x. x.1) e) ∙ h) in
          rw e (
            la ∙ ap (λ n. n + 1) a,
            li ∙ ap (λ n. n + 1) i,
            omega (arith, la),
            omega (arith, li),
            p,
            entered,
            rw same at waiting,
          )
    ]
  where
    none-ne : {x : Option ℕ} → x ≡ none → x ≡ some s → ⊥
    none-ne e f = cc

    inj : {x y : ℕ} → some x ≡ some y → x ≡ y
    inj e = cc

settle_done :
    (u : Throttle) (s : ℕ) (r : Settle) (failed : Bool) (now : ℕ)
    → get_elem? u.settles s ≡ some r
    → r.done ≡ true
    → settle u s failed now ≡ u
unfolding settle
settle_done u s r failed now e d = rw (e, settle, d)

settles-settle :
    (t : Throttle) (s : ℕ) (r : Settle) (failed : Bool) (now : ℕ)
    → get_elem? t.settles s ≡ some r
    → r.done ≡ false
    → (settle t s failed now).settles ≡ set t.settles s (record r { done = true })
unfolding settle
settles-settle t s r failed now e d = rw (e, settle, d)

-- In a throttle whose counts in flight are those of its settle functions, a settle function
-- that has not run turns its attempt in flight into a failure or takes it back; the second call
-- changes nothing.
pub settle_once :
    (t : Throttle) (s : ℕ) (r : Settle) (failed again : Bool) (now later : ℕ)
    → IsCounted t
    → get_elem? t.settles s ≡ some r
    → r.done ≡ false
    → let u = settle t s failed now in
      ((u.cells r.cell).attempts + (u.cells r.cell).in_flight + (if failed then 0 else 1)
        ≡ (t.cells r.cell).attempts + (t.cells r.cell).in_flight)
      × ((u.cells r.cell).in_flight + 1 ≡ (t.cells r.cell).in_flight)
      × (settle u s again later ≡ u)
unfolding settle write_cell settle_entry
settle_once t s r failed again now later c h waiting =
    let positive = c.counted r.cell ∙ sym (open_count-set r.cell s t.settles r h) in
    let done = get_elem?-set_self t.settles s (record r { done = true }) r h in
    (
      ground (arith, positive),
      ground (arith, positive),
      settle_done _ s (record r { done = true }) again later
          (ap (λ l. get_elem? l s) (settles-settle t s r failed now h waiting) ∙ done) refl,
    )
