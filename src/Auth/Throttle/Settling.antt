-- ===== src/Auth/Throttle/Settling.antt =====
-- Every method keeps the count of attempts in flight, and a settle function works once.
use native.Mathlib.Nat.{le_trans}
use goblin_ftp.Base.{
  ℕ, ◌≤◌, ◌<◌, ◌≡◌, refl, inl, inr, Bool, true, false, List, [], ◌∷◌, Bytes, ltb, if◌then◌else◌,
  Option, none, some, arith, All-append, Bool-cases, Option-cases, get_elem?, bytes_has_eq,
}
use goblin_ftp.Base.Map.{Map, lookup, erase, erase-All, lookup-All}
use goblin_ftp.Auth.Throttle.{
  Settle, Throttle, new_throttle, drop_expired, evict_locked, add_entry, write_cell, ensure_entry,
  make_room, record_attempt, is_throttled, reset, close, cleanup, drop_idle, forget_attempts,
  is_refused, charge, charge_at, reserve, settle, settle_entry, Call, records, probes, resets,
  reserves, settles, sweeps, closes, step, run,
}
use goblin_ftp.Auth.Throttle.InFlight.{
  open_count, IsCounted, set-All, get-All, with_entries, write_cell-IsCounted, add_entry-IsCounted,
  drop_expired-Placed, drop_soonest-Placed, open_count-append, open_count-set,
}

erase-IsCounted :
    {t : Throttle} (k : Bytes) → IsCounted t → IsCounted (record t { entries = erase k t.entries })
erase-IsCounted {t} k c =
    with_entries (erase k t.entries) c (erase-All (λ e. e.1 < t.next) k t.entries c.placed)

expire-IsCounted :
    {t : Throttle} (now : ℕ)
    → IsCounted t
    → IsCounted (record t { entries = drop_expired t.cells now t.entries })
expire-IsCounted {t} now c =
    with_entries _ c (drop_expired-Placed t.next t.cells now t.entries c.placed)

if-IsCounted :
    (b : Bool) {t u : Throttle} → IsCounted t → IsCounted u → IsCounted (if b then t else u)
if-IsCounted true c d = c
if-IsCounted false c d = d

if-entries-IsCounted :
    (b : Bool) (t : Throttle) (m n : Map Bytes ℕ)
    → IsCounted (record t { entries = m })
    → IsCounted (record t { entries = n })
    → IsCounted (record t { entries = if b then m else n })
if-entries-IsCounted true t m n c d = c
if-entries-IsCounted false t m n c d = d

evict_locked-IsCounted : {t : Throttle} (now : ℕ) → IsCounted t → IsCounted (evict_locked t now)
unfolding evict_locked
evict_locked-IsCounted {t} now c =
    let live = drop_expired t.cells now t.entries in
    let placed = drop_expired-Placed t.next t.cells now t.entries c.placed in
    if-entries-IsCounted _ t live _ (expire-IsCounted now c)
      (with_entries _ c (drop_soonest-Placed t.next _ t.cells live placed))

found-lt :
    {t : Throttle} (k : Bytes) (p : ℕ) → IsCounted t → lookup k t.entries ≡ some p → p < t.next
found-lt {t} k p c e = lookup-All (λ q. q < t.next) k p t.entries c.placed e

make_room-IsCounted :
    {t : Throttle} (k : Bytes) (now : ℕ) → IsCounted t → IsCounted (make_room t k now)
unfolding make_room
make_room-IsCounted {t} k now c = elim (Option-cases (lookup k t.entries)) [
  | inl e ↦ rw (e, make_room) (if-IsCounted _ (evict_locked-IsCounted now c) c)
  | inr (p, e) ↦ rw (e, make_room) c
]

pub drop_idle-IsCounted :
    {t : Throttle} (k : Bytes) (now : ℕ) → IsCounted t → IsCounted (drop_idle t k now)
unfolding drop_idle
drop_idle-IsCounted {t} k now c = elim (Option-cases (lookup k t.entries)) [
  | inl e ↦ rw (e, drop_idle) c
  | inr (p, e) ↦ rw (e, drop_idle) (if-IsCounted _ (erase-IsCounted k c) c)
]

pub forget_attempts-IsCounted :
    {t : Throttle} (k : Bytes) (now : ℕ) → IsCounted t → IsCounted (forget_attempts t k now)
unfolding forget_attempts
forget_attempts-IsCounted {t} k now c = elim (Option-cases (lookup k t.entries)) [
  | inl e ↦ rw (e, forget_attempts) c
  | inr (p, e) ↦ rw (e, forget_attempts) (if-IsCounted _ (write_cell-IsCounted p _ c refl) c)
]

-- The entry that is found or made lies in the memory.
record Ensured (t u : Throttle) (p : ℕ) : Type 0 where
  state : IsCounted u
  below : p < u.next
  grown : t.next ≤ u.next

ensure_entry-Ensured :
    {t : Throttle} (k : Bytes) (o : Option ℕ)
    → IsCounted t
    → ((p : ℕ) → o ≡ some p → p < t.next)
    → Ensured t (ensure_entry t k o).0 (ensure_entry t k o).1
unfolding ensure_entry
ensure_entry-Ensured k none c h = record {
  state = add_entry-IsCounted k c;
  below = unfold add_entry in omega arith;
  grown = unfold add_entry in omega arith;
}
ensure_entry-Ensured k (some p) c h = record { state = c; below = h p refl; grown = omega arith }

record_attempt-IsCounted :
    {t : Throttle} (k : Bytes) (cooldown evict_now now : ℕ)
    → IsCounted t
    → IsCounted (record_attempt t k cooldown evict_now now)
unfolding record_attempt
record_attempt-IsCounted {t} k cooldown evict_now now c =
    let d = make_room-IsCounted k evict_now c in
    let e = ensure_entry-Ensured k (lookup k t.entries) d (λ p f. room-lt p (found-lt k p c f)) in
    write_cell-IsCounted _ _ e.state refl
  where
    room-lt : (p : ℕ) → p < t.next → p < (make_room t k evict_now).next
    room-lt p h = unfold make_room evict_locked in ground arith

charge_at-IsCounted :
    {t : Throttle} (a i cooldown now : ℕ)
    → a < t.next
    → IsCounted t
    → IsCounted (charge_at t a i cooldown now)
unfolding charge_at write_cell
charge_at-IsCounted {t} a i cooldown now lt c =
    let s : Settle = record { cell = a; cooldown = cooldown; done = false } in
    record {
      counted =
          λ q. ground (arith, c.counted q, c.counted i, open_count-append q t.settles (s ∷ []));
      settling = All-append _ t.settles (s ∷ []) c.settling (lt, tt);
      placed = c.placed;
    }

charge-IsCounted :
    {t : Throttle} (account ip : Bytes) (cooldown now : ℕ)
    → IsCounted t
    → IsCounted (charge t account ip cooldown now).0
unfolding charge
charge-IsCounted {t} account ip cooldown now c =
    let e =
      ensure_entry-Ensured account (lookup account t.entries) c (λ p f. found-lt account p c f) in
    let f =
      ensure_entry-Ensured ip (lookup ip t.entries) e.state
        (λ p f. le_trans (found-lt ip p c f) e.grown) in
    charge_at-IsCounted _ _ cooldown now (le_trans e.below f.grown) f.state

reserve-IsCounted :
    {t : Throttle} (account ip : Bytes) (limit cooldown now : ℕ)
    → IsCounted t
    → IsCounted (reserve t account ip limit cooldown now).0
unfolding reserve
reserve-IsCounted {t} account ip limit cooldown now c =
    let u = forget_attempts (drop_idle (drop_idle t account now) ip now) account now in
    let d =
      forget_attempts-IsCounted account now
        (drop_idle-IsCounted ip now (drop_idle-IsCounted account now c)) in
    elim (Bool-cases (is_refused u account ip limit)) [
      | inl r ↦ rw r d
      | inr r ↦ rw r (charge-IsCounted account ip cooldown now d)
    ]

settle-IsCounted :
    {t : Throttle} (i : ℕ) (failed : Bool) (now : ℕ)
    → IsCounted t
    → IsCounted (settle t i failed now)
unfolding settle write_cell
settle-IsCounted {t} i failed now c = elim (Option-cases (get_elem? t.settles i)) [
  | inl e ↦ rw (e, settle) c
  | inr (s, e) ↦ elim (Bool-cases s.done) [
    | inl d ↦ rw (e, settle, d) c
    | inr d ↦
        rw (e, settle, d)
          (record {
            counted = λ q.
                unfold settle_entry in
                ground (arith, c.counted q, open_count-set q i t.settles s e);
            settling =
                set-All t.next i t.settles (record s { done = true })
                  (get-All t.next i t.settles s c.settling e) c.settling;
            placed = c.placed;
          })
  ]
]

is_throttled-IsCounted :
    {t : Throttle} (key : Bytes) (max_attempts now : ℕ)
    → IsCounted t
    → IsCounted (is_throttled t key max_attempts now).0
unfolding is_throttled
is_throttled-IsCounted {t} key max_attempts now c = elim (Option-cases (lookup key t.entries)) [
  | inl e ↦ rw (e, is_throttled) c
  | inr (p, e) ↦ elim (Bool-cases (ltb (t.cells p).expires_at now)) [
    | inl d ↦ rw (e, is_throttled, d) (erase-IsCounted key c)
    | inr d ↦ rw (e, is_throttled, d) c
  ]
]

step-IsCounted : {t : Throttle} (c : Call) → IsCounted t → IsCounted (step t c)
unfolding step
step-IsCounted (records key cooldown evict_now now) c =
    record_attempt-IsCounted key cooldown evict_now now c
step-IsCounted (probes key max_attempts now) c = is_throttled-IsCounted key max_attempts now c
step-IsCounted (resets key) c = unfold reset in erase-IsCounted key c
step-IsCounted (reserves account ip limit cooldown now) c =
    reserve-IsCounted account ip limit cooldown now c
step-IsCounted (settles index failed now) c = settle-IsCounted index failed now c
step-IsCounted (sweeps now) c = unfold cleanup in if-IsCounted _ c (expire-IsCounted now c)
step-IsCounted closes c =
    unfold close in record { counted = c.counted; settling = c.settling; placed = c.placed }

pub run-IsCounted : (t : Throttle) (cs : List Call) → IsCounted t → IsCounted (run t cs)
unfolding run
run-IsCounted t [] c = c
run-IsCounted t (x ∷ cs) c = run-IsCounted (step t x) cs (step-IsCounted x c)

pub new_throttle-IsCounted : IsCounted new_throttle
new_throttle-IsCounted = record { counted = λ q. refl; settling = tt; placed = tt }

-- After any calls, each entry counts in flight exactly the reservations that were made on it and
-- whose settle function has not run: the count neither drifts nor falls below zero, also where the
-- map has meanwhile dropped or replaced the entry.
pub run_in_flight :
    (cs : List Call) (p : ℕ)
    → ((run new_throttle cs).cells p).in_flight ≡ open_count p (run new_throttle cs).settles
run_in_flight cs p = (run-IsCounted new_throttle cs new_throttle-IsCounted).counted p
