-- ===== src/Auth/Throttle/Capacity.antt =====
-- The map never holds more than max_throttle_entries entries.
use goblin_ftp.Base.{
  ℕ, ◌+◌, ◌-◌, ◌/◌, ◌≤◌, ◌<◌, ◌≡◌, ◌≢◌, inl, inr, Bool, true, false, List, [], ◌∷◌, Bytes, ltb,
  bytes_has_eq, if◌then◌else◌, Option, none, some, length, arith, All, Bool-cases,
}
use goblin_ftp.Base.Map.{Map, lookup, length-erase, length-insert, insert-All}
use goblin_ftp.Auth.Throttle.{
  max_throttle_entries, Throttle, new_throttle, drop_expired, evict_locked, add_entry, write_cell,
  ensure_entry, make_room, record_attempt, is_throttled, reset, close, cleanup, drop_idle,
  forget_attempts, is_refused, charge, charge_at, reserve, settle, Call, records, probes, resets,
  reserves, settles, sweeps, closes, step, run,
}
use goblin_ftp.Auth.Throttle.Keys.{
  Keyed, erase-Keyed, drop_expired-Keyed, length-drop_expired, drop_soonest-Keyed,
  length-drop_soonest,
}

record IsBounded (t : Throttle) : Type 0 where
  capped : length t.entries ≤ max_throttle_entries
  keyed : Keyed t.entries

evict_locked-Keyed : (t : Throttle) (now : ℕ) → Keyed t.entries → Keyed (evict_locked t now).entries
unfolding evict_locked
evict_locked-Keyed t now h =
    let live = drop_expired t.cells now t.entries in
    let live_keyed = drop_expired-Keyed t.cells now t.entries h in
    if_Keyed _ _ (ltb (length live) max_throttle_entries) live_keyed (
      drop_soonest-Keyed (length live - max_throttle_entries + max_throttle_entries / 10) t.cells
        live live_keyed)
  where
    if_Keyed : (m n : Map Bytes ℕ) (b : Bool) → Keyed m → Keyed n → Keyed (if b then m else n)
    if_Keyed m n true h k = h
    if_Keyed m n false h k = k

-- Eviction makes room for one more entry.
length-evict_locked :
    (t : Throttle) (now : ℕ)
    → Keyed t.entries
    → length (evict_locked t now).entries < max_throttle_entries
unfolding evict_locked
length-evict_locked t now h =
    let live = drop_expired t.cells now t.entries in
    ground (
      arith,
      length-drop_soonest (length live - max_throttle_entries + max_throttle_entries / 10) t.cells
          live (drop_expired-Keyed t.cells now t.entries h),
    )

ensure_entry-Keyed :
    (t : Throttle) (k : Bytes) (o : Option ℕ)
    → k ≢ []
    → Keyed t.entries
    → Keyed (ensure_entry t k o).0.entries
unfolding ensure_entry add_entry
ensure_entry-Keyed t k none ne h = insert-All (λ e. e.0 ≢ []) k t.next t.entries ne h
ensure_entry-Keyed t k (some p) ne h = h

length-ensure_entry :
    (t : Throttle) (k : Bytes) (o : Option ℕ)
    → length (ensure_entry t k o).0.entries ≤ length t.entries + (elim o [ none ↦ 1 | some p ↦ 0 ])
unfolding ensure_entry add_entry
length-ensure_entry t k none = length-insert k t.next t.entries
length-ensure_entry t k (some p) = omega arith

make_room-Keyed :
    (t : Throttle) (k : Bytes) (now : ℕ) → Keyed t.entries → Keyed (make_room t k now).entries
unfolding make_room
make_room-Keyed t k now h = ground (arith, evict_locked-Keyed t now h)

length-make_room :
    (t : Throttle) (k : Bytes) (now : ℕ)
    → IsBounded t
    → length (make_room t k now).entries + (elim (lookup k t.entries) [ none ↦ 1 | some p ↦ 0 ])
      ≤ max_throttle_entries
unfolding make_room
length-make_room t k now b = ground (arith, length-evict_locked t now b.keyed)

record_attempt-IsBounded :
    (t : Throttle) (k : Bytes) (cooldown evict_now now : ℕ)
    → k ≢ []
    → IsBounded t
    → IsBounded (record_attempt t k cooldown evict_now now)
unfolding record_attempt write_cell
record_attempt-IsBounded t k cooldown evict_now now ne b =
    let u = make_room t k evict_now in
    record {
      capped =
          omega
            (arith, length-ensure_entry u k (lookup k t.entries), length-make_room t k evict_now b);
      keyed =
          ensure_entry-Keyed u k (lookup k t.entries) ne (make_room-Keyed t k evict_now b.keyed);
    }

drop_idle-IsBounded :
    (t : Throttle) (k : Bytes) (now : ℕ) → IsBounded t → IsBounded (drop_idle t k now)
unfolding drop_idle
drop_idle-IsBounded t k now b =
    ground (arith, erase-Keyed k t.entries b.keyed, length-erase k t.entries)

forget_attempts-IsBounded :
    (t : Throttle) (k : Bytes) (now : ℕ) → IsBounded t → IsBounded (forget_attempts t k now)
unfolding forget_attempts write_cell
forget_attempts-IsBounded t k now b = ground arith

charge-IsBounded :
    (t : Throttle) (account ip : Bytes) (limit cooldown now : ℕ)
    → account ≢ []
    → ip ≢ []
    → is_refused t account ip limit ≡ false
    → IsBounded t
    → IsBounded (charge t account ip cooldown now).0
unfolding charge charge_at write_cell is_refused
charge-IsBounded t account ip limit cooldown now na ni r b =
    let t1 = (ensure_entry t account (lookup account t.entries)).0 in
    record {
      capped = ground (
        arith,
        length-ensure_entry t account (lookup account t.entries),
        length-ensure_entry t1 ip (lookup ip t.entries),
      );
      keyed =
          ensure_entry-Keyed t1 ip (lookup ip t.entries) ni
            (ensure_entry-Keyed t account (lookup account t.entries) na b.keyed);
    }

reserve-IsBounded :
    (t : Throttle) (account ip : Bytes) (limit cooldown now : ℕ)
    → account ≢ []
    → ip ≢ []
    → IsBounded t
    → IsBounded (reserve t account ip limit cooldown now).0
unfolding reserve
reserve-IsBounded t account ip limit cooldown now na ni b =
    let u = forget_attempts (drop_idle (drop_idle t account now) ip now) account now in
    let bu =
      forget_attempts-IsBounded _ account now
        (drop_idle-IsBounded _ ip now (drop_idle-IsBounded t account now b)) in
    elim (Bool-cases (is_refused u account ip limit)) [
      | inl r ↦ rw r bu
      | inr r ↦ rw r (charge-IsBounded u account ip limit cooldown now na ni r bu)
    ]

-- The keys of the program begin with "account:", "ip:" or "sso:", or are client addresses.
abbrev pub HasKeys : Call → Type 0
HasKeys (records key cooldown evict_now now) = key ≢ []
HasKeys (reserves account ip limit cooldown now) = (account ≢ []) × (ip ≢ [])
HasKeys _ = Unit

step-IsBounded : (t : Throttle) (c : Call) → HasKeys c → IsBounded t → IsBounded (step t c)
unfolding step
step-IsBounded t (records key cooldown evict_now now) h b =
    record_attempt-IsBounded t key cooldown evict_now now h b
step-IsBounded t (probes key max_attempts now) h b =
    unfold is_throttled in
    ground (arith, erase-Keyed key t.entries b.keyed, length-erase key t.entries)
step-IsBounded t (resets key) h b =
    unfold reset in
    record {
      capped = omega (arith, b.capped, length-erase key t.entries);
      keyed = erase-Keyed key t.entries b.keyed;
    }
step-IsBounded t (reserves account ip limit cooldown now) h b =
    reserve-IsBounded t account ip limit cooldown now h.0 h.1 b
step-IsBounded t (settles index failed now) h b = unfold settle write_cell in ground arith
step-IsBounded t (sweeps now) h b =
    unfold cleanup in
    ground (
      arith,
      drop_expired-Keyed t.cells now t.entries b.keyed,
      length-drop_expired t.cells now t.entries,
    )
step-IsBounded t closes h b = unfold close in record { capped = b.capped; keyed = b.keyed }

run-IsBounded :
    (t : Throttle) (cs : List Call) → All HasKeys cs → IsBounded t → IsBounded (run t cs)
unfolding run
run-IsBounded t [] h b = b
run-IsBounded t (c ∷ cs) (k, h) b = run-IsBounded (step t c) cs h (step-IsBounded t c k b)

-- After any calls with keys that are not empty, the map is within its capacity: neither a flood of
-- reports nor one of login attempts makes it grow past the bound.
pub run_capacity :
    (cs : List Call) → All HasKeys cs → length (run new_throttle cs).entries ≤ max_throttle_entries
run_capacity cs h =
    (run-IsBounded new_throttle cs h (record { capped = omega arith; keyed = tt })).capped
