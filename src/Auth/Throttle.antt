-- ===== src/Auth/Throttle.antt =====
-- backend/internal/auth/throttle.go and Throttle.Reserve of admission.go.
-- Entries are objects that the map and the settle functions of Reserve share, so they stand in a
-- memory: `cells`, of which the addresses below `next` are taken. A method is one step, since all
-- hold the mutex; the clock readings are arguments. Times count from Go's zero time, which is 0.
-- Counters are ints that stay far below 2 ^ 63. A limit below 1 counts as 0.
pub mod Keys
pub mod Capacity
pub mod InFlight
pub mod Settling
pub mod Admission
pub mod Charge
mod Tests
use goblin_ftp.Base.{
  ℕ, zero, suc, ◌+◌, ◌-◌, ◌*◌, ◌/◌, Bool, true, false, not, ◌&&◌, ◌||◌, List, [], ◌∷◌, ◌++◌, Bytes,
  ltb, leb, nat_eq, ◌==◌, bytes_has_eq, if◌then◌else◌, Option, none, some, length, get_elem?, set,
  update,
}
use goblin_ftp.Base.Map.{Map, lookup, insert, erase}

abbrev pub max_throttle_entries : ℕ
max_throttle_entries = 10000

pub record Entry : Type 0 where
  pub attempts : ℕ
  pub in_flight : ℕ
  pub expires_at : ℕ

-- The function that Reserve returns, with its sync.Once.
pub record Settle : Type 0 where
  pub cell : ℕ
  pub cooldown : ℕ
  pub done : Bool

pub record Throttle : Type 0 where
  pub cells : ℕ → Entry
  pub next : ℕ
  pub entries : Map Bytes ℕ
  pub settles : List Settle
  pub stopped : Bool

abbrev pub zero_entry : Entry
zero_entry = record { attempts = 0; in_flight = 0; expires_at = 0 }

abbrev pub new_throttle : Throttle
new_throttle = record {
  cells = λ p. zero_entry;
  next = 0;
  entries = [];
  settles = [];
  stopped = false;
}

-- time.Now().After(e.expiresAt) && e.inFlight == 0
abbrev pub is_idle : ℕ → Entry → Bool
is_idle now e = ltb e.expires_at now && nat_eq e.in_flight 0

-- The loop of `cleanup` and of `evictLocked`.
unfoldable pub drop_expired : (ℕ → Entry) → ℕ → Map Bytes ℕ → Map Bytes ℕ
drop_expired cells now [] = []
drop_expired cells now ((k, p) ∷ m) =
    let kept = drop_expired cells now m in if is_idle now (cells p) then kept else (k, p) ∷ kept

-- The key with the earliest expiry, "" for none.
unfoldable pub soonest : (ℕ → Entry) → Bytes → ℕ → Map Bytes ℕ → Bytes
soonest cells oldest_key oldest [] = oldest_key
soonest cells oldest_key oldest ((k, p) ∷ m) =
    let take = oldest_key == [] || ltb (cells p).expires_at oldest in
    soonest cells (if take then k else oldest_key) (if take then (cells p).expires_at else oldest) m

unfoldable pub drop_soonest : ℕ → (ℕ → Entry) → Map Bytes ℕ → Map Bytes ℕ
drop_soonest zero cells m = m
drop_soonest (suc n) cells m =
    let key = soonest cells [] 0 m in
    let rest = drop_soonest n cells (erase key m) in if key == [] then m else rest

unfoldable pub evict_locked : Throttle → ℕ → Throttle
evict_locked t now =
    let live = drop_expired t.cells now t.entries in
    let target = length live - max_throttle_entries + max_throttle_entries / 10 in
    record t {
      entries =
          if ltb (length live) max_throttle_entries then live else drop_soonest target t.cells live;
    }

-- A new zero entry under the key.
unfoldable pub add_entry : Throttle → Bytes → Throttle
add_entry t key = record t {
  cells = update t.cells t.next zero_entry;
  next = suc t.next;
  entries = insert key t.next t.entries;
}

unfoldable pub write_cell : Throttle → ℕ → Entry → Throttle
write_cell t p e = record t { cells = update t.cells p e }

-- The entry that was found under the key, made if there is none.
unfoldable pub ensure_entry : Throttle → Bytes → Option ℕ → Throttle × ℕ
ensure_entry t key none = (add_entry t key, t.next)
ensure_entry t key (some p) = (t, p)

-- A new key evicts others where the map is full.
unfoldable pub make_room : Throttle → Bytes → ℕ → Throttle
make_room t key now = elim (lookup key t.entries) [
  | none ↦ if leb max_throttle_entries (length t.entries) then evict_locked t now else t
  | some p ↦ t
]

-- The clock is read by evictLocked, at `evict_now`, and then for the expiry.
unfoldable pub record_attempt : Throttle → Bytes → ℕ → ℕ → ℕ → Throttle
record_attempt t key cooldown evict_now now =
    let (u, p) = ensure_entry (make_room t key evict_now) key (lookup key t.entries) in
    let e = u.cells p in
    write_cell u p (record e { attempts = e.attempts + 1; expires_at = now + cooldown })

unfoldable pub is_throttled : Throttle → Bytes → ℕ → ℕ → Throttle × Bool
is_throttled t key max_attempts now = elim (lookup key t.entries) [
  | none ↦ (t, false)
  | some p ↦
      if ltb (t.cells p).expires_at now
      then (record t { entries = erase key t.entries }, false)
      else (t, leb max_attempts (t.cells p).attempts)
]

unfoldable pub reset : Throttle → Bytes → Throttle
reset t key = record t { entries = erase key t.entries }

unfoldable pub len : Throttle → ℕ
len t = length t.entries

unfoldable pub close : Throttle → Throttle
close t = record t { stopped = true }

-- One tick of the background sweeper, which has returned once `done` is closed.
unfoldable pub cleanup : Throttle → ℕ → Throttle
cleanup t now = if t.stopped then t else record t { entries = drop_expired t.cells now t.entries }

unfoldable pub drop_idle : Throttle → Bytes → ℕ → Throttle
drop_idle t key now = elim (lookup key t.entries) [
  | none ↦ t
  | some p ↦ if is_idle now (t.cells p) then record t { entries = erase key t.entries } else t
]

-- An expired account with attempts in flight starts its count again.
unfoldable pub forget_attempts : Throttle → Bytes → ℕ → Throttle
forget_attempts t account now = elim (lookup account t.entries) [
  | none ↦ t
  | some p ↦
      if ltb (t.cells p).expires_at now
      then write_cell t p (record (t.cells p) { attempts = 0 })
      else t
]

abbrev pub missing : Throttle → Bytes → ℕ
missing t key = elim (lookup key t.entries) [ none ↦ 1 | some p ↦ 0 ]

-- a.attempts + a.inFlight, and i.attempts, of an entry that is there.
abbrev pub account_load : Throttle → Bytes → ℕ
account_load t key = elim (lookup key t.entries) [
  | none ↦ 0
  | some p ↦ (t.cells p).attempts + (t.cells p).in_flight
]

abbrev pub ip_load : Throttle → Bytes → ℕ
ip_load t key = elim (lookup key t.entries) [ none ↦ 0 | some p ↦ (t.cells p).attempts ]

abbrev pub has_entry : Throttle → Bytes → Bool
has_entry t key = elim (lookup key t.entries) [ none ↦ false | some p ↦ true ]

unfoldable pub is_refused : Throttle → Bytes → Bytes → ℕ → Bool
is_refused t account ip limit =
    ltb limit 1
    || ltb max_throttle_entries (length t.entries + (missing t account + missing t ip))
    || (has_entry t account && leb limit (account_load t account))
    || (has_entry t ip && leb (limit * 4) (ip_load t ip))

-- What an admitted attempt writes: in flight for the account's entry, charged to the address's.
unfoldable pub charge_at : Throttle → ℕ → ℕ → ℕ → ℕ → Throttle
charge_at t a i cooldown now =
    let ea = t.cells a in
    let t' = write_cell t a (record ea {
      in_flight = ea.in_flight + 1;
      expires_at =
          if nat_eq ea.expires_at 0 || ltb ea.expires_at now then now + cooldown else ea.expires_at;
    }) in
    let ei = t'.cells i in
    record (write_cell t' i
      (record ei { attempts = ei.attempts + 1; expires_at = now + cooldown })) {
        settles = t.settles ++ (record { cell = a; cooldown = cooldown; done = false }) ∷ [];
      }

unfoldable pub charge : Throttle → Bytes → Bytes → ℕ → ℕ → Throttle × ℕ
charge t account ip cooldown now =
    let (t1, a) = ensure_entry t account (lookup account t.entries) in
    let (t2, i) = ensure_entry t1 ip (lookup ip t.entries) in
    (charge_at t2 a i cooldown now, length t2.settles)

-- The result is the index of the settle function, `none` where the attempt is refused.
unfoldable pub reserve : Throttle → Bytes → Bytes → ℕ → ℕ → ℕ → Throttle × Option ℕ
reserve t account ip limit cooldown now =
    let u = forget_attempts (drop_idle (drop_idle t account now) ip now) account now in
    let (v, s) = charge u account ip cooldown now in
    if is_refused u account ip limit then (u, none) else (v, some s)

unfoldable pub settle_entry : Entry → Bool → ℕ → Entry
settle_entry e failed expiry =
    if failed
    then record { attempts = e.attempts + 1; in_flight = e.in_flight - 1; expires_at = expiry }
    else record e { in_flight = e.in_flight - 1 }

-- A call of the settle function with this index.
unfoldable pub settle : Throttle → ℕ → Bool → ℕ → Throttle
settle t index failed now = elim (get_elem? t.settles index) [
  | none ↦ t
  | some s ↦
      if s.done
      then t
      else record (write_cell t s.cell (settle_entry (t.cells s.cell) failed (now + s.cooldown))) {
        settles = set t.settles index (record s { done = true });
      }
]

-- The calls of the methods, with the clock readings they make.
pub data Call : Type 0 where
  records : (key : Bytes) (cooldown evict_now now : ℕ) → Call
  probes : (key : Bytes) (max_attempts now : ℕ) → Call
  resets : Bytes → Call
  reserves : (account ip : Bytes) (limit cooldown now : ℕ) → Call
  settles : (index : ℕ) (failed : Bool) (now : ℕ) → Call
  sweeps : (now : ℕ) → Call
  closes : Call

unfoldable pub step : Throttle → Call → Throttle
step t (records key cooldown evict_now now) = record_attempt t key cooldown evict_now now
step t (probes key max_attempts now) = (is_throttled t key max_attempts now).0
step t (resets key) = reset t key
step t (reserves account ip limit cooldown now) = (reserve t account ip limit cooldown now).0
step t (settles index failed now) = settle t index failed now
step t (sweeps now) = cleanup t now
step t closes = close t

unfoldable pub run : Throttle → List Call → Throttle
run t [] = t
run t (c ∷ cs) = run (step t c) cs
