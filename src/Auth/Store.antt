-- ===== src/Auth/Store.antt =====
-- backend/internal/auth/session.go: the session store, with Store.Reserve and SetExpiry of
-- admission.go. Sessions are objects that two maps share: they stand in a memory, of which the
-- addresses below `next` are taken. A method is one step, since all hold the mutex, but for the
-- sweep, whose readings of clock and locks are arguments (`Turn`). Random identifiers are
-- arguments too, `none` where rand.Read fails. Times count from Go's zero time, which is 0.
pub mod Index
pub mod Reach
pub mod Sweep
pub mod Capacity
pub mod Eviction
mod Tests
use goblin_ftp.Base.{
  ℕ, zero, suc, ◌+◌, ◌-◌, ◌/◌, ◌%◌, Bool, true, false, not, ◌&&◌, ◌||◌, List, [], ◌∷◌, ◌++◌, Bytes,
  codes, ltb, leb, nat_eq, ◌==◌, bytes_has_eq, if◌then◌else◌, Option, none, some, length, get_elem?,
  set as list_set, update, map,
}
use goblin_ftp.Base.Map.{Map, lookup, insert, erase}
use goblin_ftp.Auth.Session
use goblin_ftp.Auth.Session.{Session}

-- The function that Reserve returns, with its sync.Once.
pub record Free : Type 0 where
  pub ip : Bytes
  pub done : Bool

pub record Store : Type 0 where
  pub objects : ℕ → Session
  pub next : ℕ
  pub sessions : Map Bytes ℕ
  pub by_download_key : Map Bytes ℕ
  pub connecting : Map Bytes ℕ
  pub frees : List Free
  pub ttl : ℕ
  pub stopped : Bool

abbrev pub empty_session : Session
empty_session = record {
  id = [];
  connection_id = [];
  download_key = [];
  expires_at = 0;
  hard_expiry = 0;
  values = [];
  uploads = [];
  busy = false;
}

abbrev pub new_store : ℕ → Store
new_store ttl = record {
  objects = λ p. empty_session;
  next = 0;
  sessions = [];
  by_download_key = [];
  connecting = [];
  frees = [];
  ttl = ttl;
  stopped = false;
}

-- hex.EncodeToString
unfoldable pub hex_digit : ℕ → ℕ
hex_digit n = if ltb n 10 then b'0' + n else b'a' + (n - 10)

unfoldable pub hex_encode : Bytes → Bytes
hex_encode [] = []
hex_encode (b ∷ bs) = hex_digit (b / 16) ∷ hex_digit (b % 16) ∷ hex_encode bs

unfoldable pub new_session_id : Option Bytes → Option Bytes
unfolding hex_encode hex_digit
new_session_id none = none
new_session_id (some random) = some (hex_encode random)

unfoldable pub add_session : Store → Bytes → Bytes → Bytes → ℕ → Store
add_session s id download_key connection_id now = record s {
  objects = update s.objects s.next (record empty_session {
    id = id;
    connection_id = connection_id;
    download_key = download_key;
    expires_at = now + s.ttl;
  });
  next = suc s.next;
  sessions = insert id s.next s.sessions;
  by_download_key = insert download_key s.next s.by_download_key;
}

-- The three readings of the random source, in the order in which they are made.
unfoldable pub new : Store → Option Bytes → Option Bytes → Option Bytes → ℕ → Store × Option ℕ
new s none key conn now = (s, none)
new s (some id) none conn now = (s, none)
new s (some id) (some key) none now = (s, none)
new s (some id) (some key) (some conn) now =
    (add_session s (hex_encode id) (hex_encode key) (hex_encode conn) now, some s.next)

-- !time.Now().After(sess.ExpiresAt)
abbrev pub is_live : ℕ → Session → Bool
is_live now sess = not (ltb sess.expires_at now)

abbrev pub live_at : Store → ℕ → Option ℕ → Option ℕ
live_at s now none = none
live_at s now (some p) = if is_live now (s.objects p) then some p else none

unfoldable pub get_by_download_key : Store → Bytes → ℕ → Option ℕ
get_by_download_key s key now = live_at s now (lookup key s.by_download_key)

unfoldable pub get : Store → Bytes → ℕ → Option ℕ
get s id now = live_at s now (lookup id s.sessions)

unfoldable pub write : Store → ℕ → Session → Store
write s p sess = record s { objects = update s.objects p sess }

-- The expiry is reset, but never past the hard expiry, if one is set.
unfoldable pub touched : Session → ℕ → Session
touched sess expiry = record sess {
  expires_at =
      if not (nat_eq sess.hard_expiry 0) && ltb sess.hard_expiry expiry
      then sess.hard_expiry
      else expiry;
}

-- The clock is read twice: for the test, and for the new expiry.
unfoldable pub touch : Store → Bytes → ℕ → ℕ → Store
touch s id now later = elim (lookup id s.sessions) [
  | none ↦ s
  | some p ↦
      if is_live now (s.objects p) then write s p (touched (s.objects p) (later + s.ttl)) else s
]

unfoldable pub delete : Store → Bytes → Store
delete s id = record s {
  sessions = erase id s.sessions;
  by_download_key = elim (lookup id s.sessions) [
    | none ↦ s.by_download_key
    | some p ↦ erase (s.objects p).download_key s.by_download_key
  ];
}

unfoldable pub count_live : (ℕ → Session) → ℕ → Map Bytes ℕ → ℕ
count_live objects now [] = 0
count_live objects now ((id, p) ∷ m) =
    (if is_live now (objects p) then 1 else 0) + count_live objects now m

unfoldable pub count : Store → ℕ → ℕ
count s now = count_live s.objects now s.sessions

-- The sessions on which Range calls its function, in order.
unfoldable pub live_sessions : (ℕ → Session) → ℕ → Map Bytes ℕ → List ℕ
live_sessions objects now [] = []
live_sessions objects now ((id, p) ∷ m) =
    let rest = live_sessions objects now m in if is_live now (objects p) then p ∷ rest else rest

unfoldable pub range : Store → ℕ → List ℕ
range s now = live_sessions s.objects now s.sessions

unfoldable pub close : Store → Store
close s = record s { stopped = true }

unfoldable pub set_expiry : Store → Bytes → ℕ → Store
set_expiry s id expiry = elim (lookup id s.sessions) [
  | none ↦ s
  | some p ↦ write s p (record (s.objects p) { expires_at = expiry; hard_expiry = expiry })
]

-- The sessions that Reserve counts: those with the address, and all but the credited one.
abbrev pub is_credit : Option Bytes → Bytes → Bool
is_credit none id = false
is_credit (some c) id = id == c

abbrev pub client_ip : Session → Bytes
client_ip sess = Session.get_string sess (codes "clientIP")

unfoldable pub count_ip : (ℕ → Session) → Option Bytes → Bytes → Map Bytes ℕ → ℕ
count_ip objects credit ip [] = 0
count_ip objects credit ip ((id, p) ∷ m) =
    (if not (is_credit credit id) && client_ip (objects p) == ip then 1 else 0)
    + count_ip objects credit ip m

unfoldable pub count_credited : Option Bytes → Map Bytes ℕ → ℕ
count_credited credit [] = 0
count_credited credit ((id, p) ∷ m) =
    (if is_credit credit id then 1 else 0) + count_credited credit m

unfoldable pub sum : Map Bytes ℕ → ℕ
sum [] = 0
sum ((ip, n) ∷ m) = n + sum m

-- A missing key of a Go map of ints reads as 0.
abbrev pub or_zero : Option ℕ → ℕ
or_zero none = 0
or_zero (some n) = n

pub record Limits : Type 0 where
  pub max_sessions : ℕ
  pub max_per_ip : ℕ
  pub max_connecting : ℕ
  pub max_connecting_ip : ℕ

unfoldable pub is_full : Store → Bytes → Limits → Option Bytes → Bool
is_full s ip limits credit =
    let active = sum s.connecting in
    let mine = or_zero (lookup ip s.connecting) in
    leb limits.max_sessions (length s.sessions - count_credited credit s.sessions + active)
    || leb limits.max_per_ip (count_ip s.objects credit ip s.sessions + mine)
    || leb limits.max_connecting active
    || leb limits.max_connecting_ip mine

-- The result is the index of the release function, `none` where there is no room.
unfoldable pub reserve : Store → Bytes → Limits → Option Bytes → Store × Option ℕ
reserve s ip limits credit = if is_full s ip limits credit then (s, none) else (
  record s {
    connecting = insert ip (or_zero (lookup ip s.connecting) + 1) s.connecting;
    frees = s.frees ++ (record { ip = ip; done = false }) ∷ [];
  },
  some (length s.frees),
)

unfoldable pub less_one : Bytes → Map Bytes ℕ → Map Bytes ℕ
less_one ip m =
    let n = or_zero (lookup ip m) - 1 in if nat_eq n 0 then erase ip m else insert ip n m

-- A call of the release function with this index.
unfoldable pub free : Store → ℕ → Store
free s index = elim (get_elem? s.frees index) [
  | none ↦ s
  | some f ↦ if f.done then s else record s {
    connecting = less_one f.ip s.connecting;
    frees = list_set s.frees index (record f { done = true });
  }
]
