-- ===== src/Resources.antt =====
-- backend/internal/api/resources.go: the budget of temporary storage. Each function holds the mutex
-- where it touches the budget, so it is one step. What the file system, the chunk store and the
-- clock answer is an argument: `staged` is the result of StagedBytes (`none` for an error), `gone`
-- says which orphaned directories no longer exist. The release functions, with their sync.Once,
-- stand in lists, and their indexes stand for them. Sizes stay below 2 ^ 63.
pub mod Balance
pub mod Fit
mod Tests
use goblin_ftp.Base.{
  ℕ, zero, suc, ◌+◌, ◌-◌, Bool, true, false, not, ◌&&◌, ◌||◌, List, [], ◌∷◌, ◌++◌, Bytes, codes,
  bytes_has_eq, ltb, leb, nat_eq, if◌then◌else◌, Option, none, some, length, get_elem?, set,
}
use goblin_ftp.Base.Ints.{ℤ, pos, negsuc}
use goblin_ftp.Base.Map.{Map, lookup, insert, erase}

-- The functions that reserve, reserveUpload and ownUpload return.
pub record Release : Type 0 where
  pub owner : Bytes
  pub size : ℕ
  pub done : Bool

pub record Lease : Type 0 where
  pub release : ℕ
  pub chunks : ℕ
  pub done : Bool

pub record Owned : Type 0 where
  pub id : Bytes
  pub lease : ℕ
  pub done : Bool

pub record Budget : Type 0 where
  pub used : ℕ
  pub max : ℕ
  pub per_session : ℕ
  pub owners : Map Bytes ℕ
  pub orphans : Map Bytes ℕ
  pub scan_failed : Bool
  pub has_remote : Bool
  pub remote_bytes : ℕ
  pub remote_checked : ℕ
  pub reserved_chunks : ℕ
  pub uploads : Map Bytes Bool
  pub releases : List Release
  pub leases : List Lease
  pub owned : List Owned

abbrev pub max_total_chunks : ℕ
max_total_chunks = 100000

-- Times are in seconds.
abbrev pub minute : ℕ
minute = 60

abbrev pub or_zero : Option ℕ → ℕ
or_zero none = 0
or_zero (some n) = n

unfoldable pub total : Map Bytes ℕ → ℕ
total [] = 0
total ((p, n) ∷ m) = n + total m

-- The directories that were found at the start, with their sizes; `found` is none if there is no
-- such directory, and the flag says that a reading failed.
unfoldable pub new_budget : Option (Map Bytes ℕ × Bool) → ℕ → ℕ → Bool → Budget
new_budget found max per_session has_remote = record {
  used = elim found [ none ↦ 0 | some (m, failed) ↦ total m ];
  max = max;
  per_session = per_session;
  owners = [];
  orphans = elim found [ none ↦ [] | some (m, failed) ↦ m ];
  scan_failed = elim found [ none ↦ false | some (m, failed) ↦ failed ];
  has_remote = has_remote;
  remote_bytes = 0;
  remote_checked = 0;
  reserved_chunks = 0;
  uploads = [];
  releases = [];
  leases = [];
  owned = [];
}

unfoldable pub refresh_due : Budget → ℕ → Bool
refresh_due b now = b.has_remote && ltb minute (now - b.remote_checked)

unfoldable pub recheck : Budget → ℕ → ℕ → Budget
recheck b bytes now = record b {
  used = b.used + bytes - b.remote_bytes;
  remote_bytes = bytes;
  remote_checked = now;
}

-- The bytes of the directories that are gone, and the others.
unfoldable pub gone_bytes : (Bytes → Bool) → Map Bytes ℕ → ℕ
gone_bytes gone [] = 0
gone_bytes gone ((p, n) ∷ m) = (if gone p then n else 0) + gone_bytes gone m

unfoldable pub still_there : (Bytes → Bool) → Map Bytes ℕ → Map Bytes ℕ
still_there gone [] = []
still_there gone ((p, n) ∷ m) =
    let rest = still_there gone m in if gone p then rest else (p, n) ∷ rest

unfoldable pub drop_gone : Budget → (Bytes → Bool) → Budget
drop_gone b gone = record b {
  used = b.used - gone_bytes gone b.orphans;
  orphans = still_there gone b.orphans;
}

-- size > max - used in int64, where used may exceed max, is used + size > max.
unfoldable pub fits : Budget → Bytes → ℕ → Bool
fits b owner size = not (
    b.scan_failed
    || ltb b.max (b.used + size)
    || ltb b.per_session (or_zero (lookup owner b.owners) + size))

unfoldable pub take : Budget → Bytes → ℕ → Budget
take b owner size = record b {
  used = b.used + size;
  owners = insert owner (or_zero (lookup owner b.owners) + size) b.owners;
  releases = b.releases ++ (record { owner = owner; size = size; done = false }) ∷ [];
}

unfoldable pub reserve_in : Budget → Bytes → ℤ → Budget × Option ℕ
reserve_in b owner (negsuc n) = (b, none)
reserve_in b owner (pos size) =
    if fits b owner size then (take b owner size, some (length b.releases)) else (b, none)

-- What the environment answers to one call of reserve.
pub record Answers : Type 0 where
  pub now : ℕ
  pub staged : Option ℕ
  pub checked : ℕ
  pub gone : Bytes → Bool

unfoldable pub reserve : Budget → Bytes → ℤ → Answers → Budget × Option ℕ
reserve b owner size a =
    if refresh_due b a.now
    then (elim a.staged [
      | none ↦ (b, none)
      | some bytes ↦ reserve_in (drop_gone (recheck b bytes a.checked) a.gone) owner size
    ])
    else reserve_in (drop_gone b a.gone) owner size

unfoldable pub give_back : Bytes → ℕ → Map Bytes ℕ → Map Bytes ℕ
give_back owner size owners =
    let left = or_zero (lookup owner owners) - size in
    if nat_eq left 0 then erase owner owners else insert owner left owners

unfoldable pub release : Budget → ℕ → Budget
release b index = elim (get_elem? b.releases index) [
  | none ↦ b
  | some r ↦ if r.done then b else record b {
    used = b.used - r.size;
    owners = give_back r.owner r.size b.owners;
    releases = set b.releases index (record r { done = true });
  }
]

unfoldable pub lease_chunks : Budget → ℕ → ℕ → Budget × Option ℕ
lease_chunks b index chunks =
    if ltb (max_total_chunks - b.reserved_chunks) chunks then (release b index, none) else (
      record b {
        reserved_chunks = b.reserved_chunks + chunks;
        leases = b.leases ++ (record { release = index; chunks = chunks; done = false }) ∷ [];
      },
      some (length b.leases),
    )

unfoldable pub reserve_upload : Budget → Bytes → ℤ → ℕ → Answers → Budget × Option ℕ
reserve_upload b owner size chunks a =
    let (b', index) = reserve b owner size a in
    elim index [ none ↦ (b', none) | some i ↦ lease_chunks b' i chunks ]

unfoldable pub end_lease : Budget → ℕ → Budget
end_lease b index = elim (get_elem? b.leases index) [
  | none ↦ b
  | some l ↦
      if l.done
      then b
      else (let b' = release b l.release in
          record b' {
            reserved_chunks = b'.reserved_chunks - l.chunks;
            leases = set b'.leases index (record l { done = true });
          })
]

unfoldable pub own_upload : Budget → Bytes → ℕ → Budget × ℕ
own_upload b id lease = (
  record b {
    uploads = insert id true b.uploads;
    owned = b.owned ++ (record { id = id; lease = lease; done = false }) ∷ [];
  },
  length b.owned,
)

unfoldable pub disown : Budget → ℕ → Budget
disown b index = elim (get_elem? b.owned index) [
  | none ↦ b
  | some o ↦
      if o.done
      then b
      else (let b' = end_lease b o.lease in
          record b' {
            uploads = erase o.id b'.uploads;
            owned = set b'.owned index (record o { done = true });
          })
]

pub data Call : Type 0 where
  reserves : (owner : Bytes) (size : ℤ) (a : Answers) → Call
  reserves_upload : (owner : Bytes) (size : ℤ) (chunks : ℕ) (a : Answers) → Call
  releases : (index : ℕ) → Call
  ends : (index : ℕ) → Call
  owns : (id : Bytes) (lease : ℕ) → Call
  disowns : (index : ℕ) → Call

unfoldable pub step : Budget → Call → Budget
step b (reserves owner size a) = (reserve b owner size a).0
step b (reserves_upload owner size chunks a) = (reserve_upload b owner size chunks a).0
step b (releases index) = release b index
step b (ends index) = end_lease b index
step b (owns id lease) = (own_upload b id lease).0
step b (disowns index) = disown b index

unfoldable pub run : Budget → List Call → Budget
run b [] = b
run b (c ∷ cs) = run (step b c) cs
