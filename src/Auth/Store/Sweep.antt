-- ===== src/Auth/Store/Sweep.antt =====
-- Store.evict with EvictExpired and EvictAll, waitForTransfer, and the background sweep. The
-- environment decides what each reading of the clock and each attempt on a transfer lock gives:
-- `Turn` holds those of one round of the loop. The hook runs on the session object; it must not
-- call back into the store.
use goblin_ftp.Base.{
  ℕ, ◌+◌, Bool, true, false, not, ◌&&◌, ◌||◌, List, [], ◌∷◌, Bytes, ltb, if◌then◌else◌, length,
  bytes_has_eq,
}
use goblin_ftp.Base.Map.{Map, erase}
use goblin_ftp.Auth.Session.{Session}
use goblin_ftp.Auth.Store.{Store, write}

pub record Turn : Type 0 where
  pub checked_at : ℕ
  pub lock_free : Bool
  pub polls : List (ℕ × Bool)

pub record Counts : Type 0 where
  pub clean : ℕ
  pub forced : ℕ
  pub abandoned : ℕ

abbrev pub no_counts : Counts
no_counts = record { clean = 0; forced = 0; abandoned = 0 }

-- The polls of waitForTransfer up to the first past the deadline: when, and whether TryLock got
-- the lock.
unfoldable pub wait_for_transfer : ℕ → List (ℕ × Bool) → Bool
wait_for_transfer deadline [] = false
wait_for_transfer deadline ((now, got) ∷ polls) =
    let later = wait_for_transfer deadline polls in
    if ltb now deadline then (if got then true else later) else false

unfoldable pub victims : (ℕ → Session) → Bool → ℕ → Map Bytes ℕ → List ℕ
victims objects all now [] = []
victims objects all now ((id, p) ∷ m) =
    let rest = victims objects all now m in
    if all || ltb (objects p).expires_at now then p ∷ rest else rest

unfoldable pub remove_session : Store → ℕ → Store
remove_session s p = record s {
  by_download_key = erase (s.objects p).download_key s.by_download_key;
  sessions = erase (s.objects p).id s.sessions;
}

abbrev pub tally : Counts → Bool → Bool → Counts
tally n locked was_busy =
    if not locked
    then record n { abandoned = n.abandoned + 1 }
    else if was_busy
    then record n { forced = n.forced + 1 }
    else record n { clean = n.clean + 1 }

module _ (on_evict : Session → Session) (deadline : ℕ) where
  -- What the loop does to one victim, and to the counts.
  unfoldable pub evict_one : Bool → Store → ℕ → Turn → Counts → Store × Counts
  evict_one all s p turn n =
      let was_busy = not turn.lock_free in
      let locked = turn.lock_free || wait_for_transfer deadline turn.polls in
      if was_busy && not all
      then (s, n)
      else (remove_session (write s p (on_evict (s.objects p))) p, tally n locked was_busy)

  unfoldable pub evict_loop : Bool → Store → List ℕ → List Turn → Counts → Store × Counts
  evict_loop all s [] turns n = (s, n)
  evict_loop all s (p ∷ ps) [] n = (s, n)
  evict_loop all s (p ∷ ps) (turn ∷ turns) n =
      let (s', n') = evict_one all s p turn n in
      let rest = evict_loop all s' ps turns n' in
      if all && ltb deadline turn.checked_at
      then (s, record n { abandoned = n.abandoned + length (p ∷ ps) })
      else rest

  -- `now` is read before the deadline is set; the sweep of all sessions is bounded by it.
  unfoldable pub evict : Bool → Store → ℕ → List Turn → Store × Counts
  evict all s now turns = evict_loop all s (victims s.objects all now s.sessions) turns no_counts

  unfoldable pub evict_expired : Store → ℕ → List Turn → Store
  evict_expired s now turns = (evict false s now turns).0

  unfoldable pub evict_all : Store → ℕ → List Turn → Store × Counts
  evict_all s now turns = evict true s now turns

  -- One tick of the background sweep, which has returned once `done` is closed.
  unfoldable pub cleanup : Store → ℕ → List Turn → Store
  cleanup s now turns = if s.stopped then s else evict_expired s now turns
