-- ===== src/Sso/UsedSet.antt =====
-- backend/internal/sso/usedset.go: the set of used tokens, for replay protection. A method is one
-- step, since all hold the mutex; the clock readings are arguments.
pub mod Replay
mod Tests
use goblin_ftp.Base.{
  ℕ, Bool, true, false, not, ◌&&◌, List, [], ◌∷◌, Bytes, bytes_has_eq, ltb, if◌then◌else◌, none,
  some,
}
use goblin_ftp.Base.Map.{Map, lookup, insert, erase}

pub record UsedSet : Type 0 where
  pub tokens : Map Bytes ℕ
  pub stopped : Bool

abbrev pub new_used_set : UsedSet
new_used_set = record { tokens = []; stopped = false }

unfoldable pub mark : UsedSet → Bytes → ℕ → UsedSet
mark u token_hash expiry = record u { tokens = insert token_hash expiry u.tokens }

-- exists && !time.Now().After(prev)
unfoldable pub holds : UsedSet → Bytes → ℕ → Bool
holds u token_hash now = elim (lookup token_hash u.tokens) [
  | none ↦ false
  | some expiry ↦ not (ltb expiry now)
]

unfoldable pub mark_if_unused : UsedSet → Bytes → ℕ → ℕ → UsedSet × Bool
mark_if_unused u token_hash expiry now =
    if holds u token_hash now then (u, false) else (mark u token_hash expiry, true)

unfoldable pub is_used : UsedSet → Bytes → ℕ → UsedSet × Bool
is_used u token_hash now = elim (lookup token_hash u.tokens) [
  | none ↦ (u, false)
  | some expiry ↦
      if ltb expiry now then (record u { tokens = erase token_hash u.tokens }, false) else (u, true)
]

unfoldable pub stop : UsedSet → UsedSet
stop u = record u { stopped = true }

unfoldable pub drop_expired : ℕ → Map Bytes ℕ → Map Bytes ℕ
drop_expired now [] = []
drop_expired now ((token_hash, expiry) ∷ m) =
    let kept = drop_expired now m in if ltb expiry now then kept else (token_hash, expiry) ∷ kept

unfoldable pub cleanup_expired : UsedSet → ℕ → UsedSet
cleanup_expired u now = record u { tokens = drop_expired now u.tokens }

-- One tick of the background cleanup, which has returned once the set is stopped.
unfoldable pub cleanup : UsedSet → ℕ → UsedSet
cleanup u now = if u.stopped then u else cleanup_expired u now

-- The calls of the methods, with the clock readings they make.
pub data Call : Type 0 where
  marks : (token_hash : Bytes) (expiry : ℕ) → Call
  tries : (token_hash : Bytes) (expiry now : ℕ) → Call
  asks : (token_hash : Bytes) (now : ℕ) → Call
  sweeps : (now : ℕ) → Call
  stops : Call

unfoldable pub step : UsedSet → Call → UsedSet
step u (marks token_hash expiry) = mark u token_hash expiry
step u (tries token_hash expiry now) = (mark_if_unused u token_hash expiry now).0
step u (asks token_hash now) = (is_used u token_hash now).0
step u (sweeps now) = cleanup u now
step u stops = stop u

unfoldable pub run : UsedSet → List Call → UsedSet
run u [] = u
run u (c ∷ cs) = run (step u c) cs
