-- ===== src/Sso/UsedSet/Replay.antt =====
-- A token that was accepted is refused until it expires.
use goblin_ftp.Base.{
  ℕ, ◌≤◌, ◌≡◌, ◌≢◌, ◌⊎◌, refl, true, false, List, [], ◌∷◌, Bytes, bytes_has_eq, bytes_eq_iff, some,
  arith, All, Bool-cases, inl, inr,
}
use goblin_ftp.Base.Map.{Map, lookup, lookup-insert, lookup-erase}
use goblin_ftp.Sso.UsedSet.{
  UsedSet, mark, holds, mark_if_unused, is_used, stop, drop_expired, cleanup_expired, cleanup, Call,
  marks, tries, asks, sweeps, stops, step, run,
}

-- The token is held, until `until` at least.
abbrev pub IsHeld : Bytes → ℕ → UsedSet → Type 0
IsHeld token_hash until u = (x : ℕ) × (lookup token_hash u.tokens ≡ some x) × (until ≤ x)

-- The clock has not passed the expiry, and no call of Mark shortens it.
abbrev pub IsBefore : Bytes → ℕ → Call → Type 0
IsBefore token_hash until (marks other expiry) = (other ≢ token_hash) ⊎ (until ≤ expiry)
IsBefore token_hash until (tries other expiry now) = now ≤ until
IsBefore token_hash until (asks other now) = now ≤ until
IsBefore token_hash until (sweeps now) = now ≤ until
IsBefore token_hash until stops = Unit

lookup-drop_expired :
    (token_hash : Bytes) (now x : ℕ) (m : Map Bytes ℕ)
    → lookup token_hash m ≡ some x
    → now ≤ x
    → lookup token_hash (drop_expired now m) ≡ some x
unfolding drop_expired lookup
lookup-drop_expired token_hash now x [] h le = h
lookup-drop_expired token_hash now x ((k, e) ∷ m) h le =
    ground (arith, bytes_eq_iff k token_hash, lookup-drop_expired token_hash now x m)

holds_lem :
    (u : UsedSet) (token_hash : Bytes) (until now : ℕ)
    → IsHeld token_hash until u
    → now ≤ until
    → holds u token_hash now ≡ true
unfolding holds
holds_lem u token_hash until now (x, e, le) h = rw (e, holds) (ground arith)

step-IsHeld :
    (token_hash : Bytes) (until : ℕ) (u : UsedSet) (c : Call)
    → IsBefore token_hash until c
    → IsHeld token_hash until u
    → IsHeld token_hash until (step u c)
unfolding step
step-IsHeld token_hash until u (marks other expiry) b (x, e, le) =
    elim (Bool-cases (bytes_has_eq.beq other token_hash)) [
      | inl t ↦ (
        expiry,
        unfold mark in
            ground (
              arith,
              bytes_eq_iff other token_hash,
              lookup-insert other token_hash expiry u.tokens,
            ),
        ground (arith, bytes_eq_iff other token_hash),
      )
      | inr f ↦ (
        x,
        unfold mark in
            ground (
              arith,
              bytes_eq_iff other token_hash,
              lookup-insert other token_hash expiry u.tokens,
            ),
        le,
      )
    ]
step-IsHeld token_hash until u (tries other expiry now) b (x, e, le) = (
  x,
  unfold mark_if_unused mark holds in
      ground (arith, bytes_eq_iff other token_hash, lookup-insert other token_hash expiry u.tokens),
  le,
)
step-IsHeld token_hash until u (asks other now) b (x, e, le) = (
  x,
  unfold is_used in
      ground (arith, bytes_eq_iff other token_hash, lookup-erase other token_hash u.tokens),
  le,
)
step-IsHeld token_hash until u (sweeps now) b (x, e, le) = (
  x,
  unfold cleanup cleanup_expired in ground (arith, lookup-drop_expired token_hash now x u.tokens),
  le,
)
step-IsHeld token_hash until u stops b (x, e, le) = (x, unfold stop in e, le)

run-IsHeld :
    (token_hash : Bytes) (until : ℕ) (u : UsedSet) (cs : List Call)
    → All (IsBefore token_hash until) cs
    → IsHeld token_hash until u
    → IsHeld token_hash until (run u cs)
unfolding run
run-IsHeld token_hash until u [] h b = b
run-IsHeld token_hash until u (c ∷ cs) (k, h) b =
    run-IsHeld token_hash until (step u c) cs h (step-IsHeld token_hash until u c k b)

accepted-IsHeld :
    (u : UsedSet) (token_hash : Bytes) (expiry now : ℕ)
    → (mark_if_unused u token_hash expiry now).1 ≡ true
    → IsHeld token_hash expiry (mark_if_unused u token_hash expiry now).0
unfolding mark_if_unused mark
accepted-IsHeld u token_hash expiry now h = (
  expiry,
  ground (
    arith,
    bytes_eq_iff token_hash token_hash,
    lookup-insert token_hash token_hash expiry u.tokens,
  ),
  omega arith,
)

held_is_refused :
    (u : UsedSet) (token_hash : Bytes) (until again now : ℕ)
    → IsHeld token_hash until u
    → now ≤ until
    → ((mark_if_unused u token_hash again now).1 ≡ false) × ((is_used u token_hash now).1 ≡ true)
unfolding mark_if_unused is_used
held_is_refused u token_hash until again now (x, e, le) h =
    (rw (holds_lem u token_hash until now (x, e, le) h) refl, rw (e, is_used) (ground arith))

-- Once MarkIfUnused has accepted a token until `expiry`, then whatever calls follow while the
-- clock has not passed `expiry` (and if no Mark of the same token shortens it), MarkIfUnused
-- refuses the token, and IsUsed reports it as used.
pub mark_if_unused_once :
    (u : UsedSet) (token_hash : Bytes) (expiry now : ℕ) (cs : List Call) (again later : ℕ)
    → (mark_if_unused u token_hash expiry now).1 ≡ true
    → All (IsBefore token_hash expiry) cs
    → later ≤ expiry
    → let v = run (mark_if_unused u token_hash expiry now).0 cs in
      ((mark_if_unused v token_hash again later).1 ≡ false)
      × ((is_used v token_hash later).1 ≡ true)
mark_if_unused_once u token_hash expiry now cs again later h b le =
    held_is_refused _ token_hash expiry again later
      (run-IsHeld token_hash expiry _ cs b (accepted-IsHeld u token_hash expiry now h)) le
