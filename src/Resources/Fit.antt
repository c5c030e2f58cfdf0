-- ===== src/Resources/Fit.antt =====
-- When the budget grants a reservation, and that a release function counts once.
use goblin_ftp.Base.{
  ℕ, ◌+◌, ◌≤◌, ◌≡◌, refl, ap, true, false, Bytes, bytes_has_eq, bytes_eq_iff, Option, none, some,
  get_elem?, arith, Bool-cases, Option-cases, inl, inr, get_elem?-set_self,
}
use goblin_ftp.Base.Map.{lookup, lookup-insert}
use goblin_ftp.Base.Ints.{ℤ, pos, negsuc}
use goblin_ftp.Resources.{
  Release, Budget, or_zero, refresh_due, fits, take, reserve_in, Answers, reserve, release,
}

-- The budget within its bounds, for one owner.
abbrev pub IsWithin : Bytes → Budget → Type 0
IsWithin owner b = (b.used ≤ b.max) × (or_zero (lookup owner b.owners) ≤ b.per_session)

reserve_in-IsWithin :
    (b : Budget) (owner : Bytes) (size : ℤ) (i : ℕ)
    → (reserve_in b owner size).1 ≡ some i
    → IsWithin owner (reserve_in b owner size).0 × ((reserve_in b owner size).0.scan_failed ≡ false)
unfolding reserve_in take fits
reserve_in-IsWithin b owner (negsuc n) i h = ground arith
reserve_in-IsWithin b owner (pos size) i h = ground (
  arith,
  bytes_eq_iff owner owner,
  lookup-insert owner owner (or_zero (lookup owner b.owners) + size) b.owners,
)

abbrev IsFine : Bytes → Budget × Option ℕ → Type 0
IsFine owner r = (i : ℕ) → r.1 ≡ some i → IsWithin owner r.0 × (r.0.scan_failed ≡ false)

reserve-IsFine :
    (b : Budget) (owner : Bytes) (size : ℤ) (a : Answers) → IsFine owner (reserve b owner size a)
unfolding reserve
reserve-IsFine b owner size a = elim (Bool-cases (refresh_due b a.now)) [
  | inl t ↦ elim (Option-cases a.staged) [
    | inl e ↦ rw (t, e) (λ i h. ground arith)
    | inr (bytes, e) ↦ rw (t, e) (reserve_in-IsWithin _ owner size)
  ]
  | inr f ↦ rw f (reserve_in-IsWithin _ owner size)
]

-- A reservation that is granted leaves the total and its owner's share within their bounds, and
-- none is granted when the directory could not be read at the start.
pub reserve-IsWithin :
    (b : Budget) (owner : Bytes) (size : ℤ) (a : Answers) (i : ℕ)
    → (reserve b owner size a).1 ≡ some i
    → IsWithin owner (reserve b owner size a).0 × ((reserve b owner size a).0.scan_failed ≡ false)
reserve-IsWithin b owner size a i h = reserve-IsFine b owner size a i h

release_done :
    (b : Budget) (index : ℕ) (r : Release)
    → get_elem? b.releases index ≡ some r
    → r.done ≡ true
    → release b index ≡ b
unfolding release
release_done b index r e d = rw (e, release, d) refl

-- A second call of a release function changes nothing.
pub release_once : (b : Budget) (index : ℕ) → release (release b index) index ≡ release b index
release_once b index = elim (Option-cases (get_elem? b.releases index)) [
  | inl e ↦ ap (λ x. release x index) (none_lem e)
  | inr (r, e) ↦ elim (Bool-cases r.done) [
    | inl t ↦ ap (λ x. release x index) (release_done b index r e t)
    | inr f ↦ release_done (release b index) index (record r { done = true }) (marked r e f) refl
  ]
]
  where
    none_lem : get_elem? b.releases index ≡ none → release b index ≡ b
    none_lem e = unfold release in rw (e, release) refl

    marked :
        (r : Release)
        → get_elem? b.releases index ≡ some r
        → r.done ≡ false
        → get_elem? (release b index).releases index ≡ some (record r { done = true })
    marked r e f =
        unfold release in
        rw (e, release, f) (get_elem?-set_self b.releases index (record r { done = true }) r e)
