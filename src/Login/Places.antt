-- ===== src/Login/Places.antt =====
-- The places that a login of backend/internal/api/connect.go and sso.go takes in the session store, and
-- their release.
use goblin_ftp.Base.{
  ℕ, ◌≡◌, ◌∙◌, refl, ap, sym, subst, true, false, [], ◌∷◌, ◌++◌, Bytes, Option, none, some, inl,
  inr, All, All-append, length, set-append_last, get_elem?, get_elem?-append_last, set, arith,
  Bool-cases, bytes_has_eq, bytes_eq_iff, ◌==◌, ◌+◌, ◌-◌, if◌then◌else◌,
}
use goblin_ftp.Base.Map.{Map, lookup, insert, lookup-insert, lookup-erase}
use goblin_ftp.Auth.Store
use goblin_ftp.Auth.Store.{Store, Free, Limits, or_zero}

-- Every release function that the store has handed out was called.
abbrev pub AllFreed : Store → Type 0
AllFreed s = All (λ f. f.done ≡ true) s.frees

pub new-frees :
    (s : Store) (a b c : Option Bytes) (now : ℕ) → (Store.new s a b c now).0.frees ≡ s.frees
unfolding Store.new Store.add_session
new-frees s none b c now = refl
new-frees s (some a) none c now = refl
new-frees s (some a) (some b) none now = refl
new-frees s (some a) (some b) (some c) now = refl

-- The releases that were handed out and the logins that are counted are the same.
abbrev pub SamePlaces : Store → Store → Type 0
SamePlaces t s = (t.frees ≡ s.frees) × (t.connecting ≡ s.connecting)

pub new-SamePlaces :
    (s : Store) (a b c : Option Bytes) (now : ℕ) → SamePlaces (Store.new s a b c now).0 s
unfolding Store.new Store.add_session
new-SamePlaces s none b c now = (refl, refl)
new-SamePlaces s (some a) none c now = (refl, refl)
new-SamePlaces s (some a) (some b) none now = (refl, refl)
new-SamePlaces s (some a) (some b) (some c) now = (refl, refl)

pub freed :
    (s u : Store) (f : ℕ) (fresh : Free)
    → fresh.done ≡ false
    → AllFreed s
    → u.frees ≡ s.frees ++ (fresh ∷ [])
    → f ≡ length s.frees
    → AllFreed (Store.free u f)
unfolding Store.free
freed s u f fresh open_yet h given at =
    let found : get_elem? u.frees f ≡ some fresh =
      ap (get_elem? u.frees) at
      ∙ ap (λ l. get_elem? l (length s.frees)) given
      ∙ get_elem?-append_last s.frees fresh in
    let finished : Free = record fresh { done = true } in
    let after : set u.frees f finished ≡ s.frees ++ (finished ∷ []) =
      ap (λ n. set u.frees n finished) at
      ∙ ap (λ l. set l (length s.frees) finished) given
      ∙ set-append_last s.frees fresh finished in
    rw (Store.free, found, open_yet)
      (subst (All (λ f. f.done ≡ true)) (sym after)
        (All-append (λ f. f.done ≡ true) s.frees (finished ∷ []) h (refl, tt)))

pub free-AllFreed :
    (s u : Store) (ip : Bytes) (limits : Limits) (credit : Option Bytes) (f : ℕ)
    → AllFreed s
    → (Store.reserve s ip limits credit).1 ≡ some f
    → u.frees ≡ (Store.reserve s ip limits credit).0.frees
    → AllFreed (Store.free u f)
unfolding Store.reserve Store.free
free-AllFreed s u ip limits credit f h e same =
    elim (Bool-cases (Store.is_full s ip limits credit)) [
      | inl r ↦ absurd (ground (arith, r, e))
      | inr r ↦
          let fresh : Free = record { ip = ip; done = false } in
          let given : u.frees ≡ s.frees ++ (fresh ∷ []) = same ∙ rw (Store.reserve, r) refl in
          let at : f ≡ length s.frees = ground (arith, r, e) in freed s u f fresh refl h given at
    ]

-- One login less is counted of `ip`, and as many as before of the others.
less_one-lookup :
    (ip at : Bytes) (m : Map Bytes ℕ)
    → or_zero (lookup at (Store.less_one ip m))
      ≡ (if ip == at then or_zero (lookup at m) - 1 else or_zero (lookup at m))
unfolding Store.less_one
less_one-lookup ip at m = ground (
  arith,
  lookup-erase ip at m,
  lookup-insert ip at (or_zero (lookup ip m) - 1) m,
  bytes_eq_iff ip at,
)

-- What was reserved is counted no more behind its release.
pub free-connecting :
    (s u : Store) (ip : Bytes) (limits : Limits) (credit : Option Bytes) (f : ℕ)
    → (Store.reserve s ip limits credit).1 ≡ some f
    → SamePlaces u (Store.reserve s ip limits credit).0
    → (at : Bytes)
    → or_zero (lookup at (Store.free u f).connecting) ≡ or_zero (lookup at s.connecting)
unfolding Store.reserve Store.free
free-connecting s u ip limits credit f h (same, counted) at =
    elim (Bool-cases (Store.is_full s ip limits credit)) [
      | inl r ↦ absurd (ground (arith, r, h))
      | inr r ↦
          let fresh : Free = record { ip = ip; done = false } in
          let given : u.frees ≡ s.frees ++ (fresh ∷ []) = same ∙ rw (Store.reserve, r) refl in
          let index : f ≡ length s.frees = ground (arith, r, h) in
          let found : get_elem? u.frees f ≡ some fresh =
            ap (get_elem? u.frees) index
            ∙ ap (λ l. get_elem? l (length s.frees)) given
            ∙ get_elem?-append_last s.frees fresh in
          let more : u.connecting ≡ insert ip (or_zero (lookup ip s.connecting) + 1) s.connecting =
            counted ∙ rw (Store.reserve, r) refl in
          rw (Store.free, found, more)
            (ground (
              arith,
              less_one-lookup ip at (insert ip (or_zero (lookup ip s.connecting) + 1) s.connecting),
              lookup-insert ip at (or_zero (lookup ip s.connecting) + 1) s.connecting,
              bytes_eq_iff ip at,
            ))
    ]
