-- ===== src/Base/Map.antt =====
-- Go maps: association lists with one entry for each key. Iteration runs in the list's order; a
-- statement about every list is one about every order in which Go may iterate.
use Prim.Native.Nat.{◌+◌, ◌≤◌}
use mathlib.Core.Path.{◌≡◌, refl, subst}
use mathlib.Core.Logic.{inl, inr}
use mathlib.Core.List.{List, [], ◌∷◌}
use mathlib.Core.Option.{Option, none, some}
use native.Mathlib.Omega.{arith}
use goblin_ftp.Base.Tests.{Eq, ◌==◌, if◌then◌else◌, Bool-cases}
use goblin_ftp.Base.Lists.{length, All}

abbrev pub Map {ℓ κ} : Type ℓ → Type κ → Type (ℓ ⊔ κ)
Map K V = List (K × V)

module _ {ℓ κ} {K : Type ℓ} {V : Type κ} ⦃e : Eq K⦄ where
  unfoldable pub lookup : K → Map K V → Option V
  lookup key [] = none
  lookup key ((at, val) ∷ rest) = if at == key then some val else lookup key rest

  unfoldable pub insert : K → V → Map K V → Map K V
  insert key new [] = (key, new) ∷ []
  insert key new ((at, val) ∷ rest) =
      if at == key then (key, new) ∷ rest else (at, val) ∷ insert key new rest

  unfoldable pub erase : K → Map K V → Map K V
  erase k [] = []
  erase k ((j, w) ∷ m) = if j == k then erase k m else (j, w) ∷ erase k m

  pub lookup-insert :
      (key at : K) (new : V) (m : Map K V)
      → lookup at (insert key new m) ≡ (if key == at then some new else lookup at m)
  unfolding insert lookup
  lookup-insert key at new [] = refl
  lookup-insert key at new ((i, val) ∷ rest) =
      ground
        (lookup-insert key at new rest, e.beq_iff i at, e.beq_iff i key, e.beq_iff key at, arith)

  pub lookup-erase :
      (k j : K) (m : Map K V) → lookup j (erase k m) ≡ (if k == j then none else lookup j m)
  unfolding lookup erase
  lookup-erase k j [] = ground arith
  lookup-erase k j ((i, w) ∷ m) =
      ground (arith, e.beq_iff k j, e.beq_iff i k, e.beq_iff i j, lookup-erase k j m)

  pub length-erase : (k : K) (m : Map K V) → length (erase k m) ≤ length m
  unfolding erase
  length-erase k [] = omega arith
  length-erase k ((i, w) ∷ m) = ground (arith, length-erase k m)

  pub length-insert : (k : K) (v : V) (m : Map K V) → length (insert k v m) ≤ length m + 1
  unfolding insert
  length-insert k v [] = omega arith
  length-insert k v ((i, w) ∷ m) = ground (arith, length-insert k v m)

module _ {ℓ κ μ} {K : Type ℓ} {V : Type κ} ⦃e : Eq K⦄ (P : K × V → Type μ) where
  pub erase-All : (k : K) (m : Map K V) → All P m → All P (erase k m)
  unfolding erase
  erase-All k [] h = tt
  erase-All k ((j, w) ∷ m) (p, h) = ground (arith, erase-All k m h)

  pub insert-All : (k : K) (v : V) (m : Map K V) → P (k, v) → All P m → All P (insert k v m)
  unfolding insert
  insert-All k v [] p h = (p, tt)
  insert-All k v ((j, w) ∷ m) p (q, h) = ground (arith, insert-All k v m p h)

module _ {ℓ κ μ} {K : Type ℓ} {V : Type κ} ⦃e : Eq K⦄ (P : V → Type μ) where
  pub lookup-All : (k : K) (v : V) (m : Map K V) → All (λ x. P x.1) m → lookup k m ≡ some v → P v
  unfolding lookup
  lookup-All k v [] h f = cc
  lookup-All k v ((j, w) ∷ m) (p, h) f = elim (Bool-cases (j == k)) [
    | inl t ↦ subst P (ground arith) p
    | inr n ↦ lookup-All k v m h (ground arith)
  ]
