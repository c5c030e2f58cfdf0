-- ===== src/Base/Sets.antt =====
-- Finite sets as lists, and loops that look for a value outside of one.
use Prim.Native.Nat.{◌≤◌, ◌<◌}
use mathlib.Core.Path.{◌≡◌, refl}
use mathlib.Core.Bool.{Bool, true, false, ◌||◌}
use mathlib.Core.List.{List, [], ◌∷◌}
use native.Mathlib.Omega.{arith}
use goblin_ftp.Base.Tests.{Eq, ◌==◌, if◌then◌else◌}
use goblin_ftp.Base.Lists.{length}

module _ {ℓ} {K : Type ℓ} ⦃e : Eq K⦄ where
  unfoldable pub member : K → List K → Bool
  member k [] = false
  member k (j ∷ js) = (j == k) || member k js

  unfoldable pub remove : K → List K → List K
  remove k [] = []
  remove k (j ∷ js) = if j == k then remove k js else j ∷ remove k js

  length-remove : (k : K) (js : List K) → length (remove k js) ≤ length js
  unfolding remove
  length-remove k [] = omega arith
  length-remove k (j ∷ js) = ground (arith, length-remove k js)

  -- Without a member the list is shorter.
  pub length-remove-member :
      (k : K) (js : List K) → member k js ≡ true → length (remove k js) < length js
  unfolding remove member
  length-remove-member k [] h = absurd (ground (arith, h))
  length-remove-member k (j ∷ js) h =
      ground (arith, length-remove k js, length-remove-member k js, h)

  pub member-remove :
      (k i : K) (js : List K) → (i ≡ k → ⊥) → member i js ≡ true → member i (remove k js) ≡ true
  unfolding remove member
  member-remove k i [] ne h = absurd (ground (arith, h))
  member-remove k i (j ∷ js) ne h =
      ground (arith, e.beq_iff j k, e.beq_iff j i, member-remove k i js ne, h)

  pub remove-absent : (k : K) (js : List K) → member k js ≡ false → remove k js ≡ js
  unfolding remove member
  remove-absent k [] h = refl
  remove-absent k (j ∷ js) h = ground (arith, remove-absent k js, h)
