-- ===== src/Text/Slice.antt =====
-- Slices of Go strings and byte slices.
use goblin_ftp.Base.{ℕ, zero, suc, ◌≡◌, ◌≤◌, ◌-◌, refl, ap, Bytes, [], ◌∷◌, ◌++◌, length, arith}

-- s[:n] and s[n:]
unfoldable pub take : ℕ → Bytes → Bytes
take zero s = []
take (suc n) [] = []
take (suc n) (c ∷ s) = c ∷ take n s

unfoldable pub drop : ℕ → Bytes → Bytes
drop zero s = s
drop (suc n) [] = []
drop (suc n) (c ∷ s) = drop n s

pub take-append : (a b : Bytes) → take (length a) (a ++ b) ≡ a
unfolding take
take-append [] b = refl
take-append (c ∷ a) b = ap (◌∷◌ c) (take-append a b)

pub drop-append : (a b : Bytes) → drop (length a) (a ++ b) ≡ b
unfolding drop
drop-append [] b = refl
drop-append (c ∷ a) b = drop-append a b

pub take-drop : (n : ℕ) (s : Bytes) → take n s ++ drop n s ≡ s
unfolding take drop
take-drop zero s = refl
take-drop (suc n) [] = refl
take-drop (suc n) (c ∷ s) = ap (◌∷◌ c) (take-drop n s)

pub length-drop : (n : ℕ) (s : Bytes) → length (drop n s) ≡ length s - n
unfolding drop
length-drop zero s = omega arith
length-drop (suc n) [] = omega arith
length-drop (suc n) (c ∷ s) = omega (arith, length-drop n s)

pub length-take : (n : ℕ) (s : Bytes) → length (take n s) ≤ n
unfolding take
length-take zero s = omega arith
length-take (suc n) [] = omega arith
length-take (suc n) (c ∷ s) = omega (arith, length-take n s)
