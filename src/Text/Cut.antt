-- ===== src/Text/Cut.antt =====
-- strings.SplitN by one byte, and encoding/hex.
use goblin_ftp.Base.{
  ℕ, zero, suc, ◌≡◌, refl, ◌+◌, ◌-◌, ◌/◌, ◌%◌, ◌<◌, ◌≢◌, sym, ◌∙◌, List, [], ◌∷◌, Bytes, nat_eq,
  ltb, if◌then◌else◌, Option, none, some, All, arith, Bool-cases, Option-cases, inl, inr, ◌++◌,
}
use goblin_ftp.Text.{join}
use goblin_ftp.Text.Split.{NoByte}

-- What stands before and behind the first separator.
unfoldable pub cut : ℕ → Bytes → Option (Bytes × Bytes)
cut sep [] = none
cut sep (c ∷ s) =
    let rest = cut sep s in
    if nat_eq c sep then some ([], s) else elim rest [ none ↦ none | some (a, b) ↦ some (c ∷ a, b) ]

-- strings.SplitN: the last part holds what is left after `cuts` separators.
unfoldable pub split_n : ℕ → ℕ → Bytes → List Bytes
split_n sep zero s = s ∷ []
split_n sep (suc cuts) s = elim (cut sep s) [ none ↦ s ∷ [] | some (a, b) ↦ a ∷ split_n sep cuts b ]

pub cut-append : (sep : ℕ) (a b : Bytes) → NoByte sep a → cut sep (a ++ (sep ∷ b)) ≡ some (a, b)
unfolding cut
cut-append sep [] b h = ground arith
cut-append sep (c ∷ a) b (ne, h) = ground (arith, cut-append sep a b h)

pub cut_sound : (sep : ℕ) (s a b : Bytes) → cut sep s ≡ some (a, b) → s ≡ a ++ (sep ∷ b)
unfolding cut
cut_sound sep [] a b e = cc
cut_sound sep (c ∷ s) a b e = elim (Bool-cases (nat_eq c sep)) [
  | inl t ↦ ground (arith, e)
  | inr f ↦ elim (Option-cases (cut sep s)) [
    | inl n ↦ ground (arith, e)
    | inr ((x, y), p) ↦ ground (arith, cut_sound sep s x y p, e)
  ]
]

split_n-ne-nil : (sep k : ℕ) (s : Bytes) → split_n sep k s ≢ []
unfolding split_n
split_n-ne-nil sep zero s = cc
split_n-ne-nil sep (suc k) s = ground arith

join_cons :
    (sep : ℕ) (a : Bytes) (ps : List Bytes) → ps ≢ [] → join sep (a ∷ ps) ≡ a ++ (sep ∷ join sep ps)
unfolding join
join_cons sep a [] h = absurd (h refl)
join_cons sep a (p ∷ ps) h = refl

pub join-split_n : (sep k : ℕ) (s : Bytes) → join sep (split_n sep k s) ≡ s
unfolding split_n join
join-split_n sep zero s = refl
join-split_n sep (suc k) s = elim (Option-cases (cut sep s)) [
  | inl n ↦ rw (split_n, n) refl
  | inr ((a, b), e) ↦
      rw (split_n, e)
        (join_cons sep a (split_n sep k b) (split_n-ne-nil sep k b)
          ∙ rw (join-split_n sep k b) (sym (cut_sound sep s a b e)))
]

unfoldable pub hex_digit : ℕ → ℕ
hex_digit n = if ltb n 10 then b'0' + n else b'a' + (n - 10)

-- hex.EncodeToString
unfoldable pub hex : Bytes → Bytes
hex [] = []
hex (b ∷ s) = hex_digit (b / 16) ∷ hex_digit (b % 16) ∷ hex s

pub hex-IsByte : (s : Bytes) → All (λ b. b < 256) s → All (λ b. b < 256) (hex s)
unfolding hex hex_digit
hex-IsByte [] h = tt
hex-IsByte (b ∷ s) h = (ground (arith, h.0), (ground arith, hex-IsByte s h.1))
