-- ===== src/Text/Split.antt =====
-- Splitting and joining are inverse to one another on parts without the separator.
use goblin_ftp.Base.{
  ℕ, ◌≡◌, refl, sym, ap, ◌∙◌, ◌≢◌, List, [], ◌∷◌, ◌++◌, Bytes, nat_eq, nat_eq_iff, Bool-cases, inl,
  inr, All, arith, append_assoc,
}
use goblin_ftp.Text.{split, join}

abbrev pub NoByte : ℕ → Bytes → Type 0
NoByte b s = All (λ c. c ≢ b) s

abbrev first : List Bytes → Bytes
first [] = []
first (p ∷ ps) = p

abbrev rest : List Bytes → List Bytes
rest [] = []
rest (p ∷ ps) = ps

pub split-ne-nil : (sep : ℕ) (s : Bytes) → split sep s ≢ []
unfolding split
split-ne-nil sep [] = cc
split-ne-nil sep (c ∷ s) = ground arith

pub split-eta : (sep : ℕ) (s : Bytes) → split sep s ≡ first (split sep s) ∷ rest (split sep s)
split-eta sep s = go (split sep s) (split-ne-nil sep s)
  where
    go : (l : List Bytes) → l ≢ [] → l ≡ first l ∷ rest l
    go [] h = absurd (h refl)
    go (p ∷ ps) h = refl

-- At the separator a new part begins; any other byte goes to the first part.
pub split_here : (sep c : ℕ) (s : Bytes) → c ≡ sep → split sep (c ∷ s) ≡ [] ∷ split sep s
unfolding split
split_here sep c s h = ground (arith)

pub split_skip :
    (sep c : ℕ) (s p : Bytes) (ps : List Bytes)
    → c ≢ sep
    → split sep s ≡ p ∷ ps
    → split sep (c ∷ s) ≡ (c ∷ p) ∷ ps
unfolding split
split_skip sep c s p ps h e = ground arith

split-step :
    (sep c : ℕ) (s : Bytes)
    → c ≢ sep
    → split sep (c ∷ s) ≡ (c ∷ first (split sep s)) ∷ rest (split sep s)
split-step sep c s h = split_skip sep c s _ _ h (split-eta sep s)

-- No part holds the separator.
pub split-NoByte : (sep : ℕ) (s : Bytes) → All (NoByte sep) (split sep s)
split-NoByte sep [] = unfold split in (tt, tt)
split-NoByte sep (c ∷ s) = elim (Bool-cases (nat_eq c sep)) [
  | inl t ↦ rw (split_here sep c s ((nat_eq_iff c sep).0 t)) (tt, split-NoByte sep s)
  | inr f ↦
      let ne : c ≢ sep = ground arith in
      rw (split-step sep c s ne) (grow ne (rw (split-eta sep s) at (split-NoByte sep s)))
]
  where
    grow :
        c ≢ sep
        → All (NoByte sep) (first (split sep s) ∷ rest (split sep s))
        → All (NoByte sep) ((c ∷ first (split sep s)) ∷ rest (split sep s))
    grow ne (a, b) = ((ne, a), b)

pub split-append : (sep : ℕ) (a b : Bytes) → split sep (a ++ (sep ∷ b)) ≡ split sep a ++ split sep b
split-append sep [] b = unfold split in split_here sep sep b refl
split-append sep (c ∷ a) b = elim (Bool-cases (nat_eq c sep)) [
  | inl t ↦
      let e = (nat_eq_iff c sep).0 t in
      rw (split_here sep c (a ++ (sep ∷ b)) e, split_here sep c a e)
        (ap (◌∷◌ []) (split-append sep a b))
  | inr f ↦
      let ne : c ≢ sep = ground arith in
      split_skip sep c (a ++ (sep ∷ b)) _ _ ne
        (split-append sep a b ∙ ap (λ l. l ++ split sep b) (split-eta sep a))
      ∙ ap (λ l. l ++ split sep b) (sym (split-step sep c a ne))
]

pub split_of_NoByte : (sep : ℕ) (p : Bytes) → NoByte sep p → split sep p ≡ p ∷ []
split_of_NoByte sep [] h = unfold split in refl
split_of_NoByte sep (c ∷ p) (ne, h) = split_skip sep c p p [] ne (split_of_NoByte sep p h)

pub split-join :
    (sep : ℕ) (p : Bytes) (ps : List Bytes)
    → All (NoByte sep) (p ∷ ps)
    → split sep (join sep (p ∷ ps)) ≡ p ∷ ps
unfolding join
split-join sep p [] (h, _) = split_of_NoByte sep p h
split-join sep p (q ∷ ps) (h, hs) =
    split-append sep p (join sep (q ∷ ps)) ∙ ap₂' (split_of_NoByte sep p h) (split-join sep q ps hs)
  where
    ap₂' : {a a' b b' : List Bytes} → a ≡ a' → b ≡ b' → a ++ b ≡ a' ++ b'
    ap₂' e f = cc

pub join-append :
    (sep : ℕ) (p q : Bytes) (ps qs : List Bytes)
    → join sep ((p ∷ ps) ++ (q ∷ qs)) ≡ join sep (p ∷ ps) ++ (sep ∷ join sep (q ∷ qs))
unfolding join
join-append sep p q [] qs = refl
join-append sep p q (r ∷ ps) qs = simp (join-append sep r q ps qs, append_assoc)

join-first :
    (sep c : ℕ) (p : Bytes) (ps : List Bytes) → join sep ((c ∷ p) ∷ ps) ≡ c ∷ join sep (p ∷ ps)
unfolding join
join-first sep c p [] = refl
join-first sep c p (q ∷ ps) = refl

join-nil : (sep : ℕ) (l : List Bytes) → l ≢ [] → join sep ([] ∷ l) ≡ sep ∷ join sep l
unfolding join
join-nil sep [] ne = absurd (ne refl)
join-nil sep (p ∷ ps) ne = refl

pub join-split : (sep : ℕ) (s : Bytes) → join sep (split sep s) ≡ s
join-split sep [] = unfold split join in refl
join-split sep (c ∷ s) = elim (Bool-cases (nat_eq c sep)) [
  | inl t ↦
      let e = (nat_eq_iff c sep).0 t in
      rw (split_here sep c s e)
        (join-nil sep (split sep s) (split-ne-nil sep s) ∙ cc (join-split sep s, e))
  | inr f ↦
      let ne : c ≢ sep = ground arith in
      rw (split-step sep c s ne) (
        join-first sep c _ _
        ∙ ap (λ l. c ∷ join sep l) (sym (split-eta sep s))
        ∙ ap (◌∷◌ c) (join-split sep s))
]
