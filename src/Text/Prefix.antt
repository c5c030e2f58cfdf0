-- ===== src/Text/Prefix.antt =====
-- Prefixes: the test by strings.HasPrefix on two rooted paths is a test on their segments.
use goblin_ftp.Base.{
  false, ℕ, Bool, ◌≡◌, refl, sym, ap, ◌∙◌, ◌≢◌, true, ◌||◌, List, [], ◌∷◌, ◌++◌, Bytes, All, arith,
  ◌==◌, bytes_has_eq, bytes_eq_iff, append-nil, append_assoc, ◌⊎◌, inl, inr,
}
use goblin_ftp.Text.{slash, split, join, has_prefix, trim_right, contains, render, or_dot}
use goblin_ftp.Text.Split.{NoByte, split-append, join-append}
use goblin_ftp.Text.Clean.{IsSegment, split-render, render_rooted}

pub has_prefix→append : (p s : Bytes) → has_prefix p s ≡ true → (r : Bytes) × (s ≡ p ++ r)
unfolding has_prefix
has_prefix→append [] s h = (s, refl)
has_prefix→append (a ∷ p) [] h = cc
has_prefix→append (a ∷ p) (c ∷ s) h =
    let (r, e) = has_prefix→append p s (ground arith) in (r, ground arith)

pub has_prefix-append : (p r : Bytes) → has_prefix p (p ++ r) ≡ true
unfolding has_prefix
has_prefix-append [] r = refl
has_prefix-append (a ∷ p) r = ground (arith, has_prefix-append p r)

trim_right-cons :
    (cut : Bytes) (x : ℕ) (b : Bytes)
    → b ≢ []
    → trim_right cut b ≡ b
    → trim_right cut (x ∷ b) ≡ x ∷ b
unfolding trim_right
trim_right-cons cut x [] ne h = absurd (ne refl)
trim_right-cons cut x (d ∷ b) ne h = ground arith

append-ne-nil : (a b : Bytes) → b ≢ [] → a ++ b ≢ []
append-ne-nil [] b ne = ne
append-ne-nil (x ∷ a) b ne = λ e. cc

trim_right-append :
    (cut a b : Bytes) → b ≢ [] → trim_right cut b ≡ b → trim_right cut (a ++ b) ≡ a ++ b
trim_right-append cut [] b ne h = h
trim_right-append cut (x ∷ a) b ne h =
    trim_right-cons cut x (a ++ b) (append-ne-nil a b ne) (trim_right-append cut a b ne h)

trim_right-segment : (p : Bytes) → p ≢ [] → NoByte slash p → trim_right (slash ∷ []) p ≡ p
trim_right-segment [] ne h = absurd (ne refl)
trim_right-segment (c ∷ []) ne (n, _) = unfold trim_right contains in ground arith
trim_right-segment (c ∷ d ∷ p) ne (_, h) =
    trim_right-cons (slash ∷ []) c (d ∷ p) (λ e. cc) (trim_right-segment (d ∷ p) (λ e. cc) h)

-- Trimming slashes off joined segments changes nothing; there is something to keep.
trim_right-join :
    (p : Bytes) (ps : List Bytes)
    → All IsSegment (p ∷ ps)
    → (join slash (p ∷ ps) ≢ [])
      × (trim_right (slash ∷ []) (join slash (p ∷ ps)) ≡ join slash (p ∷ ps))
unfolding join
trim_right-join p [] ((plain, n), _) = (plain.0, trim_right-segment p plain.0 n)
trim_right-join p (q ∷ ps) (_, h) =
    let (ne, e) = trim_right-join q ps h in
    (
      append-ne-nil p (slash ∷ join slash (q ∷ ps)) (λ e. cc),
      trim_right-append (slash ∷ []) p _ (λ e. cc) (trim_right-cons (slash ∷ []) slash _ ne e),
    )

-- Go's idiom for "below": the path without trailing slashes, with one slash put behind.
abbrev pub below_prefix : Bytes → Bytes
below_prefix p = trim_right (slash ∷ []) p ++ (slash ∷ [])

pub below_prefix-root : below_prefix (render true []) ≡ slash ∷ []
below_prefix-root = unfold render or_dot join trim_right contains in refl

pub below_prefix-render :
    (p : Bytes) (ps : List Bytes)
    → All IsSegment (p ∷ ps)
    → below_prefix (render true (p ∷ ps)) ≡ render true (p ∷ ps) ++ (slash ∷ [])
below_prefix-render p ps h =
    let (ne, e) = trim_right-join p ps h in
    rw (render_rooted (p ∷ ps))
      (ap (λ l. l ++ (slash ∷ [])) (trim_right-cons (slash ∷ []) slash _ ne e))

-- One list of segments begins with the other.
abbrev pub IsSegmentPrefix : List Bytes → List Bytes → Type 0
IsSegmentPrefix ps qs = (rest : List Bytes) × (qs ≡ ps ++ rest)

render-append :
    (p r : Bytes) (ps rs : List Bytes)
    → render true ((p ∷ ps) ++ (r ∷ rs)) ≡ render true (p ∷ ps) ++ (slash ∷ join slash (r ∷ rs))
render-append p r ps rs =
    rw (render_rooted ((p ∷ ps) ++ (r ∷ rs)), render_rooted (p ∷ ps))
      (ap (◌∷◌ slash) (join-append slash p r ps rs))

abbrev pub Below : List Bytes → List Bytes → Type 0
Below ps qs =
    (render true ps == render true qs
      || has_prefix (below_prefix (render true ps)) (render true qs))
    ≡ true

tails :
    (p : Bytes) (ps qs tail : List Bytes)
    → All IsSegment (p ∷ ps)
    → All IsSegment qs
    → split slash (render true (p ∷ ps)) ++ tail ≡ split slash (render true qs)
    → IsSegmentPrefix (p ∷ ps) qs
tails p ps [] tail h k e =
    absurd (h.0.0.0 (unfold render or_dot join split in cc (e, split-render p ps h)))
tails p ps (q ∷ qs) tail h k e = (tail, cc (e, split-render p ps h, split-render q qs k))

or-cases : (x y : Bool) → (x || y) ≡ true → (x ≡ true) ⊎ (y ≡ true)
or-cases true y e = inl refl
or-cases false y e = inr e

under :
    (p : Bytes) (ps qs : List Bytes)
    → All IsSegment (p ∷ ps)
    → All IsSegment qs
    → has_prefix (below_prefix (render true (p ∷ ps))) (render true qs) ≡ true
    → IsSegmentPrefix (p ∷ ps) qs
under p ps qs h k b =
    let (r, e) = has_prefix→append _ _ (rw (below_prefix-render p ps h) at b) in
    tails p ps qs (split slash r) h k (
      sym (split-append slash (render true (p ∷ ps)) r)
      ∙ ap (split slash) (sym (e ∙ append_assoc (render true (p ∷ ps)) (slash ∷ []) r)))

-- "Equal or below", as the program tests it on texts, is the prefix order on segments.
pub Below-sound :
    (ps qs : List Bytes) → All IsSegment ps → All IsSegment qs → Below ps qs → IsSegmentPrefix ps qs
Below-sound [] qs h k b = (qs, refl)
Below-sound (p ∷ ps) qs h k b = elim (or-cases _ _ b) [
  | inl same ↦ tails p ps qs [] h k (append-nil _ ∙ ap (split slash) ((bytes_eq_iff _ _).0 same))
  | inr below ↦ under p ps qs h k below
]

pub Below-complete : (ps qs : List Bytes) → IsSegmentPrefix ps qs → All IsSegment ps → Below ps qs
Below-complete [] qs (rest, e) h =
    rw (below_prefix-root, render_rooted qs) (unfold has_prefix in ground arith)
Below-complete (p ∷ ps) qs ([], e) h =
    let same : render true (p ∷ ps) ≡ render true qs =
      ap (render true) (sym (e ∙ append-nil (p ∷ ps))) in
    rw ((bytes_eq_iff _ _).1 same) refl
Below-complete (p ∷ ps) qs (r ∷ rs, e) h =
    let long =
      ap (render true) e
      ∙ render-append p r ps rs
      ∙ sym (append_assoc (render true (p ∷ ps)) (slash ∷ []) (join slash (r ∷ rs))) in
    rw (below_prefix-render p ps h) (
      or-right (render true (p ∷ ps) == render true qs)
        (has_prefix (render true (p ∷ ps) ++ (slash ∷ [])) (render true qs))
        (rw long (has_prefix-append (render true (p ∷ ps) ++ (slash ∷ [])) (join slash (r ∷ rs)))))
  where
    or-right : (x y : Bool) → y ≡ true → (x || y) ≡ true
    or-right true y e = refl
    or-right false y e = e
