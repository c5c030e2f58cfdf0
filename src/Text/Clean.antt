-- ===== src/Text/Clean.antt =====
-- path.Clean on rooted paths: what its segments are, and that it forgets only blank segments where
-- no ".." occurs.
use goblin_ftp.Base.{
  length, ◌≤◌, ◌≡◌, refl, sym, ap, ◌∙◌, ◌≢◌, Bool, true, ◌||◌, List, [], ◌∷◌, ◌++◌, reverse, Bytes,
  Bool-cases, inl, inr, All, All-append, arith, if◌then◌else◌, ◌==◌, bytes_has_eq, bytes_eq_iff,
  append-nil, append_assoc, ◌≡⟨◌⟩◌, ◌∎,
}
use mathlib.Core.List.{reverse-cons}
use goblin_ftp.Text.{
  slash, dot, dotdot, split, join, is_abs, resolve, resolve_all, segments, render, or_dot, clean,
  path_join,
}
use goblin_ftp.Text.Split.{NoByte, split-NoByte, split_here, split-join, split-append}

abbrev pub IsPlain : Bytes → Type 0
IsPlain seg = (seg ≢ []) × (seg ≢ dot) × (seg ≢ dotdot)

-- The name of one directory entry.
abbrev pub IsSegment : Bytes → Type 0
IsSegment seg = IsPlain seg × NoByte slash seg

-- The segments that are not empty and not ".".
unfoldable pub drop_blank : List Bytes → List Bytes
drop_blank [] = []
drop_blank (seg ∷ segs) =
    let kept = drop_blank segs in if seg == [] || seg == dot then kept else seg ∷ kept

pub length-drop_blank : (segs : List Bytes) → length (drop_blank segs) ≤ length segs
unfolding drop_blank
length-drop_blank [] = omega arith
length-drop_blank (s ∷ segs) = ground (arith, length-drop_blank segs)

pub drop_blank-append : (a b : List Bytes) → drop_blank (a ++ b) ≡ drop_blank a ++ drop_blank b
unfolding drop_blank
drop_blank-append [] b = refl
drop_blank-append (s ∷ a) b = ground (arith, drop_blank-append a b)

pub drop_blank_of_IsPlain : (segs : List Bytes) → All IsPlain segs → drop_blank segs ≡ segs
unfolding drop_blank
drop_blank_of_IsPlain [] h = refl
drop_blank_of_IsPlain (s ∷ segs) (p, h) =
    ground (arith, bytes_eq_iff s [], bytes_eq_iff s dot, drop_blank_of_IsPlain segs h)

pub drop_blank-IsSegment :
    (segs : List Bytes)
    → All (λ s. s ≢ dotdot) segs
    → All (NoByte slash) segs
    → All IsSegment (drop_blank segs)
unfolding drop_blank
drop_blank-IsSegment [] h n = tt
drop_blank-IsSegment (s ∷ segs) (p, h) (m, n) =
    ground (arith, bytes_eq_iff s [], bytes_eq_iff s dot, drop_blank-IsSegment segs h n)

resolve_step :
    (r : Bool) (stack : List Bytes) (seg : Bytes) (segs : List Bytes)
    → seg ≢ dotdot
    → reverse (resolve r stack seg) ++ drop_blank segs ≡ reverse stack ++ drop_blank (seg ∷ segs)
unfolding resolve drop_blank
resolve_step r stack seg segs h = elim (Bool-cases (seg == [] || seg == dot)) [
  | inl t ↦ rw t
  | inr f ↦ ground (
    arith,
    f,
    bytes_eq_iff seg dotdot,
    reverse-cons seg stack,
    append_assoc (reverse stack) (seg ∷ []) (drop_blank segs),
  )
]

-- Without ".." the resolved segments are those that are not blank.
pub resolve_all_lem :
    (r : Bool) (stack segs : List Bytes)
    → All (λ s. s ≢ dotdot) segs
    → resolve_all r stack segs ≡ reverse stack ++ drop_blank segs
unfolding resolve_all
resolve_all_lem r stack [] h = unfold drop_blank in sym (append-nil _)
resolve_all_lem r stack (seg ∷ segs) (ne, h) =
    resolve_all_lem r (resolve r stack seg) segs h ∙ resolve_step r stack seg segs ne

pub segments_lem :
    (p : Bytes) → All (λ s. s ≢ dotdot) (split slash p) → segments p ≡ drop_blank (split slash p)
unfolding segments
segments_lem p h = resolve_all_lem (is_abs p) [] (split slash p) h

IsSegment-ne-dotdot : (segs : List Bytes) → All IsSegment segs → All (λ s. s ≢ dotdot) segs
IsSegment-ne-dotdot [] h = tt
IsSegment-ne-dotdot (s ∷ segs) ((p, _), h) = (p.2, IsSegment-ne-dotdot segs h)

IsSegment-IsPlain : (segs : List Bytes) → All IsSegment segs → All IsPlain segs
IsSegment-IsPlain [] h = tt
IsSegment-IsPlain (s ∷ segs) ((p, _), h) = (p, IsSegment-IsPlain segs h)

IsSegment-NoByte : (segs : List Bytes) → All IsSegment segs → All (NoByte slash) segs
IsSegment-NoByte [] h = tt
IsSegment-NoByte (s ∷ segs) ((_, n), h) = (n, IsSegment-NoByte segs h)

pub render_rooted : (segs : List Bytes) → render true segs ≡ slash ∷ join slash segs
unfolding render or_dot
render_rooted segs = refl

pub split-render :
    (seg : Bytes) (segs : List Bytes)
    → All IsSegment (seg ∷ segs)
    → split slash (render true (seg ∷ segs)) ≡ [] ∷ seg ∷ segs
split-render seg segs h =
    rw (render_rooted (seg ∷ segs), split_here slash slash (join slash (seg ∷ segs)) refl)
      (ap (◌∷◌ []) (split-join slash seg segs (IsSegment-NoByte (seg ∷ segs) h)))

-- A rooted path rendered from segments has those segments.
pub segments-render : (segs : List Bytes) → All IsSegment segs → segments (render true segs) ≡ segs
segments-render [] h = unfold render or_dot join segments split resolve_all is_abs resolve in refl
segments-render (seg ∷ segs) h =
    let e = split-render seg segs h in
    segments (render true (seg ∷ segs))
    ≡⟨ segments_lem _ (rw e ((λ q. cc), IsSegment-ne-dotdot (seg ∷ segs) h)) ⟩
      drop_blank (split slash (render true (seg ∷ segs)))
    ≡⟨ (rw e (unfold drop_blank in refl)) ⟩ drop_blank (seg ∷ segs)
    ≡⟨ drop_blank_of_IsPlain (seg ∷ segs) (IsSegment-IsPlain (seg ∷ segs) h) ⟩ seg ∷ segs ∎

-- A path that can be sent to a server: rooted, and without "..".
pub record IsRooted (p : Bytes) : Type 0 where
  pub absolute : is_abs p ≡ true
  pub no_parent : All (λ s. s ≢ dotdot) (split slash p)

pub segments-IsSegment : {p : Bytes} → IsRooted p → All IsSegment (segments p)
segments-IsSegment {p} h =
    rw (segments_lem p h.no_parent)
      (drop_blank-IsSegment (split slash p) h.no_parent (split-NoByte slash p))

pub clean_rooted : {p : Bytes} → IsRooted p → clean p ≡ render true (segments p)
unfolding clean
clean_rooted h = rw (h.absolute)

pub render-IsRooted : (segs : List Bytes) → All IsSegment segs → IsRooted (render true segs)
render-IsRooted [] h = record {
  absolute = unfold render or_dot is_abs in refl;
  no_parent = unfold render or_dot join split in ((λ q. cc), ((λ q. cc), tt));
}
render-IsRooted (seg ∷ segs) h = record {
  absolute = rw (render_rooted (seg ∷ segs)) (unfold is_abs in refl);
  no_parent = rw (split-render seg segs h) ((λ q. cc), IsSegment-ne-dotdot (seg ∷ segs) h);
}

-- Cleaning keeps a rooted path rooted, and its segments.
pub clean-IsRooted : {p : Bytes} → IsRooted p → IsRooted (clean p)
clean-IsRooted h = rw (clean_rooted h) (render-IsRooted _ (segments-IsSegment h))

pub segments-clean : {p : Bytes} → IsRooted p → segments (clean p) ≡ segments p
segments-clean h = rw (clean_rooted h) (segments-render _ (segments-IsSegment h))

is_abs-append : (p q : Bytes) → is_abs p ≡ true → is_abs (p ++ q) ≡ true
unfolding is_abs
is_abs-append [] q h = cc
is_abs-append (c ∷ p) q h = h

pub append-IsRooted :
    (p q : Bytes) → IsRooted p → All (λ s. s ≢ dotdot) (split slash q) → IsRooted (p ++ (slash ∷ q))
append-IsRooted p q h k = record {
  absolute = is_abs-append p (slash ∷ q) h.absolute;
  no_parent =
      rw (split-append slash p q) (All-append _ (split slash p) (split slash q) h.no_parent k);
}

pub segments-append :
    (p q : Bytes)
    → IsRooted p
    → All (λ s. s ≢ dotdot) (split slash q)
    → segments (p ++ (slash ∷ q)) ≡ segments p ++ drop_blank (split slash q)
segments-append p q h k =
    segments_lem _ (append-IsRooted p q h k).no_parent
    ∙ ap drop_blank (split-append slash p q)
    ∙ drop_blank-append (split slash p) (split slash q)
    ∙ ap (λ l. l ++ drop_blank (split slash q)) (sym (segments_lem p h.no_parent))

-- path.Join of a rooted path and a relative one without "..".
pub path_join_lem :
    (p q : Bytes)
    → IsRooted p
    → q ≢ []
    → All (λ s. s ≢ dotdot) (split slash q)
    → path_join p q ≡ render true (segments p ++ drop_blank (split slash q))
path_join_lem [] q h ne k = absurd (no h.absolute)
  where
    no : is_abs [] ≡ true → ⊥
    no = unfold is_abs in λ e. cc
path_join_lem (c ∷ p) [] h ne k = absurd (ne refl)
path_join_lem (c ∷ p) (d ∷ q) h ne k =
    unfold path_join in
    (clean_rooted (append-IsRooted (c ∷ p) (d ∷ q) h k)
      ∙ ap (render true) (segments-append (c ∷ p) (d ∷ q) h k))
