-- ===== src/Paths/Validate.antt =====
-- What an accepted remote path looks like (ValidateRemotePath).
use goblin_ftp.Base.{
  ◌⊎◌, inl, inr, Bool-cases, ◌≡◌, refl, ap, ◌∙◌, ◌≢◌, ◌≤◌, Bool, true, false, not, ◌&&◌, List, [],
  ◌∷◌, Bytes, ◌==◌, bytes_has_eq, bytes_eq_iff, none, length, All, arith, nat_eq_iff,
}
use goblin_ftp.Text.{
  slash, dotdot, split, join, contains, contains_control, is_abs, clean, segments, render,
}
use goblin_ftp.Text.Clean.{
  IsSegment, IsRooted, drop_blank, segments_lem, length-drop_blank, segments-IsSegment,
  clean_rooted, render_rooted,
}
use goblin_ftp.Text.Split.{split_here}
use goblin_ftp.Paths.{backslash, is_ambiguous, any_ambiguous, validate_remote_path}

any_ambiguous-ne-dotdot :
    (windows : Bool) (segs : List Bytes)
    → any_ambiguous windows segs ≡ false
    → All (λ s. s ≢ dotdot) segs
unfolding any_ambiguous is_ambiguous
any_ambiguous-ne-dotdot windows [] h = tt
any_ambiguous-ne-dotdot windows (s ∷ segs) h =
    (ground (arith, bytes_eq_iff s dotdot), any_ambiguous-ne-dotdot windows segs (ground arith))

-- The outcome of every test on an accepted path.
pub record Passed (p : Bytes) (windows allow_root : Bool) : Type 0 where
  pub no_control : contains_control p ≡ false
  pub no_backslash : (windows && contains backslash p) ≡ false
  pub absolute : is_abs p ≡ true
  pub short : length (split slash p) ≤ 66
  pub unambiguous : any_ambiguous windows (split slash p) ≡ false
  pub below_root : (not allow_root && clean p == slash ∷ []) ≡ false

pub validate_remote_path-Passed :
    (p : Bytes) (windows allow_root : Bool)
    → validate_remote_path p windows allow_root ≡ none
    → Passed p windows allow_root
unfolding validate_remote_path
validate_remote_path-Passed p windows allow_root h = ground arith

pub Passed-IsRooted :
    {p : Bytes} {windows allow_root : Bool} → Passed p windows allow_root → IsRooted p
Passed-IsRooted {windows} t = record {
  absolute = t.absolute;
  no_parent = any_ambiguous-ne-dotdot windows _ t.unambiguous;
}

pub validate_remote_path-IsRooted :
    (p : Bytes) (windows allow_root : Bool)
    → validate_remote_path p windows allow_root ≡ none
    → IsRooted p
validate_remote_path-IsRooted p windows allow_root h =
    Passed-IsRooted (validate_remote_path-Passed p windows allow_root h)

ne-root :
    (p : Bytes) (allow_root : Bool)
    → IsRooted p
    → (not allow_root && clean p == slash ∷ []) ≡ false
    → allow_root ≡ false
    → segments p ≢ []
ne-root p allow_root h e r = λ s.
    let root : clean p ≡ slash ∷ [] =
      clean_rooted h ∙ ap (render true) s ∙ render_rooted [] ∙ (unfold join in refl) in
    ground (arith, root, bytes_eq_iff (clean p) (slash ∷ []))

-- The part before the leading slash is blank.
entries-le :
    (p : Bytes)
    → is_abs p ≡ true
    → length (split slash p) ≤ 66
    → length (drop_blank (split slash p)) ≤ 65
unfolding is_abs
entries-le [] a h = cc
entries-le (c ∷ s) a h =
    let e = split_here slash c s ((nat_eq_iff c slash).0 a) in rw e (rest (rw e at h))
  where
    rest : length ([] ∷ split slash s) ≤ 66 → length (drop_blank ([] ∷ split slash s)) ≤ 65
    rest k = unfold drop_blank in omega (arith, length-drop_blank (split slash s))

-- Cleaning an accepted path only takes its blank segments out: what is left are names of directory
-- entries, never "." or "..", at most 65 of them, and at least one where the root is refused.
pub validate_remote_path_sound :
    (p : Bytes) (windows allow_root : Bool)
    → validate_remote_path p windows allow_root ≡ none
    → (clean p ≡ slash ∷ join slash (drop_blank (split slash p)))
      × All IsSegment (drop_blank (split slash p))
      × (length (drop_blank (split slash p)) ≤ 65)
      × ((allow_root ≡ true) ⊎ (drop_blank (split slash p) ≢ []))
validate_remote_path_sound p windows allow_root h =
    let t = validate_remote_path-Passed p windows allow_root h in
    let rooted = Passed-IsRooted t in
    let e = segments_lem p rooted.no_parent in
    (
      clean_rooted rooted ∙ ap (render true) e ∙ render_rooted (drop_blank (split slash p)),
      rw (← e) (segments-IsSegment rooted),
      entries-le p rooted.absolute t.short,
      elim (Bool-cases allow_root) [
        | inl r ↦ inl r
        | inr r ↦ inr (rw (← e) (ne-root p allow_root rooted t.below_root r))
      ],
    )
