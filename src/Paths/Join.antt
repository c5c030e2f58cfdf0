-- ===== src/Paths/Join.antt =====
-- Names joined to a directory: archive entries (safeJoin) and directory entries (ValidateChildName)
-- end up below it, one level for each part of the name.
use goblin_ftp.Base.{
  ◌≡◌, ap, sym, subst, ◌∙◌, ◌≢◌, ◌≤◌, Bool, true, false, List, [], ◌∷◌, ◌++◌, Bytes, bytes_has_eq,
  bytes_eq_iff, none, length, All, All-append, arith,
}
use goblin_ftp.Text.{
  slash, dotdot, dot, split, contains, contains_any, clean, segments, render, path_join,
}
use goblin_ftp.Text.Split.{NoByte, split-NoByte, split_of_NoByte}
use goblin_ftp.Text.Clean.{
  IsSegment, IsRooted, drop_blank, drop_blank-IsSegment, segments-IsSegment, segments-render,
  clean_rooted, path_join_lem, render-IsRooted, drop_blank_of_IsPlain,
}
use goblin_ftp.Paths.{
  separators, validate_child_name, validate_remote_path, joined, any_dotdot, safe_join,
}
use goblin_ftp.Paths.Validate.{validate_remote_path-IsRooted}

-- A path whose segments are those of the directory, followed by more.
abbrev pub IsBelow : Bytes → Bytes → Type 0
IsBelow destination p =
    (rest : List Bytes) × ((segments p ≡ segments destination ++ rest) × All IsSegment rest)

any_dotdot_lem : (segs : List Bytes) → any_dotdot segs ≡ false → All (λ s. s ≢ dotdot) segs
unfolding any_dotdot
any_dotdot_lem [] h = tt
any_dotdot_lem (s ∷ segs) h =
    (ground (arith, bytes_eq_iff s dotdot), any_dotdot_lem segs (ground arith))

record Entered (destination name out : Bytes) : Type 0 where
  named : name ≢ []
  short : length (split slash name) ≤ 64
  no_parent : any_dotdot (split slash name) ≡ false
  same : out ≡ clean (path_join destination name)

safe_join-Entered :
    (destination name out : Bytes)
    → safe_join destination name ≡ joined out
    → Entered destination name out
unfolding safe_join
safe_join-Entered destination name out h = ground (arith, bytes_eq_iff name [])

module _ (destination name out : Bytes) (rooted : IsRooted destination) where
  clean_join :
      name ≢ []
      → All (λ s. s ≢ dotdot) (split slash name)
      → clean (path_join destination name)
        ≡ render true (segments destination ++ drop_blank (split slash name))
  clean_join named no_parent =
      let inside =
        All-append IsSegment _ _ (segments-IsSegment rooted)
          (drop_blank-IsSegment (split slash name) no_parent (split-NoByte slash name)) in
      rw (path_join_lem destination name rooted named no_parent)
        (clean_rooted (render-IsRooted _ inside) ∙ ap (render true) (segments-render _ inside))

  -- An archive entry is written at the destination's own segments followed by those of its name
  -- that are not blank: never above the destination or beside it.
  pub safe_join-within :
      safe_join destination name ≡ joined out
      → (out ≡ render true (segments destination ++ drop_blank (split slash name)))
        × (segments out ≡ segments destination ++ drop_blank (split slash name))
        × All IsSegment (drop_blank (split slash name))
        × (length (split slash name) ≤ 64)
  safe_join-within h =
      let e = safe_join-Entered destination name out h in
      let no_parent = any_dotdot_lem (split slash name) e.no_parent in
      let below = drop_blank-IsSegment (split slash name) no_parent (split-NoByte slash name) in
      let at = e.same ∙ clean_join e.named no_parent in
      (
        at,
        ap segments at
            ∙ segments-render _ (All-append IsSegment _ _ (segments-IsSegment rooted) below),
        below,
        e.short,
      )

record Named (name : Bytes) (windows : Bool) : Type 0 where
  not_empty : name ≢ []
  not_dot : name ≢ dot
  not_dotdot : name ≢ dotdot
  no_separator : contains_any (separators windows) name ≡ false

validate_child_name-Named :
    (name : Bytes) (windows : Bool) → validate_child_name name windows ≡ none → Named name windows
unfolding validate_child_name
validate_child_name-Named name windows h =
    ground (arith, bytes_eq_iff name [], bytes_eq_iff name dot, bytes_eq_iff name dotdot)

no_slash :
    (windows : Bool) (s : Bytes) → contains_any (separators windows) s ≡ false → NoByte slash s
unfolding contains_any contains
no_slash windows [] h = tt
no_slash true (c ∷ s) h = (ground arith, no_slash true s (ground arith))
no_slash false (c ∷ s) h = (ground arith, no_slash false s (ground arith))

pub validate_child_name-IsSegment :
    (name : Bytes) (windows : Bool) → validate_child_name name windows ≡ none → IsSegment name
validate_child_name-IsSegment name windows h =
    let n = validate_child_name-Named name windows h in
    ((n.not_empty, n.not_dot, n.not_dotdot), no_slash windows name n.no_separator)

-- The entry of a rooted directory, under an accepted name.
pub child_of :
    (p name : Bytes) (windows : Bool)
    → IsRooted p
    → validate_child_name name windows ≡ none
    → (segments (path_join p name) ≡ segments p ++ name ∷ [])
      × (IsSegment name × IsRooted (path_join p name))
child_of p name windows rooted hn =
    let (plain, no_byte) = validate_child_name-IsSegment name windows hn in
    let one = split_of_NoByte slash name no_byte in
    let joined = path_join_lem p name rooted plain.0 (rw one (plain.2, tt)) in
    let below = All-append IsSegment _ _ (segments-IsSegment rooted) ((plain, no_byte), tt) in
    let at =
      joined
      ∙ ap (λ l. render true (segments p ++ l))
          (ap drop_blank one ∙ drop_blank_of_IsPlain (name ∷ []) (plain, tt)) in
    (
      ap segments at ∙ segments-render _ below,
      ((plain, no_byte), subst IsRooted (sym at) (render-IsRooted _ below)),
    )

-- Joining an accepted entry name to an accepted directory goes down by exactly one segment, which
-- is that name.
pub path_join-child :
    (p name : Bytes) (windows windows' root : Bool)
    → validate_remote_path p windows root ≡ none
    → validate_child_name name windows' ≡ none
    → segments (path_join p name) ≡ segments p ++ name ∷ []
path_join-child p name windows windows' root hp hn =
    (child_of p name windows' (validate_remote_path-IsRooted p windows root hp) hn).0
