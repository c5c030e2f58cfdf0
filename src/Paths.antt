-- ===== src/Paths.antt =====
-- backend/internal/transfer/paths.go, backend/internal/api/paths.go, and safeJoin of
-- backend/internal/api/archive.go: which remote paths and entry names are accepted.
-- `strings.ToLower` knows the tables of Unicode; it is the parameter `to_lower`.
pub mod Validate
pub mod Overlap
pub mod Join
mod Tests
use goblin_ftp.Base.{
  ℕ, suc, ◌-◌, Bool, true, false, not, ◌&&◌, ◌||◌, List, [], ◌∷◌, ◌++◌, Bytes, codes, ltb, leb,
  nat_eq, ◌==◌, bytes_has_eq, if◌then◌else◌, Option, none, some, map, length, zero,
}
use goblin_ftp.Text.{
  slash, dot, dotdot, split, join, contains, contains_any, contains_control, has_prefix, trim_right,
  replace_all, is_abs, clean, path_dir, path_join,
}

abbrev pub backslash : ℕ
backslash = 0x5c

-- " .": what Windows drops at the end of a name.
abbrev pub windows_tail : Bytes
windows_tail = b' ' ∷ b'.' ∷ []

-- The refusals, one for each message; all of them wrap transfer.ErrInvalidType.
pub data PathError : Type 0 where
  invalid_path windows_style not_absolute too_many_segments : PathError
  ambiguous_segment remote_root invalid_entry : PathError

unfoldable pub has_drive_prefix : Bytes → Bool
has_drive_prefix [] = false
has_drive_prefix (a ∷ []) = false
has_drive_prefix (a ∷ b ∷ p) =
    nat_eq b b':' && ((leb b'A' a && leb a b'Z') || (leb b'a' a && leb a b'z'))

-- One round of the loop over the segments.
unfoldable pub is_ambiguous : Bool → Bytes → Bool
unfolding has_drive_prefix
is_ambiguous windows seg =
    seg == dotdot
    || seg == dot
    || (windows && has_drive_prefix seg)
    || (windows && not (seg == []) && not (trim_right windows_tail seg == seg))

unfoldable pub any_ambiguous : Bool → List Bytes → Bool
any_ambiguous windows [] = false
any_ambiguous windows (seg ∷ segs) = is_ambiguous windows seg || any_ambiguous windows segs

-- `none` is the nil error.
unfoldable pub validate_remote_path : Bytes → Bool → Bool → Option PathError
validate_remote_path p windows allow_root =
    if p == []
      || contains_control p
      || has_prefix (slash ∷ slash ∷ []) p
      || has_prefix (backslash ∷ backslash ∷ []) p
    then some invalid_path
    else if windows && contains backslash p
    then some windows_style
    else if not (is_abs p)
    then some not_absolute
    else if ltb 66 (length (split slash p))
    then some too_many_segments
    else if any_ambiguous windows (split slash p)
    then some ambiguous_segment
    else if not allow_root && clean p == slash ∷ []
    then some remote_root
    else none

unfoldable pub clean_delete_path : Bytes → Bytes × Option PathError
clean_delete_path p = (p, validate_remote_path p true false)

abbrev pub separators : Bool → Bytes
separators windows =
    if windows then slash ∷ 0 ∷ 13 ∷ 10 ∷ backslash ∷ [] else slash ∷ 0 ∷ 13 ∷ 10 ∷ []

unfoldable pub validate_child_name : Bytes → Bool → Option PathError
validate_child_name name windows =
    if contains_control name
      || name == []
      || name == dot
      || name == dotdot
      || contains_any (separators windows) name
      || (windows && (not (trim_right windows_tail name == name) || contains b':' name))
    then some invalid_entry
    else none

module _ (to_lower : Bytes → Bytes) where
  unfoldable pub comparison_path : Bytes → Bool → Bytes
  comparison_path p windows =
      if windows
      then clean (
          to_lower (
            join slash
              (map (trim_right windows_tail) (split slash (replace_all backslash slash p)))))
      else clean p

  unfoldable pub paths_overlap : Bytes → Bytes → Bool → Bool
  paths_overlap src dst windows =
      let a = comparison_path src windows in
      let b = comparison_path dst windows in
      a == b || has_prefix (trim_right (slash ∷ []) a ++ (slash ∷ [])) b

  unfoldable pub same_parent : Bool → Bytes → Bytes → Bool
  same_parent windows a b =
      path_dir (comparison_path a windows) == path_dir (comparison_path b windows)

-- The session's protocol, if there is a session.
unfoldable pub windows_paths : Option Bytes → Bool
windows_paths none = true
windows_paths (some protocol) = not (protocol == codes "sftp")

unfoldable pub valid_path : Option Bytes → Bytes → Bool → Bool
valid_path protocol p root = elim (validate_remote_path p (windows_paths protocol) root) [
  | none ↦ true
  | some e ↦ false
]

-- `true` where the connection is accepted, else ERR_UNSUPPORTED_SERVER.
unfoldable pub validate_server_directory : Bytes → Bytes → Bool
validate_server_directory directory protocol =
    elim (validate_remote_path directory (not (protocol == codes "sftp")) true) [
      | none ↦ true
      | some e ↦ false
    ]

pub data JoinResult : Type 0 where
  joined : Bytes → JoinResult
  escapes : JoinResult

unfoldable pub any_dotdot : List Bytes → Bool
any_dotdot [] = false
any_dotdot (seg ∷ segs) = seg == dotdot || any_dotdot segs

-- strings.TrimSuffix(s, "/")
unfoldable pub trim_slash : Bytes → Bytes
trim_slash [] = []
trim_slash (c ∷ []) = if nat_eq c slash then [] else c ∷ []
trim_slash (c ∷ d ∷ s) = c ∷ trim_slash (d ∷ s)

unfoldable pub safe_join : Bytes → Bytes → JoinResult
safe_join destination name =
    if name == []
      || is_abs name
      || contains_any (backslash ∷ 0 ∷ 13 ∷ 10 ∷ []) name
      || has_drive_prefix name
    then escapes
    else if ltb 64 (length (split slash name))
    then escapes
    else if any_dotdot (split slash name)
    then escapes
    else let out_path = clean (path_join destination name) in
      let clean_dest = clean destination in
      let prefix = trim_slash clean_dest ++ (slash ∷ []) in
      if not (out_path == clean_dest) && not (has_prefix prefix out_path)
      then escapes
      else joined out_path
