-- ===== src/Paths/Tests.antt =====
-- Runs of the path functions, and the theorems of the siblings at concrete inputs.
use goblin_ftp.Base.{
  ℕ, ◌+◌, ◌≡◌, ◌≢◌, refl, true, false, ◌&&◌, [], ◌∷◌, Bytes, codes, leb, none, some, All,
  if◌then◌else◌, map, ◌⊎◌, ◌≤◌,
}
use goblin_ftp.Text.{
  split, join, clean, is_abs, segments, path_join, path_dir, path_base, contains, contains_any,
  contains_control, has_prefix, trim_right, replace_all, parent, resolve, resolve_all, or_dot,
  render, up_to_slash, after_slash, or_slash,
}
use goblin_ftp.Text.Clean.{IsRooted, IsSegment, drop_blank}
use goblin_ftp.Paths.{
  ambiguous_segment, windows_style, remote_root, validate_remote_path, validate_child_name,
  paths_overlap, comparison_path, invalid_entry, safe_join, escapes, has_drive_prefix, is_ambiguous,
  any_ambiguous, any_dotdot, trim_slash, same_parent,
}
use goblin_ftp.Paths.Validate.{validate_remote_path_sound, validate_remote_path-IsRooted}
use goblin_ftp.Paths.Join.{safe_join-within}

text : Unit {0}
unfolding split join clean is_abs segments path_join path_dir path_base contains contains_any
    contains_control has_prefix trim_right replace_all parent resolve resolve_all or_dot render
    up_to_slash after_slash or_slash drop_blank
text = tt

paths : Unit {0}
unfolding text validate_remote_path validate_child_name paths_overlap comparison_path safe_join
    has_drive_prefix is_ambiguous any_ambiguous any_dotdot trim_slash same_parent
paths = tt

clean_tests :
    (clean (codes "/a//b/./../c/") ≡ codes "/a/c")
    × (clean (codes "../x/..") ≡ codes "..")
    × (clean (codes "") ≡ codes ".")
    × (clean (codes "/..") ≡ codes "/")
    × (path_dir (codes "/a/b") ≡ codes "/a")
    × (path_dir (codes "/a") ≡ codes "/")
    × (path_base (codes "/a/b//") ≡ codes "b")
    × (path_base (codes "//") ≡ codes "/")
unfolding text
clean_tests = (refl, refl, refl, refl, refl, refl, refl, refl)

validate_tests :
    (validate_remote_path (codes "/a/../b") true false ≡ some ambiguous_segment)
    × (validate_remote_path (codes "/a /b") true false ≡ some ambiguous_segment)
    × (validate_remote_path (codes "/a /b") false false ≡ none)
    × (validate_remote_path (codes "/a\\b") true false ≡ some windows_style)
    × (validate_remote_path (codes "/") true false ≡ some remote_root)
    × (validate_child_name (codes "a:b") true ≡ some invalid_entry)
    × (validate_child_name (codes "a:b") false ≡ none)
    × (safe_join (codes "/www") (codes "../etc") ≡ escapes)
    × (safe_join (codes "/www") (codes "c:x") ≡ escapes)
unfolding paths
validate_tests = (refl, refl, refl, refl, refl, refl, refl, refl, refl)

lower_byte : ℕ → ℕ
lower_byte c = if leb b'A' c && leb c b'Z' then c + 32 else c

-- strings.ToLower on ASCII text.
ascii_lower : Bytes → Bytes
ascii_lower = map lower_byte

validate_remote_path_sound_example :
    (clean (codes "/a//b") ≡ codes "/a/b")
    × All IsSegment (codes "a" ∷ codes "b" ∷ [])
    × (2 ≤ 65)
    × ((false ≡ true) ⊎ (codes "a" ∷ codes "b" ∷ [] ≢ []))
unfolding paths
validate_remote_path_sound_example = validate_remote_path_sound (codes "/a//b") true false refl

www : IsRooted (codes "/www")
unfolding paths
www = validate_remote_path-IsRooted (codes "/www") true true refl

safe_join-within_example :
    (codes "/www/a/b" ≡ codes "/www/a/b")
    × (segments (codes "/www/a/b") ≡ codes "www" ∷ codes "a" ∷ codes "b" ∷ [])
    × All IsSegment (codes "a" ∷ codes "b" ∷ [])
    × (3 ≤ 64)
unfolding paths
safe_join-within_example =
    safe_join-within (codes "/www") (codes "a/./b") (codes "/www/a/b") www refl
