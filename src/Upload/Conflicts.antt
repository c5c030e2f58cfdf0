-- ===== src/Upload/Conflicts.antt =====
-- backend/internal/api/upload_conflict.go: UploadCheck and uniqueName, from the point at which the
-- request is decoded and the transfer lock is held, on a session with a client.
use goblin_ftp.Base.{
  ℕ, zero, suc, Bool, false, not, List, [], ◌∷◌, ◌++◌, map, Bytes, bytes_has_eq, ltb, if◌then◌else◌,
  Option, none, some, ◌⊎◌, inl, inr, length, codes, nat_eq,
}
use goblin_ftp.Base.Ints.{ℤ}
use goblin_ftp.Base.Map.{Map, lookup, insert}
use goblin_ftp.Base.Sets.{member}
use goblin_ftp.Text.{clean, path_dir, path_base}
use goblin_ftp.Text.Decimal.{itoa}
use goblin_ftp.Errors.{Code}
use goblin_ftp.Errors.Chain.{Sentinel, is}
use goblin_ftp.Paths.{valid_path, windows_paths}
use goblin_ftp.Remote.{FileInfo, Client, Conn, fail_conn}

abbrev pub max_upload_check_paths : ℕ
max_upload_check_paths = 10000

pub record Conflict : Type 0 where
  pub path : Bytes
  pub name : Bytes
  pub suggested_name : Bytes
  pub size : ℤ
  pub is_dir : Bool
  pub modified : ℤ

-- What stands before the last `sep`, and what begins with it.
unfoldable pub split_last : ℕ → Bytes → Option (Bytes × Bytes)
split_last sep [] = none
split_last sep (c ∷ s) = elim (split_last sep s) [
  | some (a, b) ↦ some (c ∷ a, b)
  | none ↦ if nat_eq c sep then some ([], c ∷ s) else none
]

-- A dot at the start begins the name, not an extension.
unfoldable pub split_extension : Bytes → Bytes × Bytes
split_extension name = elim (split_last b'.' name) [
  | none ↦ (name, [])
  | some (base, ext) ↦ (elim base [ [] ↦ (name, []) | c ∷ s ↦ (c ∷ s, ext) ])
]

unfoldable pub candidate : Bytes → Bytes → ℕ → Bytes
candidate base ext i = base ++ (codes " (" ++ (itoa i ++ (b')' ∷ ext)))

-- Names of one directory, compared without case where the protocol folds it.
module _ (to_lower : Bytes → Bytes) where
  unfoldable pub key_of : Bool → Bytes → Bytes
  key_of folds name = if folds then to_lower name else name

  -- The loop tries the candidates from `i` on. Where the fuel is gone it gives the next one; more
  -- fuel than there are names taken is enough.
  unfoldable pub unique_loop : ℕ → Bool → List Bytes → Bytes → Bytes → ℕ → Bytes
  unique_loop zero folds taken base ext i = candidate base ext i
  unique_loop (suc fuel) folds taken base ext i =
      let rest = unique_loop fuel folds taken base ext (suc i) in
      if member (key_of folds (candidate base ext i)) taken then rest else candidate base ext i

  unfoldable pub unique_name : Bytes → List Bytes → Bool → Bytes
  unique_name name taken folds =
      let (base, ext) = split_extension name in
      if member (key_of folds name) taken
      then unique_loop (suc (length taken)) folds taken base ext 1
      else name

  -- The parents in the order in which they are first seen, and the paths below each.
  unfoldable pub group_paths :
      Option Bytes
      → List Bytes
      → List Bytes
      → Map Bytes (List Bytes)
      → Option (List Bytes × Map Bytes (List Bytes))
  group_paths protocol [] order by_dir = some (order, by_dir)
  group_paths protocol (p ∷ ps) order by_dir =
      let cleaned = clean p in
      let dir = path_dir cleaned in
      if not (valid_path protocol p false) then none else (elim (lookup dir by_dir) [
        | none ↦ group_paths protocol ps (order ++ (dir ∷ [])) (insert dir (cleaned ∷ []) by_dir)
        | some paths ↦ group_paths protocol ps order (insert dir (paths ++ (cleaned ∷ [])) by_dir)
      ])

  unfoldable pub index_entries : Bool → List FileInfo → Map Bytes FileInfo → Map Bytes FileInfo
  index_entries folds [] existing = existing
  index_entries folds (info ∷ entries) existing =
      index_entries folds entries (insert (key_of folds info.name) info existing)

  -- The names that the directory has, and those that the batch writes into it.
  unfoldable pub taken_names : Bool → List FileInfo → List Bytes → List Bytes
  taken_names folds entries paths =
      map (λ info. key_of folds info.name) entries ++ map (λ p. key_of folds (path_base p)) paths

  unfoldable pub find_conflicts :
      Bool → Map Bytes FileInfo → List Bytes → List Bytes → List Conflict
  find_conflicts folds existing taken [] = []
  find_conflicts folds existing taken (p ∷ paths) =
      let name = path_base p in
      let suggested = unique_name name taken folds in
      elim (lookup (key_of folds name) existing) [
        | none ↦ find_conflicts folds existing taken paths
        | some info ↦
            record {
              path = p;
              name = name;
              suggested_name = suggested;
              size = info.size;
              is_dir = info.is_dir;
              modified = info.mod_time;
            }
            ∷ find_conflicts folds existing (key_of folds suggested ∷ taken) paths
      ]

  unfoldable pub paths_in : Bytes → Map Bytes (List Bytes) → List Bytes
  paths_in dir by_dir = elim (lookup dir by_dir) [ none ↦ [] | some paths ↦ paths ]

  unfoldable pub directory_conflicts : Bool → List FileInfo → List Bytes → List Conflict
  directory_conflicts folds entries paths =
      find_conflicts folds (index_entries folds entries []) (taken_names folds entries paths) paths

module _ (to_lower : Bytes → Bytes) {R : Type 0} (client : Client R) where
  -- A directory that is not there has no conflicts; any other failure ends the check.
  unfoldable pub check_directories :
      Bool
      → Conn R
      → List Bytes
      → Map Bytes (List Bytes)
      → List Conflict
      → Conn R × (Code ⊎ List Conflict)
  check_directories folds w [] by_dir conflicts = (w, inr conflicts)
  check_directories folds w (dir ∷ order) by_dir conflicts =
      let (remote, listed) = client.list w.remote dir in
      let listed_conn = record w { remote = remote } in
      elim listed [
        | inl err ↦
            if is err Sentinel.not_found
            then check_directories folds listed_conn order by_dir conflicts
            else fail_conn to_lower listed_conn Code.list_failed err
        | inr entries ↦
            check_directories folds listed_conn order by_dir (
              conflicts
              ++ directory_conflicts to_lower folds entries (paths_in to_lower dir by_dir))
      ]

  unfoldable pub upload_check : Option Bytes → Conn R → List Bytes → Conn R × (Code ⊎ List Conflict)
  upload_check protocol w [] = (w, inl Code.bad_request)
  upload_check protocol w (p ∷ paths) =
      if ltb max_upload_check_paths (length (p ∷ paths))
      then (w, inl Code.bad_request)
      else (elim (group_paths to_lower protocol (p ∷ paths) [] []) [
        | none ↦ (w, inl Code.bad_request)
        | some (order, by_dir) ↦ check_directories (windows_paths protocol) w order by_dir []
      ])
