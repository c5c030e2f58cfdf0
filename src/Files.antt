-- ===== src/Files.antt =====
-- backend/internal/api/files.go: the handlers that list, create, delete, rename, copy and change
-- files, from the point at which the request is decoded and the transfer lock is held, on a session
-- with a client. Of a fixed response only the code is kept.
pub mod Tree
pub mod Delete
pub mod Copy
mod Tests
use goblin_ftp.Base.{
  ℕ, zero, suc, ◌-◌, Bool, true, false, not, ◌&&◌, ◌||◌, List, [], ◌∷◌, ◌++◌, Bytes, bytes_has_eq,
  ◌==◌, if◌then◌else◌, Option, none, some, ◌⊎◌, inl, inr, codes,
}
use goblin_ftp.Text.{slash, path_join}
use goblin_ftp.Errors.{Code}
use goblin_ftp.Errors.Chain.{Sentinel, GoError, sentinel, other, pair, wrap, is, sentinel_text}
use goblin_ftp.Errors.Classify.{classify, is_conn_lost}
use goblin_ftp.Paths.{
  PathError, validate_remote_path, validate_child_name, valid_path, windows_paths, paths_overlap,
}
use goblin_ftp.Remote.{
  FileInfo, StatResult, found, failed, Reader, Client, Conn, fail_conn, ensure_dir_all,
}
use goblin_ftp.Files.Tree.{Host, copy_tree}

pub record DeleteResult : Type 0 where
  pub deleted : List Bytes
  pub failures : List (Bytes × (Code × Bytes))

unfoldable pub all_valid : Bool → List Bytes → Bool
all_valid windows [] = true
all_valid windows (p ∷ paths) = elim (validate_remote_path p windows false) [
  | some e ↦ false
  | none ↦ all_valid windows paths
]

module _ {R : Type 0} (client : Client R) (to_lower : Bytes → Bytes) where
  abbrev pub answer_with : Conn R → Code → R × Option GoError → Conn R × (Code ⊎ Unit {0})
  answer_with w code (r, none) = (record w { remote = r }, inr tt)
  answer_with w code (r, some err) = fail_conn to_lower (record w { remote = r }) code err

  unfoldable pub list_files : Option Bytes → Conn R → Bytes → Conn R × (Code ⊎ List FileInfo)
  list_files protocol w query =
      let p = if query == [] then slash ∷ [] else query in
      let (r, listed) = client.list w.remote p in
      if not (valid_path protocol p true) then (w, inl Code.bad_request) else (elim listed [
        | inl err ↦ fail_conn to_lower (record w { remote = r }) Code.list_failed err
        | inr entries ↦ (record w { remote = r }, inr entries)
      ])

  unfoldable pub create_directory : Option Bytes → Conn R → Bytes → Conn R × (Code ⊎ Unit {0})
  create_directory protocol w p =
      if p == [] || not (valid_path protocol p false)
      then (w, inl Code.bad_request)
      else answer_with w Code.operation_failed (ensure_dir_all client w.remote p)

  -- The loop of DeleteFiles; what it returns early is the error of a lost connection.
  unfoldable pub delete_each : R → DeleteResult → List Bytes → R × (GoError ⊎ DeleteResult)
  delete_each r result [] = (r, inr result)
  delete_each r result (p ∷ paths) =
      let (r1, failure) = client.delete r p in
      elim failure [
        | none ↦ delete_each r1 (record result { deleted = result.deleted ++ (p ∷ []) }) paths
        | some err ↦
            let rest =
              delete_each r1
                (record result {
                  failures = result.failures ++ ((p, classify to_lower (some err)) ∷ []);
                })
                paths in
            if is_conn_lost (some err) then (r1, inl err) else rest
      ]

  unfoldable pub delete_files : Option Bytes → Conn R → List Bytes → Conn R × (Code ⊎ DeleteResult)
  delete_files protocol w [] = (w, inl Code.bad_request)
  delete_files protocol w (p ∷ paths) =
      let (r, outcome) =
        delete_each w.remote (record { deleted = []; failures = [] }) (p ∷ paths) in
      if not (all_valid (windows_paths protocol) (p ∷ paths))
      then (w, inl Code.bad_request)
      else (elim outcome [
        | inl err ↦ fail_conn to_lower (record w { remote = r }) Code.operation_failed err
        | inr result ↦ (record w { remote = r }, inr result)
      ])

  -- The checks that RenameFile and CopyFile share.
  unfoldable pub are_distinct : Option Bytes → Bytes → Bytes → Bool
  are_distinct protocol from to =
      not (from == [] || to == [])
      && valid_path protocol from false
      && valid_path protocol to false
      && not (paths_overlap to_lower from to (windows_paths protocol))

  unfoldable pub rename_file : Option Bytes → Conn R → Bytes → Bytes → Conn R × (Code ⊎ Unit {0})
  rename_file protocol w from to =
      if not (are_distinct protocol from to)
      then (w, inl Code.bad_request)
      else answer_with w Code.operation_failed (client.rename w.remote from to)

  unfoldable pub copy_file_to :
      Host → Option Bytes → Conn R → Bytes → Bytes → Conn R × (Code ⊎ Unit {0})
  copy_file_to host protocol w from to =
      if not (are_distinct protocol from to)
      then (w, inl Code.bad_request)
      else answer_with w Code.operation_failed (copy_tree client host w.remote from to)

  unfoldable pub set_permissions :
      Option Bytes → Conn R → Bytes → Option ℕ → Conn R × (Code ⊎ Unit {0})
  set_permissions protocol w p none = (w, inl Code.bad_request)
  set_permissions protocol w p (some mode) =
      let (r, failure) = client.chmod w.remote p mode in
      let refused = answer_with w Code.operation_failed (r, failure) in
      if p == [] || not (valid_path protocol p false)
      then (w, inl Code.bad_request)
      else (elim failure [
        | none ↦ (record w { remote = r }, inr tt)
        | some err ↦
            if is err Sentinel.permissions_not_supported
            then (record w { remote = r }, inl Code.permissions_not_supported)
            else refused
      ])
