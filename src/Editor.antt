-- ===== src/Editor.antt =====
-- backend/internal/api/editor.go: reading and writing a text file with a version, from the point at
-- which the request is decoded and the transfer lock is held, on a session with a client. The formatted
-- time of the response is left out, strings.EqualFold is an argument.
pub mod Versions
mod Tests
use goblin_ftp.Base.{
  ℕ, suc, Bool, true, false, not, ◌&&◌, ◌||◌, List, [], ◌∷◌, ◌++◌, Bytes, bytes_has_eq, ◌==◌, ltb,
  nat_eq, if◌then◌else◌, Option, none, some, ◌⊎◌, inl, inr, length,
}
use goblin_ftp.Base.Ints.{ℤ}
use goblin_ftp.Text.{slash, contains}
use goblin_ftp.Text.Slice.{take}
use goblin_ftp.Text.Decimal.{format_int}
use goblin_ftp.Errors.{Code}
use goblin_ftp.Errors.Chain.{GoError}
use goblin_ftp.Errors.Classify.{is_conn_lost}
use goblin_ftp.Remote.{FileInfo, StatResult, found, failed, Reader, Client, Conn, fail_conn}

abbrev pub max_read_size : ℕ
max_read_size = 1048576

-- `read_error` and `close_error` are the errors of a failed Read and Close.
pub record Settings : Type 0 where
  pub disabled : Bool
  pub view_only : Bool
  pub allowed_extensions : List Bytes
  pub equal_fold : Bytes → Bytes → Bool
  pub to_lower : Bytes → Bytes
  pub read_error : GoError
  pub close_error : GoError

unfoldable pub any_equal_fold : Settings → List Bytes → Bytes → Bool
any_equal_fold cfg [] ext = false
any_equal_fold cfg (a ∷ allowed) ext = cfg.equal_fold a ext || any_equal_fold cfg allowed ext

unfoldable pub is_editable_extension : Settings → Bytes → Bool
is_editable_extension cfg ext =
    if cfg.disabled then false else any_equal_fold cfg cfg.allowed_extensions ext

-- filepath.Ext: from the last dot of the last element.
unfoldable pub path_ext : Bytes → Bytes
path_ext [] = []
path_ext (c ∷ s) =
    let rest = path_ext s in
    if contains b'.' s || contains slash s then rest else if nat_eq c b'.' then c ∷ s else rest

-- strings.TrimPrefix(ext, ".")
abbrev pub trim_dot : Bytes → Bytes
trim_dot [] = []
trim_dot (c ∷ s) = if nat_eq c b'.' then s else c ∷ s

unfoldable pub file_version : FileInfo → Bytes
file_version fi = format_int fi.size ++ (b':' ∷ format_int fi.mod_time)

-- The version and the size of the response.
abbrev pub FileMeta : Type 0
FileMeta = Option (Bytes × ℤ)

unfoldable pub meta_from : Option FileInfo → FileMeta
meta_from none = none
meta_from (some fi) = some (file_version fi, fi.size)

abbrev pub version_stat : StatResult → GoError ⊎ Option FileInfo
version_stat (found fi) = inr (some fi)
version_stat (failed err) = if is_conn_lost (some err) then inl err else inr none

pub record WriteRequest : Type 0 where
  pub path : Bytes
  pub content : Bytes
  pub expected_version : Option Bytes
  pub overwrite : Bool

-- Whether the save goes on: what the version check says of the Stat before it.
unfoldable pub check_version :
    Bytes → GoError ⊎ Option FileInfo → (Code × Option GoError) ⊎ Unit {0}
check_version expected (inl err) = inl (Code.operation_failed, some err)
check_version expected (inr none) = inl (Code.file_not_found, none)
check_version expected (inr (some fi)) =
    if file_version fi == expected then inr tt else inl (Code.file_modified, none)

module _ {R : Type 0} (client : Client R) (cfg : Settings) where
  unfoldable pub stat_for_version : R → Bytes → R × (GoError ⊎ Option FileInfo)
  stat_for_version r p = let (r1, result) = client.stat r p in (r1, version_stat result)

  abbrev pub fail_edit {ℓ} : {A : Type ℓ} → Conn R → R → Code × Option GoError → Conn R × (Code ⊎ A)
  fail_edit w r (code, none) = (record w { remote = r }, inl code)
  fail_edit w r (code, some err) = fail_conn cfg.to_lower (record w { remote = r }) code err

  -- What the limited reader gives, and the checks of it, in order.
  unfoldable pub read_content : Reader → (Code × Option GoError) ⊎ Bytes
  read_content reader =
      let content = take (suc max_read_size) reader.content in
      if reader.read_failed && not (ltb max_read_size (length content))
      then inl (Code.operation_failed, some cfg.read_error)
      else if ltb max_read_size (length content)
      then inl (Code.file_too_large, none)
      else if reader.close_failed
      then inl (Code.transfer_incomplete, some cfg.close_error)
      else inr content

  unfoldable pub read_versioned :
      Conn R → Bytes → R → GoError ⊎ Option FileInfo → Conn R × (Code ⊎ (Bytes × FileMeta))
  read_versioned w path r (inl err) = fail_edit w r (Code.operation_failed, some err)
  read_versioned w path r (inr info) =
      let (r1, opened) = client.download r path in
      elim opened [
        | inl err ↦ fail_edit w r1 (Code.operation_failed, some err)
        | inr reader ↦ elim (read_content reader) [
          | inl failure ↦ fail_edit w r1 failure
          | inr content ↦ (record w { remote = r1 }, inr (content, meta_from info))
        ]
      ]

  unfoldable pub read_file : Conn R → Bytes → Conn R × (Code ⊎ (Bytes × FileMeta))
  read_file w path =
      let (r, stat) = stat_for_version w.remote path in
      if path == []
      then (w, inl Code.bad_request)
      else if not (is_editable_extension cfg (trim_dot (path_ext path)))
      then (w, inl Code.editor_disabled)
      else read_versioned w path r stat

  abbrev pub answer_meta : Conn R → R → GoError ⊎ Option FileInfo → Conn R × (Code ⊎ FileMeta)
  answer_meta w r (inl err) = fail_edit w r (Code.operation_failed, some err)
  answer_meta w r (inr info) = (record w { remote = r }, inr (meta_from info))

  -- The upload, and the Stat behind it.
  unfoldable pub save : Conn R → R → WriteRequest → Conn R × (Code ⊎ FileMeta)
  save w r req =
      let (r1, failure) =
        client.upload r req.path
          (record { content = req.content; read_failed = false; close_failed = false }) in
      let (r2, stat) = stat_for_version r1 req.path in
      elim failure [
        | some err ↦ fail_edit w r1 (Code.operation_failed, some err)
        | none ↦ answer_meta w r2 stat
      ]

  -- The precondition of the save.
  unfoldable pub write_checked : Conn R → WriteRequest → Conn R × (Code ⊎ FileMeta)
  write_checked w req =
      let (r, stat) = stat_for_version w.remote req.path in
      if req.overwrite then save w w.remote req else elim req.expected_version [
        | none ↦ (w, inl Code.bad_request)
        | some expected ↦ elim (check_version expected stat) [
          | inl failure ↦ fail_edit w r failure
          | inr go ↦ save w r req
        ]
      ]

  unfoldable pub write_file : Conn R → WriteRequest → Conn R × (Code ⊎ FileMeta)
  write_file w req =
      if cfg.view_only
      then (w, inl Code.editor_disabled)
      else if req.path == []
      then (w, inl Code.bad_request)
      else if not (is_editable_extension cfg (trim_dot (path_ext req.path)))
      then (w, inl Code.editor_disabled)
      else if ltb max_read_size (length req.content)
      then (w, inl Code.file_too_large)
      else write_checked w req
