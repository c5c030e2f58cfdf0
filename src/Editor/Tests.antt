-- ===== src/Editor/Tests.antt =====
-- Runs of the editor on a server that holds one file.
use goblin_ftp.Base.{
  ℕ, ◌≡◌, refl, subst, false, [], ◌∷◌, Bytes, bytes_has_eq, ◌==◌, codes, none, some, inl, inr,
  arith,
}
use goblin_ftp.Base.Ints.{pos}
use goblin_ftp.Text.{contains}
use goblin_ftp.Text.Decimal.{format_int, itoa, digits}
use goblin_ftp.Errors.{Code}
use goblin_ftp.Errors.Chain.{leaf, other}
use goblin_ftp.Remote.{FileInfo, found, Client, Conn}
use goblin_ftp.Auth.Store.{empty_session}
use goblin_ftp.Editor.{
  Settings, WriteRequest, file_version, check_version, version_stat, stat_for_version, path_ext,
  is_editable_extension, any_equal_fold, meta_from, save, write_checked, write_file,
}
use goblin_ftp.Editor.Versions.{HasRange, IsUnsaved, write_file-IsUnchanged, write_file-IsUnsaved}

abbrev info : FileInfo
info = record { name = codes "a.txt"; size = pos 3; is_dir = false; mod_time = pos 7 }

-- The state is the content of the file.
abbrev server : Client Bytes
server = record {
  list = λ r p. (r, inr []);
  stat = λ r p. (r, found info);
  make_dir = λ r p. (r, none);
  delete = λ r p. (r, none);
  rename = λ r p q. (r, none);
  chmod = λ r p m. (r, none);
  download = λ r p. (r, inr (record { content = r; read_failed = false; close_failed = false }));
  upload = λ r p reader. (reader.content, none);
}

abbrev cfg : Settings
cfg = record {
  disabled = false;
  view_only = false;
  allowed_extensions = codes "txt" ∷ [];
  equal_fold = λ a b. a == b;
  to_lower = λ s. s;
  read_error = leaf other [];
  close_error = leaf other [];
}

abbrev before : Conn Bytes
before = record { session = empty_session; remote = codes "old" }

abbrev request : Bytes → WriteRequest
request version = record {
  path = codes "/d.x/a.txt";
  content = codes "new";
  expected_version = some version;
  overwrite = false;
}

saved :
    (write_file server cfg before (request (file_version info))).1
    ≡ inr (some (file_version info, pos 3))
unfolding write_file write_checked save stat_for_version check_version file_version format_int itoa
    digits is_editable_extension any_equal_fold path_ext contains meta_from
saved = refl

stale : check_version (codes "3:6") (version_stat (found info)) ≡ inl (Code.file_modified, none)
unfolding check_version file_version format_int itoa digits
stale = refl

write_file-IsUnchanged_example :
    (fi : FileInfo) × (found info ≡ found fi) × ((fi.size ≡ pos 3) × (fi.mod_time ≡ pos 7))
write_file-IsUnchanged_example =
    write_file-IsUnchanged server cfg before (request (file_version info)) info
      (some (file_version info, pos 3)) in_range (omega arith, omega arith) refl refl saved
  where
    found_injective : {a b : FileInfo} → found a ≡ found b → a ≡ b
    found_injective e = cc

    in_range : (fi : FileInfo) → found info ≡ found fi → HasRange fi
    in_range fi e = subst HasRange (found_injective e) (omega arith, omega arith)

-- The file that was opened was of the same size, and older.
abbrev older : FileInfo
older = record info { mod_time = pos 6 }

write_file-IsUnsaved_example :
    IsUnsaved server cfg before
      (codes "/d.x/a.txt")
      (write_file server cfg before (request (file_version older)))
write_file-IsUnsaved_example =
    write_file-IsUnsaved server cfg before (request (file_version older)) older
      (omega arith, omega arith) ((omega arith, omega arith), λ e. later e.1) refl refl
  where
    pos_injective : {a b : ℕ} → pos a ≡ pos b → a ≡ b
    pos_injective e = cc

    later : pos 7 ≡ pos 6 → ⊥
    later e = absurd (omega (arith, pos_injective e))
