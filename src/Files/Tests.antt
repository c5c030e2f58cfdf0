-- ===== src/Files/Tests.antt =====
-- Runs of the file handlers, on a server that logs what it is told to write or delete.
use goblin_ftp.Base.{
  ◌≡◌, refl, false, if◌then◌else◌, List, [], ◌∷◌, Bytes, bytes_has_eq, ◌==◌, codes, none, some, inr,
  All,
}
use goblin_ftp.Base.Ints.{pos}
use goblin_ftp.Errors.Chain.{
  GoError, sentinel, Sentinel, other, is, deepest_message, as_kind, contains, has_substring,
}
use goblin_ftp.Errors.Classify.{classify, is_conn_lost}
use goblin_ftp.Auth.Store.{empty_session}
use goblin_ftp.Text.{
  is_abs, split, contains_control, has_prefix, clean, render, or_dot, join, segments, resolve_all,
  resolve,
}
use goblin_ftp.Text.Clean.{IsRooted}
use goblin_ftp.Paths.{
  windows_paths, validate_remote_path, any_ambiguous, is_ambiguous, has_drive_prefix,
}
use goblin_ftp.Paths.Join.{IsBelow}
use goblin_ftp.Remote.{FileInfo, found, Client, Conn}
use goblin_ftp.Files.{DeleteResult, all_valid, delete_each, delete_files}
use goblin_ftp.Files.Tree.{Host, copy_tree}
use goblin_ftp.Files.Delete.{Deletes, delete_files-Deletes}
use goblin_ftp.Files.Copy.{Keeps, copy_tree_keeps}

abbrev denied : GoError
denied = sentinel Sentinel.permission_denied other (codes "550 denied")

abbrev file : Bytes → FileInfo
file name = record { name = name; size = pos 3; is_dir = false; mod_time = pos 0 }

abbrev logger : Client (List Bytes)
logger = record {
  list = λ r p. (r, inr []);
  stat = λ r p. (r, found (file p));
  make_dir = λ r p. (p ∷ r, none);
  delete = λ r p. (p ∷ r, if p == codes "/x" then some denied else none);
  rename = λ r p q. (r, none);
  chmod = λ r p mode. (r, none);
  download =
      λ r p. (r, inr (record { content = codes "abc"; read_failed = false; close_failed = false }));
  upload = λ r p reader. (p ∷ r, none);
}

abbrev keep_case : Bytes → Bytes
keep_case p = p

abbrev conn : Conn (List Bytes)
conn = record { session = empty_session; remote = [] }

abbrev report : DeleteResult
report = record {
  deleted = codes "/a" ∷ [];
  failures = (codes "/x", classify keep_case (some denied)) ∷ [];
}

ran :
    delete_files logger keep_case (some (codes "sftp")) conn (codes "/a" ∷ codes "/x" ∷ [])
    ≡ (record conn { remote = codes "/x" ∷ codes "/a" ∷ [] }, inr report)
unfolding delete_files all_valid windows_paths validate_remote_path delete_each is_conn_lost is
    contains_control has_prefix is_abs split any_ambiguous is_ambiguous clean render or_dot join
    segments resolve_all resolve as_kind contains has_substring deepest_message has_drive_prefix
ran = refl

delete_files-Deletes_example :
    Deletes logger keep_case
      (windows_paths (some (codes "sftp")))
      []
      (codes "/a" ∷ codes "/x" ∷ [])
      (codes "/a" ∷ [])
      ((codes "/x", classify keep_case (some denied)) ∷ [])
      (codes "/x" ∷ codes "/a" ∷ [])
delete_files-Deletes_example =
    delete_files-Deletes logger keep_case (some (codes "sftp")) conn
      (record conn { remote = codes "/x" ∷ codes "/a" ∷ [] }) (codes "/a" ∷ codes "/x" ∷ []) report
      ran

abbrev host : Host
host = record {
  cancelled = λ left. none;
  create = none;
  write = λ content. none;
  rewind = none;
  read_error = denied;
  close_error = denied;
  join = λ a b. a;
}

rooted : IsRooted (codes "/d")
rooted = record {
  absolute = unfold is_abs in refl;
  no_parent = unfold split in ((λ q. cc), ((λ q. cc), tt));
}

logger-Keeps : Keeps logger (codes "/d") (All (IsBelow (codes "/d")))
logger-Keeps = record {
  stat_keeps = λ r p h. h;
  list_keeps = λ r p h. h;
  download_keeps = λ r p h. h;
  make_dir_keeps = λ r p below h. (below, h);
  upload_keeps = λ r p reader below h. (below, h);
}

copy_tree_keeps_example :
    All (IsBelow (codes "/d")) (copy_tree logger host [] (codes "/s") (codes "/d")).0
copy_tree_keeps_example =
    copy_tree_keeps logger (codes "/d") (All (IsBelow (codes "/d"))) logger-Keeps host []
      (codes "/s") rooted tt
