-- ===== src/Archive/Handler.antt =====
-- backend/internal/api/archive.go: ExtractArchive, from the point at which the transfer lock is
-- held, on a session with a client.
use goblin_ftp.Base.{
  ℕ, Bool, true, not, ◌||◌, List, [], ◌∷◌, Bytes, bytes_has_eq, ◌==◌, ltb, if◌then◌else◌, Option,
  none, some, ◌⊎◌, inl, inr, codes,
}
use goblin_ftp.Errors.{Code}
use goblin_ftp.Errors.Chain.{GoError}
use goblin_ftp.Paths.{valid_path}
use goblin_ftp.Remote.{Client, Conn, fail_conn}
use goblin_ftp.Archive.Preflight.{preflight_zip}
use goblin_ftp.Archive.{
  max_zip_size, archive_error, ZipEntry, TarStep, SkippedEntry, Progress, begin, extract_zip,
  extract_tar,
}

-- The uploaded file: `zip` and `steps` are what the readers of its format give, `gzip` whether
-- gzip.NewReader accepts it.
pub record ArchiveFile : Type 0 where
  pub filename : Bytes
  pub size : ℕ
  pub content : Bytes
  pub zip : Option (List ZipEntry)
  pub gzip : Bool
  pub steps : List TarStep
  pub last : Option GoError

-- strings.HasSuffix
unfoldable pub has_suffix : Bytes → Bytes → Bool
has_suffix suffix [] = suffix == []
has_suffix suffix (c ∷ s) = (c ∷ s) == suffix || has_suffix suffix s

module _ {R : Type 0} (client : Client R) (to_lower : Bytes → Bytes) where
  unfoldable pub fail_archive : Conn R → GoError → Conn R × (Code ⊎ (ℕ × List SkippedEntry))
  fail_archive w err = elim (archive_error err) [
    | some code ↦ (w, inl code)
    | none ↦ fail_conn to_lower w Code.operation_failed err
  ]

  unfoldable pub answer :
      Conn R → Progress R × Option GoError → Conn R × (Code ⊎ (ℕ × List SkippedEntry))
  answer w (done, none) = (record w { remote = done.remote }, inr (done.written, done.skipped))
  answer w (done, some err) = fail_archive (record w { remote = done.remote }) err

  unfoldable pub extract_by_name :
      Conn R → Bytes → ArchiveFile → Conn R × (Code ⊎ (ℕ × List SkippedEntry))
  extract_by_name w destination f =
      let filename = to_lower f.filename in
      let from_tar = answer w (extract_tar client destination (begin w.remote) f.steps f.last) in
      if has_suffix (codes ".zip") filename
      then (if ltb max_zip_size f.size
          then (w, inl Code.bad_request)
          else if not (preflight_zip f.content f.size)
          then (w, inl Code.archive_format)
          else (elim f.zip [
            | none ↦ (w, inl Code.archive_format)
            | some entries ↦ answer w (extract_zip client destination (begin w.remote) entries)
          ]))
      else if has_suffix (codes ".tar.gz") filename || has_suffix (codes ".tgz") filename
      then (if f.gzip then from_tar else (w, inl Code.archive_format))
      else if has_suffix (codes ".tar.bz2") filename
      then from_tar
      else if has_suffix (codes ".tar") filename
      then from_tar
      else (w, inl Code.archive_format)

  -- `upload` is none where FormFile fails, and `some none` where the file cannot be opened.
  unfoldable pub extract_archive :
      Option Bytes
      → Conn R
      → Bytes
      → Option (Option ArchiveFile)
      → Conn R × (Code ⊎ (ℕ × List SkippedEntry))
  extract_archive protocol w destination upload =
      if not (valid_path protocol destination true)
      then (w, inl Code.bad_request)
      else (elim upload [
        | none ↦ (w, inl Code.bad_request)
        | some file ↦ elim file [
          | none ↦ (w, inl Code.internal)
          | some f ↦ extract_by_name w destination f
        ]
      ])
