-- ===== src/Archive.antt =====
-- backend/internal/api/archive.go: extraction of an uploaded archive. An archive is the sequence of
-- what its reader gives; a poll of the request's context, and what reading an entry gives, are part
-- of the sequence. The client reads a stream to its end or to its error.
pub mod Preflight
pub mod Handler
pub mod Within
pub mod Extract
mod Tests
use goblin_ftp.Base.{
  ℕ, suc, ◌+◌, ◌-◌, Bool, true, false, not, ◌&&◌, ◌||◌, List, [], ◌∷◌, ◌++◌, Bytes, bytes_has_eq,
  ◌==◌, ltb, leb, if◌then◌else◌, Option, none, some, ◌⊎◌, inl, inr, length, codes,
}
use goblin_ftp.Text.{path_dir}
use goblin_ftp.Text.Slice.{take}
use goblin_ftp.Errors.{Code}
use goblin_ftp.Errors.Chain.{Sentinel, GoError, sentinel, other, pair, is, sentinel_text}
use goblin_ftp.Paths.{JoinResult, joined, escapes, safe_join, valid_path}
use goblin_ftp.Remote.{Client, Reader, Conn, ensure_dir_all, fail_conn}

abbrev pub max_zip_size : ℕ
max_zip_size = 536870912

abbrev pub max_archive_entries : ℕ
max_archive_entries = 10000

abbrev pub error_of : Sentinel → GoError
error_of s = sentinel s other (sentinel_text s)

unfoldable pub archive_error : GoError → Option Code
archive_error err =
    if is err Sentinel.archive_corrupt
    then some Code.archive_format
    else if is err Sentinel.archive_escape
    then some Code.archive_format
    else if is err Sentinel.archive_too_large
    then some Code.file_too_large
    else if is err Sentinel.tree_too_deep
    then some Code.bad_request
    else none

unfoldable pub tag_corrupt : GoError → GoError
tag_corrupt err =
    if is err Sentinel.archive_too_large || is err Sentinel.archive_corrupt
    then err
    else if is err Sentinel.unexpected_eof || is err Sentinel.bad_archive
    then pair Sentinel.archive_corrupt err
    else err

pub record ExtractBudget : Type 0 where
  pub remaining : ℕ
  pub entries : ℕ

abbrev pub new_extract_budget : ExtractBudget
new_extract_budget = record { remaining = max_zip_size; entries = 0 }

-- `cancelled` is what ctx.Err() says.
unfoldable pub next : ExtractBudget → Option GoError → ExtractBudget × Option GoError
next b (some err) = (b, some err)
next b none = (
  record b { entries = suc b.entries },
  if ltb max_archive_entries (suc b.entries)
      then some (error_of Sentinel.archive_corrupt)
      else none,
)

-- The decompressed stream of an entry. `ends_at_once` says that its last bytes come together with
-- io.EOF, and not before it.
pub record Stream : Type 0 where
  pub bytes : Bytes
  pub fails : Bool
  pub ends_at_once : Bool

-- What budgetReader gives of a stream: once the budget is used up, the next Read fails.
unfoldable pub budget_reader : ℕ → Stream → Reader
budget_reader remaining s =
    if ltb (length s.bytes) remaining
      || (leb (length s.bytes) remaining && leb 1 remaining && s.ends_at_once)
    then record { content = s.bytes; read_failed = s.fails; close_failed = false }
    else record { content = take remaining s.bytes; read_failed = true; close_failed = false }

unfoldable pub consume : ExtractBudget → Stream → ExtractBudget
consume b s = record b { remaining = b.remaining - length (budget_reader b.remaining s).content }

pub record ZipEntry : Type 0 where
  pub cancelled : Option GoError
  pub name : Bytes
  pub uncompressed_size : ℕ
  pub is_dir : Bool
  pub is_regular : Bool
  pub opened : GoError ⊎ Stream

pub data TypeFlag : Type 0 where
  dir reg x_header x_global_header symlink link char block fifo unknown_type : TypeFlag

pub record TarHeader : Type 0 where
  pub name : Bytes
  pub typeflag : TypeFlag
  pub size : ℕ
  pub stream : Stream

pub record TarStep : Type 0 where
  pub cancelled : Option GoError
  pub header : GoError ⊎ TarHeader

unfoldable pub tar_type_name : TypeFlag → Bytes
tar_type_name symlink = codes "symlink"
tar_type_name link = codes "hard link"
tar_type_name char = codes "device node"
tar_type_name block = codes "device node"
tar_type_name fifo = codes "fifo"
tar_type_name _ = codes "unsupported entry type"

pub record SkippedEntry : Type 0 where
  pub name : Bytes
  pub reason : Bytes

-- How far an extraction has come.
pub record Progress (R : Type 0) : Type 0 where
  pub remote : R
  pub budget : ExtractBudget
  pub written : ℕ
  pub skipped : List SkippedEntry

abbrev pub begin : {R : Type 0} → R → Progress R
begin r = record { remote = r; budget = new_extract_budget; written = 0; skipped = [] }

module _ {R : Type 0} (client : Client R) where
  unfoldable pub skip : Progress R → Bytes → Bytes → Progress R
  skip w name reason = record w {
    skipped = w.skipped ++ (record { name = name; reason = reason } ∷ []);
  }

  unfoldable pub make_directory : Progress R → Bytes → Progress R × Option GoError
  make_directory w p =
      let (remote, err) = ensure_dir_all client w.remote p in (record w { remote = remote }, err)

  unfoldable pub upload_stream : Progress R → Bytes → Stream → Progress R × Option GoError
  upload_stream w out_path s =
      let (remote, failure) =
        client.upload w.remote out_path (budget_reader w.budget.remaining s) in
      let w' = record w { remote = remote; budget = consume w.budget s } in
      elim failure [
        | some err ↦ (w', some err)
        | none ↦ (record w' { written = suc w'.written }, none)
      ]

  unfoldable pub upload_opened : Progress R → Bytes → GoError ⊎ Stream → Progress R × Option GoError
  upload_opened w out_path (inl err) = (w, some (tag_corrupt err))
  upload_opened w out_path (inr s) = upload_stream w out_path s

  -- ensureDirAll of the parent, then the upload; `opened` is what opening the entry gives.
  unfoldable pub write_file : Progress R → Bytes → GoError ⊎ Stream → Progress R × Option GoError
  write_file w out_path opened =
      let (w1, no_parent) = make_directory w (path_dir out_path) in
      elim no_parent [ some err ↦ (w1, some err) | none ↦ upload_opened w1 out_path opened ]

  unfoldable pub extract_zip_entry : Bytes → Progress R → ZipEntry → Progress R × Option GoError
  extract_zip_entry destination w entry = elim (safe_join destination entry.name) [
    | escapes ↦ (w, some (error_of Sentinel.archive_escape))
    | joined out_path ↦
        if ltb w.budget.remaining entry.uncompressed_size
        then (w, some (error_of Sentinel.archive_too_large))
        else if entry.is_dir
        then make_directory w out_path
        else if not entry.is_regular
        then (skip w entry.name (codes "not a regular file"), none)
        else write_file w out_path entry.opened
  ]

  unfoldable pub extract_zip : Bytes → Progress R → List ZipEntry → Progress R × Option GoError
  extract_zip destination w [] = (w, none)
  extract_zip destination w (entry ∷ entries) =
      let (budget, stop) = next w.budget entry.cancelled in
      let w1 = record w { budget = budget } in
      let (w2, failure) = extract_zip_entry destination w1 entry in
      elim stop [
        | some err ↦ (w1, some err)
        | none ↦ elim failure [
          | some err ↦ (w2, some err)
          | none ↦ extract_zip destination w2 entries
        ]
      ]

  -- The switch on the type of the entry.
  unfoldable pub extract_as :
      TypeFlag → Progress R → TarHeader → Bytes → Progress R × Option GoError
  extract_as dir w hdr out_path = make_directory w out_path
  extract_as reg w hdr out_path =
      if ltb w.budget.remaining hdr.size
      then (w, some (error_of Sentinel.archive_too_large))
      else write_file w out_path (inr hdr.stream)
  extract_as x_header w hdr out_path = (w, none)
  extract_as x_global_header w hdr out_path = (w, none)
  extract_as type w hdr out_path = (skip w hdr.name (tar_type_name type), none)

  unfoldable pub extract_tar_entry : Bytes → Progress R → TarHeader → Progress R × Option GoError
  extract_tar_entry destination w hdr = elim (safe_join destination hdr.name) [
    | escapes ↦ (w, some (error_of Sentinel.archive_escape))
    | joined out_path ↦ extract_as hdr.typeflag w hdr out_path
  ]

  unfoldable pub extract_header :
      Bytes → Progress R → GoError ⊎ TarHeader → Progress R × Option GoError
  extract_header destination w (inl err) = (w, some (tag_corrupt err))
  extract_header destination w (inr hdr) = extract_tar_entry destination w hdr

  -- `last` is the poll of the context before the end of the archive is found.
  unfoldable pub extract_tar :
      Bytes → Progress R → List TarStep → Option GoError → Progress R × Option GoError
  extract_tar destination w [] last =
      let (budget, stop) = next w.budget last in (record w { budget = budget }, stop)
  extract_tar destination w (step ∷ steps) last =
      let (budget, stop) = next w.budget step.cancelled in
      let w1 = record w { budget = budget } in
      let (w2, failure) = extract_header destination w1 step.header in
      elim stop [
        | some err ↦ (w1, some err)
        | none ↦ elim failure [
          | some err ↦ (w2, some err)
          | none ↦ extract_tar destination w2 steps last
        ]
      ]
