-- ===== src/Archive/Extract.antt =====
-- What an extraction of backend/internal/api/archive.go does to the server: it looks, makes
-- directories, and uploads within its budget to paths below the destination.
use goblin_ftp.Base.{
  ℕ, suc, ◌≤◌, refl, List, [], ◌∷◌, Bytes, Option, ◌⊎◌, inl, inr, arith, Option-cases, ltb, not,
  codes,
}
use goblin_ftp.Errors.Chain.{GoError}
use goblin_ftp.Text.Clean.{IsRooted}
use goblin_ftp.Paths.{safe_join}
use goblin_ftp.Paths.Join.{IsBelow}
use goblin_ftp.Remote.{Client}
use goblin_ftp.Archive.{
  begin, next, ZipEntry, TarHeader, TarStep, Progress, max_archive_entries, dir, reg, x_header,
  x_global_header, symlink, link, char, block, fifo, unknown_type, extract_zip_entry, extract_zip,
  extract_as, extract_tar_entry, extract_header, extract_tar, TypeFlag,
}
-- A path whose segments are those of the directory, followed by more.
use goblin_ftp.Archive.Within.{
  Allows, Within, join-cases, Within-weaken, make_directory-Within, write_file-Within,
  entry-IsBelow, if_Within, skip-Within, next-Within, Bounded, stopped,
}

module _ {R : Type 0} (client : Client R) (destination : Bytes) (I : ℕ → ℕ → R → Type 0)
    (allows : Allows client destination I) (rooted : IsRooted destination) where
  extract_zip_entry-Within :
      (most e : ℕ) (w : Progress R) (entry : ZipEntry)
      → Within client destination I allows rooted most e w
      → Within client destination I allows rooted
          (suc most)
          e
          (extract_zip_entry client destination w entry).0
  unfolding extract_zip_entry
  extract_zip_entry-Within most e w entry h =
      let same =
        Within-weaken client destination I allows rooted most (suc most) e w (omega arith) h in
      elim (join-cases (safe_join destination entry.name)) [
        | inl n ↦ rw (extract_zip_entry, n) same
        | inr (p, n) ↦
            rw (extract_zip_entry, n)
              (if_Within client destination I allows rooted (suc most) e
                (ltb w.budget.remaining entry.uncompressed_size) _ _ same
                (if_Within client destination I allows rooted (suc most) e entry.is_dir _ _
                  (make_directory-Within client destination I allows rooted (suc most) e w p same)
                  (if_Within client destination I allows rooted (suc most) e (not entry.is_regular)
                    _ _
                    (skip-Within client destination I allows rooted (suc most) e w entry.name
                      (codes "not a regular file") same)
                    (write_file-Within client destination I allows rooted most e w p entry.opened
                      (entry-IsBelow client destination I allows rooted entry.name p n) h))))
      ]

  extract_zip-Within :
      (e : ℕ) (w : Progress R) (entries : List ZipEntry)
      → e ≤ max_archive_entries
      → Within client destination I allows rooted e e w
      → Bounded client destination I allows rooted (extract_zip client destination w entries).0
  unfolding extract_zip
  extract_zip-Within e w [] le h =
      (e, Within-weaken client destination I allows rooted e max_archive_entries e w le h)
  extract_zip-Within e w (entry ∷ entries) le h =
      elim (Option-cases (next w.budget entry.cancelled).1) [
        | inr (err, s) ↦
            rw (extract_zip, s)
              (stopped client destination I allows rooted e w entry.cancelled le h)
        | inl s ↦
            let (k, room) =
              next-Within client destination I allows rooted e w entry.cancelled s h in
            let done = extract_zip_entry-Within e (suc e) _ entry k in
            elim (Option-cases
              (extract_zip_entry client destination
                (record w { budget = (next w.budget entry.cancelled).0 }) entry).1) [
                  | inl f ↦ rw (extract_zip, s, f) (extract_zip-Within (suc e) _ entries room done)
                  | inr (err, f) ↦
                      rw (extract_zip, s, f)
                        (
                          suc e,
                          Within-weaken client destination I allows rooted (suc e)
                              max_archive_entries (suc e) _ room done,
                        )
                ]
      ]

  extract_as-Within :
      (most e : ℕ) (t : TypeFlag) (w : Progress R) (hdr : TarHeader) (p : Bytes)
      → IsBelow destination p
      → Within client destination I allows rooted most e w
      → Within client destination I allows rooted (suc most) e (extract_as client t w hdr p).0
  unfolding extract_as
  extract_as-Within most e t w hdr p below h =
      let same =
        Within-weaken client destination I allows rooted most (suc most) e w (omega arith) h in
      elim t
        as (λ t.
          Within client destination I allows rooted (suc most) e (extract_as client t w hdr p).0) [
            | dir ↦ make_directory-Within client destination I allows rooted (suc most) e w p same
            | reg ↦
                if_Within client destination I allows rooted (suc most) e
                  (ltb w.budget.remaining hdr.size) _ _ same
                  (write_file-Within client destination I allows rooted most e w p (inr hdr.stream)
                    below h)
            | x_header ↦ same
            | x_global_header ↦ same
            | symlink ↦
                skip-Within client destination I allows rooted (suc most) e w hdr.name _ same
            | link ↦ skip-Within client destination I allows rooted (suc most) e w hdr.name _ same
            | char ↦ skip-Within client destination I allows rooted (suc most) e w hdr.name _ same
            | block ↦ skip-Within client destination I allows rooted (suc most) e w hdr.name _ same
            | fifo ↦ skip-Within client destination I allows rooted (suc most) e w hdr.name _ same
            | unknown_type ↦
                skip-Within client destination I allows rooted (suc most) e w hdr.name _ same
          ]

  extract_header-Within :
      (most e : ℕ) (w : Progress R) (header : GoError ⊎ TarHeader)
      → Within client destination I allows rooted most e w
      → Within client destination I allows rooted
          (suc most)
          e
          (extract_header client destination w header).0
  unfolding extract_header extract_tar_entry
  extract_header-Within most e w (inl err) h =
      Within-weaken client destination I allows rooted most (suc most) e w (omega arith) h
  extract_header-Within most e w (inr hdr) h = elim (join-cases (safe_join destination hdr.name)) [
    | inl n ↦
        rw (extract_header, extract_tar_entry, n)
          (Within-weaken client destination I allows rooted most (suc most) e w (omega arith) h)
    | inr (p, n) ↦
        rw (extract_header, extract_tar_entry, n)
          (extract_as-Within most e hdr.typeflag w hdr p
            (entry-IsBelow client destination I allows rooted hdr.name p n) h)
  ]

  extract_tar-Within :
      (e : ℕ) (w : Progress R) (steps : List TarStep) (last : Option GoError)
      → e ≤ max_archive_entries
      → Within client destination I allows rooted e e w
      → Bounded client destination I allows rooted (extract_tar client destination w steps last).0
  unfolding extract_tar
  extract_tar-Within e w [] last le h = stopped client destination I allows rooted e w last le h
  extract_tar-Within e w (step ∷ steps) last le h =
      elim (Option-cases (next w.budget step.cancelled).1) [
        | inr (err, s) ↦
            rw (extract_tar, s) (stopped client destination I allows rooted e w step.cancelled le h)
        | inl s ↦
            let (k, room) = next-Within client destination I allows rooted e w step.cancelled s h in
            let done = extract_header-Within e (suc e) _ step.header k in
            elim (Option-cases
              (extract_header client destination
                (record w { budget = (next w.budget step.cancelled).0 }) step.header).1) [
                  | inl f ↦
                      rw (extract_tar, s, f) (extract_tar-Within (suc e) _ steps last room done)
                  | inr (err, f) ↦
                      rw (extract_tar, s, f)
                        (
                          suc e,
                          Within-weaken client destination I allows rooted (suc e)
                              max_archive_entries (suc e) _ room done,
                        )
                ]
      ]

  -- What is true of a server after so many files and bytes were sent, for some number of files and
  -- bytes within the limits of an extraction.
  pub record IsBounded (r : R) : Type 0 where
    pub files : ℕ
    pub bytes : ℕ
    pub holds : I files bytes r
    pub few : files ≤ 10000
    pub small : bytes ≤ 536870912

  bounded : (w : Progress R) → Bounded client destination I allows rooted w → IsBounded w.remote
  bounded w (n, h) = record {
    files = h.files;
    bytes = h.bytes;
    holds = h.holds;
    few = h.few;
    small = omega (arith, h.spent);
  }

  -- An extraction from a fresh budget, of a zip or of a tar archive, changes the server only by
  -- Stat, MakeDir and at most 10000 uploads, of at most 512 MiB together, to paths at or below the
  -- rooted destination: whatever these keep and count, holds after it, whether or not it fails.
  pub extract_below :
      (r : R) (entries : List ZipEntry) (steps : List TarStep) (last : Option GoError)
      → I 0 0 r
      → IsBounded (extract_zip client destination (begin r) entries).0.remote
        × IsBounded (extract_tar client destination (begin r) steps last).0.remote
  extract_below r entries steps last h =
      let h0 : Within client destination I allows rooted 0 0 (begin r) = record {
        files = 0;
        bytes = 0;
        holds = h;
        spent = refl;
        few = omega arith;
        counted = refl;
      } in
      (
        bounded _ (extract_zip-Within 0 (begin r) entries (omega arith) h0),
        bounded _ (extract_tar-Within 0 (begin r) steps last (omega arith) h0),
      )
